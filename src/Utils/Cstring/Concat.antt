-- ===== src/Utils/Cstring/Concat.antt =====
-- The concatenation of strings writes behind its buffer.
use bolgenos_ng.Base.{
  ℕ, zero, suc, ◌+◌, ◌≡◌, refl, sym, subst, true, false, none, some, arith, ltb, ◌==◌, Bool-cases,
  inl, inr, ℕ_discrete,
}
use bolgenos_ng.Memory.Machine.{Run, ok, panicked, fault, out_of_fuel, ◌>>=◌}
use bolgenos_ng.Utils.Cstring.{
  Bytes, read, update, write, pad, copy, strncpy, CxxString, allocate, join,
}

-- A run that ends with memory without the byte `a`, or with a fault.
abbrev Lacks : (a : ℕ) → Run Bytes → Type 0
Lacks a (ok m) = m a ≡ none
Lacks a panicked = ⊥
Lacks a fault = Unit {0}
Lacks a out_of_fuel = ⊥

Lacks-bind :
    (a : ℕ) (r : Run Bytes) (k : Bytes → Run Bytes)
    → Lacks a r
    → ((m : Bytes) → m a ≡ none → Lacks a (k m))
    → Lacks a (r >>= k)
Lacks-bind a (ok m) k h next = next m h
Lacks-bind a panicked k h next = absurd h
Lacks-bind a fault k h next = tt
Lacks-bind a out_of_fuel k h next = absurd h

faults :
    (a : ℕ) (r : Run Bytes) (k : Bytes → Run Bytes)
    → Lacks a r
    → ((m : Bytes) → m a ≡ none → k m ≡ fault)
    → (r >>= k) ≡ fault
faults a (ok m) k h next = next m h
faults a panicked k h next = absurd h
faults a fault k h next = refl
faults a out_of_fuel k h next = absurd h

write-Lacks : (m : Bytes) (a b c : ℕ) → m a ≡ none → Lacks a (write m b c)
unfolding write update
write-Lacks m a b c lack =
    elim (m b)
        as (λ o. m b ≡ o → Lacks a (elim o [ none ↦ fault | some old ↦ ok (update m b c) ])) [
          | none ↦ λ e. tt
          | some old ↦ λ e. elim (ℕ_discrete a b) [
            | yes same ↦
                let at_b : m a ≡ some old = subst (λ d. m d ≡ some old) (sym same) e in absurd (cc)
            | no ne ↦ let t : (a == b) ≡ false = ground arith in rw t lack
          ]
        ]
      refl

pad-Lacks : (n : ℕ) (m : Bytes) (a dest : ℕ) → m a ≡ none → Lacks a (pad n m dest)
unfolding pad
pad-Lacks zero m a dest lack = lack
pad-Lacks (suc n) m a dest lack =
    Lacks-bind a (write m dest 0) _ (write-Lacks m a dest 0 lack)
      λ m' lack'. pad-Lacks n m' a (dest + 1) lack'

copy-Lacks : (n : ℕ) (m : Bytes) (a dest src : ℕ) → m a ≡ none → Lacks a (copy n m dest src)
unfolding copy read
copy-Lacks zero m a dest src lack = lack
copy-Lacks (suc n) m a dest src lack =
    elim (m src)
      as (λ o. Lacks a (
        elim o as (λ o. Run ℕ) [ none ↦ fault | some c ↦ ok c ] >>= λ c. elim (c == 0) [
          | true ↦ pad (suc n) m dest
          | false ↦ do m' ← write m dest c; copy n m' (dest + 1) (src + 1)
        ])) [
          | none ↦ tt
          | some c ↦ elim (Bool-cases (c == 0)) [
            | inl e ↦ rw (◌>>=◌, e) (pad-Lacks (suc n) m a dest lack)
            | inr e ↦
                rw (◌>>=◌, e)
                  (Lacks-bind a (write m dest c) _ (write-Lacks m a dest c lack)
                    λ m' lack'. copy-Lacks n m' a (dest + 1) (src + 1) lack')
          ]
        ]

-- The concatenation of two strings writes its final zero behind the buffer that it has allocated:
-- where no byte is allocated there, it faults, whatever the strings are.
pub join_fault :
    (m : Bytes) (contents : ℕ → ℕ) (tmp : ℕ) (lhs rhs : CxxString)
    → m (tmp + lhs.size + rhs.size + 1) ≡ none
    → join m contents tmp lhs rhs ≡ fault
unfolding join strncpy allocate write
join_fault m contents tmp lhs rhs free =
    let a = tmp + lhs.size + rhs.size + 1 in
    let outside : ltb a (tmp + (lhs.size + rhs.size + 1)) ≡ false = ground arith in
    let m0 = allocate m contents tmp (lhs.size + rhs.size + 1) in
    let lack : m0 a ≡ none = ground arith in
    faults a (copy lhs.size m0 tmp lhs.string) _ (copy-Lacks lhs.size m0 a tmp lhs.string lack)
      λ m1 lack1.
        faults a (copy rhs.size m1 (tmp + lhs.size) rhs.string) _
          (copy-Lacks rhs.size m1 a (tmp + lhs.size) rhs.string lack1)
          λ m2 lack2. rw (lack2, write) refl
