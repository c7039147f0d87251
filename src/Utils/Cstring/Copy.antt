-- ===== src/Utils/Cstring/Copy.antt =====
-- What `strncpy` leaves.
use bolgenos_ng.Base.{
  ℕ, zero, suc, ◌+◌, ◌≤◌, ◌<◌, ◌≡◌, ◌≢◌, refl, sym, ◌∙◌, ap, false, some, List, [], ◌∷◌, ◌⊎◌, inl,
  inr, arith, ◌==◌, length, get_or,
}
use bolgenos_ng.Memory.Machine.{ok, ◌>>=◌, Returns, Returns-mono}
use bolgenos_ng.Utils.Cstring.{Bytes, read, update, write, pad, copy, strncpy}

-- The string at `a` is `xs`, up to its final zero.
abbrev pub IsString : Bytes → (a : ℕ) → List ℕ → Type 0
IsString m a [] = m a ≡ some 0
IsString m a (x ∷ xs) = (x ≢ 0) × (m a ≡ some x) × IsString m (a + 1) xs

-- There are `n` bytes at `a`.
abbrev pub IsArea : Bytes → (a n : ℕ) → Type 0
IsArea m a zero = Unit {0}
IsArea m a (suc n) = ((c : ℕ) × (m a ≡ some c)) × IsArea m (a + 1) n

-- The `n` bytes at `dest` are those of `xs` and then zeroes, and the others are as they were.
pub record Copied (m : Bytes) (dest n : ℕ) (xs : List ℕ) (m' : Bytes) : Type 0 where
  pub copied : (i : ℕ) → i < n → m' (dest + i) ≡ some (get_or xs i 0)
  pub kept : (a : ℕ) → (a < dest) ⊎ (dest + n ≤ a) → m' a ≡ m a

update_self : (m : Bytes) (a c : ℕ) → update m a c a ≡ some c
unfolding update
update_self m a c = ground arith

update_ne : (m : Bytes) (a c b : ℕ) → b ≢ a → update m a c b ≡ m b
unfolding update
update_ne m a c b ne = ground arith

write_lem : (m : Bytes) (a c old : ℕ) → m a ≡ some old → write m a c ≡ ok (update m a c)
unfolding write
write_lem m a c old e = rw (e, write) refl

read_lem : (m : Bytes) (a c : ℕ) → m a ≡ some c → read m a ≡ ok c
unfolding read
read_lem m a c e = rw (e, read) refl

IsArea-update : (m : Bytes) (b c a n : ℕ) → b < a → IsArea m a n → IsArea (update m b c) a n
IsArea-update m b c a zero less h = tt
IsArea-update m b c a (suc n) less ((old, e), h) = (
  (old, update_ne m b c a (λ same. omega arith) ∙ e),
  IsArea-update m b c (a + 1) n (omega arith) h,
)

IsString-update :
    (m : Bytes) (b c a : ℕ) (xs : List ℕ)
    → (b < a) ⊎ (a + length xs < b)
    → IsString m a xs
    → IsString (update m b c) a xs
IsString-update m b c a [] away h = update_ne m b c a (λ same. ground arith) ∙ h
IsString-update m b c a (x ∷ xs) away (some_x, e, h) = (
  some_x,
  update_ne m b c a (λ same. ground arith) ∙ e,
  IsString-update m b c (a + 1) xs
      (elim away [ inl low ↦ inl (omega arith) | inr high ↦ inr (omega arith) ]) h,
)

-- One byte more at the front.
Copied-step :
    (m : Bytes) (dest n c : ℕ) (xs ys : List ℕ) (m' : Bytes)
    → get_or ys 0 0 ≡ c
    → ((i : ℕ) → get_or ys (suc i) 0 ≡ get_or xs i 0)
    → Copied (update m dest c) (dest + 1) n xs m'
    → Copied m dest (suc n) ys m'
Copied-step m dest n c xs ys m' start later r = record {
  copied = first;
  kept = λ a away.
      r.kept a (elim away [ inl low ↦ inl (omega arith) | inr high ↦ inr (omega arith) ])
      ∙ update_ne m dest c a (λ same. ground arith);
}
  where
    first : (i : ℕ) → i < suc n → m' (dest + i) ≡ some (get_or ys i 0)
    first zero less =
        let here : dest + 0 ≡ dest = omega arith in
        rw here (r.kept dest (inl (omega arith)) ∙ update_self m dest c) ∙ ap some (sym start)
    first (suc i) less =
        let there : dest + suc i ≡ dest + 1 + i = omega arith in
        rw there (r.copied i (omega arith)) ∙ ap some (sym (later i))

pad-Copied :
    (n : ℕ) (m : Bytes) (dest : ℕ) → IsArea m dest n → Returns (Copied m dest n []) (pad n m dest)
unfolding pad
pad-Copied zero m dest area = record {
  copied = λ i less. absurd (omega arith);
  kept = λ a away. refl;
}
pad-Copied (suc n) m dest ((old, e), area) = rw (write_lem m dest 0 old e) (
    Returns-mono (Copied (update m dest 0) (dest + 1) n []) (Copied m dest (suc n) []) _
      (pad-Copied n (update m dest 0) (dest + 1)
        (IsArea-update m dest 0 (dest + 1) n (omega arith) area))
      λ m' r. Copied-step m dest n 0 [] [] m' refl (λ i. refl) r)

copy-Copied :
    (n : ℕ) (m : Bytes) (dest src : ℕ) (xs : List ℕ)
    → IsArea m dest n
    → IsString m src xs
    → (dest + n ≤ src) ⊎ (src + length xs < dest)
    → Returns (Copied m dest n xs) (copy n m dest src)
unfolding copy
copy-Copied zero m dest src xs area str away = record {
  copied = λ i less. absurd (omega arith);
  kept = λ a away. refl;
}
copy-Copied (suc n) m dest src [] area str away =
    rw (read_lem m src 0 str) (pad-Copied (suc n) m dest area)
copy-Copied (suc n) m dest src (x ∷ xs) ((old, e), area) (some_x, e', str) away =
    let t : (x == 0) ≡ false = ground arith in
    rw (read_lem m src x e', ◌>>=◌, t, write_lem m dest x old e)
      (Returns-mono (Copied (update m dest x) (dest + 1) n xs) (Copied m dest (suc n) (x ∷ xs)) _
        (copy-Copied n (update m dest x) (dest + 1) (src + 1) xs
          (IsArea-update m dest x (dest + 1) n (omega arith) area)
          (IsString-update m dest x (src + 1) xs
            (elim away [ inl low ↦ inl (omega arith) | inr high ↦ inr (omega arith) ]) str)
          (elim away [ inl low ↦ inl (omega arith) | inr high ↦ inr (omega arith) ]))
        λ m' r. Copied-step m dest n x xs (x ∷ xs) m' refl (λ i. refl) r)

-- `strncpy` of a string to an area that does not overlap it returns: the bytes of the area are
-- those of the string, and zeroes behind it, and all others are as they were.
pub strncpy-Copied :
    (m : Bytes) (dest src n : ℕ) (xs : List ℕ)
    → IsArea m dest n
    → IsString m src xs
    → (dest + n ≤ src) ⊎ (src + length xs < dest)
    → Returns (Copied m dest n xs) (strncpy m dest src n)
unfolding strncpy
strncpy-Copied m dest src n xs area str away = copy-Copied n m dest src xs area str away
