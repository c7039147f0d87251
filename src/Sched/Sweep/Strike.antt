-- ===== src/Sched/Sweep/Strike.antt =====
-- A list of tasks without some of them.
use bolgenos_ng.Base.{
  ℕ, ◌≡◌, ◌≢◌, refl, sym, ap, true, false, List, [], ◌∷◌, ◌++◌, inl, inr, arith, ◌==◌,
  if◌then◌else◌, Bool-cases, ℕ_discrete,
}
use bolgenos_ng.Base.All.{All, Apart, Distinct, Distinct-split}
use bolgenos_ng.Utils.CircularList.{Links}
use bolgenos_ng.Utils.CircularList.Ring.{Ring}
use bolgenos_ng.Sched.Inv.{Within}

abbrev pub without : ℕ → List ℕ → List ℕ
without p [] = []
without p (x ∷ xs) = if p == x then xs else x ∷ without p xs

-- Each of `ps` is taken out of the list.
abbrev pub strike : List ℕ → List ℕ → List ℕ
strike xs [] = xs
strike xs (p ∷ ps) = strike (without p xs) ps

pub without-split :
    (p : ℕ) (pre suf : List ℕ) → Apart p pre → without p (pre ++ p ∷ suf) ≡ pre ++ suf
without-split p [] suf out = let t : (p == p) ≡ true = ground arith in rw t refl
without-split p (x ∷ pre) suf out =
    let t : (p == x) ≡ false = let ne = out.0 in ground arith in
    rw t (ap (λ ys. x ∷ ys) (without-split p pre suf out.1))

pub Within-without : (q p : ℕ) (xs : List ℕ) → Within q xs → q ≢ p → Within q (without p xs)
Within-without q p [] w ne = absurd w
Within-without q p (x ∷ xs) (inl e) ne = let t : (p == x) ≡ false = ground arith in rw t (inl e)
Within-without q p (x ∷ xs) (inr w) ne = elim (Bool-cases (p == x)) [
  | inl e ↦ rw e w
  | inr e ↦ rw e (inr (Within-without q p xs w ne))
]

pub All-without : (P : ℕ → Type 0) (p : ℕ) (xs : List ℕ) → All P xs → All P (without p xs)
All-without P p [] h = tt
All-without P p (x ∷ xs) h = elim (Bool-cases (p == x)) [
  | inl e ↦ rw e h.1
  | inr e ↦ rw e (h.0, All-without P p xs h.1)
]

pub Apart-without : (p : ℕ) (xs : List ℕ) → Distinct xs → Apart p (without p xs)
Apart-without p [] once = tt
Apart-without p (x ∷ xs) once = elim (ℕ_discrete p x) [
  | yes e ↦ let t : (p == x) ≡ true = ground arith in rw t (rw e once.0)
  | no ne ↦ let t : (p == x) ≡ false = ground arith in rw t (ne, Apart-without p xs once.1)
]

pub Ring-Distinct : (m : Links) (some : ℕ) (xs : List ℕ) → Ring m some xs → Distinct xs
Ring-Distinct m some [] h = tt
Ring-Distinct m some (x ∷ xs) h = h.2

pub Ring-before :
    (m : Links) (some : ℕ) (pre : List ℕ) (p : ℕ) (suf : List ℕ)
    → Ring m some (pre ++ p ∷ suf)
    → Apart p pre
Ring-before m some pre p suf h =
    flip p suf pre (Distinct-split pre (p ∷ suf) (Ring-Distinct m some (pre ++ p ∷ suf) h)).2
  where
    flip : (p : ℕ) (suf xs : List ℕ) → All (λ x. Apart x (p ∷ suf)) xs → Apart p xs
    flip p suf [] h = tt
    flip p suf (x ∷ xs) h = ((λ e. h.0.0 (sym e)), flip p suf xs h.1)

pub Within-strike : (q : ℕ) (ps xs : List ℕ) → Within q xs → Apart q ps → Within q (strike xs ps)
Within-strike q [] xs w out = w
Within-strike q (p ∷ ps) xs w out =
    Within-strike q ps (without p xs) (Within-without q p xs w out.0) out.1
