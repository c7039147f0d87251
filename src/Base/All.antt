-- ===== src/Base/All.antt =====
-- Predicates over the numbers of a list.
use mathlib.Core.List.{List, [], ◌∷◌, ◌++◌}
use mathlib.Core.Logic.{◌≢◌}
use Prim.Native.Nat.{ℕ}

abbrev pub All : (ℕ → Type 0) → List ℕ → Type 0
All P [] = Unit {0}
All P (x ∷ xs) = P x × All P xs

abbrev pub Apart : ℕ → List ℕ → Type 0
Apart a xs = All (λ x. a ≢ x) xs

-- No number stands twice.
abbrev pub Distinct : List ℕ → Type 0
Distinct [] = Unit {0}
Distinct (x ∷ xs) = Apart x xs × Distinct xs

pub All-map : (P Q : ℕ → Type 0) (xs : List ℕ) → ((x : ℕ) → P x → Q x) → All P xs → All Q xs
All-map P Q [] f h = tt
All-map P Q (x ∷ xs) f h = (f x h.0, All-map P Q xs f h.1)

pub All-append : (P : ℕ → Type 0) (xs ys : List ℕ) → All P xs → All P ys → All P (xs ++ ys)
All-append P [] ys h k = k
All-append P (x ∷ xs) ys h k = (h.0, All-append P xs ys h.1 k)

pub All-append_left : (P : ℕ → Type 0) (xs ys : List ℕ) → All P (xs ++ ys) → All P xs
All-append_left P [] ys h = tt
All-append_left P (x ∷ xs) ys h = (h.0, All-append_left P xs ys h.1)

pub All-append_right : (P : ℕ → Type 0) (xs ys : List ℕ) → All P (xs ++ ys) → All P ys
All-append_right P [] ys h = h
All-append_right P (x ∷ xs) ys h = All-append_right P xs ys h.1

pub All-both :
    (P Q R : ℕ → Type 0) (xs : List ℕ)
    → ((x : ℕ) → P x → Q x → R x)
    → All P xs
    → All Q xs
    → All R xs
All-both P Q R [] f h k = tt
All-both P Q R (x ∷ xs) f h k = (f x h.0 k.0, All-both P Q R xs f h.1 k.1)

pub Distinct-split :
    (xs ys : List ℕ) → Distinct (xs ++ ys) → Distinct xs × Distinct ys × All (λ x. Apart x ys) xs
Distinct-split [] ys h = (tt, h, tt)
Distinct-split (x ∷ xs) ys h =
    let (left, right, across) = Distinct-split xs ys h.1 in
    ((All-append_left _ xs ys h.0, left), right, (All-append_right _ xs ys h.0, across))

pub Distinct-append :
    (xs ys : List ℕ) → Distinct xs → Distinct ys → All (λ x. Apart x ys) xs → Distinct (xs ++ ys)
Distinct-append [] ys h k across = k
Distinct-append (x ∷ xs) ys h k across =
    (All-append _ xs ys h.0 across.0, Distinct-append xs ys h.1 k across.1)
