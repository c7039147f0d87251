-- ===== src/Utils/CircularList/Ring.antt =====
-- The objects that a circular list holds, in order from `_some` on.
use bolgenos_ng.Base.{ℕ, ◌≡◌, ◌≢◌, sym, ◌∙◌, List, [], ◌∷◌, ◌++◌, arith}
use bolgenos_ng.Base.All.{All, Apart, Distinct}
use bolgenos_ng.Utils.CircularList.{Links, update}

-- From `a` the links lead through `xs` to `z`, and back.
abbrev pub Arc : Links → ℕ → List ℕ → ℕ → Type 0
Arc m a [] z = (m.next a ≡ z) × (m.prev z ≡ a)
Arc m a (x ∷ xs) z = (m.next a ≡ x) × (m.prev x ≡ a) × Arc m x xs z

-- The list with the given `_some` holds `xs`.
abbrev pub Ring : Links → (some : ℕ) → List ℕ → Type 0
Ring m some [] = some ≡ 0
Ring m some (x ∷ xs) = (some ≡ x) × Arc m x xs x × Distinct (x ∷ xs) × All (λ y. y ≢ 0) (x ∷ xs)

-- The first of `ys` and then `z`, and the last of `a` and then `xs`.
abbrev pub head_or : List ℕ → ℕ → ℕ
head_or [] z = z
head_or (y ∷ ys) z = y

abbrev pub last_or : ℕ → List ℕ → ℕ
last_or a [] = a
last_or a (x ∷ xs) = last_or x xs

pub update_self : (f : ℕ → ℕ) (p q : ℕ) → update f p q p ≡ q
unfolding update
update_self f p q = ground arith

pub update_ne : (f : ℕ → ℕ) (p q a : ℕ) → a ≢ p → update f p q a ≡ f a
unfolding update
update_ne f p q a ne = ground arith

pub Arc-head : (m : Links) (a : ℕ) (xs : List ℕ) (z : ℕ) → Arc m a xs z → m.next a ≡ head_or xs z
Arc-head m a [] z h = h.0
Arc-head m a (x ∷ xs) z h = h.0

pub Arc-last : (m : Links) (a : ℕ) (xs : List ℕ) (z : ℕ) → Arc m a xs z → m.prev z ≡ last_or a xs
Arc-last m a [] z h = h.1
Arc-last m a (x ∷ xs) z h = Arc-last m x xs z h.2

-- An arc is where its links are.
pub Arc-same :
    (m g : Links) (a : ℕ) (xs : List ℕ) (z : ℕ)
    → g.next a ≡ m.next a
    → All (λ x. g.next x ≡ m.next x) xs
    → All (λ x. g.prev x ≡ m.prev x) xs
    → g.prev z ≡ m.prev z
    → Arc m a xs z
    → Arc g a xs z
Arc-same m g a [] z na n p pz h = (na ∙ h.0, pz ∙ h.1)
Arc-same m g a (x ∷ xs) z na n p pz h =
    (na ∙ h.0, p.0 ∙ h.1, Arc-same m g x xs z n.0 n.1 p.1 pz h.2)

pub Arc-append :
    (m : Links) (a : ℕ) (xs : List ℕ) (y : ℕ) (ys : List ℕ) (z : ℕ)
    → Arc m a xs y
    → Arc m y ys z
    → Arc m a (xs ++ y ∷ ys) z
Arc-append m a [] y ys z h k = (h.0, h.1, k)
Arc-append m a (x ∷ xs) y ys z h k = (h.0, h.1, Arc-append m x xs y ys z h.2 k)

pub Arc-split :
    (m : Links) (a : ℕ) (xs : List ℕ) (y : ℕ) (ys : List ℕ) (z : ℕ)
    → Arc m a (xs ++ y ∷ ys) z
    → Arc m a xs y × Arc m y ys z
Arc-split m a [] y ys z h = ((h.0, h.1), h.2)
Arc-split m a (x ∷ xs) y ys z h =
    let (left, right) = Arc-split m x xs y ys z h.2 in ((h.0, h.1, left), right)

pub Apart-flip : (a : ℕ) (xs : List ℕ) → Apart a xs → All (λ x. x ≢ a) xs
Apart-flip a [] h = tt
Apart-flip a (x ∷ xs) h = ((λ e. h.0 (sym e)), Apart-flip a xs h.1)

pub head_or-ne : (a : ℕ) (xs : List ℕ) (z : ℕ) → Apart a xs → a ≢ z → a ≢ head_or xs z
head_or-ne a [] z h ne = ne
head_or-ne a (x ∷ xs) z h ne = h.0

pub last_or-ne : (b a : ℕ) (xs : List ℕ) → b ≢ a → Apart b xs → b ≢ last_or a xs
last_or-ne b a [] ne h = ne
last_or-ne b a (x ∷ xs) ne h = last_or-ne b x xs h.0 h.1

pub head_or-some : (xs : List ℕ) (z : ℕ) → z ≢ 0 → All (λ y. y ≢ 0) xs → head_or xs z ≢ 0
head_or-some [] z ne h = ne
head_or-some (x ∷ xs) z ne h = h.0

pub last_or-some : (a : ℕ) (xs : List ℕ) → a ≢ 0 → All (λ y. y ≢ 0) xs → last_or a xs ≢ 0
last_or-some a [] ne h = ne
last_or-some a (x ∷ xs) ne h = last_or-some x xs h.0 h.1
