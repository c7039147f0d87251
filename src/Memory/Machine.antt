-- ===== src/Memory/Machine.antt =====
-- What the allocators run on: raw memory, of which the model keeps the word at each address, and
-- the ways in which a run can end.
use bolgenos_ng.Base.{subst, List, [], ◌∷◌, ℕ, ◌≡◌, refl, ◌==◌, if◌then◌else◌}

-- A null pointer is address 0.
abbrev pub Heap : Type 0
Heap = ℕ → ℕ

unfoldable pub write : Heap → ℕ → ℕ → Heap
write h p v a = if a == p then v else h a

-- `panicked` is a call of `panic`, which does not return; `fault` is an access through a null
-- pointer or beyond an array; `out_of_fuel` is a loop that the given fuel does not finish.
pub data Run (A : Type 0) : Type 0 where
  ok : A → Run A
  panicked : Run A
  fault : Run A
  out_of_fuel : Run A

infixl 5 ◌>>=◌ ◌>>◌
abbrev pub ◌>>=◌ : {A B : Type 0} → Run A → (A → Run B) → Run B
ok a >>= k = k a
panicked >>= k = panicked
fault >>= k = fault
out_of_fuel >>= k = out_of_fuel

abbrev pub ◌>>◌ : {B : Type 0} → Run (Unit {0}) → Run B → Run B
m >> k = m >>= λ _. k

-- Total correctness: the run ends with a result, and the result has the property.
abbrev pub Returns : {A : Type 0} → (A → Type 0) → Run A → Type 0
Returns P (ok a) = P a
Returns P panicked = ⊥
Returns P fault = ⊥
Returns P out_of_fuel = ⊥

pub Returns-bind :
    {A B : Type 0} (P : A → Type 0) (Q : B → Type 0) (m : Run A) (k : A → Run B)
    → Returns P m
    → ((a : A) → P a → Returns Q (k a))
    → Returns Q (m >>= k)
Returns-bind P Q (ok a) k p next = next a p
Returns-bind P Q panicked k p next = absurd p
Returns-bind P Q fault k p next = absurd p
Returns-bind P Q out_of_fuel k p next = absurd p

pub Returns-mono :
    {A : Type 0} (P Q : A → Type 0) (m : Run A) → Returns P m → ((a : A) → P a → Q a) → Returns Q m
Returns-mono P Q (ok a) p weaken = weaken a p
Returns-mono P Q panicked p weaken = p
Returns-mono P Q fault p weaken = p
Returns-mono P Q out_of_fuel p weaken = p

pub Returns-ok :
    {A : Type 0} (P : A → Type 0) (m : Run A) → Returns P m → (a : A) × (m ≡ ok a) × P a
Returns-ok P (ok a) p = (a, refl, p)
Returns-ok P panicked p = absurd p
Returns-ok P fault p = absurd p
Returns-ok P out_of_fuel p = absurd p

pub ok-Returns : {A : Type 0} (P : A → Type 0) (m : Run A) (a : A) → m ≡ ok a → P a → Returns P m
ok-Returns P m a e p = rw e p

-- Equal continuations where the run has a result give equal runs.
pub bind-same :
    {A B : Type 0} (m : Run A) (f g : A → Run B)
    → ((a : A) → m ≡ ok a → f a ≡ g a)
    → (m >>= f) ≡ (m >>= g)
bind-same (ok a) f g h = h a refl
bind-same panicked f g h = refl
bind-same fault f g h = refl
bind-same out_of_fuel f g h = refl

-- The body runs for each item in order.
abbrev pub walk : {W A : Type 0} → (W → A → Run W) → W → List A → Run W
walk body w [] = ok w
walk body w (x ∷ xs) = body w x >>= λ w'. walk body w' xs

-- Inversion of a bind with a result.
pub bind-ok :
    {A B : Type 0} (m : Run A) (f : A → Run B) (b : B)
    → (m >>= f) ≡ ok b
    → (a : A) × (m ≡ ok a) × (f a ≡ ok b)
bind-ok (ok a) f b e = (a, refl, e)
bind-ok panicked f b e = cc
bind-ok fault f b e = cc
bind-ok out_of_fuel f b e = cc

pub ok-injective : {A : Type 0} (a b : A) → ok a ≡ ok b → a ≡ b
ok-injective a b e = cc

pub Returns-at : {A : Type 0} (P : A → Type 0) (m : Run A) (a : A) → m ≡ ok a → Returns P m → P a
Returns-at P m a e h = subst (Returns P) e h
