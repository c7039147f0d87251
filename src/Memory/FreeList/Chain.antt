-- ===== src/Memory/FreeList/Chain.antt =====
-- The frames that a free list holds: a chain of `next` pointers through ascending addresses.
use bolgenos_ng.Base.{
  ℕ, ◌+◌, ◌<◌, ◌≡◌, ◌≢◌, List, [], ◌∷◌, ◌++◌, arith, ◌==◌, if◌then◌else◌, length,
}
pub use bolgenos_ng.Base.All.{All, Apart, All-map, All-append, All-append_left, All-append_right}
use bolgenos_ng.Memory.Machine.{Heap, write}
use bolgenos_ng.Memory.FreeList.{FreeList}

abbrev pub Chain : Heap → ℕ → List ℕ → Type 0
Chain h p [] = p ≡ 0
Chain h p (x ∷ xs) = (p ≡ x) × Chain h (h x) xs

abbrev pub Ascending : ℕ → List ℕ → Type 0
Ascending low [] = Unit {0}
Ascending low (x ∷ xs) = (low < x) × Ascending x xs

-- The list stands for the frames `xs`.
pub record Rep (h : Heap) (fl : FreeList) (xs : List ℕ) : Type 0 where
  pub chain : Chain h fl.list xs
  pub ascending : Ascending 0 xs
  pub counted : fl.items ≡ length xs

-- What is not above the lower end of an ascending list is none of its items.
pub Ascending-Apart :
    (a low : ℕ) (xs : List ℕ) → a ≢ 0 → Ascending low xs → a < low + 1 → Apart a xs
Ascending-Apart a low [] ne h le = tt
Ascending-Apart a low (x ∷ xs) ne h le = (omega arith, Ascending-Apart a x xs ne h.1 (omega arith))

pub Ascending-weaken : (a b : ℕ) (xs : List ℕ) → a < b + 1 → Ascending b xs → Ascending a xs
Ascending-weaken a b [] le h = tt
Ascending-weaken a b (x ∷ xs) le h = (omega arith, h.1)

-- A chain survives a write outside its items.
pub Chain-write :
    (h : Heap) (a v p : ℕ) (xs : List ℕ) → Apart a xs → Chain h p xs → Chain (write h a v) p xs
unfolding write
Chain-write h a v p [] out c = c
Chain-write h a v p (x ∷ xs) out c =
    let same : (if x == a then v else h x) ≡ h x = ground arith in
    (c.0, rw same (Chain-write h a v (h x) xs out.1 c.1))

-- A chain stays where the memory under it does.
pub Chain-frame :
    (h g : Heap) (p : ℕ) (xs : List ℕ) → All (λ x. g x ≡ h x) xs → Chain h p xs → Chain g p xs
Chain-frame h g p [] same c = c
Chain-frame h g p (x ∷ xs) same c = (c.0, rw same.0 (Chain-frame h g (h x) xs same.1 c.1))

-- Redirecting the item `a` replaces all that follows it.
pub Chain-splice :
    (h g : Heap) (p q a : ℕ) (pre suf new : List ℕ)
    → All (λ x. g x ≡ h x) pre
    → g a ≡ q
    → Chain g q new
    → Chain h p (pre ++ a ∷ suf)
    → Chain g p (pre ++ a ∷ new)
Chain-splice h g p q a [] suf new same at c d = (d.0, rw at c)
Chain-splice h g p q a (x ∷ pre) suf new same at c d =
    (d.0, rw same.0 (Chain-splice h g (h x) q a pre suf new same.1 at c d.1))

pub Chain-suffix :
    (h : Heap) (p a : ℕ) (pre suf : List ℕ) → Chain h p (pre ++ a ∷ suf) → Chain h (h a) suf
Chain-suffix h p a [] suf c = c.1
Chain-suffix h p a (x ∷ pre) suf c = Chain-suffix h (h x) a pre suf c.1

pub Ascending-splice :
    (low a : ℕ) (pre suf new : List ℕ)
    → Ascending a new
    → Ascending low (pre ++ a ∷ suf)
    → Ascending low (pre ++ a ∷ new)
Ascending-splice low a [] suf new n h = (h.0, n)
Ascending-splice low a (x ∷ pre) suf new n h = (h.0, Ascending-splice x a pre suf new n h.1)

pub Ascending-suffix :
    (low a : ℕ) (pre suf : List ℕ) → Ascending low (pre ++ a ∷ suf) → (low < a) × Ascending a suf
Ascending-suffix low a [] suf h = h
Ascending-suffix low a (x ∷ pre) suf h =
    let (less, rest) = Ascending-suffix x a pre suf h.1 in (omega arith, rest)

-- What comes before an item of an ascending list is below it.
pub Ascending-before :
    (low a : ℕ) (pre suf : List ℕ) → Ascending low (pre ++ a ∷ suf) → All (λ x. x < a) pre
Ascending-before low a [] suf h = tt
Ascending-before low a (x ∷ pre) suf h =
    ((Ascending-suffix x a pre suf h.1).0, Ascending-before x a pre suf h.1)
