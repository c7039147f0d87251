-- ===== src/Utils/ForwardList/Linked.antt =====
-- The nodes that a singly linked list stands for: address and value of each, in order. A list at
-- `b` is the chain of the nodes from `b` on, whose first is the list's own `before_begin_`.
use bolgenos_ng.Base.{
  ap, subst, Bool, ℕ, ◌≡◌, ◌≢◌, refl, sym, Option, none, some, List, [], ◌∷◌, ◌++◌, arith, ◌==◌,
  ◌∙◌,
}
use bolgenos_ng.Memory.Machine.{ok}
use bolgenos_ng.Utils.ForwardList.{Node, Nodes, store, load}

abbrev pub Cells : Type 0 → Type 0
Cells A = List (ℕ × A)

module _ {A : Type 0} where
  abbrev pub first : Cells A → ℕ
  first [] = 0
  first ((a, v) ∷ xs) = a

  abbrev pub values : Cells A → List A
  values [] = []
  values ((a, v) ∷ xs) = v ∷ values xs

  -- No node of the chain lies at `p`.
  abbrev pub Outside : ℕ → Cells A → Type 0
  Outside p [] = Unit {0}
  Outside p ((a, v) ∷ xs) = (p ≢ a) × Outside p xs

  -- No address lies in both.
  abbrev pub Disjoint : Cells A → Cells A → Type 0
  Disjoint [] ys = Unit {0}
  Disjoint ((a, v) ∷ xs) ys = Outside a ys × Disjoint xs ys

  -- Each node lies at an address of its own and leads to the one after it, the last to null.
  abbrev pub Linked : Nodes A → Cells A → Type 0
  Linked m [] = Unit {0}
  Linked m ((a, v) ∷ xs) =
      (a ≢ 0) × Outside a xs × (m a ≡ some (record { next = first xs; value = v })) × Linked m xs

  -- `g` differs from `m` at the nodes of `xs` at most.
  abbrev pub SameOutside : Cells A → Nodes A → Nodes A → Type 0
  SameOutside xs m g = (p : ℕ) → Outside p xs → g p ≡ m p

  pub load_lem : (m : Nodes A) (p : ℕ) (n : Node A) → p ≢ 0 → m p ≡ some n → load m p ≡ ok n
  unfolding load
  load_lem m p n ne e = let t : (p == 0) ≡ Bool.false = ground arith in rw (t, e) refl

  pub store_self : (m : Nodes A) (p : ℕ) (c : Option (Node A)) → store m p c p ≡ c
  unfolding store
  store_self m p c = ground arith

  pub store_ne : (m : Nodes A) (p q : ℕ) (c : Option (Node A)) → q ≢ p → store m p c q ≡ m q
  unfolding store
  store_ne m p q c ne = ground arith

  pub Outside-append :
      (p : ℕ) (xs ys : Cells A) → Outside p xs → Outside p ys → Outside p (xs ++ ys)
  Outside-append p [] ys h k = k
  Outside-append p ((a, v) ∷ xs) ys h k = (h.0, Outside-append p xs ys h.1 k)

  pub Outside-left : (p : ℕ) (xs ys : Cells A) → Outside p (xs ++ ys) → Outside p xs
  Outside-left p [] ys h = tt
  Outside-left p ((a, v) ∷ xs) ys h = (h.0, Outside-left p xs ys h.1)

  pub Outside-right : (p : ℕ) (xs ys : Cells A) → Outside p (xs ++ ys) → Outside p ys
  Outside-right p [] ys h = h
  Outside-right p ((a, v) ∷ xs) ys h = Outside-right p xs ys h.1

  -- A free address is that of no node.
  pub none-Outside : (m : Nodes A) (p : ℕ) (xs : Cells A) → m p ≡ none → Linked m xs → Outside p xs
  none-Outside m p [] free h = tt
  none-Outside m p ((a, v) ∷ xs) free h = (
    (λ e. let t : m a ≡ none = subst (λ x. m x ≡ none) e free in cc),
    none-Outside m p xs free h.3,
  )

  -- A chain survives what changes the nodes of another only.
  pub Linked-frame :
      (m g : Nodes A) (xs ys : Cells A)
      → SameOutside ys m g
      → Disjoint xs ys
      → Linked m xs
      → Linked g xs
  Linked-frame m g [] ys same apart h = tt
  Linked-frame m g ((a, v) ∷ xs) ys same apart h =
      (h.0, h.1, same a apart.0 ∙ h.2, Linked-frame m g xs ys same apart.1 h.3)

  pub Linked-store :
      (m : Nodes A) (p : ℕ) (c : Option (Node A)) (xs : Cells A)
      → Outside p xs
      → Linked m xs
      → Linked (store m p c) xs
  Linked-store m p c [] out h = tt
  Linked-store m p c ((a, v) ∷ xs) out h =
      (h.0, h.1, store_ne m p a c (λ e. out.0 (sym e)) ∙ h.2, Linked-store m p c xs out.1 h.3)

  pub Linked-right : (m : Nodes A) (xs ys : Cells A) → Linked m (xs ++ ys) → Linked m ys
  Linked-right m [] ys h = h
  Linked-right m ((a, v) ∷ xs) ys h = Linked-right m xs ys h.3

  pub Linked-apart : (m : Nodes A) (xs ys : Cells A) → Linked m (xs ++ ys) → Disjoint xs ys
  Linked-apart m [] ys h = tt
  Linked-apart m ((a, v) ∷ xs) ys h = (Outside-right a xs ys h.1, Linked-apart m xs ys h.3)

  first-splice : (pre ys zs : Cells A) → first ys ≡ first zs → first (pre ++ ys) ≡ first (pre ++ zs)
  first-splice [] ys zs e = e
  first-splice (x ∷ pre) ys zs e = refl

  -- The end of a chain is replaced by one that starts at the same node.
  pub Linked-splice :
      (m g : Nodes A) (pre ys zs : Cells A)
      → first ys ≡ first zs
      → ((p : ℕ) → Outside p ys → Outside p zs → g p ≡ m p)
      → Disjoint pre zs
      → Linked g zs
      → Linked m (pre ++ ys)
      → Linked g (pre ++ zs)
  Linked-splice m g [] ys zs start same apart new h = new
  Linked-splice m g ((a, v) ∷ pre) ys zs start same apart new h =
      let out = Outside-left a pre ys h.1 in
      (
        h.0,
        Outside-append a pre zs out apart.0,
        same a (Outside-right a pre ys h.1) apart.0
            ∙ h.2
            ∙ ap (λ n. some (record { next = n; value = v })) (first-splice pre ys zs start),
        Linked-splice m g pre ys zs start same apart.1 new h.3,
      )
