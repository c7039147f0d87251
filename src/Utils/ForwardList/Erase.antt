-- ===== src/Utils/ForwardList/Erase.antt =====
-- Erasing nodes: `erase_after` and `clear` of forward_list.hpp.
use bolgenos_ng.Base.{
  ℕ, zero, suc, ◌<◌, ◌≡◌, ◌≢◌, refl, sym, ◌∙◌, false, Option, none, some, [], ◌∷◌, ◌++◌, arith,
  ◌==◌, length,
}
use bolgenos_ng.Memory.Machine.{ok, Returns, Returns-mono, ok-Returns}
use bolgenos_ng.Utils.ForwardList.{
  Node, Nodes, store, load, set_next, deallocate, basic_erase_after, begin, erase_after, empty,
  clear, increment, advance, next,
}
use bolgenos_ng.Utils.ForwardList.Linked.{
  Cells, first, Disjoint, Linked, SameOutside, load_lem, store_self, store_ne, Linked-store,
  Linked-right, Linked-apart, Linked-splice,
}

module _ {A : Type 0} where
  abbrev pub cell : Cells A → A → Option (Node A)
  cell xs v = some (record { next = first xs; value = v })

  pub next_lem :
      (m : Nodes A) (b : ℕ) (v : A) (xs : Cells A)
      → Linked m ((b, v) ∷ xs)
      → next m b ≡ ok (first xs)
  unfolding next advance increment
  next_lem m b v xs h = rw (load_lem m b _ h.0 h.2) refl

  pub increment_lem :
      (m : Nodes A) (b : ℕ) (v : A) (xs : Cells A)
      → Linked m ((b, v) ∷ xs)
      → increment m b ≡ ok (first xs)
  unfolding increment
  increment_lem m b v xs h = rw (load_lem m b _ h.0 h.2) refl

  pub begin_lem :
      (m : Nodes A) (b : ℕ) (v : A) (xs : Cells A)
      → Linked m ((b, v) ∷ xs)
      → begin m b ≡ ok (first xs)
  unfolding begin
  begin_lem m b v xs h = rw (load_lem m b _ h.0 h.2) refl

  pub empty_lem :
      (m : Nodes A) (b : ℕ) (v : A) (xs : Cells A)
      → Linked m ((b, v) ∷ xs)
      → empty m b ≡ ok (first xs == 0)
  unfolding empty
  empty_lem m b v xs h = rw (begin_lem m b v xs h) refl

  -- The nodes after the one at `b` has lost the one at `a` behind it.
  abbrev pub erased : Nodes A → ℕ → A → ℕ → Cells A → Nodes A
  erased m b v a xs = store (store m b (cell xs v)) a none

  -- What `erase_after` leaves of the list `pre`, `b`, `a`, `xs`.
  pub record Erased (m : Nodes A) (pre : Cells A) (b : ℕ) (v : A) (a : ℕ) (xs : Cells A)
      (g : Nodes A) : Type 0 where
    pub linked : Linked g (pre ++ (b, v) ∷ xs)
    pub freed : g a ≡ none
    pub kept : (p : ℕ) → p ≢ b → p ≢ a → g p ≡ m p

  pub erase_after_lem :
      (m : Nodes A) (b : ℕ) (v : A) (a : ℕ) (w : A) (xs : Cells A)
      → Linked m ((b, v) ∷ (a, w) ∷ xs)
      → erase_after m b ≡ ok (erased m b v a xs)
  unfolding erase_after basic_erase_after set_next deallocate
  erase_after_lem m b v a w xs h =
      let at_b : load m b ≡ ok (record { next = a; value = v }) = load_lem m b _ h.0 h.2 in
      let at_a : load m a ≡ ok (record { next = first xs; value = w }) =
        load_lem m a _ h.3.0 h.3.2 in
      let some_a : (a == 0) ≡ false = let ne = h.3.0 in ground arith in
      let still : load (store m b (cell xs v)) a ≡ ok (record { next = first xs; value = w }) =
        load_lem _ a _ h.3.0 (store_ne m b a _ (λ e. h.1.0 (sym e)) ∙ h.3.2) in
      rw (at_b, at_a, some_a, still) refl

  pub erased_kept :
      (m : Nodes A) (b : ℕ) (v : A) (a : ℕ) (xs : Cells A) (p : ℕ)
      → p ≢ b
      → p ≢ a
      → erased m b v a xs p ≡ m p
  erased_kept m b v a xs p nb na = store_ne _ a p none na ∙ store_ne m b p _ nb

  pub erased-Linked :
      (m : Nodes A) (b : ℕ) (v : A) (a : ℕ) (w : A) (xs : Cells A)
      → Linked m ((b, v) ∷ (a, w) ∷ xs)
      → Linked (erased m b v a xs) ((b, v) ∷ xs)
  erased-Linked m b v a w xs h = (
    h.0,
    h.1.1,
    store_ne _ a b none h.1.0 ∙ store_self m b _,
    Linked-store _ a none xs h.3.1 (Linked-store m b _ xs h.1.1 h.3.3),
  )

  Disjoint-drop :
      (pre : Cells A) (b : ℕ) (v : A) (a : ℕ) (w : A) (xs : Cells A)
      → Disjoint pre ((b, v) ∷ (a, w) ∷ xs)
      → Disjoint pre ((b, v) ∷ xs)
  Disjoint-drop [] b v a w xs h = tt
  Disjoint-drop ((p, u) ∷ pre) b v a w xs h = ((h.0.0, h.0.1.1), Disjoint-drop pre b v a w xs h.1)

  pub erase_after-Erased :
      (m : Nodes A) (pre : Cells A) (b : ℕ) (v : A) (a : ℕ) (w : A) (xs : Cells A)
      → Linked m (pre ++ (b, v) ∷ (a, w) ∷ xs)
      → Returns (Erased m pre b v a xs) (erase_after m b)
  erase_after-Erased m pre b v a w xs h =
      let tail = Linked-right m pre _ h in
      let kept : (p : ℕ) → p ≢ b → p ≢ a → erased m b v a xs p ≡ m p = erased_kept m b v a xs in
      ok-Returns _ _ _ (erase_after_lem m b v a w xs tail) (record {
        linked =
            Linked-splice m _ pre _ ((b, v) ∷ xs) refl (λ p out new. kept p out.0 out.1.0)
              (Disjoint-drop pre b v a w xs (Linked-apart m pre _ h))
              (erased-Linked m b v a w xs tail) h;
        freed = store_self _ a none;
        kept = kept;
      })

  -- The nodes of `ys` have no cell any more.
  abbrev pub Freed : Nodes A → Cells A → Type 0
  Freed m [] = Unit {0}
  Freed m ((a, v) ∷ ys) = (m a ≡ none) × Freed m ys

  -- What `clear` leaves of the list at `b` with the nodes `xs`.
  pub record Cleared (m : Nodes A) (b : ℕ) (v : A) (xs : Cells A) (g : Nodes A) : Type 0 where
    pub linked : Linked g ((b, v) ∷ [])
    pub freed : Freed g xs
    pub kept : SameOutside ((b, v) ∷ xs) m g

  -- On a list, `clear` returns with fuel for more than the number of nodes: the list is empty, its
  -- nodes are freed and nothing outside of the list changes.
  pub clear-Cleared :
      (fuel : ℕ) (m : Nodes A) (b : ℕ) (v : A) (xs : Cells A)
      → length xs < fuel
      → Linked m ((b, v) ∷ xs)
      → Returns (Cleared m b v xs) (clear fuel m b)
  unfolding clear
  clear-Cleared zero m b v xs enough h = absurd (omega arith)
  clear-Cleared (suc fuel) m b v [] enough h =
      rw (empty_lem m b v [] h) (record { linked = h; freed = tt; kept = λ p out. refl })
  clear-Cleared (suc fuel) m b v ((a, w) ∷ xs) enough h =
      let some_a : (a == 0) ≡ false = let ne = h.3.0 in ground arith in
      let g = erased m b v a xs in
      rw (empty_lem m b v ((a, w) ∷ xs) h, some_a, erase_after_lem m b v a w xs h)
        (Returns-mono (Cleared g b v xs) (Cleared m b v ((a, w) ∷ xs)) _
          (clear-Cleared fuel g b v xs (omega arith) (erased-Linked m b v a w xs h))
          λ g' c. record {
            linked = c.linked;
            freed = (c.kept a ((λ e. h.1.0 (sym e)), h.3.1) ∙ store_self _ a none, c.freed);
            kept = λ p out. c.kept p (out.0, out.1.1) ∙ erased_kept m b v a xs p out.0 out.1.0;
          })
