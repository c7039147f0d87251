-- ===== src/Utils/CircularList/Visit.antt =====
-- The loop over a circular list, from its `begin()` round to its `end()`.
use bolgenos_ng.Base.{
  ℕ, zero, suc, ◌+◌, ◌%◌, ◌<◌, ◌≡◌, ◌≢◌, refl, sym, true, false, List, [], ◌∷◌, arith, ◌==◌, length,
  subst,
}
use bolgenos_ng.Base.All.{All, Apart}
use bolgenos_ng.Utils.MemUtils.{word}
use bolgenos_ng.Memory.Machine.{Run, ok, fault, ◌>>=◌, bind-same, walk}
use bolgenos_ng.Utils.CircularList.{Links, get_next, at_end, for_each_from, for_each}
use bolgenos_ng.Utils.CircularList.Ring.{Arc, Ring}

come_round : (some shift : ℕ) → at_end some (shift + 1) some ≡ true
unfolding at_end
come_round some shift = ground arith

not_round : (some x shift : ℕ) → some ≢ x → at_end x shift some ≡ false
unfolding at_end
not_round some x shift ne = ground arith

not_begun : (x : ℕ) → at_end x 0 x ≡ false
unfolding at_end
not_begun x = ground arith

module _ {W : Type 0} (links : W → Links) (body : W → ℕ → Run W) where
  abbrev pub KeepsLinks : Type 0
  KeepsLinks = (w : W) (x : ℕ) (w' : W) → body w x ≡ ok w' → links w' ≡ links w

  module _ (keeps : KeepsLinks) where
    -- From a node that the loop has not passed, the nodes `node` and `xs` are left. At the end it
    -- comes back to `some`.
    for_each_from_lem :
        (fuel : ℕ) (w : W) (some node : ℕ) (xs : List ℕ) (shift : ℕ)
        → length xs + 1 < fuel
        → shift + length xs + 1 < word
        → at_end node shift some ≡ false
        → node ≢ 0
        → All (λ y. y ≢ 0) xs
        → Apart some xs
        → Arc (links w) node xs some
        → for_each_from links body fuel w some node shift ≡ walk body w (node ∷ xs)
    unfolding for_each_from get_next
    for_each_from_lem zero w some node xs shift enough fits going n all out h = absurd (omega arith)
    for_each_from_lem (suc zero) w some node xs shift enough fits going n all out h =
        absurd (omega arith)
    for_each_from_lem (suc (suc fuel)) w some node [] shift enough fits going n all out h =
        let t : (node == 0) ≡ false = ground arith in
        let later : (shift + 1) % word ≡ shift + 1 = omega arith in
        let over : at_end some (shift + 1) some ≡ true = come_round some shift in
        rw (going, for_each_from, t)
          (bind-same (body w node) _ _ λ w' e.
            let same : (links w').next node ≡ some =
              subst (λ m. m.next node ≡ some) (sym (keeps w node w' e)) h.0 in
            rw (t, same, later, ◌>>=◌, over) refl)
    for_each_from_lem (suc (suc fuel)) w some node (x ∷ xs) shift enough fits going n all out h =
        let t : (node == 0) ≡ false = ground arith in
        let later : (shift + 1) % word ≡ shift + 1 = omega arith in
        rw (going, for_each_from, t)
          (bind-same (body w node) _ _ λ w' e.
            let same : (links w').next node ≡ x =
              subst (λ m. m.next node ≡ x) (sym (keeps w node w' e)) h.0 in
            let arc : Arc (links w') x xs some =
              subst (λ m. Arc m x xs some) (sym (keeps w node w' e)) h.2 in
            rw (t, same)
              (subst (λ k. for_each_from links body (suc fuel) w' some x k ≡ walk body w' (x ∷ xs))
                (sym later)
                (for_each_from_lem (suc fuel) w' some x xs (shift + 1) (omega arith) (omega arith)
                  (not_round some x (shift + 1) out.0) all.0 all.1 out.1 arc)))

    -- Iterating over a circular list that holds something runs the body on each object once, in
    -- order, where the body leaves the links alone, the objects are fewer than 2 ^ 32 and the fuel
    -- is more than their number.
    pub for_each-walk :
        (fuel : ℕ) (w : W) (some x : ℕ) (xs : List ℕ)
        → length xs + 1 < fuel
        → length xs + 1 < word
        → Ring (links w) some (x ∷ xs)
        → for_each links body fuel w some ≡ walk body w (x ∷ xs)
    unfolding for_each
    for_each-walk fuel w some x xs enough fits h =
        let (at_x, arc, once, nonnull) = h in
        rw at_x (
          for_each_from_lem fuel w x x xs 0 enough (omega arith) (not_begun x) nonnull.0 nonnull.1
            once.0 arc)

  -- A list that holds nothing has a beginning that is not its end.
  pub for_each_empty : (fuel : ℕ) (w : W) → for_each links body (suc fuel) w 0 ≡ fault
  unfolding for_each for_each_from at_end
  for_each_empty fuel w = refl
