-- ===== src/Utils/ForwardList/Visit.antt =====
-- The loops of algorithm.hpp over a singly linked list.
use bolgenos_ng.Base.{
  subst, sym, not, ℕ, zero, suc, ◌<◌, ◌≡◌, refl, Bool, true, false, List, [], ◌∷◌, inl, inr, arith,
  ◌==◌, if◌then◌else◌, Bool-cases, length,
}
use bolgenos_ng.Memory.Machine.{Run, ok, ◌>>=◌, walk, bind-same, bind-ok}
use bolgenos_ng.Utils.ForwardList.{Nodes, for_each, find_if, for_range_from, for_range, increment}
use bolgenos_ng.Utils.ForwardList.Linked.{Cells, first, values, Linked, load_lem}
use bolgenos_ng.Utils.ForwardList.Erase.{increment_lem, begin_lem}

module _ {A W : Type 0} where
  -- The same loops over a list of values.
  abbrev pub fold : (W → A → W) → W → List A → W
  fold func w [] = w
  fold func w (x ∷ xs) = fold func (func w x) xs

  -- Asks the values in order, until the answer is yes.
  abbrev pub ask : (W → A → W × Bool) → W → List A → W × Bool
  ask pred w [] = (w, false)
  ask pred w (x ∷ xs) =
      let (w', found) = pred w x in let rest = ask pred w' xs in if found then (w', true) else rest

  pub for_each_lem :
      (func : W → A → W) (fuel : ℕ) (m : Nodes A) (xs : Cells A) (w : W)
      → length xs < fuel
      → Linked m xs
      → for_each fuel m func (first xs) w ≡ ok (fold func w (values xs))
  unfolding for_each
  for_each_lem func zero m xs w enough h = absurd (omega arith)
  for_each_lem func (suc fuel) m [] w enough h = refl
  for_each_lem func (suc fuel) m ((a, v) ∷ xs) w enough h =
      let some_a : (a == 0) ≡ false = let ne = h.0 in ground arith in
      rw (some_a, for_each, load_lem m a _ h.0 h.2, increment_lem m a v xs h)
        (for_each_lem func fuel m xs (func w v) (omega arith) h.3)

  -- The end of the chain is answered exactly if no value is accepted.
  pub find_if_lem :
      (pred : W → A → W × Bool) (fuel : ℕ) (m : Nodes A) (xs : Cells A) (w : W)
      → length xs < fuel
      → Linked m xs
      → (position : ℕ) × (find_if fuel m pred (first xs) w
          ≡ ok ((ask pred w (values xs)).0, position))
        × ((position == 0) ≡ not (ask pred w (values xs)).1)
  unfolding find_if
  find_if_lem pred zero m xs w enough h = absurd (omega arith)
  find_if_lem pred (suc fuel) m [] w enough h = (0, refl, refl)
  find_if_lem pred (suc fuel) m ((a, v) ∷ xs) w enough h =
      let some_a : (a == 0) ≡ false = let ne = h.0 in ground arith in
      elim (Bool-cases (pred w v).1) [
        | inl e ↦ (a, rw (some_a, find_if, load_lem m a _ h.0 h.2, e) refl, rw (e, some_a) refl)
        | inr e ↦
            let (q, found, at_end) = find_if_lem pred fuel m xs (pred w v).0 (omega arith) h.3 in
            (
              q,
              rw (some_a, find_if, load_lem m a _ h.0 h.2, e, increment_lem m a v xs h) found,
              rw e at_end,
            )
      ]

module _ {A W : Type 0} (nodes : W → Nodes A) (body : W → A → Run W)
    (keeps : (w : W) (x : A) (w' : W) → body w x ≡ ok w' → nodes w' ≡ nodes w) where
  for_range_from_lem :
      (fuel : ℕ) (w : W) (xs : Cells A)
      → length xs < fuel
      → Linked (nodes w) xs
      → for_range_from nodes body fuel w (first xs) ≡ walk body w (values xs)
  unfolding for_range_from
  for_range_from_lem zero w xs enough h = absurd (omega arith)
  for_range_from_lem (suc fuel) w [] enough h = refl
  for_range_from_lem (suc fuel) w ((a, v) ∷ xs) enough h =
      let some_a : (a == 0) ≡ false = let ne = h.0 in ground arith in
      rw (some_a, for_range_from, load_lem (nodes w) a _ h.0 h.2)
        (bind-same (body w v) _ _ λ w' e.
          let h' : Linked (nodes w') ((a, v) ∷ xs) =
            subst (λ m. Linked m ((a, v) ∷ xs)) (sym (keeps w v w' e)) h in
          rw (increment_lem (nodes w') a v xs h')
            (for_range_from_lem fuel w' xs (omega arith) h'.3))

  -- The loop runs the body on each value, in order.
  pub for_range_lem :
      (fuel : ℕ) (w : W) (b : ℕ) (v : A) (xs : Cells A)
      → length xs < fuel
      → Linked (nodes w) ((b, v) ∷ xs)
      → for_range nodes body fuel w b ≡ walk body w (values xs)
  unfolding for_range
  for_range_lem fuel w b v xs enough h =
      rw (begin_lem (nodes w) b v xs h) (for_range_from_lem fuel w xs enough h.3)

  -- A loop that has ended had fuel for all nodes.
  for_range_from-fuel :
      (fuel : ℕ) (w : W) (xs : Cells A) (r : W)
      → Linked (nodes w) xs
      → for_range_from nodes body fuel w (first xs) ≡ ok r
      → length xs < fuel
  unfolding for_range_from
  for_range_from-fuel zero w xs r h e = absurd (cc)
  for_range_from-fuel (suc fuel) w [] r h e = omega arith
  for_range_from-fuel (suc fuel) w ((a, v) ∷ xs) r h e =
      let some_a : (a == 0) ≡ false = let ne = h.0 in ground arith in
      let next =
        λ (w' : W). increment (nodes w') a >>= λ it'. for_range_from nodes body fuel w' it' in
      let run : (body w v >>= next) ≡ ok r =
        rw (some_a, for_range_from, load_lem (nodes w) a _ h.0 h.2) at e in
      let (w', ran, e1) = bind-ok (body w v) next r run in
      let h' : Linked (nodes w') ((a, v) ∷ xs) =
        subst (λ m. Linked m ((a, v) ∷ xs)) (sym (keeps w v w' ran)) h in
      let e2 : for_range_from nodes body fuel w' (first xs) ≡ ok r =
        subst (λ m. (m >>= λ it'. for_range_from nodes body fuel w' it') ≡ ok r)
          (increment_lem (nodes w') a v xs h') e1 in
      omega (arith, for_range_from-fuel fuel w' xs r h'.3 e2)

  pub for_range-fuel :
      (fuel : ℕ) (w : W) (b : ℕ) (v : A) (xs : Cells A) (r : W)
      → Linked (nodes w) ((b, v) ∷ xs)
      → for_range nodes body fuel w b ≡ ok r
      → length xs < fuel
  unfolding for_range
  for_range-fuel fuel w b v xs r h e = for_range_from-fuel fuel w xs r h.3 (
      subst (λ m. (m >>= λ it. for_range_from nodes body fuel w it) ≡ ok r)
        (begin_lem (nodes w) b v xs h) e)
