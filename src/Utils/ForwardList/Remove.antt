-- ===== src/Utils/ForwardList/Remove.antt =====
-- `remove` of forward_list.hpp.
use bolgenos_ng.Base.{
  ℕ, zero, suc, ◌+◌, ◌%◌, ◌<◌, ◌≡◌, refl, sym, ◌∙◌, Bool, true, false, none, [], ◌∷◌, inl, inr,
  arith, ◌==◌, if◌then◌else◌, Bool-cases, length,
}
use bolgenos_ng.Utils.MemUtils.{word}
use bolgenos_ng.Memory.Machine.{ok, ◌>>=◌, Returns, Returns-mono}
use bolgenos_ng.Utils.ForwardList.{Nodes, next, remove_from, remove}
use bolgenos_ng.Utils.ForwardList.Linked.{Cells, Outside, Linked, SameOutside, load_lem, store_self}
use bolgenos_ng.Utils.ForwardList.Erase.{
  next_lem, increment_lem, erased, erased_kept, erased-Linked, erase_after_lem, Freed,
}

module _ {A : Type 0} (same : A → A → Bool) (x : A) where
  -- The nodes whose value is not, and is, the one to remove.
  abbrev pub others : Cells A → Cells A
  others [] = []
  others ((a, w) ∷ xs) = if same w x then others xs else (a, w) ∷ others xs

  abbrev pub matches : Cells A → Cells A
  matches [] = []
  matches ((a, w) ∷ xs) = if same w x then (a, w) ∷ matches xs else matches xs

  -- What the loop of `remove` makes of the chain from `b` on.
  pub record Filtered (m : Nodes A) (b : ℕ) (v : A) (xs : Cells A) (before : ℕ) (r : Nodes A × ℕ)
      : Type 0 where
    pub linked : Linked r.0 ((b, v) ∷ others xs)
    pub freed : Freed r.0 (matches xs)
    pub counted : r.1 ≡ (before + length (matches xs)) % word
    pub kept : SameOutside ((b, v) ∷ xs) m r.0

  Outside-others : (p : ℕ) (xs : Cells A) → Outside p xs → Outside p (others xs)
  Outside-others p [] out = tt
  Outside-others p ((a, w) ∷ xs) out = elim (Bool-cases (same w x)) [
    | inl e ↦ rw e (Outside-others p xs out.1)
    | inr e ↦ rw e (out.0, Outside-others p xs out.1)
  ]

  module _ (m : Nodes A) (b : ℕ) (v : A) (a : ℕ) (w : A) (xs : Cells A) where
    Filtered-match :
        (before : ℕ) (r : Nodes A × ℕ)
        → same w x ≡ true
        → Linked m ((b, v) ∷ (a, w) ∷ xs)
        → Filtered (erased m b v a xs) b v xs ((before + 1) % word) r
        → Filtered m b v ((a, w) ∷ xs) before r
    Filtered-match before r e h c = record {
      linked = rw e c.linked;
      freed = rw e (c.kept a ((λ back. h.1.0 (sym back)), h.3.1) ∙ store_self _ a none, c.freed);
      counted = rw e (omega (arith, c.counted));
      kept = λ p out. c.kept p (out.0, out.1.1) ∙ erased_kept m b v a xs p out.0 out.1.0;
    }

    Filtered-other :
        (before : ℕ) (r : Nodes A × ℕ)
        → same w x ≡ false
        → Linked m ((b, v) ∷ (a, w) ∷ xs)
        → Filtered m a w xs before r
        → Filtered m b v ((a, w) ∷ xs) before r
    Filtered-other before r e h c = record {
      linked = rw e (h.0, (h.1.0, Outside-others b xs h.1.1), c.kept b h.1 ∙ h.2, c.linked);
      freed = rw e c.freed;
      counted = rw e c.counted;
      kept = λ p out. c.kept p out.1;
    }

  pub remove_from-Filtered :
      (fuel : ℕ) (m : Nodes A) (b : ℕ) (v : A) (xs : Cells A) (before : ℕ)
      → length xs < fuel
      → before < word
      → Linked m ((b, v) ∷ xs)
      → Returns (Filtered m b v xs before) (remove_from fuel m same b x before)
  unfolding remove_from
  remove_from-Filtered zero m b v xs before enough small h = absurd (omega arith)
  remove_from-Filtered (suc fuel) m b v [] before enough small h =
      rw (next_lem m b v [] h)
        (record { linked = h; freed = tt; counted = omega arith; kept = λ p out. refl })
  remove_from-Filtered (suc fuel) m b v ((a, w) ∷ xs) before enough small h =
      let some_a : (a == 0) ≡ false = let ne = h.3.0 in ground arith in
      let at_a = load_lem m a _ h.3.0 h.3.2 in
      let at_next : next m b ≡ ok a = next_lem m b v ((a, w) ∷ xs) h in
      rw (at_next, ◌>>=◌, some_a)
        (rw (at_next, ◌>>=◌, some_a, at_a)
          (elim (Bool-cases (same w x)) [
            | inl e ↦
                rw (e, erase_after_lem m b v a w xs h)
                  (Returns-mono (Filtered (erased m b v a xs) b v xs ((before + 1) % word))
                    (Filtered m b v ((a, w) ∷ xs) before) _
                    (remove_from-Filtered fuel (erased m b v a xs) b v xs ((before + 1) % word)
                      (omega arith) (omega arith) (erased-Linked m b v a w xs h))
                    λ r c. Filtered-match m b v a w xs before r e h c)
            | inr e ↦
                rw (e, increment_lem m b v ((a, w) ∷ xs) h)
                  (Returns-mono (Filtered m a w xs before) (Filtered m b v ((a, w) ∷ xs) before) _
                    (remove_from-Filtered fuel m a w xs before (omega arith) small h.3)
                    λ r c. Filtered-other m b v a w xs before r e h c)
          ]))

  -- On a list, `remove` returns with fuel for more than the number of nodes: the list keeps exactly
  -- the nodes whose values are not the same as the one given, in their order, the others are freed
  -- and counted in the answer modulo 2 ^ 32, and nothing outside of the list changes.
  pub remove-Filtered :
      (fuel : ℕ) (m : Nodes A) (b : ℕ) (v : A) (xs : Cells A)
      → length xs < fuel
      → Linked m ((b, v) ∷ xs)
      → Returns (Filtered m b v xs 0) (remove fuel m same b x)
  unfolding remove
  remove-Filtered fuel m b v xs enough h =
      remove_from-Filtered fuel m b v xs 0 enough (omega arith) h
