-- ===== src/Utils/CircularList/Remove.antt =====
-- `remove` of intrusive_circular_list.hpp.
use mathlib.Core.List.{append-nil}
use bolgenos_ng.Base.{
  ℕ, ◌≡◌, ◌≢◌, refl, sym, ◌∙◌, true, false, List, [], ◌∷◌, ◌++◌, arith, ◌==◌, if◌then◌else◌, subst,
}
use bolgenos_ng.Base.All.{
  All, Apart, Distinct, All-both, All-append, All-append_left, All-append_right, Distinct-split,
  Distinct-append,
}
use bolgenos_ng.Memory.Machine.{ok, Returns, ok-Returns}
use bolgenos_ng.Utils.CircularList.{Links, update, get_next, get_prev, set_next, set_prev, remove}
use bolgenos_ng.Utils.CircularList.Ring.{
  Arc, Ring, head_or, last_or, update_self, update_ne, Arc-head, Arc-last, Arc-same, Arc-split,
  Apart-flip, head_or-ne, head_or-some, last_or-ne, last_or-some,
}
use bolgenos_ng.Utils.CircularList.Insert.{SameLinks}

-- The links after `v` is taken from between `l` and `h`.
abbrev pub unlinked : Links → (v l h : ℕ) → Links
unlinked m v l h = record {
  next = update (update m.next l h) v 0;
  prev = update (update m.prev h l) v 0;
}

module _ (m : Links) (v : ℕ) where
  next_ne : (l h p : ℕ) → p ≢ v → p ≢ l → (unlinked m v l h).next p ≡ m.next p
  next_ne l h p a b = update_ne _ v 0 p a ∙ update_ne m.next l h p b

  prev_ne : (l h p : ℕ) → p ≢ v → p ≢ h → (unlinked m v l h).prev p ≡ m.prev p
  prev_ne l h p a b = update_ne _ v 0 p a ∙ update_ne m.prev h l p b

  next_at : (l h : ℕ) → l ≢ v → (unlinked m v l h).next l ≡ h
  next_at l h a = update_ne _ v 0 l a ∙ update_self m.next l h

  prev_at : (l h : ℕ) → h ≢ v → (unlinked m v l h).prev h ≡ l
  prev_at l h a = update_ne _ v 0 h a ∙ update_self m.prev h l

  -- Behind the gap.
  after_gap :
      (a : ℕ) (ys : List ℕ) (z : ℕ)
      → a ≢ v
      → z ≢ v
      → Apart v ys
      → Apart a ys
      → Apart z ys
      → Distinct ys
      → Arc m v ys z
      → Arc (unlinked m v a (head_or ys z)) a ys z
  after_gap a [] z a_v z_v out_v out_a out_z once h = (next_at a z a_v, prev_at a z z_v)
  after_gap a (y ∷ ys) z a_v z_v out_v out_a out_z once h =
      let y_v : y ≢ v = λ e. out_v.0 (sym e) in
      let others = Apart-flip v ys out_v.1 in
      (
        next_at a y a_v,
        prev_at a y y_v,
        Arc-same m _ y ys z (next_ne a y y y_v (λ e. out_a.0 (sym e)))
            (All-both _ _ _ ys (λ x p q. next_ne a y x p q) others (Apart-flip a ys out_a.1))
            (All-both _ _ _ ys (λ x p q. prev_ne a y x p q) others (Apart-flip y ys once.0))
            (prev_ne a y z z_v out_z.0) h.2,
      )

  -- What the objects before the gap have to be apart from.
  abbrev Before : List ℕ → ℕ → ℕ → Type 0
  Before ys z x = (x ≢ v) × (x ≢ z) × Apart x ys

  Arc-over_gap :
      (a : ℕ) (xs ys : List ℕ) (z : ℕ)
      → (a ≢ v) × Apart a ys
      → Distinct (a ∷ xs)
      → All (Before ys z) xs
      → z ≢ v
      → Apart v ys
      → Apart z ys
      → Distinct ys
      → Arc m a xs v
      → Arc m v ys z
      → Arc (unlinked m v (last_or a xs) (head_or ys z)) a (xs ++ ys) z
  Arc-over_gap a [] ys z start once before z_v out_v out_z once' h k =
      after_gap a ys z start.0 z_v out_v start.1 out_z once' k
  Arc-over_gap a (x ∷ xs) ys z start once before z_v out_v out_z once' h k =
      let (x_v, x_z, x_ys) = before.0 in
      (
        next_ne _ _ a start.0 (last_or-ne a x xs once.0.0 once.0.1) ∙ h.0,
        prev_ne _ _ x x_v (head_or-ne x ys z x_ys x_z) ∙ h.1,
        Arc-over_gap x xs ys z (x_v, x_ys) once.1 before.1 z_v out_v out_z once' h.2 k,
      )

  remove_lem :
      (some : ℕ)
      → v ≢ 0
      → m.next v ≢ 0
      → m.prev v ≢ 0
      → v ≢ m.next v
      → v ≢ m.prev v
      → remove m some v
        ≡ ok ((unlinked m v (m.prev v) (m.next v), if some == v then m.next v else some), m.next v)
  unfolding remove get_next get_prev set_next set_prev
  remove_lem some some_v some_n some_p v_n v_p =
      let t : (v == 0) ≡ false = ground arith in
      let u : (m.next v == 0) ≡ false = ground arith in
      let w : (m.prev v == 0) ≡ false = ground arith in
      let x : (v == m.next v) ≡ false = ground arith in
      simp (t, u, w, x, update_ne m.next (m.prev v) (m.next v) v v_p)

-- What `remove` makes of a list that holds `v` between `pre` and `suf`.
pub record Removed (m : Links) (pre : List ℕ) (v : ℕ) (suf : List ℕ) (r : (Links × ℕ) × ℕ)
    : Type 0 where
  pub ring : Ring r.0.0 r.0.1 (pre ++ suf)
  pub cleared : (r.0.0.next v ≡ 0) × (r.0.0.prev v ≡ 0)
  pub returned : r.1 ≡ head_or suf (head_or pre 0)
  pub kept : SameLinks (pre ++ v ∷ suf) m r.0.0

unlinked_cleared :
    (m : Links) (v l h : ℕ) → ((unlinked m v l h).next v ≡ 0) × ((unlinked m v l h).prev v ≡ 0)
unlinked_cleared m v l h = (update_self _ v 0, update_self _ v 0)

across_flip : (v : ℕ) (suf xs : List ℕ) → All (λ x. Apart x (v ∷ suf)) xs → Apart v xs
across_flip v suf [] h = tt
across_flip v suf (x ∷ xs) h = ((λ e. h.0.0 (sym e)), across_flip v suf xs h.1)

across_tail :
    (v : ℕ) (suf xs : List ℕ) → All (λ x. Apart x (v ∷ suf)) xs → All (λ x. Apart x suf) xs
across_tail v suf [] h = tt
across_tail v suf (x ∷ xs) h = (h.0.1, across_tail v suf xs h.1)

remove_only :
    (m : Links) (some v : ℕ) → Ring m some (v ∷ []) → Returns (Removed m [] v []) (remove m some v)
unfolding remove get_next set_next set_prev
remove_only m some v h =
    let (at_v, arc, once, nonnull) = h in
    let t : (v == 0) ≡ false = let ne = nonnull.0 in ground arith in
    let u : (v == v) ≡ true = ground arith in
    rw (t, arc.0, u)
      (record {
        ring = refl;
        cleared = (update_self m.next v 0, update_self m.prev v 0);
        returned = refl;
        kept = λ p out. (update_ne m.next v 0 p out.0, update_ne m.prev v 0 p out.0);
      })

remove_first :
    (m : Links) (some v s : ℕ) (suf : List ℕ)
    → Ring m some (v ∷ s ∷ suf)
    → Returns (Removed m [] v (s ∷ suf)) (remove m some v)
remove_first m some v s suf h =
    let (at_v, arc, once, nonnull) = h in
    let l = last_or s suf in
    let p : m.prev v ≡ l = Arc-last m s suf v arc.2 in
    let v_l = last_or-ne v s suf once.0.0 once.0.1 in
    let some_l = last_or-some s suf nonnull.1.0 nonnull.1.1 in
    let u : (v == v) ≡ true = ground arith in
    let s_v : s ≢ v = λ e. once.0.0 (sym e) in
    let s_suf = Apart-flip s suf once.1.0 in
    let open_arc =
      Arc-over_gap m v s suf [] s (s_v, tt) once.1
        (All-both _ _ (Before m v [] s) suf (λ x a b. (a, b, tt)) (Apart-flip v suf once.0.1) s_suf)
        s_v tt tt tt arc.2 (arc.0, arc.1) in
    rw at_v (
      ok-Returns _ _ _
        (remove_lem m v v nonnull.0 (λ e. nonnull.1.0 (sym arc.0 ∙ e)) (λ e. some_l (sym p ∙ e))
          (λ e. once.0.0 (e ∙ arc.0)) (λ e. v_l (e ∙ p)))
        (rw (u, p, arc.0)
          (record {
            ring = (
              refl,
              subst (λ xs. Arc (unlinked m v l s) s xs s) (append-nil suf) open_arc,
              once.1,
              nonnull.1,
            );
            cleared = unlinked_cleared m v l s;
            returned = refl;
            kept = λ q out. (
              next_ne m v l s q out.0 (last_or-ne q s suf out.1.0 out.1.1),
              prev_ne m v l s q out.0 out.1.0,
            );
          })))

remove_later :
    (m : Links) (some s : ℕ) (pre : List ℕ) (v : ℕ) (suf : List ℕ)
    → Ring m some (s ∷ pre ++ v ∷ suf)
    → Returns (Removed m (s ∷ pre) v suf) (remove m some v)
remove_later m some s pre v suf h =
    let (at_s, arc, once, nonnull) = h in
    let (arc_pre, arc_suf) = Arc-split m s pre v suf s arc in
    let (once_pre, once_suf, across) = Distinct-split (s ∷ pre) (v ∷ suf) once in
    let l = last_or s pre in
    let f = head_or suf s in
    let p : m.prev v ≡ l = Arc-last m s pre v arc_pre in
    let n : m.next v ≡ f = Arc-head m v suf s arc_suf in
    let s_v : s ≢ v = across.0.0 in
    let v_s : v ≢ s = λ e. s_v (sym e) in
    let nonnull_pre = All-append_left _ pre (v ∷ suf) nonnull.1 in
    let nonnull_suf = All-append_right _ pre (v ∷ suf) nonnull.1 in
    let some_l = last_or-some s pre nonnull.0 nonnull_pre in
    let some_f = head_or-some suf s nonnull.0 nonnull_suf.1 in
    let v_pre : Apart v pre = across_flip v suf pre across.1 in
    let v_l = last_or-ne v s pre v_s v_pre in
    let v_f = head_or-ne v suf s once_suf.0 v_s in
    let t : (s == v) ≡ false = ground arith in
    let new_arc =
      Arc-over_gap m v s pre suf s across.0 once_pre
        (All-both _ _ (Before m v suf s) pre (λ x a b. (a.0, b, a.1)) across.1
          (Apart-flip s pre once_pre.0))
        s_v once_suf.0 across.0.1 once_suf.1 arc_pre arc_suf in
    rw at_s (
      ok-Returns _ _ _
        (remove_lem m v s nonnull_suf.0 (λ e. some_f (sym n ∙ e)) (λ e. some_l (sym p ∙ e))
          (λ e. v_f (e ∙ n)) (λ e. v_l (e ∙ p)))
        (rw (t, n, p)
          (record {
            ring = (
              refl,
              new_arc,
              Distinct-append (s ∷ pre) suf once_pre once_suf.1
                  (across_tail v suf (s ∷ pre) across),
              (nonnull.0, All-append _ pre suf nonnull_pre nonnull_suf.1),
            );
            cleared = unlinked_cleared m v l f;
            returned = refl;
            kept = λ q out.
                let left = All-append_left _ pre (v ∷ suf) out.1 in
                let right = All-append_right _ pre (v ∷ suf) out.1 in
                (
                  next_ne m v l f q right.0 (last_or-ne q s pre out.0 left),
                  prev_ne m v l f q right.0 (head_or-ne q suf s right.1 out.0),
                );
          })))

-- On a circular list, removing any of its objects returns and leaves a circular list of the others
-- in the same order. The links of the object are null, the answer is the one after it or null for
-- the last one, and the links of all other objects are as they were.
pub remove-Removed :
    (m : Links) (some : ℕ) (pre : List ℕ) (v : ℕ) (suf : List ℕ)
    → Ring m some (pre ++ v ∷ suf)
    → Returns (Removed m pre v suf) (remove m some v)
remove-Removed m some [] v [] h = remove_only m some v h
remove-Removed m some [] v (s ∷ suf) h = remove_first m some v s suf h
remove-Removed m some (s ∷ pre) v suf h = remove_later m some s pre v suf h
