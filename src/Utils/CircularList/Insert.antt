-- ===== src/Utils/CircularList/Insert.antt =====
-- `insert` of intrusive_circular_list.hpp: the new object comes second, behind `_some`.
use bolgenos_ng.Base.{ℕ, ◌≡◌, ◌≢◌, refl, sym, ◌∙◌, false, List, [], ◌∷◌, arith, ◌==◌}
use bolgenos_ng.Base.All.{Apart, Distinct, All-both, All-map}
use bolgenos_ng.Memory.Machine.{ok, Returns, ok-Returns}
use bolgenos_ng.Utils.CircularList.{Links, update, get_next, set_next, set_prev, insert}
use bolgenos_ng.Utils.CircularList.Ring.{
  Arc, Ring, head_or, update_self, update_ne, Arc-head, Arc-same, Apart-flip, head_or-ne,
  head_or-some,
}

abbrev pub second : ℕ → List ℕ → List ℕ
second v [] = v ∷ []
second v (x ∷ xs) = x ∷ v ∷ xs

-- `g` has the links of `m` but at the objects `xs`.
abbrev pub SameLinks : List ℕ → Links → Links → Type 0
SameLinks xs m g = (p : ℕ) → Apart p xs → (g.next p ≡ m.next p) × (g.prev p ≡ m.prev p)

-- What `insert` makes of a list that holds `xs`.
pub record Inserted (m : Links) (xs : List ℕ) (v : ℕ) (r : Links × ℕ) : Type 0 where
  pub ring : Ring r.0 r.1 (second v xs)
  pub kept : SameLinks (v ∷ xs) m r.0

-- The links after `v` is put between `s` and `n`.
abbrev between : Links → (s v n : ℕ) → Links
between m s v n = record {
  next = update (update m.next v n) s v;
  prev = update (update m.prev v s) n v;
}

alone : (m : Links) (v : ℕ) → v ≢ 0 → Returns (Inserted m [] v) (insert m 0 v)
unfolding insert set_prev set_next
alone m v some_v =
    let t : (v == 0) ≡ false = ground arith in
    rw t (record {
      ring = (refl, (update_self m.next v v, update_self m.prev v v), (tt, tt), (some_v, tt));
      kept = λ p out. (update_ne m.next v v p out.0, update_ne m.prev v v p out.0);
    })

insert_lem :
    (m : Links) (s v : ℕ)
    → s ≢ 0
    → v ≢ 0
    → s ≢ v
    → m.next s ≢ 0
    → insert m s v ≡ ok (between m s v (m.next s), s)
unfolding insert set_prev set_next get_next
insert_lem m s v some_s some_v apart some_n =
    let t : (s == 0) ≡ false = ground arith in
    let u : (v == 0) ≡ false = ground arith in
    let w : (m.next s == 0) ≡ false = ground arith in
    simp (t, u, update_ne m.next v (m.next s) s apart, w)

-- The new arc, from `v` on.
Arc-behind :
    (m : Links) (s v : ℕ) (xs : List ℕ)
    → v ≢ s
    → Apart v xs
    → Distinct (s ∷ xs)
    → Arc m s xs s
    → Arc (between m s v (head_or xs s)) v xs s
Arc-behind m s v [] ne out once h =
    (update_ne _ s v v ne ∙ update_self m.next v s, update_self _ s v)
Arc-behind m s v (x ∷ xs) ne out once h =
    let (s_x, s_xs) = once.0 in
    let out_s = Apart-flip s xs s_xs in
    let out_v = Apart-flip v xs out.1 in
    let out_x = Apart-flip x xs once.1.0 in
    (
      update_ne _ s v v ne ∙ update_self m.next v x,
      update_self _ x v,
      Arc-same m _ x xs s
          (update_ne _ s v x (λ e. s_x (sym e)) ∙ update_ne m.next v x x (λ e. out.0 (sym e)))
          (All-both _ _ _ xs (λ y a b. update_ne _ s v y a ∙ update_ne m.next v x y b) out_s out_v)
          (All-both _ _ _ xs (λ y a b. update_ne _ x v y a ∙ update_ne m.prev v s y b) out_x out_v)
          (update_ne _ x v s s_x ∙ update_ne m.prev v s s (λ e. ne (sym e))) h.2,
    )

-- Inserting an object that is not null and not in a circular list returns and leaves a circular
-- list with it: alone in an empty list, in the second place of another. The links of objects
-- outside are as they were.
pub insert-Inserted :
    (m : Links) (some v : ℕ) (xs : List ℕ)
    → v ≢ 0
    → Apart v xs
    → Ring m some xs
    → Returns (Inserted m xs v) (insert m some v)
insert-Inserted m some v [] some_v out h = rw h (alone m v some_v)
insert-Inserted m some v (s ∷ xs) some_v out h =
    let (at_s, arc, once, nonnull) = h in
    let apart : s ≢ v = λ e. out.0 (sym e) in
    let n = Arc-head m s xs s arc in
    let some_n : m.next s ≢ 0 = λ e. head_or-some xs s nonnull.0 nonnull.1 (sym n ∙ e) in
    let n_v : v ≢ head_or xs s = head_or-ne v xs s out.1 out.0 in
    rw at_s (
      ok-Returns _ _ _ (insert_lem m s v nonnull.0 some_v apart some_n) (
        rw n (record {
          ring = (
            refl,
            (
              update_self _ s v,
              update_ne _ (head_or xs s) v v n_v ∙ update_self m.prev v s,
              Arc-behind m s v xs out.0 out.1 once arc,
            ),
            ((apart, once.0), (out.1, once.1)),
            (nonnull.0, (some_v, nonnull.1)),
          );
          kept = λ p o. (
            update_ne _ s v p o.1.0 ∙ update_ne m.next v _ p o.0,
            update_ne _ (head_or xs s) v p (head_or-ne p xs s o.1.1 o.1.0)
                ∙ update_ne m.prev v s p o.0,
          );
        })))

-- The links of an object that is not in the list do not matter to it.
pub Ring-reset :
    (m : Links) (some v a b : ℕ) (xs : List ℕ)
    → Apart v xs
    → Ring m some xs
    → Ring (record { next = update m.next v a; prev = update m.prev v b }) some xs
Ring-reset m some v a b [] out h = h
Ring-reset m some v a b (x ∷ xs) out h =
    let others = Apart-flip v xs out.1 in
    let x_v : x ≢ v = λ e. out.0 (sym e) in
    (
      h.0,
      Arc-same m _ x xs x (update_ne m.next v a x x_v)
          (All-map _ _ xs (λ y ne. update_ne m.next v a y ne) others)
          (All-map _ _ xs (λ y ne. update_ne m.prev v b y ne) others) (update_ne m.prev v b x x_v)
          h.1,
      h.2,
      h.3,
    )
