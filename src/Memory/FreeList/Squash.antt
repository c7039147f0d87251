-- ===== src/Memory/FreeList/Squash.antt =====
-- The branches of `FreeList::put` of kernel/memory/free_list.cpp that squash the frame with its buddy.
use mathlib.Core.List.{append_assoc}
use bolgenos_ng.Base.{
  ℕ, ◌-◌, ◌/◌, ◌<◌, ◌≡◌, ◌≢◌, refl, sym, subst, ◌∙◌, ◌⊎◌, inl, inr, true, false, List, [], ◌∷◌,
  ◌++◌, arith, ◌==◌, Bool-cases,
}
use native.Mathlib.Nat.{one-le-pow}
use bolgenos_ng.Memory.Machine.{Heap, write, Returns}
use bolgenos_ng.Memory.FreeList.{
  FreeList, page_size, are_consequent, finish, put_front, take_lesser, take_next, put_after,
}
use bolgenos_ng.Memory.FreeList.Chain.{Chain, Ascending, All-append_right, Rep, Chain-suffix}
use bolgenos_ng.Memory.FreeList.Outcome.{
  is_pair, lower, upper, Post, Apart-mid, finish-Post, link_front-Post, link_after-Post,
}
use bolgenos_ng.Memory.FreeList.Link.{
  write_ne, take_lesser-Rep, take_next-Rep, take_first-Rep, skip_first-Rep,
}

module _ (h : Heap) (fl : FreeList) (frame : ℕ) (pos : 0 < frame)
    (squash : fl.disable_squashing ≡ false) where
  keeps_nothing : (r : ℕ) → fl.disable_squashing ≡ true → r ≡ 0
  keeps_nothing r e = cc

  not_end : (first order : ℕ) → are_consequent first 0 order ≡ false
  unfolding are_consequent
  not_end first order = ground (arith, one-le-pow order 2, sub_zero)
    where
      sub_zero : (0 - first) / page_size ≡ 0
      sub_zero = omega arith

  pub put_front-Post :
      (xs : List ℕ)
      → Rep h fl xs
      → Ascending frame xs
      → Returns (Post h fl xs frame) (put_front fl frame h)
  unfolding put_front
  put_front-Post xs r above = elim (Bool-cases (is_pair fl.order frame fl.list)) [
    | inr e ↦ rw e (link_front-Post h fl frame pos xs r above)
    | inl e ↦ rw e (pair xs r above e)
  ]
    where
      pair :
          (xs : List ℕ)
          → Rep h fl xs
          → Ascending frame xs
          → is_pair fl.order frame fl.list ≡ true
          → Returns
              (Post h fl xs frame)
              (finish (record fl { list = h fl.list; items = fl.items - 1 }) h frame)
      pair [] r above e =
          let none_after : are_consequent frame fl.list fl.order ≡ false =
            rw r.chain (not_end frame fl.order) in
          absurd (ground (arith, none_after, e))
      pair (n ∷ suf) r above e =
          let r' = skip_first-Rep h fl n suf r in
          finish-Post h fl frame pos _ _ (n ∷ suf) suf frame r' (record {
            ys = suf;
            rep = r';
            same_order = refl;
            same_flag = refl;
            outside = λ a ne out. refl;
            outcome =
                upper [] n suf refl refl refl
                  (subst (λ p. is_pair fl.order frame p ≡ true) r.chain.0 e);
            keeps = keeps_nothing frame;
          })

  pub take_first-Post :
      (l : ℕ) (suf : List ℕ)
      → Rep h fl (l ∷ suf)
      → is_pair fl.order l frame ≡ true
      → Returns (Post h fl (l ∷ suf) frame) (take_lesser fl l 0 h)
  unfolding take_lesser
  take_first-Post l suf r e =
      let r' = take_first-Rep h fl l suf r in
      finish-Post h fl frame pos _ _ (l ∷ suf) suf l r' (record {
        ys = suf;
        rep = r';
        same_order = refl;
        same_flag = refl;
        outside = λ a ne out. write_ne h l 0 a out.0;
        outcome = lower [] suf refl refl e;
        keeps = keeps_nothing l;
      })

  pub take_lesser-Post :
      (p l : ℕ) (pre suf xs : List ℕ)
      → xs ≡ pre ++ p ∷ l ∷ suf
      → 0 < p
      → Rep h fl xs
      → is_pair fl.order l frame ≡ true
      → Returns (Post h fl xs frame) (take_lesser fl l p h)
  unfolding take_lesser
  take_lesser-Post p l pre suf xs at pos_p r e =
      let some_p : (p == 0) ≡ false = ground arith in
      let r' = take_lesser-Rep h fl p l pre suf (rw at at r) in
      rw some_p (
        finish-Post h fl frame pos _ _ xs (pre ++ p ∷ suf) l r' (record {
          ys = pre ++ p ∷ suf;
          rep = r';
          same_order = refl;
          same_flag = refl;
          outside = λ a ne out.
              let behind = All-append_right (λ y. a ≢ y) pre (p ∷ l ∷ suf) (rw at at out) in
              write_ne (write h p (h l)) l 0 a behind.1.0 ∙ write_ne h p (h l) a behind.0;
          outcome =
              lower (pre ++ p ∷ []) suf (at ∙ sym (append_assoc pre (p ∷ []) (l ∷ suf)))
                (sym (append_assoc pre (p ∷ []) suf)) e;
          keeps = keeps_nothing l;
        }))

  take_next-Post :
      (l : ℕ) (pre suf xs : List ℕ)
      → xs ≡ pre ++ l ∷ suf
      → Chain h (h l) suf
      → Ascending frame suf
      → Rep h fl xs
      → is_pair fl.order frame (h l) ≡ true
      → Returns (Post h fl xs frame) (take_next fl frame l (h l) h)
  unfolding take_next
  take_next-Post l pre [] xs at c above r e =
      let none_after : are_consequent frame (h l) fl.order ≡ false =
        rw c (not_end frame fl.order) in
      absurd (ground (arith, none_after, e))
  take_next-Post l pre (n ∷ suf) xs at c above r e =
      let some_n : (h l == 0) ≡ false = ground (arith, c.0, above.0) in
      let r' = take_next-Rep h fl l n pre suf (rw at at r) in
      rw (some_n, c.0)
        (finish-Post h fl frame pos _ _ xs (pre ++ l ∷ suf) frame r' (record {
          ys = pre ++ l ∷ suf;
          rep = r';
          same_order = refl;
          same_flag = refl;
          outside = λ a ne out. write_ne h l (h n) a (Apart-mid a pre l (n ∷ suf) (rw at at out));
          outcome =
              upper (pre ++ l ∷ []) n suf refl (at ∙ sym (append_assoc pre (l ∷ []) (n ∷ suf)))
                (sym (append_assoc pre (l ∷ []) suf))
                (subst (λ p. is_pair fl.order frame p ≡ true) c.0 e);
          keeps = keeps_nothing frame;
        }))

  -- The list has an item below the frame, behind `pre`.
  pub put_after-Post :
      (l prelast : ℕ) (pre suf xs : List ℕ)
      → xs ≡ pre ++ l ∷ suf
      → Rep h fl xs
      → l < frame
      → Ascending frame suf
      → Returns (Post h fl xs frame) (take_lesser fl l prelast h)
        ⊎ (is_pair fl.order l frame ≡ false)
      → Returns (Post h fl xs frame) (put_after fl frame l prelast h)
  unfolding put_after
  put_after-Post l prelast pre suf xs at r less above first =
      elim (Bool-cases (is_pair fl.order l frame)) [
        | inl e ↦ elim first [ inl done ↦ rw e done | inr no_pair ↦ cc ]
        | inr e ↦ rw e (elim (Bool-cases (is_pair fl.order frame (h l))) [
          | inl n ↦ rw n (
              take_next-Post l pre suf xs at
                (Chain-suffix h fl.list l pre suf (subst (Chain h fl.list) at r.chain)) above r n)
          | inr n ↦ rw n (link_after-Post h fl frame pos l pre suf xs at r less above)
        ])
      ]
