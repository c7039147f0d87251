-- ===== src/Memory/FreeList/Put.antt =====
-- `FreeList::put` of kernel/memory/free_list.cpp as a whole.
use mathlib.Core.List.{append_assoc}
use bolgenos_ng.Base.{
  ℕ, ◌+◌, ◌<◌, ◌≡◌, ◌≢◌, refl, sym, subst, ap, ◌∙◌, ◌⊎◌, inl, inr, true, false, List, [], ◌∷◌, ◌++◌,
  arith, ◌==◌, Bool-cases,
}
use bolgenos_ng.Memory.Machine.{Heap, write, Returns, Returns-bind, Returns-mono, ok-Returns}
use bolgenos_ng.Memory.FreeList.{FreeList, finish, take_lesser, choose, put_into, put}
use bolgenos_ng.Memory.FreeList.Chain.{Apart, Ascending, Rep, Chain-write, Ascending-suffix}
use bolgenos_ng.Memory.FreeList.Sanity.{finish-ok}
use bolgenos_ng.Memory.FreeList.Find.{Found, Tail, nothing, single, several, find_last_lesser_lem}
use bolgenos_ng.Memory.FreeList.Outcome.{is_pair, inserted, Post, link_front-Post, link_after-Post}
use bolgenos_ng.Memory.FreeList.Squash.{
  put_front-Post, take_first-Post, take_lesser-Post, put_after-Post,
}
use bolgenos_ng.Memory.FreeList.Link.{write_ne}

module _ (h : Heap) (fl : FreeList) (frame : ℕ) (pos : 0 < frame) where
  put_behind :
      (l prelast : ℕ) (pre suf xs : List ℕ)
      → xs ≡ pre ++ l ∷ suf
      → Rep h fl xs
      → l < frame
      → Ascending frame suf
      → (fl.disable_squashing ≡ false
          → Returns (Post h fl xs frame) (take_lesser fl l prelast h)
            ⊎ (is_pair fl.order l frame ≡ false))
      → Returns (Post h fl xs frame) (choose fl frame l prelast h)
  unfolding choose
  put_behind l prelast pre suf xs at r less above first =
      let low = (Ascending-suffix 0 l pre suf (subst (Ascending 0) at r.ascending)).0 in
      let some_l : (l == 0) ≡ false = ground arith in
      elim (Bool-cases fl.disable_squashing) [
        | inl d ↦ simp (d, some_l) (link_after-Post h fl frame pos l pre suf xs at r less above)
        | inr d ↦
            simp (d, some_l)
              (put_after-Post h fl frame pos d l prelast pre suf xs at r less above (first d))
      ]

  put_found :
      (xs : List ℕ) (last prelast : ℕ) (pre suf : List ℕ)
      → Rep h fl xs
      → xs ≡ pre ++ suf
      → Tail frame pre last prelast
      → Ascending frame suf
      → Returns (Post h fl xs frame) (choose fl frame last prelast h)
  unfolding choose
  put_found xs last prelast pre suf r at (nothing e l p) above =
      let above_xs : Ascending frame xs = rw (at, e) above in
      let none_l : (last == 0) ≡ true = ground arith in
      elim (Bool-cases fl.disable_squashing) [
        | inl d ↦ simp (d, none_l) (link_front-Post h fl frame pos xs r above_xs)
        | inr d ↦ simp (d, none_l) (put_front-Post h fl frame pos d xs r above_xs)
      ]
  put_found xs last prelast pre suf r at (single e p less) above =
      let here : xs ≡ last ∷ suf = at ∙ ap (λ zs. zs ++ suf) e in
      put_behind last prelast [] suf xs here r less above λ d.
        elim (Bool-cases (is_pair fl.order last frame)) [
          | inl y ↦
              inl (
                rw (p, here)
                  (take_first-Post h fl frame pos d last suf (subst (Rep h fl) here r) y))
          | inr n ↦ inr n
        ]
  put_found xs last prelast pre suf r at (several front e less) above =
      let here : xs ≡ front ++ prelast ∷ last ∷ suf =
        at ∙ ap (λ zs. zs ++ suf) e ∙ append_assoc front (prelast ∷ last ∷ []) suf in
      let low =
        (Ascending-suffix 0 prelast front (last ∷ suf) (subst (Ascending 0) here r.ascending)).0 in
      put_behind last prelast (front ++ prelast ∷ []) suf xs
        (here ∙ sym (append_assoc front (prelast ∷ []) (last ∷ suf))) r less above
        λ d. elim (Bool-cases (is_pair fl.order last frame)) [
          | inl y ↦ inl (take_lesser-Post h fl frame pos d prelast last front suf xs here low r y)
          | inr n ↦ inr n
        ]

  put_into-Post :
      (xs : List ℕ)
      → Rep h fl xs
      → Apart frame xs
      → Returns (Post h fl xs frame) (put_into fl frame h)
  unfolding put_into
  put_into-Post xs r out =
      Returns-bind (Found frame xs) (Post h fl xs frame) _ _
        (find_last_lesser_lem h frame fl.list xs (fl.items + 1) r.chain r.ascending out
          (omega (arith, r.counted)))
        λ (last, prelast) found.
          put_found xs last prelast found.pre found.suf r found.split found.tail found.above

put_empty :
    (h : Heap) (fl : FreeList) (frame : ℕ) (xs : List ℕ)
    → Rep h fl xs
    → 0 < frame
    → (fl.list == 0) ≡ true
    → Returns
        (Post h fl xs frame)
        (finish (record fl { list = frame; items = fl.items + 1 }) (write h frame 0) 0)
put_empty h fl frame [] r pos e =
    let r' : Rep (write h frame 0) (record fl { list = frame; items = fl.items + 1 }) (frame ∷ []) =
      record {
        chain = (refl, unfold write in ground arith);
        ascending = (pos, tt);
        counted = omega (arith, r.counted);
      } in
    ok-Returns _ _ _ (finish-ok (write h frame 0) _ (frame ∷ []) 0 r') (record {
      ys = frame ∷ [];
      rep = r';
      same_order = refl;
      same_flag = refl;
      outside = λ a ne out. write_ne h frame 0 a ne;
      outcome = inserted [] [] refl refl refl;
      keeps = λ _. refl;
    })
put_empty h fl frame (x ∷ xs) r pos e = absurd (ground (arith, r.chain.0, r.ascending.0))

pub put-Post :
    (h : Heap) (fl : FreeList) (frame : ℕ) (xs : List ℕ)
    → Rep h fl xs
    → frame ≢ 0
    → Apart frame xs
    → Returns (Post h fl xs frame) (put fl frame h)
unfolding put
put-Post h fl frame xs r ne out =
    let some_frame : (frame == 0) ≡ false = ground arith in
    let pos : 0 < frame = omega arith in
    rw some_frame (elim (Bool-cases (fl.list == 0)) [
      | inl e ↦ rw e (put_empty h fl frame xs r pos e)
      | inr e ↦ rw e (
          Returns-mono _ _ (put_into fl frame (write h frame 0))
            (put_into-Post (write h frame 0) fl frame pos xs
              (record {
                chain = Chain-write h frame 0 fl.list xs out r.chain;
                ascending = r.ascending;
                counted = r.counted;
              })
              out)
            λ q post. record {
              ys = post.ys;
              rep = post.rep;
              same_order = post.same_order;
              same_flag = post.same_flag;
              outside = λ a off apart. post.outside a off apart ∙ write_ne h frame 0 a off;
              outcome = post.outcome;
              keeps = post.keeps;
            })
    ])
