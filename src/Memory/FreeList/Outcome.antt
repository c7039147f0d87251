-- ===== src/Memory/FreeList/Outcome.antt =====
-- What `FreeList::put` of kernel/memory/free_list.cpp makes of a list, and the branches that link the
-- frame in.
use mathlib.Core.List.{append_assoc}
use bolgenos_ng.Base.{ℕ, ◌<◌, ◌≡◌, ◌≢◌, refl, sym, ◌∙◌, Bool, true, ◌&&◌, List, [], ◌∷◌, ◌++◌}
use bolgenos_ng.Memory.Machine.{Heap, write, Returns, ok-Returns}
use bolgenos_ng.Memory.FreeList.{
  FreeList, are_consequent, is_the_first_in_buddy, finish, link_front, link_after,
}
use bolgenos_ng.Memory.FreeList.Chain.{Apart, Ascending, All-append_right, Rep}
use bolgenos_ng.Memory.FreeList.Sanity.{finish-ok}
use bolgenos_ng.Memory.FreeList.Link.{write_ne, link_after-Rep, link_front-Rep}

abbrev pub is_pair : ℕ → ℕ → ℕ → Bool
is_pair order first second = are_consequent first second order && is_the_first_in_buddy first order

-- What `put` of `frame` makes of the items `xs`: the items `ys`, and the frame that it returns.
pub data Outcome (order : ℕ) (frame : ℕ) (xs ys : List ℕ) (result : ℕ) : Type 0 where
  inserted :
      (pre suf : List ℕ)
      → result ≡ 0
      → xs ≡ pre ++ suf
      → ys ≡ pre ++ frame ∷ suf
      → Outcome order frame xs ys result
  lower :
      (pre suf : List ℕ)
      → xs ≡ pre ++ result ∷ suf
      → ys ≡ pre ++ suf
      → is_pair order result frame ≡ true
      → Outcome order frame xs ys result
  upper :
      (pre : List ℕ) (n : ℕ) (suf : List ℕ)
      → result ≡ frame
      → xs ≡ pre ++ n ∷ suf
      → ys ≡ pre ++ suf
      → is_pair order frame n ≡ true
      → Outcome order frame xs ys result

pub record Post (h : Heap) (fl : FreeList) (xs : List ℕ) (frame : ℕ) (r : FreeList × Heap × ℕ)
    : Type 0 where
  pub ys : List ℕ
  pub rep : Rep r.1 r.0 ys
  pub same_order : r.0.order ≡ fl.order
  pub same_flag : r.0.disable_squashing ≡ fl.disable_squashing
  pub outside : (a : ℕ) → a ≢ frame → Apart a xs → r.1 a ≡ h a
  pub outcome : Outcome fl.order frame xs ys r.2
  pub keeps : fl.disable_squashing ≡ true → r.2 ≡ 0

-- An item of a list is not a value apart from it.
pub Apart-mid : (a : ℕ) (pre : List ℕ) (x : ℕ) (suf : List ℕ) → Apart a (pre ++ x ∷ suf) → a ≢ x
Apart-mid a pre x suf h = (All-append_right (λ y. a ≢ y) pre (x ∷ suf) h).0

module _ (h : Heap) (fl : FreeList) (frame : ℕ) (pos : 0 < frame) where
  pub finish-Post :
      (g : Heap) (fl' : FreeList) (xs ys : List ℕ) (result : ℕ)
      → Rep g fl' ys
      → Post h fl xs frame (fl', g, result)
      → Returns (Post h fl xs frame) (finish fl' g result)
  finish-Post g fl' xs ys result r p = ok-Returns _ _ _ (finish-ok g fl' ys result r) p

  pub link_front-Post :
      (xs : List ℕ)
      → Rep h fl xs
      → Ascending frame xs
      → Returns (Post h fl xs frame) (link_front fl frame h)
  unfolding link_front
  link_front-Post xs r above =
      let r' = link_front-Rep h fl frame xs r pos above in
      finish-Post _ _ xs (frame ∷ xs) 0 r' (record {
        ys = frame ∷ xs;
        rep = r';
        same_order = refl;
        same_flag = refl;
        outside = λ a ne out. write_ne h frame fl.list a ne;
        outcome = inserted [] xs refl refl refl;
        keeps = λ _. refl;
      })

  pub link_after-Post :
      (l : ℕ) (pre suf xs : List ℕ)
      → xs ≡ pre ++ l ∷ suf
      → Rep h fl xs
      → l < frame
      → Ascending frame suf
      → Returns (Post h fl xs frame) (link_after fl frame l h)
  unfolding link_after
  link_after-Post l pre suf xs e r less above =
      let r' = link_after-Rep h fl frame l pre suf (rw e at r) less above in
      finish-Post _ _ xs (pre ++ l ∷ frame ∷ suf) 0 r' (record {
        ys = pre ++ l ∷ frame ∷ suf;
        rep = r';
        same_order = refl;
        same_flag = refl;
        outside = λ a ne out.
            write_ne (write h frame (h l)) l frame a (Apart-mid a pre l suf (rw e at out))
            ∙ write_ne h frame (h l) a ne;
        outcome =
            inserted (pre ++ l ∷ []) suf refl (e ∙ sym (append_assoc pre (l ∷ []) suf))
              (sym (append_assoc pre (l ∷ []) (frame ∷ suf)));
        keeps = λ _. refl;
      })
