-- ===== src/Memory/FreeList/Find.antt =====
-- `find_last_lesser` of kernel/memory/free_list.cpp.
use mathlib.Core.List.{append_assoc}
use bolgenos_ng.Base.{
  ℕ, zero, suc, ◌<◌, ◌≡◌, refl, sym, ◌∙◌, true, false, not, ◌&&◌, List, [], ◌∷◌, ◌++◌, arith, ltb,
  ◌==◌, length, dec_lt,
}
use bolgenos_ng.Memory.Machine.{Heap, Returns}
use bolgenos_ng.Memory.FreeList.{find_last_lesser}
use bolgenos_ng.Memory.FreeList.Chain.{Apart, Chain, Ascending}

-- The last two items of `pre` as the two pointers of the loop, null where there is none.
pub data Tail (frame : ℕ) (pre : List ℕ) (last prelast : ℕ) : Type 0 where
  nothing : pre ≡ [] → last ≡ 0 → prelast ≡ 0 → Tail frame pre last prelast
  single : pre ≡ last ∷ [] → prelast ≡ 0 → last < frame → Tail frame pre last prelast
  several :
      (front : List ℕ)
      → pre ≡ front ++ prelast ∷ last ∷ []
      → last < frame
      → Tail frame pre last prelast

pub record Found (frame : ℕ) (xs : List ℕ) (found : ℕ × ℕ) : Type 0 where
  pub pre : List ℕ
  pub suf : List ℕ
  pub split : xs ≡ pre ++ suf
  pub tail : Tail frame pre found.0 found.1
  pub above : Ascending frame suf

Tail-next :
    (frame last prelast x : ℕ) (pre : List ℕ)
    → x < frame
    → Tail frame pre last prelast
    → Tail frame (pre ++ x ∷ []) x last
Tail-next frame last prelast x pre less (nothing e l p) = single (rw e refl) l less
Tail-next frame last prelast x pre less (single e p b) = several [] (rw e refl) less
Tail-next frame last prelast x pre less (several front e b) =
    several (front ++ prelast ∷ []) (rw e (simp append_assoc)) less

find_last_lesser-Found :
    (h : Heap) (frame : ℕ) (xs : List ℕ) (fuel item last prelast low : ℕ) (pre suf : List ℕ)
    → xs ≡ pre ++ suf
    → Tail frame pre last prelast
    → Chain h item suf
    → Ascending low suf
    → Apart frame suf
    → length suf < fuel
    → Returns (Found frame xs) (find_last_lesser fuel h frame item last prelast)
unfolding find_last_lesser
find_last_lesser-Found h frame xs zero item last prelast low pre suf e t c a ap_ f =
    absurd (omega arith)
find_last_lesser-Found h frame xs (suc fuel) item last prelast low pre [] e t c a out f =
    let halt : (not (item == 0) && ltb item frame) ≡ false = ground arith in
    rw halt (record { pre = pre; suf = []; split = e; tail = t; above = tt })
find_last_lesser-Found h frame xs (suc fuel) item last prelast low pre (x ∷ suf) e t c a out f =
    elim (dec_lt x frame) [
      | yes less ↦
          let go : (not (item == 0) && ltb item frame) ≡ true = ground arith in
          rw go (
            rw c.0 (
              find_last_lesser-Found h frame xs fuel (h x) x last x (pre ++ x ∷ []) suf
                (e ∙ sym (append_assoc pre (x ∷ []) suf))
                (Tail-next frame last prelast x pre less t) c.1 a.1 out.1 (omega arith)))
      | no more ↦
          let halt : (not (item == 0) && ltb item frame) ≡ false = ground arith in
          rw halt
            (record { pre = pre; suf = x ∷ suf; split = e; tail = t; above = (omega arith, a.1) })
    ]

-- On an ascending list without the new frame, with fuel for more than its items, the search returns
-- the last two items below the frame, null where there is none, and the items behind them are all
-- above the frame.
pub find_last_lesser_lem :
    (h : Heap) (frame item : ℕ) (xs : List ℕ) (fuel : ℕ)
    → Chain h item xs
    → Ascending 0 xs
    → Apart frame xs
    → length xs < fuel
    → Returns (Found frame xs) (find_last_lesser fuel h frame item 0 0)
find_last_lesser_lem h frame item xs fuel c a out f =
    find_last_lesser-Found h frame xs fuel item 0 0 0 [] xs refl (nothing refl refl refl) c a out f
