-- ===== src/Memory/Buddy/Invariant.antt =====
-- What holds of the buddy allocator of kernel/memory/buddy_allocator.cpp between two calls: every
-- list is well formed and of its order, its frames are aligned, and no page is held twice.
use bolgenos_ng.Base.{
  ℕ, zero, suc, ◌≤◌, ◌<◌, ◌≡◌, ◌≢◌, refl, ap, ◌∙◌, true, false, List, [], ◌∷◌, arith, ◌==◌, set,
  ℕ_discrete,
}
use bolgenos_ng.Memory.Machine.{Heap, ok}
use bolgenos_ng.Memory.FreeList.{FreeList}
use bolgenos_ng.Memory.FreeList.Chain.{All, All-map, Apart, Rep, Chain-frame}
use bolgenos_ng.Memory.Buddy.{BuddyAllocator, max_order, list_at}
use bolgenos_ng.Memory.Buddy.Cover.{
  page_of, cover, total, update, Aligned, cover-add-le-total, item-cover, cover-zero-Apart,
}

abbrev pub lists : ℕ
lists = 11

-- The list of order `k` on the memory `h` holds the frames `xs`.
pub record ListInv (h : Heap) (fls : List FreeList) (k : ℕ) (xs : List ℕ) : Type 0 where
  pub fl : FreeList
  pub at : list_at fls k ≡ ok fl
  pub rep : Rep h fl xs
  pub order : fl.order ≡ k
  pub squashing : fl.disable_squashing ≡ (k == max_order)
  pub aligned : All (Aligned k) xs

pub record Inv (s : BuddyAllocator) (items : ℕ → List ℕ) : Type 0 where
  pub each : (k : ℕ) → k < lists → ListInv s.heap s.free_list k (items k)
  pub disjoint : (p : ℕ) → total lists items p ≤ 1

list_at-set_self :
    (fls : List FreeList) (k : ℕ) (fl fl' : FreeList)
    → list_at fls k ≡ ok fl
    → list_at (set fls k fl') k ≡ ok fl'
unfolding list_at
list_at-set_self [] k fl fl' e = cc
list_at-set_self (x ∷ fls) zero fl fl' e = refl
list_at-set_self (x ∷ fls) (suc k) fl fl' e = list_at-set_self fls k fl fl' e

list_at-set_ne :
    (fls : List FreeList) (j k : ℕ) (fl' : FreeList)
    → j ≢ k
    → list_at (set fls k fl') j ≡ list_at fls j
unfolding list_at
list_at-set_ne [] j k fl' ne = refl
list_at-set_ne (x ∷ fls) zero zero fl' ne = absurd (ne refl)
list_at-set_ne (x ∷ fls) zero (suc k) fl' ne = refl
list_at-set_ne (x ∷ fls) (suc j) zero fl' ne = refl
list_at-set_ne (x ∷ fls) (suc j) (suc k) fl' ne = list_at-set_ne fls j k fl' (λ e. ne (ap suc e))

module _ (s : BuddyAllocator) (items : ℕ → List ℕ) (inv : Inv s items) (k : ℕ)
    (below : k < lists) where
  -- The items of another list are apart from those of list `k`.
  pub other_Apart : (j : ℕ) → j < lists → j ≢ k → All (λ a. Apart a (items k)) (items j)
  other_Apart j l ne = All-map _ _ (items j) step (item-cover j (items j))
    where
      step : (a : ℕ) → 1 ≤ cover j (items j) (page_of a) → Apart a (items k)
      step a once = cover-zero-Apart k a (items k) (
          omega (
            arith,
            once,
            inv.disjoint (page_of a),
            cover-add-le-total lists items j k (page_of a) l below ne,
          ))

  -- The state after a change of list `k` alone, which writes only where other lists have no item.
  pub replace-Inv :
      (h : Heap) (fl' : FreeList) (ys : List ℕ)
      → Rep h fl' ys
      → fl'.order ≡ k
      → fl'.disable_squashing ≡ (k == max_order)
      → All (Aligned k) ys
      → ((j : ℕ) → j < lists → j ≢ k → All (λ a. h a ≡ s.heap a) (items j))
      → ((p : ℕ) → total lists (update items k ys) p ≤ 1)
      → (s' : BuddyAllocator) → s'.heap ≡ h
      → s'.free_list ≡ set s.free_list k fl'
      → Inv s' (update items k ys)
  replace-Inv h fl' ys rep order flag aligned same once s' eh el = record {
    each = each;
    disjoint = once;
  }
    where
      mine : ListInv h (set s.free_list k fl') k ys
      mine = record {
        fl = fl';
        at = list_at-set_self s.free_list k (inv.each k below).fl fl' (inv.each k below).at;
        rep = rep;
        order = order;
        squashing = flag;
        aligned = aligned;
      }

      theirs : (j : ℕ) → j < lists → j ≢ k → ListInv h (set s.free_list k fl') j (items j)
      theirs j l ne =
          let old = inv.each j l in
          record {
            fl = old.fl;
            at = list_at-set_ne s.free_list j k fl' ne ∙ old.at;
            rep = record {
              chain = Chain-frame s.heap h old.fl.list (items j) (same j l ne) old.rep.chain;
              ascending = old.rep.ascending;
              counted = old.rep.counted;
            };
            order = old.order;
            squashing = old.squashing;
            aligned = old.aligned;
          }

      each : (j : ℕ) → j < lists → ListInv s'.heap s'.free_list j (update items k ys j)
      each j l =
          rw (eh, el)
            (elim (ℕ_discrete j k) [
              | yes e ↦ let t : (j == k) ≡ true = ground arith in rw (t, e) mine
              | no ne ↦ let t : (j == k) ≡ false = ground arith in rw t (theirs j l ne)
            ])
