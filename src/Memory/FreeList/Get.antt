-- ===== src/Memory/FreeList/Get.antt =====
-- `FreeList::get` and `FreeList::initialize` of kernel/memory/free_list.cpp.
use bolgenos_ng.Base.{
  ℕ, suc, ◌+◌, ◌≡◌, ◌≢◌, refl, ◌⊎◌, inl, inr, Bool, true, false, List, [], ◌∷◌, arith, ◌==◌,
  if◌then◌else◌,
}
use bolgenos_ng.Memory.Machine.{Heap, write, ok, panicked, Returns, ok-Returns}
use bolgenos_ng.Memory.FreeList.{FreeList, sanity_check, race, count_items, get, initialize}
use bolgenos_ng.Memory.FreeList.Chain.{Apart, Rep}
use bolgenos_ng.Memory.FreeList.Sanity.{finish-ok}
use bolgenos_ng.Memory.FreeList.Link.{write_ne, take_first-Rep}

-- What `get` makes of the items `xs`: the first one is returned and leaves the list, or the list is
-- empty, nothing changes and the result is null.
pub record Got (h : Heap) (fl : FreeList) (xs : List ℕ) (r : FreeList × Heap × ℕ) : Type 0 where
  pub ys : List ℕ
  pub rep : Rep r.1 r.0 ys
  pub same_order : r.0.order ≡ fl.order
  pub same_flag : r.0.disable_squashing ≡ fl.disable_squashing
  pub outside : (a : ℕ) → Apart a xs → r.1 a ≡ h a
  pub outcome : ((xs ≡ []) × (r.2 ≡ 0) × (ys ≡ [])) ⊎ ((r.2 ≢ 0) × (xs ≡ r.2 ∷ ys))

get-end : (h : Heap) (fl : FreeList) → Rep h fl [] → Returns (Got h fl []) (get fl h)
unfolding get
get-end h fl r =
    let e : (fl.list == 0) ≡ true = ground (arith, r.chain) in
    rw e (
      ok-Returns _ _ _ (finish-ok h fl [] 0 r) (record {
        ys = [];
        rep = r;
        same_order = refl;
        same_flag = refl;
        outside = λ a _. refl;
        outcome = inl (refl, refl, refl);
      }))

get-item :
    (h : Heap) (fl : FreeList) (x : ℕ) (xs : List ℕ)
    → Rep h fl (x ∷ xs)
    → Returns (Got h fl (x ∷ xs)) (get fl h)
unfolding get
get-item h fl x xs r =
    let e : (fl.list == 0) ≡ false = ground (arith, r.chain.0, r.ascending.0) in
    let r' = take_first-Rep h fl x xs r in
    rw e (
      simp r.chain.0 (
        ok-Returns _ _ _ (finish-ok (write h x 0) _ xs x r') (record {
          ys = xs;
          rep = r';
          same_order = refl;
          same_flag = refl;
          outside = λ a out. write_ne h x 0 a out.0;
          outcome = inr (omega (arith, r.ascending.0), refl);
        })))

-- On a well-formed list `get` returns and leaves a well-formed list: the first item has left the
-- list and is the result, or the list is empty and the result is null. Memory apart from the items
-- is not touched.
pub get-Got :
    (h : Heap) (fl : FreeList) (xs : List ℕ) → Rep h fl xs → Returns (Got h fl xs) (get fl h)
get-Got h fl [] r = get-end h fl r
get-Got h fl (x ∷ xs) r = get-item h fl x xs r

race-null : (n : ℕ) (h : Heap) → race (n + 2) h 0 0 ≡ ok (0, 0)
unfolding race
race-null n h = let e : n + 2 ≡ suc (n + 1) = omega arith in rw e

count_items-null : (n : ℕ) (h : Heap) → count_items (n + 1) h 0 0 ≡ ok 0
unfolding count_items
count_items-null n h = let e : n + 1 ≡ suc n = omega arith in rw e

-- `initialize` empties the list but not its statistics: it returns an empty list when no item was
-- counted before, and panics otherwise.
pub initialize_lem :
    (fl : FreeList) (order : ℕ) (flag : Bool) (h : Heap)
    → initialize fl order flag h ≡ (
        if fl.items == 0
        then ok (record fl { list = 0; order = order; disable_squashing = flag })
        else panicked)
unfolding initialize sanity_check
initialize_lem fl order flag h =
    rw (race-null fl.items h, count_items-null fl.items h) (ground arith)
