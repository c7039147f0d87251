-- ===== src/Memory/Buddy/Search.antt =====
-- The loop of `BuddyAllocator::get` of kernel/memory/buddy_allocator.cpp over the free lists.
use bolgenos_ng.Base.{
  ℕ, zero, suc, ◌+◌, ◌≤◌, ◌<◌, ◌≡◌, ◌≢◌, refl, sym, subst, ap, ◌∙◌, ◌⊎◌, inl, inr, true, false,
  List, [], ◌∷◌, arith, ◌==◌, set, ℕ_discrete,
}
use bolgenos_ng.Memory.Machine.{Heap, Returns, Returns-bind, Returns-mono}
use bolgenos_ng.Memory.FreeList.{FreeList}
use bolgenos_ng.Memory.FreeList.Chain.{All, Apart}
use bolgenos_ng.Memory.FreeList.Get.{Got, get-Got}
use bolgenos_ng.Memory.Buddy.{BuddyAllocator, list_get, search_lists}
use bolgenos_ng.Memory.Buddy.Cover.{covers, cover, total, update, Aligned, total-update, total-ext}
use bolgenos_ng.Memory.Buddy.Invariant.{lists, Inv, ListInv, other_Apart, replace-Inv}
use bolgenos_ng.Memory.Buddy.Squash.{Kept}
use bolgenos_ng.Memory.Buddy.Put.{Kept-trans}

-- One list is asked for a frame.
record Asked (s : BuddyAllocator) (items : ℕ → List ℕ) (k : ℕ) (r : BuddyAllocator × ℕ)
    : Type 0 where
  items' : ℕ → List ℕ
  inv : Inv r.0 items'
  kept : Kept s r.0
  outcome :
      ((r.1 ≡ 0) × (items k ≡ []) × ((j : ℕ) → items' j ≡ items j))
      ⊎ ((r.1 ≢ 0)
          × Aligned k r.1
          × ((p : ℕ) → total lists items p ≡ total lists items' p + covers k r.1 p))

module _ (s : BuddyAllocator) (items : ℕ → List ℕ) (inv : Inv s items) (k : ℕ)
    (below : k < lists) where
  old : ListInv s.heap s.free_list k (items k)
  old = inv.each k below

  after : FreeList × Heap × ℕ → BuddyAllocator × ℕ
  after (fl', h, r) = (record s { heap = h; free_list = set s.free_list k fl' }, r)

  untouched :
      (q : FreeList × Heap × ℕ)
      → Got s.heap old.fl (items k) q
      → (j : ℕ) → j < lists
      → j ≢ k
      → All (λ a. q.1 a ≡ s.heap a) (items j)
  untouched q got j l ne = each (items j) (other_Apart s items inv k below j l ne)
    where
      each : (xs : List ℕ) → All (λ a. Apart a (items k)) xs → All (λ a. q.1 a ≡ s.heap a) xs
      each [] _ = tt
      each (x ∷ xs) h = (got.outside x h.0, each xs h.1)

  replaced :
      (q : FreeList × Heap × ℕ) (got : Got s.heap old.fl (items k) q)
      → All (Aligned k) got.ys
      → ((p : ℕ) → cover k got.ys p ≤ cover k (items k) p)
      → Inv (after q).0 (update items k got.ys)
  unfolding after
  replaced q got al le =
      replace-Inv s items inv k below q.1 q.0 got.ys got.rep (got.same_order ∙ old.order)
        (got.same_flag ∙ old.squashing) al (untouched q got)
        (λ p. omega (arith, inv.disjoint p, le p, total-update lists items k got.ys p below)) _ refl
        refl

  update_same : (ys : List ℕ) → ys ≡ items k → (j : ℕ) → update items k ys j ≡ items j
  update_same ys e j = elim (ℕ_discrete j k) [
    | yes same ↦ let t : (j == k) ≡ true = ground arith in rw t (e ∙ ap items (sym same))
    | no ne ↦ let t : (j == k) ≡ false = ground arith in rw t
  ]

  Asked-of_Got :
      (q : FreeList × Heap × ℕ) → Got s.heap old.fl (items k) q → Asked s items k (after q)
  unfolding after
  Asked-of_Got q got = elim got.outcome [
    | inl (e, z, e') ↦ record {
      items' = update items k got.ys;
      inv = replaced q got (rw e' tt) (λ p. rw (e, e') (omega arith));
      kept = record { region = refl; allocations = refl; deallocations = refl };
      outcome = inl (z, e, update_same got.ys (e' ∙ sym e));
    }
    | inr (ne, e) ↦
        let al = subst (All (Aligned k)) e old.aligned in
        record {
          items' = update items k got.ys;
          inv = replaced q got al.1 (λ p. rw e (unfold cover in omega arith));
          kept = record { region = refl; allocations = refl; deallocations = refl };
          outcome = inr (
            ne,
            al.0,
            λ p. omega (arith, total-update lists items k got.ys p below, held p got.ys q.2 e),
          );
        }
  ]
    where
      held :
          (p : ℕ) (ys : List ℕ) (x : ℕ)
          → items k ≡ x ∷ ys
          → cover k (items k) p ≡ cover k ys p + covers k x p
      held p ys x e = rw e (unfold cover in omega arith)

  list_get-Asked : Returns (Asked s items k) (list_get s k)
  unfolding list_get
  list_get-Asked = rw old.at (
      Returns-bind (Got s.heap old.fl (items k)) (Asked s items k) _ _
        (get-Got s.heap old.fl (items k) old.rep) λ q got. unfold after in Asked-of_Got q got)

pub record Searched (s : BuddyAllocator) (items : ℕ → List ℕ) (order : ℕ)
    (r : BuddyAllocator × ℕ × ℕ) : Type 0 where
  pub items' : ℕ → List ℕ
  pub inv : Inv r.0 items'
  pub kept : Kept s r.0
  pub outcome :
      ((r.2 ≡ 0)
        × ((j : ℕ) → items' j ≡ items j)
        × ((j : ℕ) → order ≤ j → j < lists → items j ≡ []))
      ⊎ ((r.2 ≢ 0)
          × (order ≤ r.1)
          × Aligned r.1 r.2
          × ((p : ℕ) → total lists items p ≡ total lists items' p + covers r.1 r.2 p))

pub search_lists-Searched :
    (left : ℕ) (s : BuddyAllocator) (items : ℕ → List ℕ) (order : ℕ)
    → Inv s items
    → order + left ≡ lists
    → Returns (Searched s items order) (search_lists left s order)
unfolding search_lists
search_lists-Searched zero s items order inv e = record {
  items' = items;
  inv = inv;
  kept = record { region = refl; allocations = refl; deallocations = refl };
  outcome = inl (refl, λ j. refl, λ j lo hi. absurd (omega arith));
}
search_lists-Searched (suc left) s items order inv e =
    Returns-bind (Asked s items order) (Searched s items order) (list_get s order) _
      (list_get-Asked s items inv order (omega arith))
      λ (s', frame) asked. elim asked.outcome [
        | inl (z, empty, same) ↦
            let none_here : (frame == 0) ≡ true = ground arith in
            rw none_here (
              Returns-mono (Searched s' asked.items' (order + 1)) _
                (search_lists left s' (order + 1))
                (search_lists-Searched left s' asked.items' (order + 1) asked.inv (omega arith))
                λ r next. record {
                  items' = next.items';
                  inv = next.inv;
                  kept = Kept-trans asked.kept next.kept;
                  outcome = elim next.outcome [
                    | inl (z', same', empty') ↦ inl (
                      z',
                      λ j. same' j ∙ same j,
                      λ j lo hi. elim (ℕ_discrete order j) [
                        | yes here ↦ subst (λ i. items i ≡ []) here empty
                        | no ne ↦ sym (same j) ∙ empty' j (omega arith) hi
                      ],
                    )
                    | inr (ne, lo, al, pages) ↦ inr (
                      ne,
                      omega arith,
                      al,
                      λ p. total-ext lists items asked.items' p (λ j _. sym (same j)) ∙ pages p,
                    )
                  ];
                })
        | inr (ne, al, pages) ↦
            let here : (frame == 0) ≡ false = ground arith in
            rw here (record {
              items' = asked.items';
              inv = asked.inv;
              kept = asked.kept;
              outcome = inr (ne, omega arith, al, pages);
            })
      ]
