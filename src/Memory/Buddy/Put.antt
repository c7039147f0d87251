-- ===== src/Memory/Buddy/Put.antt =====
-- `BuddyAllocator::put` of kernel/memory/buddy_allocator.cpp.
use bolgenos_ng.Base.{
  ℕ, zero, suc, ◌+◌, ◌-◌, ◌*◌, ◌%◌, ◌^◌, ◌≤◌, ◌≡◌, ◌≢◌, refl, sym, subst, ap, ◌∙◌, inl, inr, true,
  false, List, arith, ◌==◌, if◌then◌else◌, ℕ_discrete,
}
use native.Mathlib.Numerals.{add-one}
use native.Mathlib.Nat.{one-le-pow}
use bolgenos_ng.Base.Bits.{bit_and_mask}
use bolgenos_ng.Utils.MemUtils.{word}
use bolgenos_ng.Memory.Machine.{panicked, Returns, Returns-bind, Returns-mono}
use bolgenos_ng.Memory.FreeList.{page_size}
use bolgenos_ng.Memory.Buddy.{
  Pblk, BuddyAllocator, list_put, squash_up, put_block, put_loop, put, compute_order, bad_address,
}
use bolgenos_ng.Memory.Buddy.Cover.{page_of, in_pages, total}
use bolgenos_ng.Memory.Buddy.Order.{IsOrder, compute_order-IsOrder}
use bolgenos_ng.Memory.Buddy.Invariant.{lists, Inv}
use bolgenos_ng.Memory.Buddy.Squash.{Loose, Kept, Stepped, list_put-Stepped}

-- The lists hold the `count` pages from `first` beside what they held before.
pub record Placed (s : BuddyAllocator) (items : ℕ → List ℕ) (first count : ℕ) (s' : BuddyAllocator)
    : Type 0 where
  pub items' : ℕ → List ℕ
  pub inv : Inv s' items'
  pub kept : Kept s s'
  pub pages : (p : ℕ) → total lists items' p ≡ total lists items p + in_pages first count p

pub Kept-trans : {s t u : BuddyAllocator} → Kept s t → Kept t u → Kept s u
Kept-trans a b = record {
  region = b.region ∙ a.region;
  allocations = b.allocations ∙ a.allocations;
  deallocations = b.deallocations ∙ a.deallocations;
}

squash_up-Placed :
    (fuel : ℕ) (s : BuddyAllocator) (items : ℕ → List ℕ) (k f : ℕ)
    → Inv s items
    → Loose items k f
    → lists ≤ k + fuel
    → Returns (Placed s items (page_of f) (2 ^ k)) (squash_up fuel s k f)
unfolding squash_up
squash_up-Placed zero s items k f inv loose enough = absurd (omega (arith, loose.order))
squash_up-Placed (suc fuel) s items k f inv loose enough =
    Returns-bind (Stepped s items k f) (Placed s items (page_of f) (2 ^ k)) (list_put s k f) _
      (list_put-Stepped s items inv k f loose)
      λ (s', r) st. elim st.ledger [
        | inl (z, pages) ↦
            let done : (r == 0) ≡ true = ground arith in
            rw done (record { items' = st.items'; inv = st.inv; kept = st.kept; pages = pages })
        | inr (next, pages) ↦
            let more : (r == 0) ≡ false = ground (arith, next.some_frame) in
            rw (more, add-one)
              (Returns-mono (Placed s' st.items' (page_of r) (2 ^ suc k)) _
                (squash_up fuel s' (suc k) r)
                (squash_up-Placed fuel s' st.items' (suc k) r st.inv next (omega arith))
                λ s'' pl. record {
                  items' = pl.items';
                  inv = pl.inv;
                  kept = Kept-trans st.kept pl.kept;
                  pages = λ p. omega (arith, pages p, pl.pages p);
                })
      ]

put_block-Placed :
    (s : BuddyAllocator) (items : ℕ → List ℕ) (k f : ℕ)
    → Inv s items
    → Loose items k f
    → Returns (Placed s items (page_of f) (2 ^ k)) (put_block s k f)
unfolding put_block
put_block-Placed s items k f inv loose = squash_up-Placed 12 s items k f inv loose (omega arith)

-- The lists may take the block: it starts at a page, and they hold none of its pages.
pub record Takes (items : ℕ → List ℕ) (blk : Pblk) : Type 0 where
  pub at_page : blk.ptr % page_size ≡ 0
  pub some_block : blk.ptr ≢ 0
  pub free : (p : ℕ) → total lists items p + in_pages (page_of blk.ptr) blk.size p ≤ 1

in_pages-none : (a p : ℕ) → in_pages a 0 p ≡ 0
unfolding in_pages
in_pages-none a p = ground arith

pub in_pages_split :
    (a c n p : ℕ) → c ≤ n → in_pages a c p + in_pages (a + c) (n - c) p ≡ in_pages a n p
unfolding in_pages
in_pages_split a c n p le = ground arith

good_address : (ptr : ℕ) → ptr % page_size ≡ 0 → bad_address ptr ≡ false
good_address ptr e = ground (arith, bit_and_mask 12 ptr)

pub nothing_Placed :
    (s : BuddyAllocator) (items : ℕ → List ℕ) (first : ℕ) → Inv s items → Placed s items first 0 s
nothing_Placed s items first inv = record {
  items' = items;
  inv = inv;
  kept = record { region = refl; allocations = refl; deallocations = refl };
  pages = λ p. omega (arith, in_pages-none first p);
}

abbrev behind : Pblk → ℕ → Pblk
behind blk order = record { ptr = blk.ptr + 2 ^ order * page_size; size = blk.size - 2 ^ order }

Loose-of_order :
    (items : ℕ → List ℕ) (blk : Pblk) (order : ℕ)
    → Takes items blk
    → IsOrder blk order
    → Loose items order blk.ptr
Loose-of_order items blk order takes is = record {
  order = omega (arith, is.within);
  some_frame = takes.some_block;
  aligned = is.aligned;
  free = λ p.
      omega (arith, takes.free p, in_pages_split (page_of blk.ptr) (2 ^ order) blk.size p is.fits);
}

page_behind :
    (blk : Pblk) (order : ℕ) → page_of (behind blk order).ptr ≡ page_of blk.ptr + 2 ^ order
page_behind blk order = omega arith

Takes-behind :
    (s s' : BuddyAllocator) (items : ℕ → List ℕ) (blk : Pblk) (order : ℕ)
    → Takes items blk
    → IsOrder blk order
    → (pl : Placed s items (page_of blk.ptr) (2 ^ order) s') → Takes pl.items' (behind blk order)
Takes-behind s s' items blk order takes is pl = record {
  at_page = omega (arith, takes.at_page);
  some_block = omega (arith, takes.some_block);
  free = λ p. rw (page_behind blk order) (
      omega (
        arith,
        takes.free p,
        pl.pages p,
        in_pages_split (page_of blk.ptr) (2 ^ order) blk.size p is.fits,
      ));
}

put_loop-Placed :
    (fuel : ℕ) (s : BuddyAllocator) (items : ℕ → List ℕ) (blk : Pblk)
    → Inv s items
    → Takes items blk
    → blk.size ≤ fuel
    → Returns (Placed s items (page_of blk.ptr) blk.size) (put_loop fuel s blk)
unfolding put_loop
put_loop-Placed zero s items blk inv takes enough =
    let none_left : blk.size ≡ 0 = omega arith in
    let done : (blk.size == 0) ≡ true = ground arith in
    rw done (
      subst (λ n. Placed s items (page_of blk.ptr) n s) (sym none_left)
        (nothing_Placed s items (page_of blk.ptr) inv))
put_loop-Placed (suc fuel) s items blk inv takes enough = elim (ℕ_discrete blk.size 0) [
  | yes e ↦
      let done : (blk.size == 0) ≡ true = ground arith in
      rw done (
        subst (λ n. Placed s items (page_of blk.ptr) n s) (sym e)
          (nothing_Placed s items (page_of blk.ptr) inv))
  | no ne ↦
      let more : (blk.size == 0) ≡ false = ground arith in
      let is = compute_order-IsOrder blk (omega arith) takes.at_page in
      rw (more, good_address blk.ptr takes.at_page)
        (Returns-bind (Placed s items (page_of blk.ptr) (2 ^ compute_order blk)) _
          (put_block s (compute_order blk) blk.ptr) _
          (put_block-Placed s items (compute_order blk) blk.ptr inv
            (Loose-of_order items blk (compute_order blk) takes is))
          λ s' pl.
            Returns-mono
              (Placed s' pl.items' (page_of (behind blk (compute_order blk)).ptr)
                (blk.size - 2 ^ compute_order blk))
              _ _
              (put_loop-Placed fuel s' pl.items' (behind blk (compute_order blk)) pl.inv
                (Takes-behind s s' items blk (compute_order blk) takes is pl)
                (omega (arith, one-le-pow (compute_order blk) 2, enough)))
              λ s'' rest. record {
                items' = rest.items';
                inv = rest.inv;
                kept = Kept-trans pl.kept rest.kept;
                pages = λ p. omega (
                  arith,
                  pl.pages p,
                  rest.pages p,
                  page_behind blk (compute_order blk),
                  ap (λ a. in_pages a (blk.size - 2 ^ compute_order blk) p)
                      (page_behind blk (compute_order blk)),
                  in_pages_split (page_of blk.ptr) (2 ^ compute_order blk) blk.size p is.fits,
                );
              })
]

abbrev pub counted : BuddyAllocator → Pblk → BuddyAllocator
counted s blk =
    if blk.size == 0 then s else record s { deallocations = (s.deallocations + 1) % word }

-- On a buddy system that keeps its invariant, `put` of a block that the lists may take returns. The
-- lists then hold the pages of the block and those they held before, each once, the invariant holds
-- again, and the block counts as one deallocation, unless it is empty.
pub put-Placed :
    (s : BuddyAllocator) (items : ℕ → List ℕ) (blk : Pblk)
    → Inv s items
    → Takes items blk
    → Returns (Placed (counted s blk) items (page_of blk.ptr) blk.size) (put s blk)
unfolding put
put-Placed s items blk inv takes = elim (ℕ_discrete blk.size 0) [
  | yes e ↦
      let done : (blk.size == 0) ≡ true = ground arith in
      simp done (
        subst (λ n. Placed s items (page_of blk.ptr) n s) (sym e)
          (nothing_Placed s items (page_of blk.ptr) inv))
  | no ne ↦
      let more : (blk.size == 0) ≡ false = ground arith in
      simp (more, good_address blk.ptr takes.at_page)
        (put_loop-Placed blk.size (record s { deallocations = (s.deallocations + 1) % word }) items
          blk (record { each = inv.each; disjoint = inv.disjoint }) takes (omega arith))
]

-- `put` of a block that has pages and does not start at a page makes the kernel panic.
pub put_bad_address :
    (s : BuddyAllocator) (blk : Pblk)
    → blk.size ≢ 0
    → blk.ptr % page_size ≢ 0
    → put s blk ≡ panicked
unfolding put
put_bad_address s blk ne off =
    let more : (blk.size == 0) ≡ false = ground arith in
    let bad : bad_address blk.ptr ≡ true = ground (arith, bit_and_mask 12 blk.ptr) in rw (more, bad)
