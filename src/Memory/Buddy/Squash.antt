-- ===== src/Memory/Buddy/Squash.antt =====
-- One call of `free_list_[order].put` in kernel/memory/buddy_allocator.cpp, as a step of the loop that
-- hands squashed blocks up the orders.
use bolgenos_ng.Base.{
  ℕ, suc, ◌+◌, ◌≤◌, ◌<◌, ◌≡◌, ◌≢◌, refl, sym, subst, ◌∙◌, ◌⊎◌, inl, inr, List, [], ◌∷◌, ◌++◌, arith,
  set,
}
use bolgenos_ng.Memory.Machine.{Heap, Returns, Returns-bind}
use bolgenos_ng.Memory.FreeList.{FreeList}
use bolgenos_ng.Memory.FreeList.Chain.{
  All, All-append, All-append_left, All-append_right, Apart, Rep, Ascending,
}
use bolgenos_ng.Memory.FreeList.Outcome.{Outcome, inserted, lower, upper, Post}
use bolgenos_ng.Memory.FreeList.Put.{put-Post}
use bolgenos_ng.Memory.Buddy.{BuddyAllocator, list_put}
use bolgenos_ng.Memory.Buddy.Cover.{
  page_of, covers, cover, total, update, Aligned, cover-le-total, cover-mid, cover-zero-Apart,
  covers_self, covers-pair, Aligned-pair, total-update,
}
use bolgenos_ng.Memory.Buddy.Invariant.{lists, ListInv, Inv, other_Apart, replace-Inv}

-- The block of order `k` at `f` may go to the lists that hold `items`.
pub record Loose (items : ℕ → List ℕ) (k f : ℕ) : Type 0 where
  pub order : k < lists
  pub some_frame : f ≢ 0
  pub aligned : Aligned k f
  pub free : (p : ℕ) → total lists items p + covers k f p ≤ 1

-- After the call the lists hold `ys` at order `k`, and `r` is the squashed block, if any.
data Ledger (k f : ℕ) (xs ys : List ℕ) (r : ℕ) : Type 0 where
  linked : r ≡ 0 → ((p : ℕ) → cover k ys p ≡ cover k xs p + covers k f p) → Ledger k f xs ys r
  squashed :
      r ≢ 0
      → Aligned (suc k) r
      → ((p : ℕ) → cover k ys p + covers (suc k) r p ≡ cover k xs p + covers k f p)
      → Ledger k f xs ys r

All-remove :
    (P : ℕ → Type 0) (pre : List ℕ) (x : ℕ) (suf : List ℕ)
    → All P (pre ++ x ∷ suf)
    → All P (pre ++ suf) × P x
All-remove P pre x suf h = (
  All-append P pre suf (All-append_left P pre (x ∷ suf) h) (All-append_right P pre (x ∷ suf) h).1,
  (All-append_right P pre (x ∷ suf) h).0,
)

All-insert :
    (P : ℕ → Type 0) (pre : List ℕ) (x : ℕ) (suf : List ℕ)
    → All P (pre ++ suf)
    → P x
    → All P (pre ++ x ∷ suf)
All-insert P pre x suf h px =
    All-append P pre (x ∷ suf) (All-append_left P pre suf h) (px, All-append_right P pre suf h)

module _ (k f : ℕ) (aligned_f : Aligned k f) (ne : f ≢ 0) where
  Ledger-of_Outcome :
      (xs ys : List ℕ) (r : ℕ)
      → All (Aligned k) xs
      → All (λ x. x ≢ 0) xs
      → Outcome k f xs ys r
      → Ledger k f xs ys r × All (Aligned k) ys
  Ledger-of_Outcome xs ys r a nz (inserted pre suf z e e') = (
    linked z (λ p. rw (e, e') (cover-mid k pre f suf p)),
    rw e' (All-insert (Aligned k) pre f suf (rw e at a) aligned_f),
  )
  Ledger-of_Outcome xs ys r a nz (lower pre suf e e' pair) =
      let (rest, aligned_r) = All-remove (Aligned k) pre r suf (rw e at a) in
      let (_, nz_r) = All-remove (λ x. x ≢ 0) pre r suf (rw e at nz) in
      (
        squashed nz_r (Aligned-pair k r f aligned_r.0 aligned_f.0 aligned_r.1 aligned_f.1 pair)
            (λ p.
              rw (e, e')
                (omega (
                  arith,
                  cover-mid k pre r suf p,
                  covers-pair k r f aligned_r.0 aligned_f.0 aligned_r.1 aligned_f.1 pair p,
                ))),
        rw e' rest,
      )
  Ledger-of_Outcome xs ys r a nz (upper pre n suf same e e' pair) =
      let (rest, aligned_n) = All-remove (Aligned k) pre n suf (rw e at a) in
      (
        squashed (rw same ne)
            (rw same (Aligned-pair k f n aligned_f.0 aligned_n.0 aligned_f.1 aligned_n.1 pair))
            (λ p.
              rw (e, e', same)
                (omega (
                  arith,
                  cover-mid k pre n suf p,
                  covers-pair k f n aligned_f.0 aligned_n.0 aligned_f.1 aligned_n.1 pair p,
                ))),
        rw e' rest,
      )

-- What a call keeps beside the lists.
pub record Kept (s s' : BuddyAllocator) : Type 0 where
  pub region : s'.region ≡ s.region
  pub allocations : s'.allocations ≡ s.allocations
  pub deallocations : s'.deallocations ≡ s.deallocations

pub record Stepped (s : BuddyAllocator) (items : ℕ → List ℕ) (k f : ℕ) (r : BuddyAllocator × ℕ)
    : Type 0 where
  pub items' : ℕ → List ℕ
  pub inv : Inv r.0 items'
  pub kept : Kept s r.0
  pub ledger :
      ((r.1 ≡ 0) × ((p : ℕ) → total lists items' p ≡ total lists items p + covers k f p))
      ⊎ (Loose items' (suc k) r.1
          × ((p : ℕ)
              → total lists items' p + covers (suc k) r.1 p ≡ total lists items p + covers k f p))

Ascending-nonzero : (low : ℕ) (xs : List ℕ) → Ascending low xs → All (λ x. x ≢ 0) xs
Ascending-nonzero low [] h = tt
Ascending-nonzero low (x ∷ xs) h = (omega arith, Ascending-nonzero x xs h.1)

module _ (s : BuddyAllocator) (items : ℕ → List ℕ) (inv : Inv s items) (k f : ℕ)
    (loose : Loose items k f) where
  old : ListInv s.heap s.free_list k (items k)
  old = inv.each k loose.order

  -- The frame is in no list.
  Apart-items : (j : ℕ) → j < lists → Apart f (items j)
  Apart-items j l = cover-zero-Apart j f (items j) (
      omega (
        arith,
        loose.free (page_of f),
        cover-le-total lists items j (page_of f) l,
        covers_self k f,
      ))

  untouched :
      (h : Heap)
      → ((a : ℕ) → a ≢ f → Apart a (items k) → h a ≡ s.heap a)
      → (j : ℕ) → j < lists
      → j ≢ k
      → All (λ a. h a ≡ s.heap a) (items j)
  untouched h outside j l ne =
      both (items j) (Apart-items j l) (other_Apart s items inv k loose.order j l ne)
    where
      both :
          (xs : List ℕ)
          → Apart f xs
          → All (λ a. Apart a (items k)) xs
          → All (λ a. h a ≡ s.heap a) xs
      both [] _ _ = tt
      both (x ∷ xs) p q = (outside x (λ e. p.0 (sym e)) q.0, both xs p.1 q.1)

  after : FreeList × Heap × ℕ → BuddyAllocator × ℕ
  after (fl', h, r) = (record s { heap = h; free_list = set s.free_list k fl' }, r)

  replaced :
      (q : FreeList × Heap × ℕ) (ys : List ℕ)
      → Rep q.1 q.0 ys
      → q.0.order ≡ old.fl.order
      → q.0.disable_squashing ≡ old.fl.disable_squashing
      → All (Aligned k) ys
      → ((a : ℕ) → a ≢ f → Apart a (items k) → q.1 a ≡ s.heap a)
      → ((p : ℕ) → cover k ys p ≤ cover k (items k) p + covers k f p)
      → Inv (after q).0 (update items k ys)
  unfolding after
  replaced (fl', h, r) ys rep order flag al outside le =
      replace-Inv s items inv k loose.order h fl' ys rep (order ∙ old.order) (flag ∙ old.squashing)
        al (untouched h outside)
        (λ p. omega (arith, loose.free p, le p, total-update lists items k ys p loose.order)) _ refl
        refl

  below_max : (q : FreeList × Heap × ℕ) → Post s.heap old.fl (items k) f q → q.2 ≢ 0 → suc k < lists
  below_max q post ne = ground (arith, post.keeps, old.squashing, loose.order, ne)

  Stepped-of_Ledger :
      (q : FreeList × Heap × ℕ) (post : Post s.heap old.fl (items k) f q)
      → All (Aligned k) post.ys
      → Ledger k f (items k) post.ys q.2
      → Stepped s items k f (after q)
  unfolding after
  Stepped-of_Ledger q post al (linked z e) = record {
    items' = update items k post.ys;
    inv =
        replaced q post.ys post.rep post.same_order post.same_flag al post.outside
          (λ p. omega (arith, e p));
    kept = record { region = refl; allocations = refl; deallocations = refl };
    ledger = inl (z, λ p. omega (arith, e p, total-update lists items k post.ys p loose.order));
  }
  Stepped-of_Ledger q post al (squashed ne alr e) = record {
    items' = update items k post.ys;
    inv =
        replaced q post.ys post.rep post.same_order post.same_flag al post.outside
          (λ p. omega (arith, e p));
    kept = record { region = refl; allocations = refl; deallocations = refl };
    ledger = inr (
      record {
        order = below_max q post ne;
        some_frame = ne;
        aligned = alr;
        free =
            λ p. omega (arith, loose.free p, e p, total-update lists items k post.ys p loose.order);
      },
      λ p. omega (arith, e p, total-update lists items k post.ys p loose.order),
    );
  }

  pub list_put-Stepped : Returns (Stepped s items k f) (list_put s k f)
  unfolding list_put
  list_put-Stepped = rw old.at (
      Returns-bind (Post s.heap old.fl (items k) f) (Stepped s items k f) _ _
        (put-Post s.heap old.fl f (items k) old.rep loose.some_frame (Apart-items k loose.order))
        λ q post.
          let (ledger, al) =
            Ledger-of_Outcome k f loose.aligned loose.some_frame (items k) post.ys q.2 old.aligned
              (Ascending-nonzero 0 (items k) old.rep.ascending)
              (subst (λ o. Outcome o f (items k) post.ys q.2) old.order post.outcome) in
          unfold after in Stepped-of_Ledger q post al ledger)
