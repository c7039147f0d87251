-- ===== src/Memory/FreeList/Link.antt =====
-- The pointer surgery of `put` in kernel/memory/free_list.cpp: what each way of linking or
-- unlinking an item leaves in the list.
use bolgenos_ng.Base.{
  ℕ, suc, ◌+◌, ◌-◌, ◌<◌, ◌≡◌, ◌≢◌, refl, ◌∙◌, List, ◌∷◌, ◌++◌, arith, length, length-append,
}
use bolgenos_ng.Memory.Machine.{Heap, write}
use bolgenos_ng.Memory.FreeList.{FreeList}
use bolgenos_ng.Memory.FreeList.Chain.{
  Chain, Ascending, All-map, Rep, Chain-write, Chain-splice, Chain-suffix, Ascending-splice,
  Ascending-suffix, Ascending-before, Ascending-Apart, Ascending-weaken,
}

write_self : (h : Heap) (a v : ℕ) → write h a v a ≡ v
unfolding write
write_self h a v = ground arith

pub write_ne : (h : Heap) (a v x : ℕ) → x ≢ a → write h a v x ≡ h x
unfolding write
write_ne h a v x ne = ground arith

write₂_ne : (h : Heap) (a v b w x : ℕ) → x ≢ a → x ≢ b → write (write h a v) b w x ≡ h x
write₂_ne h a v b w x ne off = write_ne (write h a v) b w x off ∙ write_ne h a v x ne

module _ (h : Heap) (fl : FreeList) where
  splice-Rep :
      (g : Heap) (n q a : ℕ) (pre suf new : List ℕ)
      → Rep h fl (pre ++ a ∷ suf)
      → ((x : ℕ) → x < a → g x ≡ h x)
      → g a ≡ q
      → Chain g q new
      → Ascending a new
      → n ≡ length (pre ++ a ∷ new)
      → Rep g (record fl { items = n }) (pre ++ a ∷ new)
  splice-Rep g n q a pre suf new r below at c asc count = record {
    chain =
        Chain-splice h g fl.list q a pre suf new
          (All-map _ _ pre below (Ascending-before 0 a pre suf r.ascending)) at c r.chain;
    ascending = Ascending-splice 0 a pre suf new asc r.ascending;
    counted = count;
  }

  count_after :
      (pre : List ℕ) (a : ℕ) (suf new : List ℕ) (d : ℕ)
      → length new ≡ length suf + d
      → length (pre ++ a ∷ new) ≡ length (pre ++ a ∷ suf) + d
  count_after pre a suf new d e =
      omega (arith, length-append pre (a ∷ new), length-append pre (a ∷ suf))

  count_less :
      (pre : List ℕ) (a x : ℕ) (suf : List ℕ)
      → length (pre ++ a ∷ x ∷ suf) ≡ suc (length (pre ++ a ∷ suf))
  count_less pre a x suf =
      omega (arith, length-append pre (a ∷ x ∷ suf), length-append pre (a ∷ suf))

  -- The new frame goes behind the item `l`.
  pub link_after-Rep :
      (frame l : ℕ) (pre suf : List ℕ)
      → Rep h fl (pre ++ l ∷ suf)
      → l < frame
      → Ascending frame suf
      → Rep
          (write (write h frame (h l)) l frame)
          (record fl { items = fl.items + 1 })
          (pre ++ l ∷ frame ∷ suf)
  link_after-Rep frame l pre suf r less above =
      splice-Rep _ _ frame l pre suf (frame ∷ suf) r
        (λ x b. write₂_ne h frame (h l) l frame x (omega arith) (omega arith))
        (write_self (write h frame (h l)) l frame)
        (
          refl,
          Chain-write (write h frame (h l)) l frame _ suf
              (Ascending-Apart l frame suf (omega (arith, low)) above (omega arith))
              (Chain-write h frame (h l) _ suf
                (Ascending-Apart frame frame suf (omega arith) above (omega arith))
                (rw at (Chain-suffix h fl.list l pre suf r.chain))),
        )
        (less, above)
        (omega (arith, r.counted, count_after pre l suf (frame ∷ suf) 1 (omega arith)))
    where
      low : 0 < l
      low = (Ascending-suffix 0 l pre suf r.ascending).0

      at : write (write h frame (h l)) l frame frame ≡ h l
      at = write_ne (write h frame (h l)) l frame frame (omega arith) ∙ write_self h frame (h l)

  -- The item `l` behind `p` leaves the list.
  pub take_lesser-Rep :
      (p l : ℕ) (pre suf : List ℕ)
      → Rep h fl (pre ++ p ∷ l ∷ suf)
      → Rep (write (write h p (h l)) l 0) (record fl { items = fl.items - 1 }) (pre ++ p ∷ suf)
  take_lesser-Rep p l pre suf r =
      let (low, tail) = Ascending-suffix 0 p pre (l ∷ suf) r.ascending in
      let tail_p : Ascending p suf = Ascending-weaken p l suf (omega arith) tail.1 in
      splice-Rep _ _ (h l) p pre (l ∷ suf) suf r
        (λ x b. write₂_ne h p (h l) l 0 x (omega arith) (omega arith))
        (write_ne (write h p (h l)) l 0 p (omega arith) ∙ write_self h p (h l))
        (Chain-write (write h p (h l)) l 0 _ suf
          (Ascending-Apart l l suf (omega arith) tail.1 (omega arith))
          (Chain-write h p (h l) _ suf (Ascending-Apart p p suf (omega arith) tail_p (omega arith))
            (Chain-suffix h fl.list p pre (l ∷ suf) r.chain).1))
        tail_p (omega (arith, r.counted, count_less pre p l suf))

  -- The item `n` behind `l` leaves the list.
  pub take_next-Rep :
      (l n : ℕ) (pre suf : List ℕ)
      → Rep h fl (pre ++ l ∷ n ∷ suf)
      → Rep (write h l (h n)) (record fl { items = fl.items - 1 }) (pre ++ l ∷ suf)
  take_next-Rep l n pre suf r =
      let (low, tail) = Ascending-suffix 0 l pre (n ∷ suf) r.ascending in
      let tail_l : Ascending l suf = Ascending-weaken l n suf (omega arith) tail.1 in
      splice-Rep _ _ (h n) l pre (n ∷ suf) suf r (λ x b. write_ne h l (h n) x (omega arith))
        (write_self h l (h n))
        (Chain-write h l (h n) _ suf (Ascending-Apart l l suf (omega arith) tail_l (omega arith))
          (Chain-suffix h fl.list l pre (n ∷ suf) r.chain).1)
        tail_l (omega (arith, r.counted, count_less pre l n suf))

  -- The first item leaves the list, and its pointer may be cleared.
  pub take_first-Rep :
      (l : ℕ) (suf : List ℕ)
      → Rep h fl (l ∷ suf)
      → Rep (write h l 0) (record fl { list = h l; items = fl.items - 1 }) suf
  take_first-Rep l suf r = record {
    chain =
        Chain-write h l 0 (h l) suf
          (Ascending-Apart l l suf (omega arith) r.ascending.1 (omega arith)) r.chain.1;
    ascending = Ascending-weaken 0 l suf (omega arith) r.ascending.1;
    counted = omega (arith, r.counted);
  }

  pub skip_first-Rep :
      (l : ℕ) (suf : List ℕ)
      → Rep h fl (l ∷ suf)
      → Rep h (record fl { list = h fl.list; items = fl.items - 1 }) suf
  skip_first-Rep l suf r = record {
    chain = rw r.chain.0 r.chain.1;
    ascending = Ascending-weaken 0 l suf (omega arith) r.ascending.1;
    counted = omega (arith, r.counted);
  }

  -- The new frame goes to the front.
  pub link_front-Rep :
      (frame : ℕ) (xs : List ℕ)
      → Rep h fl xs
      → 0 < frame
      → Ascending frame xs
      → Rep (write h frame fl.list) (record fl { list = frame; items = fl.items + 1 }) (frame ∷ xs)
  link_front-Rep frame xs r pos above = record {
    chain = (
      refl,
      rw (write_self h frame fl.list) (
          Chain-write h frame fl.list _ xs
            (Ascending-Apart frame frame xs (omega arith) above (omega arith)) r.chain),
    );
    ascending = (pos, above);
    counted = omega (arith, r.counted);
  }
