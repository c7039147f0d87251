-- ===== src/Memory/Buddy/Order.antt =====
-- `compute_order` and the order loop of `get` in kernel/memory/buddy_allocator.cpp.
use native.Mathlib.Nat.{pow-suc, pow-zero, pow-le-pow_right}
use bolgenos_ng.Base.{
  ℕ, zero, suc, ◌+◌, ◌*◌, ◌/◌, ◌%◌, ◌^◌, ◌≤◌, ◌<◌, ◌≡◌, refl, sym, ap, ◌∙◌, ◌⊎◌, inl, inr, true,
  arith, ltb, ◌==◌, Bool-cases, bit_and, ℕ_discrete, ltb→lt, dec_le, subst,
}
use native.Mathlib.Numerals.{add-one}
use bolgenos_ng.Base.Bits.{bit_and-one}
use bolgenos_ng.Memory.FreeList.{page_size}
use bolgenos_ng.Memory.Buddy.{Pblk, max_order, align_order, shrink_order, compute_order, order_for}
use bolgenos_ng.Memory.Buddy.Cover.{Aligned}

-- `r` is the number of times that `page` halves, up to the bound.
record IsAlignment (bound page r : ℕ) : Type 0 where
  within : r ≤ bound
  rest : ℕ
  halves : page ≡ 2 ^ r * rest
  stops : (r ≡ bound) ⊎ (rest % 2 ≡ 1)

halve :
    (order page_number page : ℕ)
    → page ≡ 2 ^ order * page_number
    → (bit_and page_number 1 == 0) ≡ true
    → page ≡ 2 ^ (order + 1) * (page_number / 2)
halve order page_number page h even =
    let twice : page_number ≡ 2 * (page_number / 2) = ground (arith, bit_and-one page_number) in
    h
    ∙ ap (λ (t : ℕ). 2 ^ order * t) twice
    ∙ rw add-one (omega (arith, ap (λ (t : ℕ). t * (page_number / 2)) (pow-suc 2 order)))

align_order-IsAlignment :
    (left order page_number page bound : ℕ)
    → order + left ≡ bound
    → page ≡ 2 ^ order * page_number
    → IsAlignment bound page (align_order left order page_number)
unfolding align_order
align_order-IsAlignment zero order page_number page bound e h = record {
  within = omega arith;
  rest = page_number;
  halves = h;
  stops = inl (omega arith);
}
align_order-IsAlignment (suc left) order page_number page bound e h =
    elim (Bool-cases (bit_and page_number 1 == 0)) [
      | inl even ↦ rw even (
          align_order-IsAlignment left (order + 1) (page_number / 2) page bound (omega arith)
            (halve order page_number page h even))
      | inr odd ↦ rw odd (record {
        within = omega arith;
        rest = page_number;
        halves = h;
        stops = inr (ground (arith, bit_and-one page_number));
      })
    ]

shrink_order_lem :
    (order size : ℕ)
    → 1 ≤ size
    → (shrink_order order size ≤ order)
      × (2 ^ shrink_order order size ≤ size)
      × ((shrink_order order size ≡ order) ⊎ (size < 2 ^ suc (shrink_order order size)))
unfolding shrink_order
shrink_order_lem zero size pos = (omega arith, omega arith, inl refl)
shrink_order_lem (suc order) size pos = elim (Bool-cases (ltb size (2 ^ suc order))) [
  | inl small ↦
      let (a, b, c) = shrink_order_lem order size pos in
      rw small (
        omega arith,
        b,
        elim c [ inl e ↦ inr (rw e (ltb→lt size (2 ^ suc order) small)) | inr l ↦ inr l ],
      )
  | inr large ↦
      let fits : 2 ^ suc order ≤ size = ground arith in rw large (omega arith, fits, inl refl)
]

-- What `compute_order` promises: the order exists, fits the block and its alignment, and no higher
-- order does.
pub record IsOrder (blk : Pblk) (order : ℕ) : Type 0 where
  pub within : order ≤ max_order
  pub fits : 2 ^ order ≤ blk.size
  pub aligned : Aligned order blk.ptr
  pub largest : (j : ℕ) → j ≤ max_order → 2 ^ j ≤ blk.size → Aligned j blk.ptr → j ≤ order

two_times : (k m : ℕ) → 2 ^ suc k * m ≡ 2 * (2 ^ k * m)
two_times k m = omega (arith, ap (λ (t : ℕ). t * m) (pow-suc 2 k))

-- A page number that halves `j` times leaves no odd rest before that.
more_halves : (j r rest m : ℕ) → rest % 2 ≡ 1 → 2 ^ r * rest ≡ 2 ^ j * m → j ≤ r
more_halves zero r rest m odd e = omega arith
more_halves (suc j) zero rest m odd e =
    absurd (omega (arith, e, pow-zero 2, two_times j m, ap (λ (t : ℕ). t * rest) (pow-zero 2)))
more_halves (suc j) (suc r) rest m odd e =
    let ih = more_halves j r rest m odd (omega (arith, e, two_times j m, two_times r rest)) in
    omega arith

halves_down : (low high rest : ℕ) → low ≤ high → (m : ℕ) × (2 ^ high * rest ≡ 2 ^ low * m)
halves_down low zero rest le = let e : low ≡ 0 = omega arith in (rest, rw e)
halves_down low (suc high) rest le = elim (ℕ_discrete low (suc high)) [
  | yes e ↦ (rest, rw e)
  | no ne ↦
      let (m, e) = halves_down low high (2 * rest) (omega arith) in
      (m, omega (arith, e, two_times high rest))
]

module _ (blk : Pblk) (a : ℕ) (pos : 1 ≤ blk.size) (at_page : blk.ptr % page_size ≡ 0)
    (alignment : IsAlignment max_order (blk.ptr / page_size) a) where
  shrunk : ℕ
  shrunk = shrink_order a blk.size

  shrunk_largest : (j : ℕ) → j ≤ max_order → 2 ^ j ≤ blk.size → Aligned j blk.ptr → j ≤ shrunk
  unfolding shrunk
  shrunk_largest j within fits (m, at) =
      let (below, holds, stop) = shrink_order_lem a blk.size pos in
      elim stop [
        | inl e ↦ rw e (elim alignment.stops [
          | inl top ↦ omega arith
          | inr odd ↦ more_halves j a alignment.rest m odd (sym alignment.halves ∙ omega arith)
        ])
        | inr small ↦ elim (dec_le j (shrink_order a blk.size)) [
          | yes h ↦ h
          | no h ↦ absurd (
              omega (
                arith,
                small,
                pow-le-pow_right {n = 2} (omega arith) {i = suc (shrink_order a blk.size)} {j = j}
                    (omega arith),
              ))
        ]
      ]

  shrunk-IsOrder : IsOrder blk shrunk
  unfolding shrunk
  shrunk-IsOrder =
      let (below, holds, stop) = shrink_order_lem a blk.size pos in
      let (m, e) = halves_down (shrink_order a blk.size) a alignment.rest below in
      record {
        within = omega (arith, alignment.within);
        fits = holds;
        aligned = (m, omega (arith, alignment.halves, e));
        largest = shrunk_largest;
      }

-- For a block of at least one page that starts at a page, `compute_order` is the highest order up
-- to 10 whose blocks are not larger than the block and to whose size its address is aligned.
pub compute_order-IsOrder :
    (blk : Pblk) → 1 ≤ blk.size → blk.ptr % page_size ≡ 0 → IsOrder blk (compute_order blk)
unfolding compute_order
compute_order-IsOrder blk pos at_page =
    unfold shrunk in
    shrunk-IsOrder blk (align_order max_order 0 (blk.ptr / page_size)) pos at_page (
      align_order-IsAlignment max_order 0 (blk.ptr / page_size) (blk.ptr / page_size) max_order
        (omega arith) (omega (arith, pow-zero 2)))

-- The search for an order from a first one on ends at the lowest order whose blocks have the pages
-- asked for, where the fuel reaches such an order.
pub order_for_lem :
    (left order pages : ℕ)
    → pages ≤ 2 ^ (order + left)
    → (order ≤ order_for left order pages)
      × (pages ≤ 2 ^ order_for left order pages)
      × ((j : ℕ) → order ≤ j → pages ≤ 2 ^ j → order_for left order pages ≤ j)
unfolding order_for
order_for_lem zero order pages room =
    (omega arith, subst (λ (t : ℕ). pages ≤ 2 ^ t) (omega arith) room, λ j le h. le)
order_for_lem (suc left) order pages room = elim (Bool-cases (ltb (2 ^ order) pages)) [
  | inl small ↦
      let (a, b, c) =
        order_for_lem left (order + 1) pages
          (subst (λ (t : ℕ). pages ≤ 2 ^ t) (omega arith) room) in
      rw small (
        omega arith,
        b,
        λ j le h. elim (ℕ_discrete order j) [
          | yes e ↦ absurd (
              omega
                (arith, ltb→lt (2 ^ order) pages small, subst (λ (t : ℕ). pages ≤ 2 ^ t) (sym e) h))
          | no ne ↦ c j (omega arith) h
        ],
      )
  | inr large ↦ rw large (omega arith, ground arith, λ j le h. le)
]
