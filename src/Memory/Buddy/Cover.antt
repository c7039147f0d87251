-- ===== src/Memory/Buddy/Cover.antt =====
-- Which pages the free lists hold: a block of order `k` covers `2 ^ k` pages.
use native.Mathlib.Nat.{pow-suc, one-le-pow, div-eq_of_eq-mul_right}
use bolgenos_ng.Base.{
  ℕ, zero, suc, ◌+◌, ◌*◌, ◌/◌, ◌%◌, ◌^◌, ◌≤◌, ◌<◌, ◌≡◌, ◌≢◌, refl, sym, subst, ap, ◌∙◌, true, false,
  ◌&&◌, List, [], ◌∷◌, ◌++◌, arith, leb, ltb, ◌==◌, if◌then◌else◌, ℕ_discrete,
}
use bolgenos_ng.Base.Bits.{bit_and-pow}
use bolgenos_ng.Memory.FreeList.{page_size, are_consequent, is_the_first_in_buddy}
use bolgenos_ng.Memory.FreeList.Chain.{Apart, All}
use bolgenos_ng.Memory.FreeList.Outcome.{is_pair}

abbrev pub page_of : ℕ → ℕ
page_of frame = frame / page_size

-- Whether `page` is one of the `count` pages from `first`.
unfoldable pub in_pages : (first count page : ℕ) → ℕ
in_pages first count page = if leb first page && ltb page (first + count) then 1 else 0

abbrev pub covers : (order frame page : ℕ) → ℕ
covers order frame page = in_pages (page_of frame) (2 ^ order) page

-- How many blocks of the list hold the page.
unfoldable pub cover : (order : ℕ) → List ℕ → (page : ℕ) → ℕ
cover order [] page = 0
cover order (x ∷ xs) page = covers order x page + cover order xs page

-- How many blocks of the lists below order `n` hold the page.
unfoldable pub total : (n : ℕ) → (ℕ → List ℕ) → (page : ℕ) → ℕ
total zero items page = 0
total (suc n) items page = cover n (items n) page + total n items page

abbrev pub update : (ℕ → List ℕ) → ℕ → List ℕ → ℕ → List ℕ
update items k ys j = if j == k then ys else items j

-- A frame of a block of order `k` is aligned to its size.
abbrev pub Aligned : (order frame : ℕ) → Type 0
Aligned order frame = (m : ℕ) × (frame ≡ page_size * (2 ^ order * m))

pub cover-append :
    (k : ℕ) (xs ys : List ℕ) (p : ℕ) → cover k (xs ++ ys) p ≡ cover k xs p + cover k ys p
unfolding cover
cover-append k [] ys p = omega arith
cover-append k (x ∷ xs) ys p = omega (arith, cover-append k xs ys p)

pub cover-mid :
    (k : ℕ) (pre : List ℕ) (x : ℕ) (suf : List ℕ) (p : ℕ)
    → cover k (pre ++ x ∷ suf) p ≡ cover k (pre ++ suf) p + covers k x p
unfolding cover
cover-mid k pre x suf p = omega (arith, cover-append k pre (x ∷ suf) p, cover-append k pre suf p)

pub total-ext :
    (n : ℕ) (f g : ℕ → List ℕ) (p : ℕ) → ((j : ℕ) → j < n → f j ≡ g j) → total n f p ≡ total n g p
unfolding total
total-ext zero f g p e = refl
total-ext (suc n) f g p e =
    rw (e n (omega arith))
      (ap (λ (t : ℕ). cover n (g n) p + t) (total-ext n f g p (λ j l. e j (omega arith))))

update_ne :
    (items : ℕ → List ℕ) (k : ℕ) (ys : List ℕ) (j : ℕ) → j ≢ k → update items k ys j ≡ items j
update_ne items k ys j ne = let e : (j == k) ≡ false = ground arith in rw e

update_self : (items : ℕ → List ℕ) (k : ℕ) (ys : List ℕ) → update items k ys k ≡ ys
update_self items k ys = let e : (k == k) ≡ true = ground arith in rw e

pub total-update :
    (n : ℕ) (items : ℕ → List ℕ) (k : ℕ) (ys : List ℕ) (p : ℕ)
    → k < n
    → total n (update items k ys) p + cover k (items k) p ≡ total n items p + cover k ys p
unfolding total
total-update zero items k ys p less = elim less [ ]
total-update (suc n) items k ys p less = elim (ℕ_discrete n k) [
  | yes e ↦
      rw
        (
          e,
          update_self items k ys,
          total-ext k (update items k ys) items p (λ j l. update_ne items k ys j (omega arith)),
        )
        (omega arith)
  | no ne ↦
      rw (update_ne items k ys n ne) (omega (arith, total-update n items k ys p (omega arith)))
]

pub cover-le-total :
    (n : ℕ) (items : ℕ → List ℕ) (k p : ℕ) → k < n → cover k (items k) p ≤ total n items p
unfolding total
cover-le-total zero items k p less = elim less [ ]
cover-le-total (suc n) items k p less = elim (ℕ_discrete n k) [
  | yes e ↦ rw e (omega arith)
  | no ne ↦ omega (arith, cover-le-total n items k p (omega arith))
]

-- The pages of two lists count separately.
pub cover-add-le-total :
    (n : ℕ) (items : ℕ → List ℕ) (j k p : ℕ)
    → j < n
    → k < n
    → j ≢ k
    → cover j (items j) p + cover k (items k) p ≤ total n items p
unfolding total
cover-add-le-total zero items j k p lj lk ne = elim lj [ ]
cover-add-le-total (suc n) items j k p lj lk ne = elim (ℕ_discrete n k) [
  | yes e ↦ rw e (omega (arith, cover-le-total k items j p (omega arith)))
  | no nk ↦ elim (ℕ_discrete n j) [
    | yes e ↦ rw e (omega (arith, cover-le-total j items k p (omega arith)))
    | no nj ↦ omega (arith, cover-add-le-total n items j k p (omega arith) (omega arith) ne)
  ]
]

pub covers_self : (k x : ℕ) → covers k x (page_of x) ≡ 1
unfolding in_pages
covers_self k x = ground (arith, one-le-pow k 2)

-- A frame whose first page no block of the list holds is none of its items.
pub cover-zero-Apart : (k a : ℕ) (xs : List ℕ) → cover k xs (page_of a) ≡ 0 → Apart a xs
unfolding cover
cover-zero-Apart k a [] z = tt
cover-zero-Apart k a (x ∷ xs) z = (
  λ e. absurd (omega (arith, subst (λ b. covers k b (page_of a) ≡ 1) e (covers_self k a))),
  cover-zero-Apart k a xs (omega arith),
)

-- An item covers its own first page.
pub item-cover : (k : ℕ) (xs : List ℕ) → All (λ x. 1 ≤ cover k xs (page_of x)) xs
unfolding cover
item-cover k [] = tt
item-cover k (x ∷ xs) = (omega (arith, covers_self k x), weaken xs (item-cover k xs))
  where
    weaken :
        (ys : List ℕ)
        → All (λ y. 1 ≤ cover k xs (page_of y)) ys
        → All (λ y. 1 ≤ cover k (x ∷ xs) (page_of y)) ys
    weaken [] h = tt
    weaken (y ∷ ys) h = (omega (arith, h.0), weaken ys h.1)

module _ (k low high m n : ℕ) (at_low : low ≡ page_size * (2 ^ k * m))
    (at_high : high ≡ page_size * (2 ^ k * n)) (pair : is_pair k low high ≡ true) where
  next_to : page_of high ≡ page_of low + 2 ^ k
  unfolding are_consequent
  next_to = ground (arith, one-le-pow k 2, pair)

  -- Two buddies cover together what the squashed block does.
  pub covers-pair : (p : ℕ) → covers k low p + covers k high p ≡ covers (suc k) low p
  unfolding in_pages
  covers-pair p = ground (arith, next_to, pow-suc 2 k)

  -- The first one of a pair is aligned to the next order.
  pub Aligned-pair : Aligned (suc k) low
  unfolding is_the_first_in_buddy
  Aligned-pair = (
    m / 2,
    at_low
        ∙ ap (λ (t : ℕ). page_size * t)
            (ap (λ (t : ℕ). 2 ^ k * t) even
              ∙ omega (arith, ap (λ (t : ℕ). t * (m / 2)) (pow-suc 2 k))),
  )
    where
      page : page_of low ≡ 2 ^ k * m
      page = omega arith

      clear : 2 ^ k * (page_of low / 2 ^ k % 2) ≡ 0
      clear = ground (arith, bit_and-pow k (page_of low), pair)

      even_quotient : page_of low / 2 ^ k ≡ m
      even_quotient = div-eq_of_eq-mul_right (one-le-pow k 2 (omega arith)) page

      even : m ≡ 2 * (m / 2)
      even =
          let z : 2 ^ k * (m % 2) ≡ 0 =
            ap (λ (t : ℕ). 2 ^ k * (t % 2)) (sym even_quotient) ∙ clear in
          grind (arith, one-le-pow k 2)
