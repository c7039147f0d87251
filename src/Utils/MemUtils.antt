-- ===== src/Utils/MemUtils.antt =====
-- kernel/libkernelcxx/include/mem_utils.hpp: masks and alignment on the 32-bit words of i386.
-- A boundary is a power of two; a pointer is its address.
use bolgenos_ng.Base.{
  ℕ, ◌+◌, ◌-◌, ◌*◌, ◌/◌, ◌%◌, ◌^◌, ◌≤◌, ◌<◌, bit_and, ◌≡◌, ◌≢◌, ap, ◌∙◌, Bool, false, arith, ◌==◌,
  if◌then◌else◌,
}
use native.Mathlib.Decide.{ℕ_discrete}
use native.Mathlib.Nat.{mod-eq_of_lt, div-add-mod, div-lt_iff_lt-mul, one-le-pow, mul-sub, mod-lt}
use bolgenos_ng.Base.Bits.{bit_and_mask, bit_and_shifted}

abbrev pub word : ℕ
word = 2 ^ 32

-- `(value >> offset) & mask`.
unfoldable pub shiftmask : ℕ → ℕ → ℕ → ℕ
shiftmask value offset mask = bit_and (value / 2 ^ offset) mask

-- `~(Boundary - 1)` on a 32-bit word is `2 ^ 32 - Boundary`.
unfoldable pub align_down : ℕ → ℕ → ℕ
align_down boundary value = bit_and value (word - boundary)

unfoldable pub align_up : ℕ → ℕ → ℕ
align_up boundary value =
    if bit_and value (boundary - 1) == 0
    then value
    else (align_down boundary value + boundary) % word

unfoldable pub is_aligned_at_least : ℕ → ℕ → Bool
is_aligned_at_least boundary value = align_up boundary value == value

-- `r` is the least multiple of `boundary` that is not below `value`.
pub record IsCeiling (boundary value r : ℕ) : Type 0 where
  pub above : value ≤ r
  pub near : r < value + boundary
  pub multiple : (q : ℕ) × (r ≡ boundary * q)

module _ (k j value : ℕ) (splits : word ≡ 2 ^ k * 2 ^ j) (fits : value < word) where
  positive : 1 ≤ 2 ^ k
  positive = one-le-pow k 2 (omega arith)

  upper : value / 2 ^ k < 2 ^ j
  upper = (div-lt_iff_lt-mul positive).1 (grind arith)

  align_down-mul : align_down (2 ^ k) value ≡ 2 ^ k * (value / 2 ^ k)
  unfolding align_down
  align_down-mul =
      ap (bit_and value) mask
      ∙ bit_and_shifted j k value
      ∙ ap (λ (t : ℕ). 2 ^ k * t) (mod-eq_of_lt upper)
    where
      mask : word - 2 ^ k ≡ 2 ^ k * (2 ^ j - 1)
      mask = omega (arith, mul-sub (2 ^ k) (2 ^ j) 1)

  -- Rounding down clears the remainder.
  pub align_down-eq : align_down (2 ^ k) value ≡ value - value % 2 ^ k
  align_down-eq = omega (arith, align_down-mul, div-add-mod value (2 ^ k))

  aligned : value % 2 ^ k ≡ 0 → align_up (2 ^ k) value ≡ value
  unfolding align_up
  aligned e = rw (bit_and_mask k value, e)

  unaligned : value % 2 ^ k ≢ 0 → align_up (2 ^ k) value ≡ (2 ^ k * (value / 2 ^ k) + 2 ^ k) % word
  unfolding align_up
  unaligned off =
      let tested : (value % 2 ^ k == 0) ≡ false = ground arith in
      rw (bit_and_mask k value, tested, align_down-mul)

  -- Rounding a word up to a boundary that is a power of two gives the least multiple of the
  -- boundary that is not below the word, where the word and the boundary together do not pass 2 ^
  -- 32.
  pub align_up-IsCeiling : value + 2 ^ k ≤ word → IsCeiling (2 ^ k) value (align_up (2 ^ k) value)
  align_up-IsCeiling room = elim (ℕ_discrete (value % 2 ^ k) 0) [
    | yes e ↦ rw (aligned e) (record {
      above = omega arith;
      near = omega (arith, positive);
      multiple = (value / 2 ^ k, omega (arith, div-add-mod value (2 ^ k)));
    })
    | no off ↦
        let small : 2 ^ k * (value / 2 ^ k) + 2 ^ k < word =
          omega (arith, div-add-mod value (2 ^ k)) in
        rw (unaligned off, mod-eq_of_lt small)
          (record {
            above = omega (arith, div-add-mod value (2 ^ k), mod-lt value positive);
            near = omega (arith, div-add-mod value (2 ^ k));
            multiple = (value / 2 ^ k + 1, omega arith);
          })
  ]

  -- Rounding up a word that is not a multiple of the boundary gives 0 where the word and the
  -- boundary together pass 2 ^ 32.
  pub align_up-wrap : word < value + 2 ^ k → value % 2 ^ k ≢ 0 → align_up (2 ^ k) value ≡ 0
  align_up-wrap high off = rw (unaligned off) (omega (arith, last))
    where
      mod_small : value % 2 ^ k < 2 ^ k
      mod_small = mod-lt value positive

      split : 2 ^ k * (value / 2 ^ k) + value % 2 ^ k ≡ value
      split = div-add-mod value (2 ^ k)

      last : 2 ^ k * (value / 2 ^ k) + 2 ^ k ≡ word
      last = grind (arith, upper)
