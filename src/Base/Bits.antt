-- ===== src/Base/Bits.antt =====
-- The lowest digit of a bitwise "and", and what a mask of one bit or of the low bits reads.
use Prim.Native.Nat.{
  ℕ, zero, suc, ◌+◌, ◌*◌, ◌/◌, ◌%◌, ◌-◌, ◌^◌, ◌≤◌, ◌<◌, min, bit_and, digits, bit_and-bitwise,
}
use mathlib.Core.Path.{◌≡◌, refl, sym, ap, ◌∙◌}
use mathlib.Core.Bool.{Bool, true, ◌&&◌}
use native.Mathlib.Decide.{ℕ_discrete}
use native.Mathlib.Omega.{arith}
use native.Mathlib.Nat.{pow-zero, pow-suc, pow-succ', one-le-pow, div-div-eq-div-mul}

-- The digits of the conjunction, up to a number of them.
abbrev conjunction : (places a b : ℕ) → ℕ
conjunction places a b = digits (λ rest. zero) min places a b

-- Places beyond the number itself add nothing: one of them, and any number.
one_more : (m a b : ℕ) → a ≤ m → conjunction (suc m) a b ≡ conjunction m a b
one_more zero zero b le = refl
one_more zero (suc a) b le = absurd (omega arith)
one_more (suc m) zero b le = refl
one_more (suc m) (suc a) b le = omega (arith, one_more m (suc a / 2) (b / 2) (omega arith))

any_more : (m n a b : ℕ) → n ≤ m → a ≤ n → conjunction m a b ≡ conjunction n a b
any_more zero zero a b up le = refl
any_more zero (suc n) a b up le = absurd (omega arith)
any_more (suc m) n a b up le = elim (ℕ_discrete n (suc m)) [
  | yes same ↦ rw same refl
  | no less ↦ one_more m a b (omega arith) ∙ any_more m n a b (omega arith) le
]

pub zero-bit_and : (mask : ℕ) → bit_and 0 mask ≡ 0
zero-bit_and mask = bit_and-bitwise 0 mask

halves : (a b : ℕ) → conjunction a (suc a / 2) (b / 2) ≡ bit_and (suc a / 2) (b / 2)
halves a b =
    any_more a (suc a / 2) (suc a / 2) (b / 2) (omega arith) (omega arith)
    ∙ sym (bit_and-bitwise (suc a / 2) (b / 2))

-- The conjunction of the lowest digits, and that of the rest.
pub bit_and_step :
    (n mask : ℕ) → bit_and n mask ≡ 2 * bit_and (n / 2) (mask / 2) + min (n % 2) (mask % 2)
bit_and_step zero mask = omega (arith, zero-bit_and (mask / 2), zero-bit_and mask)
bit_and_step (suc n) mask = omega (arith, halves n mask, bit_and-bitwise (suc n) mask)

no_mask : (bound a : ℕ) → a ≤ bound → bit_and a 0 ≡ 0
no_mask bound zero le = refl
no_mask zero (suc a) le = absurd (omega arith)
no_mask (suc bound) (suc a) le =
    let rest = no_mask bound (suc a / 2) (omega arith) in
    omega (arith, rest, bit_and_step (suc a) 0)

pub bit_and-zero : (n : ℕ) → bit_and n 0 ≡ 0
bit_and-zero n = no_mask n n (omega arith)

pub bit_and-one : (n : ℕ) → bit_and n 1 ≡ n % 2
bit_and-one n = omega (arith, bit_and-zero (n / 2), bit_and_step n 1)

double_times : (k m : ℕ) → m * 2 ^ suc k ≡ 2 * (m * 2 ^ k)
double_times k m = omega (arith, ap (λ (t : ℕ). m * t) (pow-suc 2 k))

-- The low bits of a number that is put together of two parts.
low_part : (k high low : ℕ) → low < 2 ^ k → bit_and (high * 2 ^ k + low) (2 ^ k - 1) ≡ low
low_part zero high low small = rw bit_and-zero (omega arith)
low_part (suc k) high low small =
    let power = pow-suc 2 k in
    ground (
      arith,
      low_part k high (low / 2) (omega (arith, power)),
      power,
      double_times k high,
      bit_and_step (high * 2 ^ suc k + low) (2 ^ suc k - 1),
      one-le-pow k 2,
    )

-- A mask of `k` low bits is the remainder by `2 ^ k`.
pub bit_and_mask : (k a : ℕ) → bit_and a (2 ^ k - 1) ≡ a % 2 ^ k
bit_and_mask k a = ground (arith, one-le-pow k 2, low_part k (a / 2 ^ k) (a % 2 ^ k))

div-pow-suc : (k a : ℕ) → a / 2 ^ suc k ≡ a / 2 / 2 ^ k
div-pow-suc k a = rw (pow-succ', div-div-eq-div-mul)

-- A mask of the `j` bits above the lowest `k` reads those bits, in their place.
pub bit_and_shifted : (j k a : ℕ) → bit_and a (2 ^ k * (2 ^ j - 1)) ≡ 2 ^ k * (a / 2 ^ k % 2 ^ j)
bit_and_shifted j zero a = ap (bit_and a) (omega arith) ∙ bit_and_mask j a ∙ ground (arith, div-one)
  where
    div-one : a / 2 ^ 0 ≡ a
    div-one = rw pow-zero (omega arith)
bit_and_shifted j (suc k) a = rw (div-pow-suc k a) (
    bit_and_step a (2 ^ suc k * (2 ^ j - 1))
    ∙ ground (
      arith,
      double,
      ap (λ (t : ℕ). t * (a / 2 / 2 ^ k % 2 ^ j)) (pow-suc 2 k),
      bit_and_shifted j k (a / 2),
    ))
  where
    double : 2 ^ suc k * (2 ^ j - 1) ≡ 2 * (2 ^ k * (2 ^ j - 1))
    double = omega (arith, ap (λ (t : ℕ). t * (2 ^ j - 1)) (pow-suc 2 k))

-- A mask of the one bit `k` reads that bit.
pub bit_and-pow : (k a : ℕ) → bit_and a (2 ^ k) ≡ 2 ^ k * (a / 2 ^ k % 2)
bit_and-pow k a = ap (bit_and a) (omega arith) ∙ bit_and_shifted 1 k a

-- Whether a test holds of every number below a bound, by evaluation.
unfoldable pub all_below : ℕ → (ℕ → Bool) → Bool
all_below zero test = true
all_below (suc bound) test = all_below bound test && test bound

pub all_below_sound :
    (bound : ℕ) (test : ℕ → Bool) (x : ℕ) → x < bound → all_below bound test ≡ true → test x ≡ true
unfolding all_below
all_below_sound zero test x less holds = absurd (omega arith)
all_below_sound (suc bound) test x less holds = ground (arith, all_below_sound bound test x)
