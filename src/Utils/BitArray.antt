-- ===== src/Utils/BitArray.antt =====
-- kernel/libkernelcxx/include/bitarray.hpp: an array of bits on memory that the caller provides.
-- The memory behind `data_` is the list of its bytes; a byte outside it is read as 0, and a write
-- there is dropped.
use bolgenos_ng.Base.{
  ℕ, zero, suc, ◌+◌, ◌-◌, ◌*◌, ◌/◌, ◌%◌, ◌^◌, ◌≤◌, ◌<◌, bit_and, bit_or, ◌≡◌, refl, ◌∙◌, Bool, true,
  false, not, ◌&&◌, List, arith, ltb, ◌==◌, if◌then◌else◌, length, get_or, set, length-set,
  get_or-set, get_or-set_default, get_or-beyond, dec_lt, subst, leb, get_or-set_self, get_or-set_ne,
}
use native.Mathlib.Decide.{ℕ_discrete}
use bolgenos_ng.Base.Bits.{all_below, all_below_sound, zero-bit_and}
use bolgenos_ng.Utils.MemUtils.{word, align_up, IsCeiling, align_up-IsCeiling}

pub record BitArray : Type 0 where
  pub size : ℕ
  pub bytes : List ℕ

-- `uint8_t(1) << bit`, for a bit below 8.
abbrev pub mask : ℕ → ℕ
mask bit = 2 ^ bit

unfoldable pub get : BitArray → ℕ → Bool
get a index = not (bit_and (get_or a.bytes (index / 8) 0) (mask (index % 8)) == 0)

-- `|= mask` and `&= ~mask` on one byte.
unfoldable pub set_bit : ℕ → ℕ → Bool → ℕ
set_bit byte bit true = bit_or byte (mask bit)
set_bit byte bit false = bit_and byte (255 - mask bit)

unfoldable pub set_value : BitArray → ℕ → Bool → BitArray
set_value a index value = record a {
  bytes = set a.bytes (index / 8) (set_bit (get_or a.bytes (index / 8) 0) (index % 8) value);
}

-- The loop of `initialize`, with the rounds that are left.
unfoldable pub clear_from : ℕ → ℕ → List ℕ → List ℕ
clear_from zero idx bytes = bytes
clear_from (suc left) idx bytes = clear_from left (idx + 1) (set bytes idx 0)

unfoldable pub initialize : List ℕ → ℕ → BitArray
unfolding clear_from
initialize memory size = record { size = size; bytes = clear_from (align_up 8 size / 8) 0 memory }

unfoldable pub expected_size : ℕ → ℕ
expected_size elems = if elems % 8 == 0 then elems / 8 else elems / 8 + 1

-- Every byte of the memory is one.
abbrev pub IsBytes : List ℕ → Type 0
IsBytes bytes = (i : ℕ) → get_or bytes i 0 < 256

-- What a bit operation does to each bit of a byte, checked at every byte.
abbrev reads : ℕ → ℕ → Bool
reads byte bit = not (bit_and byte (mask bit) == 0)

abbrev same : Bool → Bool → Bool
same true b = b
same false b = not b

abbrev bit_law : ℕ → ℕ → ℕ → Bool → Bool
bit_law byte i j v =
    ltb (set_bit byte i v) 256
    && (if i == j
        then same (reads (set_bit byte i v) j) v
        else same (reads (set_bit byte i v) j) (reads byte j))

law_table :
    (v : Bool) → all_below 256 (λ x. all_below 8 (λ i. all_below 8 (λ j. bit_law x i j v))) ≡ true
unfolding all_below set_bit
law_table true = refl
law_table false = refl

law : (v : Bool) (x i j : ℕ) → x < 256 → i < 8 → j < 8 → bit_law x i j v ≡ true
law v x i j hx hi hj =
    all_below_sound 8 (λ j. bit_law x i j v) j hj
      (all_below_sound 8 (λ i. all_below 8 (λ j. bit_law x i j v)) i hi
        (all_below_sound 256 _ x hx (law_table v)))

set_bit-lt : (x i : ℕ) (v : Bool) → x < 256 → i < 8 → set_bit x i v < 256
set_bit-lt x i v hx hi = ground (arith, law v x i i hx hi hi)

reads-set_bit :
    (x i j : ℕ) (v : Bool)
    → x < 256
    → i < 8
    → j < 8
    → reads (set_bit x i v) j ≡ (if i == j then v else reads x j)
reads-set_bit x i j v hx hi hj = ground (arith, law v x i j hx hi hj)

same_bit : (i j : ℕ) → i / 8 ≡ j / 8 → i % 8 ≡ j % 8 → i ≡ j
same_bit i j p q = omega arith

IsBytes-set : (xs : List ℕ) (i v : ℕ) → v < 256 → IsBytes xs → IsBytes (set xs i v)
IsBytes-set xs i v small h k = ground (arith, get_or-set xs i k v 0, h k)

-- A write keeps every byte a byte.
pub set_value-IsBytes :
    (a : BitArray) (i : ℕ) (v : Bool) → IsBytes a.bytes → IsBytes (set_value a i v).bytes
unfolding set_value
set_value-IsBytes a i v h =
    IsBytes-set a.bytes (i / 8) _
      (set_bit-lt (get_or a.bytes (i / 8) 0) (i % 8) v (h (i / 8)) (omega arith)) h

pub length-set_value :
    (a : BitArray) (i : ℕ) (v : Bool) → length (set_value a i v).bytes ≡ length a.bytes
unfolding set_value
length-set_value a i v = length-set a.bytes (i / 8) _

-- After a write within the memory, the written bit reads as the value and every other bit as
-- before, on memory made of bytes.
pub get-set_value :
    (a : BitArray) (i j : ℕ) (v : Bool)
    → IsBytes a.bytes
    → i / 8 < length a.bytes
    → get (set_value a i v) j ≡ (if i == j then v else get a j)
unfolding get set_value
get-set_value a i j v h fits = elim (ℕ_discrete (i / 8) (j / 8)) [
  | yes e ↦ ground (
    arith,
    get_or-set_self a.bytes (i / 8) (set_bit (get_or a.bytes (i / 8) 0) (i % 8) v) 0 fits,
    reads-set_bit (get_or a.bytes (i / 8) 0) (i % 8) (j % 8) v (h (i / 8)),
    same_bit i j e,
  )
  | no ne ↦ ground (
    arith,
    get_or-set_ne a.bytes (i / 8) (j / 8) (set_bit (get_or a.bytes (i / 8) 0) (i % 8) v) 0 ne,
  )
]

clear_from-get_or :
    (left idx : ℕ) (bytes : List ℕ) (k : ℕ)
    → get_or (clear_from left idx bytes) k 0
      ≡ (if leb idx k && ltb k (idx + left) then 0 else get_or bytes k 0)
unfolding clear_from
clear_from-get_or zero idx bytes k = ground arith
clear_from-get_or (suc left) idx bytes k = elim (ℕ_discrete idx k) [
  | yes e ↦ ground (
    arith,
    clear_from-get_or left (idx + 1) (set bytes idx 0) k,
    subst (λ j. get_or (set bytes idx 0) j 0 ≡ 0) e (get_or-set_default bytes idx 0),
  )
  | no ne ↦ ground (
    arith,
    clear_from-get_or left (idx + 1) (set bytes idx 0) k,
    get_or-set_ne bytes idx k 0 0 ne,
  )
]

clear_from-length :
    (left idx : ℕ) (bytes : List ℕ) → length (clear_from left idx bytes) ≡ length bytes
unfolding clear_from
clear_from-length zero idx bytes = refl
clear_from-length (suc left) idx bytes =
    clear_from-length left (idx + 1) (set bytes idx 0) ∙ length-set bytes idx 0

-- The bytes that `initialize` clears are as many as `expected_size` reserves.
pub align_up-expected_size : (size : ℕ) → size + 8 ≤ word → align_up 8 size / 8 ≡ expected_size size
unfolding expected_size
align_up-expected_size size room =
    let c : IsCeiling 8 size (align_up 8 size) =
      align_up-IsCeiling 3 29 size refl (omega arith) room in
    ground (arith, c.above, c.near, c.multiple)

-- After `initialize`, every bit below the size reads as 0, whatever the memory held, and the memory
-- has the length it had, for a size of at most 2 ^ 32 - 8.
pub initialize_clear :
    (memory : List ℕ) (size i : ℕ)
    → size + 8 ≤ word
    → i < size
    → (get (initialize memory size) i ≡ false)
      × (length (initialize memory size).bytes ≡ length memory)
unfolding get initialize expected_size
initialize_clear memory size i room below = (
  ground (
    arith,
    clear_from-get_or (align_up 8 size / 8) 0 memory (i / 8),
    align_up-expected_size size room,
    zero-bit_and (mask (i % 8)),
  ),
  clear_from-length (align_up 8 size / 8) 0 memory,
)

pub initialize-IsBytes :
    (memory : List ℕ) (size : ℕ) → IsBytes memory → IsBytes (initialize memory size).bytes
unfolding initialize
initialize-IsBytes memory size h k =
    ground (arith, clear_from-get_or (align_up 8 size / 8) 0 memory k, h k)

-- On memory of exactly the expected size, a new array reads as 0 at every index.
pub initialize_zero :
    (memory : List ℕ) (size i : ℕ)
    → size + 8 ≤ word
    → length memory ≡ expected_size size
    → get (initialize memory size) i ≡ false
unfolding get initialize
initialize_zero memory size i room exact = elim (dec_lt (i / 8) (length memory)) [
  | yes less ↦ ground (
    arith,
    clear_from-get_or (align_up 8 size / 8) 0 memory (i / 8),
    align_up-expected_size size room,
    zero-bit_and (mask (i % 8)),
  )
  | no more ↦ ground (
    arith,
    clear_from-get_or (align_up 8 size / 8) 0 memory (i / 8),
    get_or-beyond memory (i / 8) 0,
    zero-bit_and (mask (i % 8)),
  )
]

pub initialize-length :
    (memory : List ℕ) (size : ℕ) → length (initialize memory size).bytes ≡ length memory
unfolding initialize
initialize-length memory size = clear_from-length (align_up 8 size / 8) 0 memory

pub expected_size-room : (size : ℕ) → size ≤ 8 * expected_size size
unfolding expected_size
expected_size-room size = ground arith
