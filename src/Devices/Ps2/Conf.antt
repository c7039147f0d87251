-- ===== src/Devices/Ps2/Conf.antt =====
-- kernel/devices/ps2/include/ps2/common.hpp: the configuration byte.
use bolgenos_ng.Base.{
  ltb, ltb→lt, same_bool, same_bool-eq, and_left, and_right, ℕ, ◌-◌, ◌<◌, ◌≡◌, refl, bit_and,
  bit_or, Bool, true, not, ◌&&◌, ◌||◌, arith, ◌==◌,
}
use bolgenos_ng.Base.Bits.{all_below, all_below_sound}

pub data Bits : Type 0 where
  int_first int_second system clock_first clock_second translation : Bits

abbrev pub mask : Bits → ℕ
mask int_first = 1
mask int_second = 2
mask system = 4
mask clock_first = 16
mask clock_second = 32
mask translation = 64

abbrev pub Conf : Type 0
Conf = ℕ

unfoldable pub is_set : Conf → Bits → Bool
is_set conf field = not (bit_and conf (mask field) == 0)

unfoldable pub set : Conf → Bits → Conf
set conf field = bit_or conf (mask field)

-- `~field` on a byte
unfoldable pub unset : Conf → Bits → Conf
unset conf field = bit_and conf (255 - mask field)

pub Bits-discrete : Discrete Bits
Bits-discrete = hlevel

abbrev pub is : Bits → Bits → Bool
is a b = mask a == mask b

abbrev all_bits : (Bits → Bool) → Bool
all_bits p =
    p int_first
    && (p int_second && (p system && (p clock_first && (p clock_second && p translation))))

all_bits_sound : (p : Bits → Bool) (a : Bits) → all_bits p ≡ true → p a ≡ true
all_bits_sound p int_first h = and_left _ _ h
all_bits_sound p int_second h = and_left _ _ (and_right (p int_first) _ h)
all_bits_sound p system h = and_left _ _ (and_right (p int_second) _ (and_right (p int_first) _ h))
all_bits_sound p clock_first h = ground arith
all_bits_sound p clock_second h = ground arith
all_bits_sound p translation h = ground arith

-- After a bit is set or cleared, each bit is what it should be.
abbrev pub right_bits : Conf → Bits → Bits → Bool
right_bits c a b =
    same_bool (is_set (set c a) b) (is a b || is_set c b)
    && same_bool (is_set (unset c a) b) (not (is a b) && is_set c b)

table : all_below 256 (λ c. all_bits (λ a. all_bits (λ b. right_bits c a b))) ≡ true
unfolding all_below is_set set unset
table = refl

-- What a bit of the configuration is after one of them is set or reset.
pub is_set-set :
    (c : Conf) (a b : Bits)
    → c < 256
    → (is_set (set c a) b ≡ (is a b || is_set c b))
      × (is_set (unset c a) b ≡ (not (is a b) && is_set c b))
is_set-set c a b small =
    let one =
      all_below_sound 256 (λ c. all_bits (λ a. all_bits (λ b. right_bits c a b))) c small table in
    let two = all_bits_sound (λ a. all_bits (λ b. right_bits c a b)) a one in
    let three = all_bits_sound (λ b. right_bits c a b) b two in
    (same_bool-eq _ _ (and_left _ _ three), same_bool-eq _ _ (and_right _ _ three))

byte_table : all_below 256 (λ c. all_bits (λ a. ltb (set c a) 256)) ≡ true
unfolding all_below set
byte_table = refl

pub set-lt : (c : Conf) (a : Bits) → c < 256 → set c a < 256
set-lt c a small = ltb→lt _ _ (
    all_bits_sound (λ a. ltb (set c a) 256) a
      (all_below_sound 256 (λ c. all_bits (λ a. ltb (set c a) 256)) c small byte_table))
