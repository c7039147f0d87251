-- ===== src/Devices/Keyboard.antt =====
-- kernel/devices/src/keyboard.cpp: the character of a key. A `char` is a number, 0 for no character.
pub mod Key
pub mod Symbols
use bolgenos_ng.Base.{ℕ, ◌+◌, ◌-◌, Bool, ◌&&◌, leb, ◌==◌, if◌then◌else◌}
use bolgenos_ng.Devices.Keyboard.Key.{
  KbKey, kb_key_back_tick, kb_key_0, kb_key_9, kb_key_a, kb_key_z, kb_key_space, kb_key_comma,
  kb_key_dot, kb_key_slash, kb_key_semicolon, kb_key_minus, kb_key_apos, kb_key_sqbracketl,
  kb_key_equal, kb_key_enter, kb_key_sqbracketr, kb_key_backslash,
}
use bolgenos_ng.Devices.Keyboard.Key.Code.{code, cast}

unfoldable pub is_letter : KbKey → Bool
is_letter key = leb (code kb_key_a) (code key) && leb (code key) (code kb_key_z)

unfoldable pub is_digit : KbKey → Bool
is_digit key = leb (code kb_key_0) (code key) && leb (code key) (code kb_key_9)

-- `operator++`.
unfoldable pub next_key : KbKey → KbKey
next_key key = cast (code key + 1)

unfoldable pub punctuation : KbKey → ℕ
punctuation kb_key_space = 32
punctuation kb_key_back_tick = 96
punctuation kb_key_comma = 44
punctuation kb_key_dot = 46
punctuation kb_key_slash = 47
punctuation kb_key_semicolon = 59
punctuation kb_key_minus = 45
punctuation kb_key_apos = 39
punctuation kb_key_sqbracketl = 91
punctuation kb_key_equal = 61
punctuation kb_key_enter = 10
punctuation kb_key_sqbracketr = 93
punctuation kb_key_backslash = 92
punctuation key = 0

unfoldable pub to_printable_key : KbKey → ℕ
to_printable_key key =
    if is_letter key
    then 97 + (code key - code kb_key_a)
    else if is_digit key
    then 48 + (code key - code kb_key_0)
    else punctuation key

-- The `switch` of `apply_lshift`.
unfoldable pub shifted : ℕ → ℕ
shifted sym =
    if sym == 48
    then 41
    else if sym == 49
    then 33
    else if sym == 50
    then 64
    else if sym == 51
    then 35
    else if sym == 52
    then 36
    else if sym == 53
    then 37
    else if sym == 54
    then 94
    else if sym == 55
    then 38
    else if sym == 56
    then 42
    else if sym == 57
    then 40
    else if sym == 96
    then 126
    else if sym == 44
    then 60
    else if sym == 46
    then 62
    else if sym == 47
    then 63
    else if sym == 59
    then 58
    else if sym == 45
    then 95
    else if sym == 39
    then 34
    else if sym == 91
    then 123
    else if sym == 93
    then 125
    else if sym == 61
    then 43
    else if sym == 92
    then 124
    else sym

unfoldable pub apply_lshift : ℕ → ℕ
apply_lshift sym = if leb 97 sym && leb sym 122 then 65 + (sym - 97) else shifted sym
