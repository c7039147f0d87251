-- ===== src/Devices/Ps2/Keyboard/Table.antt =====
-- The table of kernel/devices/ps2/src/ps2_keyboard_sm.cpp from bytes of code set 2 to keys. The table
-- ends with the row of 0x80; the bytes after it, which the source fills with zeroes, have no key.
use bolgenos_ng.Base.{ℕ, List, [], ◌∷◌, get_or}
use bolgenos_ng.Devices.Keyboard.Key.{
  KbKey, kb_key_none, kb_key_f1, kb_key_f2, kb_key_f3, kb_key_f5, kb_key_f6, kb_key_f7, kb_key_f8,
  kb_key_f9, kb_key_f10, kb_key_f11, kb_key_f12, kb_key_tab, kb_key_backspace, kb_key_lalt,
  kb_key_lshift, kb_key_lctrl, kb_key_rshift, kb_key_back_tick, kb_key_0, kb_key_1, kb_key_2,
  kb_key_3, kb_key_4, kb_key_5, kb_key_6, kb_key_7, kb_key_8, kb_key_9, kb_key_a, kb_key_b,
  kb_key_c, kb_key_d, kb_key_e, kb_key_f, kb_key_g, kb_key_h, kb_key_i, kb_key_j, kb_key_k,
  kb_key_l, kb_key_m, kb_key_n, kb_key_o, kb_key_p, kb_key_q, kb_key_r, kb_key_s, kb_key_t,
  kb_key_u, kb_key_v, kb_key_w, kb_key_x, kb_key_y, kb_key_z, kb_key_space, kb_key_comma,
  kb_key_dot, kb_key_slash, kb_key_semicolon, kb_key_minus, kb_key_apos, kb_key_sqbracketl,
  kb_key_equal, kb_key_enter, kb_key_sqbracketr, kb_key_backslash, kb_key_num_0, kb_key_num_1,
  kb_key_num_2, kb_key_num_3, kb_key_num_4, kb_key_num_5, kb_key_num_6, kb_key_num_7, kb_key_num_8,
  kb_key_num_9, kb_key_num_dot, kb_key_num_plus, kb_key_num_minus, kb_key_num_star, kb_key_escape,
  kb_key_capslock, kb_key_numlock, kb_key_scrolllock,
}

abbrev pub codeset2_1b_translation_table : List KbKey
codeset2_1b_translation_table =
    kb_key_none ∷ kb_key_f9 ∷ kb_key_none ∷ kb_key_f5 ∷ kb_key_f3 ∷ kb_key_f1 ∷ kb_key_f2
    ∷ kb_key_f12 ∷ kb_key_none ∷ kb_key_f10 ∷ kb_key_f8 ∷ kb_key_f6 ∷ kb_key_none ∷ kb_key_tab
    ∷ kb_key_back_tick ∷ kb_key_none ∷ kb_key_none ∷ kb_key_lalt ∷ kb_key_lshift ∷ kb_key_none
    ∷ kb_key_lctrl ∷ kb_key_q ∷ kb_key_1 ∷ kb_key_none ∷ kb_key_none ∷ kb_key_none ∷ kb_key_z
    ∷ kb_key_s ∷ kb_key_a ∷ kb_key_w ∷ kb_key_2 ∷ kb_key_none ∷ kb_key_none ∷ kb_key_c ∷ kb_key_x
    ∷ kb_key_d ∷ kb_key_e ∷ kb_key_4 ∷ kb_key_3 ∷ kb_key_none ∷ kb_key_none ∷ kb_key_space
    ∷ kb_key_v ∷ kb_key_f ∷ kb_key_t ∷ kb_key_r ∷ kb_key_5 ∷ kb_key_none ∷ kb_key_none ∷ kb_key_n
    ∷ kb_key_b ∷ kb_key_h ∷ kb_key_g ∷ kb_key_y ∷ kb_key_6 ∷ kb_key_none ∷ kb_key_none ∷ kb_key_none
    ∷ kb_key_m ∷ kb_key_j ∷ kb_key_u ∷ kb_key_7 ∷ kb_key_8 ∷ kb_key_none ∷ kb_key_none
    ∷ kb_key_comma ∷ kb_key_k ∷ kb_key_i ∷ kb_key_o ∷ kb_key_0 ∷ kb_key_9 ∷ kb_key_none
    ∷ kb_key_none ∷ kb_key_dot ∷ kb_key_slash ∷ kb_key_l ∷ kb_key_semicolon ∷ kb_key_p
    ∷ kb_key_minus ∷ kb_key_none ∷ kb_key_none ∷ kb_key_none ∷ kb_key_apos ∷ kb_key_none
    ∷ kb_key_sqbracketl ∷ kb_key_equal ∷ kb_key_none ∷ kb_key_none ∷ kb_key_capslock ∷ kb_key_rshift
    ∷ kb_key_enter ∷ kb_key_sqbracketr ∷ kb_key_none ∷ kb_key_backslash ∷ kb_key_none ∷ kb_key_none
    ∷ kb_key_none ∷ kb_key_none ∷ kb_key_none ∷ kb_key_none ∷ kb_key_none ∷ kb_key_none
    ∷ kb_key_backspace ∷ kb_key_none ∷ kb_key_none ∷ kb_key_num_1 ∷ kb_key_none ∷ kb_key_num_4
    ∷ kb_key_num_7 ∷ kb_key_none ∷ kb_key_none ∷ kb_key_none ∷ kb_key_num_0 ∷ kb_key_num_dot
    ∷ kb_key_num_2 ∷ kb_key_num_5 ∷ kb_key_num_6 ∷ kb_key_num_8 ∷ kb_key_escape ∷ kb_key_numlock
    ∷ kb_key_f11 ∷ kb_key_num_plus ∷ kb_key_num_3 ∷ kb_key_num_minus ∷ kb_key_num_star
    ∷ kb_key_num_9 ∷ kb_key_scrolllock ∷ kb_key_none ∷ kb_key_none ∷ kb_key_none ∷ kb_key_none
    ∷ kb_key_f7 ∷ kb_key_none ∷ kb_key_none ∷ kb_key_none ∷ kb_key_none ∷ []

-- `codeset2_1b_translation_table[byte]`.
unfoldable pub translate : ℕ → KbKey
translate byte = get_or codeset2_1b_translation_table byte kb_key_none
