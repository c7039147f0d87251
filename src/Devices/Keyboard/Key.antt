-- ===== src/Devices/Keyboard/Key.antt =====
-- kernel/devices/include/bolgenos-ng/keyboard.hpp: the keys, in the order of the enumeration.
-- `kb_key_none` is `__kb_key_none`, which is 0.
pub mod Code
use bolgenos_ng.Base.{ℕ, List, [], ◌∷◌}

pub data KbKey : Type 0 where
  kb_key_none : KbKey
  kb_key_f1 : KbKey
  kb_key_f2 : KbKey
  kb_key_f3 : KbKey
  kb_key_f4 : KbKey
  kb_key_f5 : KbKey
  kb_key_f6 : KbKey
  kb_key_f7 : KbKey
  kb_key_f8 : KbKey
  kb_key_f9 : KbKey
  kb_key_f10 : KbKey
  kb_key_f11 : KbKey
  kb_key_f12 : KbKey
  kb_key_tab : KbKey
  kb_key_backspace : KbKey
  kb_key_lalt : KbKey
  kb_key_lshift : KbKey
  kb_key_lctrl : KbKey
  kb_key_ralt : KbKey
  kb_key_rshift : KbKey
  kb_key_rctrl : KbKey
  kb_key_back_tick : KbKey
  kb_key_0 : KbKey
  kb_key_1 : KbKey
  kb_key_2 : KbKey
  kb_key_3 : KbKey
  kb_key_4 : KbKey
  kb_key_5 : KbKey
  kb_key_6 : KbKey
  kb_key_7 : KbKey
  kb_key_8 : KbKey
  kb_key_9 : KbKey
  kb_key_a : KbKey
  kb_key_b : KbKey
  kb_key_c : KbKey
  kb_key_d : KbKey
  kb_key_e : KbKey
  kb_key_f : KbKey
  kb_key_g : KbKey
  kb_key_h : KbKey
  kb_key_i : KbKey
  kb_key_j : KbKey
  kb_key_k : KbKey
  kb_key_l : KbKey
  kb_key_m : KbKey
  kb_key_n : KbKey
  kb_key_o : KbKey
  kb_key_p : KbKey
  kb_key_q : KbKey
  kb_key_r : KbKey
  kb_key_s : KbKey
  kb_key_t : KbKey
  kb_key_u : KbKey
  kb_key_v : KbKey
  kb_key_w : KbKey
  kb_key_x : KbKey
  kb_key_y : KbKey
  kb_key_z : KbKey
  kb_key_space : KbKey
  kb_key_comma : KbKey
  kb_key_dot : KbKey
  kb_key_slash : KbKey
  kb_key_semicolon : KbKey
  kb_key_minus : KbKey
  kb_key_apos : KbKey
  kb_key_sqbracketl : KbKey
  kb_key_equal : KbKey
  kb_key_enter : KbKey
  kb_key_sqbracketr : KbKey
  kb_key_backslash : KbKey
  kb_key_num_0 : KbKey
  kb_key_num_1 : KbKey
  kb_key_num_2 : KbKey
  kb_key_num_3 : KbKey
  kb_key_num_4 : KbKey
  kb_key_num_5 : KbKey
  kb_key_num_6 : KbKey
  kb_key_num_7 : KbKey
  kb_key_num_8 : KbKey
  kb_key_num_9 : KbKey
  kb_key_num_dot : KbKey
  kb_key_num_plus : KbKey
  kb_key_num_minus : KbKey
  kb_key_num_star : KbKey
  kb_key_num_slash : KbKey
  kb_key_num_enter : KbKey
  kb_key_escape : KbKey
  kb_key_capslock : KbKey
  kb_key_numlock : KbKey
  kb_key_scrolllock : KbKey
  kb_key_acpi_sleep : KbKey
  kb_key_acpi_power : KbKey
  kb_key_acpi_wake : KbKey
  kb_key_cursor_up : KbKey
  kb_key_cursor_down : KbKey
  kb_key_cursor_right : KbKey
  kb_key_cursor_left : KbKey
  kb_key_mm_www_search : KbKey
  kb_key_mm_prev_track : KbKey
  kb_key_mm_www_fav : KbKey
  kb_key_mm_www_refresh : KbKey
  kb_key_mm_voldown : KbKey
  kb_key_mm_mute : KbKey
  kb_key_mm_www_stop : KbKey
  kb_key_mm_calc : KbKey
  kb_key_mm_www_forward : KbKey
  kb_key_mm_vol_up : KbKey
  kb_key_mm_playpause : KbKey
  kb_key_mm_www_back : KbKey
  kb_key_mm_www_home : KbKey
  kb_key_mm_stop : KbKey
  kb_key_mm_mycomp : KbKey
  kb_key_mm_email : KbKey
  kb_key_mm_next_track : KbKey
  kb_key_mm_select : KbKey
  kb_key_end : KbKey
  kb_key_home : KbKey
  kb_key_page_down : KbKey
  kb_key_page_up : KbKey
  kb_key_lgui : KbKey
  kb_key_rgui : KbKey
  kb_key_apps : KbKey
  kb_key_insert : KbKey
  kb_key_delete : KbKey
  kb_key_print_screen : KbKey
  kb_key_pause : KbKey

-- `__kb_key_max`.
abbrev pub kb_key_max : ℕ
kb_key_max = 126
