-- ===== src/Devices/Keyboard/Key/Code.antt =====
-- kernel/devices/include/bolgenos-ng/keyboard.hpp: a key as an integer and back.
use bolgenos_ng.Base.{ℕ, List, [], ◌∷◌, get_or}
use bolgenos_ng.Devices.Keyboard.Key.{
  KbKey, kb_key_none, kb_key_f1, kb_key_f2, kb_key_f3, kb_key_f4, kb_key_f5, kb_key_f6, kb_key_f7,
  kb_key_f8, kb_key_f9, kb_key_f10, kb_key_f11, kb_key_f12, kb_key_tab, kb_key_backspace,
  kb_key_lalt, kb_key_lshift, kb_key_lctrl, kb_key_ralt, kb_key_rshift, kb_key_rctrl,
  kb_key_back_tick, kb_key_0, kb_key_1, kb_key_2, kb_key_3, kb_key_4, kb_key_5, kb_key_6, kb_key_7,
  kb_key_8, kb_key_9, kb_key_a, kb_key_b, kb_key_c, kb_key_d, kb_key_e, kb_key_f, kb_key_g,
  kb_key_h, kb_key_i, kb_key_j, kb_key_k, kb_key_l, kb_key_m, kb_key_n, kb_key_o, kb_key_p,
  kb_key_q, kb_key_r, kb_key_s, kb_key_t, kb_key_u, kb_key_v, kb_key_w, kb_key_x, kb_key_y,
  kb_key_z, kb_key_space, kb_key_comma, kb_key_dot, kb_key_slash, kb_key_semicolon, kb_key_minus,
  kb_key_apos, kb_key_sqbracketl, kb_key_equal, kb_key_enter, kb_key_sqbracketr, kb_key_backslash,
  kb_key_num_0, kb_key_num_1, kb_key_num_2, kb_key_num_3, kb_key_num_4, kb_key_num_5, kb_key_num_6,
  kb_key_num_7, kb_key_num_8, kb_key_num_9, kb_key_num_dot, kb_key_num_plus, kb_key_num_minus,
  kb_key_num_star, kb_key_num_slash, kb_key_num_enter, kb_key_escape, kb_key_capslock,
  kb_key_numlock, kb_key_scrolllock, kb_key_acpi_sleep, kb_key_acpi_power, kb_key_acpi_wake,
  kb_key_cursor_up, kb_key_cursor_down, kb_key_cursor_right, kb_key_cursor_left,
  kb_key_mm_www_search, kb_key_mm_prev_track, kb_key_mm_www_fav, kb_key_mm_www_refresh,
  kb_key_mm_voldown, kb_key_mm_mute, kb_key_mm_www_stop, kb_key_mm_calc, kb_key_mm_www_forward,
  kb_key_mm_vol_up, kb_key_mm_playpause, kb_key_mm_www_back, kb_key_mm_www_home, kb_key_mm_stop,
  kb_key_mm_mycomp, kb_key_mm_email, kb_key_mm_next_track, kb_key_mm_select, kb_key_end,
  kb_key_home, kb_key_page_down, kb_key_page_up, kb_key_lgui, kb_key_rgui, kb_key_apps,
  kb_key_insert, kb_key_delete, kb_key_print_screen, kb_key_pause,
}

-- The conversion of a key to `int`.
unfoldable pub code : KbKey → ℕ
code kb_key_none = 0
code kb_key_f1 = 1
code kb_key_f2 = 2
code kb_key_f3 = 3
code kb_key_f4 = 4
code kb_key_f5 = 5
code kb_key_f6 = 6
code kb_key_f7 = 7
code kb_key_f8 = 8
code kb_key_f9 = 9
code kb_key_f10 = 10
code kb_key_f11 = 11
code kb_key_f12 = 12
code kb_key_tab = 13
code kb_key_backspace = 14
code kb_key_lalt = 15
code kb_key_lshift = 16
code kb_key_lctrl = 17
code kb_key_ralt = 18
code kb_key_rshift = 19
code kb_key_rctrl = 20
code kb_key_back_tick = 21
code kb_key_0 = 22
code kb_key_1 = 23
code kb_key_2 = 24
code kb_key_3 = 25
code kb_key_4 = 26
code kb_key_5 = 27
code kb_key_6 = 28
code kb_key_7 = 29
code kb_key_8 = 30
code kb_key_9 = 31
code kb_key_a = 32
code kb_key_b = 33
code kb_key_c = 34
code kb_key_d = 35
code kb_key_e = 36
code kb_key_f = 37
code kb_key_g = 38
code kb_key_h = 39
code kb_key_i = 40
code kb_key_j = 41
code kb_key_k = 42
code kb_key_l = 43
code kb_key_m = 44
code kb_key_n = 45
code kb_key_o = 46
code kb_key_p = 47
code kb_key_q = 48
code kb_key_r = 49
code kb_key_s = 50
code kb_key_t = 51
code kb_key_u = 52
code kb_key_v = 53
code kb_key_w = 54
code kb_key_x = 55
code kb_key_y = 56
code kb_key_z = 57
code kb_key_space = 58
code kb_key_comma = 59
code kb_key_dot = 60
code kb_key_slash = 61
code kb_key_semicolon = 62
code kb_key_minus = 63
code kb_key_apos = 64
code kb_key_sqbracketl = 65
code kb_key_equal = 66
code kb_key_enter = 67
code kb_key_sqbracketr = 68
code kb_key_backslash = 69
code kb_key_num_0 = 70
code kb_key_num_1 = 71
code kb_key_num_2 = 72
code kb_key_num_3 = 73
code kb_key_num_4 = 74
code kb_key_num_5 = 75
code kb_key_num_6 = 76
code kb_key_num_7 = 77
code kb_key_num_8 = 78
code kb_key_num_9 = 79
code kb_key_num_dot = 80
code kb_key_num_plus = 81
code kb_key_num_minus = 82
code kb_key_num_star = 83
code kb_key_num_slash = 84
code kb_key_num_enter = 85
code kb_key_escape = 86
code kb_key_capslock = 87
code kb_key_numlock = 88
code kb_key_scrolllock = 89
code kb_key_acpi_sleep = 90
code kb_key_acpi_power = 91
code kb_key_acpi_wake = 92
code kb_key_cursor_up = 93
code kb_key_cursor_down = 94
code kb_key_cursor_right = 95
code kb_key_cursor_left = 96
code kb_key_mm_www_search = 97
code kb_key_mm_prev_track = 98
code kb_key_mm_www_fav = 99
code kb_key_mm_www_refresh = 100
code kb_key_mm_voldown = 101
code kb_key_mm_mute = 102
code kb_key_mm_www_stop = 103
code kb_key_mm_calc = 104
code kb_key_mm_www_forward = 105
code kb_key_mm_vol_up = 106
code kb_key_mm_playpause = 107
code kb_key_mm_www_back = 108
code kb_key_mm_www_home = 109
code kb_key_mm_stop = 110
code kb_key_mm_mycomp = 111
code kb_key_mm_email = 112
code kb_key_mm_next_track = 113
code kb_key_mm_select = 114
code kb_key_end = 115
code kb_key_home = 116
code kb_key_page_down = 117
code kb_key_page_up = 118
code kb_key_lgui = 119
code kb_key_rgui = 120
code kb_key_apps = 121
code kb_key_insert = 122
code kb_key_delete = 123
code kb_key_print_screen = 124
code kb_key_pause = 125

-- The enumerators in their order.
abbrev pub all_keys : List KbKey
all_keys =
    kb_key_none ∷ kb_key_f1 ∷ kb_key_f2 ∷ kb_key_f3 ∷ kb_key_f4 ∷ kb_key_f5 ∷ kb_key_f6 ∷ kb_key_f7
    ∷ kb_key_f8 ∷ kb_key_f9 ∷ kb_key_f10 ∷ kb_key_f11 ∷ kb_key_f12 ∷ kb_key_tab ∷ kb_key_backspace
    ∷ kb_key_lalt ∷ kb_key_lshift ∷ kb_key_lctrl ∷ kb_key_ralt ∷ kb_key_rshift ∷ kb_key_rctrl
    ∷ kb_key_back_tick ∷ kb_key_0 ∷ kb_key_1 ∷ kb_key_2 ∷ kb_key_3 ∷ kb_key_4 ∷ kb_key_5 ∷ kb_key_6
    ∷ kb_key_7 ∷ kb_key_8 ∷ kb_key_9 ∷ kb_key_a ∷ kb_key_b ∷ kb_key_c ∷ kb_key_d ∷ kb_key_e
    ∷ kb_key_f ∷ kb_key_g ∷ kb_key_h ∷ kb_key_i ∷ kb_key_j ∷ kb_key_k ∷ kb_key_l ∷ kb_key_m
    ∷ kb_key_n ∷ kb_key_o ∷ kb_key_p ∷ kb_key_q ∷ kb_key_r ∷ kb_key_s ∷ kb_key_t ∷ kb_key_u
    ∷ kb_key_v ∷ kb_key_w ∷ kb_key_x ∷ kb_key_y ∷ kb_key_z ∷ kb_key_space ∷ kb_key_comma
    ∷ kb_key_dot ∷ kb_key_slash ∷ kb_key_semicolon ∷ kb_key_minus ∷ kb_key_apos ∷ kb_key_sqbracketl
    ∷ kb_key_equal ∷ kb_key_enter ∷ kb_key_sqbracketr ∷ kb_key_backslash ∷ kb_key_num_0
    ∷ kb_key_num_1 ∷ kb_key_num_2 ∷ kb_key_num_3 ∷ kb_key_num_4 ∷ kb_key_num_5 ∷ kb_key_num_6
    ∷ kb_key_num_7 ∷ kb_key_num_8 ∷ kb_key_num_9 ∷ kb_key_num_dot ∷ kb_key_num_plus
    ∷ kb_key_num_minus ∷ kb_key_num_star ∷ kb_key_num_slash ∷ kb_key_num_enter ∷ kb_key_escape
    ∷ kb_key_capslock ∷ kb_key_numlock ∷ kb_key_scrolllock ∷ kb_key_acpi_sleep ∷ kb_key_acpi_power
    ∷ kb_key_acpi_wake ∷ kb_key_cursor_up ∷ kb_key_cursor_down ∷ kb_key_cursor_right
    ∷ kb_key_cursor_left ∷ kb_key_mm_www_search ∷ kb_key_mm_prev_track ∷ kb_key_mm_www_fav
    ∷ kb_key_mm_www_refresh ∷ kb_key_mm_voldown ∷ kb_key_mm_mute ∷ kb_key_mm_www_stop
    ∷ kb_key_mm_calc ∷ kb_key_mm_www_forward ∷ kb_key_mm_vol_up ∷ kb_key_mm_playpause
    ∷ kb_key_mm_www_back ∷ kb_key_mm_www_home ∷ kb_key_mm_stop ∷ kb_key_mm_mycomp ∷ kb_key_mm_email
    ∷ kb_key_mm_next_track ∷ kb_key_mm_select ∷ kb_key_end ∷ kb_key_home ∷ kb_key_page_down
    ∷ kb_key_page_up ∷ kb_key_lgui ∷ kb_key_rgui ∷ kb_key_apps ∷ kb_key_insert ∷ kb_key_delete
    ∷ kb_key_print_screen ∷ kb_key_pause ∷ []

-- `static_cast<kb_key>`; no value of this code is out of the enumeration.
unfoldable pub cast : ℕ → KbKey
cast n = get_or all_keys n kb_key_none
