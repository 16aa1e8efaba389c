-- ===== src/Command.antt =====
-- include/ssd1315/CommandTable.h: the command and control bytes of the controller, and the bytes
-- behind the scroll-speed and fade-mode enumerations, which are one byte wide and may hold any
-- value, so that they are plain numbers here.
use ssd.Common.{ℕ}

abbrev pub set_memory_mode : ℕ
set_memory_mode = 0x20

abbrev pub set_col_addr : ℕ
set_col_addr = 0x21

abbrev pub set_page_addr : ℕ
set_page_addr = 0x22

abbrev pub set_start_line : ℕ
set_start_line = 0x40

abbrev pub addr_mode_horizontal : ℕ
addr_mode_horizontal = 0x00

abbrev pub display_off : ℕ
display_off = 0xAE

abbrev pub display_on : ℕ
display_on = 0xAF

abbrev pub display_ram : ℕ
display_ram = 0xA4

abbrev pub display_all_on : ℕ
display_all_on = 0xA5

abbrev pub normal_display : ℕ
normal_display = 0xA6

abbrev pub invert_display : ℕ
invert_display = 0xA7

abbrev pub seg_remap_off : ℕ
seg_remap_off = 0xA0

abbrev pub seg_remap_on : ℕ
seg_remap_on = 0xA1

abbrev pub com_scan_inc : ℕ
com_scan_inc = 0xC0

abbrev pub com_scan_dec : ℕ
com_scan_dec = 0xC8

abbrev pub set_multiplex : ℕ
set_multiplex = 0xA8

abbrev pub set_display_offset : ℕ
set_display_offset = 0xD3

abbrev pub set_com_pins : ℕ
set_com_pins = 0xDA

abbrev pub set_contrast : ℕ
set_contrast = 0x81

abbrev pub contrast_min : ℕ
contrast_min = 0x01

abbrev pub set_clock_div : ℕ
set_clock_div = 0xD5

abbrev pub set_precharge : ℕ
set_precharge = 0xD9

abbrev pub set_vcomh : ℕ
set_vcomh = 0xDB

abbrev pub nop : ℕ
nop = 0xE3

abbrev pub set_iref : ℕ
set_iref = 0xAD

abbrev pub set_charge_pump : ℕ
set_charge_pump = 0x8D

abbrev pub scroll_right : ℕ
scroll_right = 0x26

abbrev pub scroll_left : ℕ
scroll_left = 0x27

abbrev pub scroll_vert_right : ℕ
scroll_vert_right = 0x29

abbrev pub scroll_vert_left : ℕ
scroll_vert_left = 0x2A

abbrev pub scroll_deactivate : ℕ
scroll_deactivate = 0x2E

abbrev pub scroll_activate : ℕ
scroll_activate = 0x2F

abbrev pub set_vert_scroll_area : ℕ
set_vert_scroll_area = 0xA3

abbrev pub scroll_dummy : ℕ
scroll_dummy = 0x00

abbrev pub scroll_one_col : ℕ
scroll_one_col = 0x01

abbrev pub scroll_col_start : ℕ
scroll_col_start = 0x00

abbrev pub scroll_col_end : ℕ
scroll_col_end = 0x7F

abbrev pub set_fade_blink : ℕ
set_fade_blink = 0x23

abbrev pub set_zoom : ℕ
set_zoom = 0xD6

abbrev pub ctrl_command : ℕ
ctrl_command = 0x00

abbrev pub ctrl_data : ℕ
ctrl_data = 0x40

-- ScrollSpeed::FRAMES_5 and ScrollSpeed::FRAMES_2.
abbrev pub frames_5 : ℕ
frames_5 = 0x06

abbrev pub frames_2 : ℕ
frames_2 = 0x07

-- FadeMode.
abbrev pub fade_off : ℕ
fade_off = 0x00

abbrev pub fade_out : ℕ
fade_out = 0x20

abbrev pub fade_blink : ℕ
fade_blink = 0x30
