-- ===== src/Config/Enums.antt =====
-- The byte-wide enumerations of include/ssd1315/Config.h, by the bytes of their enumerators.
use ssd.Common.{ℕ}

-- ComPinsConfig
abbrev pub sequential_no_remap : ℕ
sequential_no_remap = 0x02

abbrev pub alternative_no_remap : ℕ
alternative_no_remap = 0x12

abbrev pub sequential_remap : ℕ
sequential_remap = 0x22

abbrev pub alternative_remap : ℕ
alternative_remap = 0x32

-- ChargePumpVoltage
abbrev pub charge_pump_off : ℕ
charge_pump_off = 0x10

abbrev pub v7_5 : ℕ
v7_5 = 0x14

abbrev pub v8_5 : ℕ
v8_5 = 0x94

abbrev pub v9_0 : ℕ
v9_0 = 0x95

-- IrefSelection
abbrev pub iref_external : ℕ
iref_external = 0x00

abbrev pub internal_19ua : ℕ
internal_19ua = 0x10

abbrev pub internal_30ua : ℕ
internal_30ua = 0x30

-- VcomhLevel
abbrev pub v_065_vcc : ℕ
v_065_vcc = 0x00

abbrev pub v_071_vcc : ℕ
v_071_vcc = 0x10

abbrev pub v_077_vcc : ℕ
v_077_vcc = 0x20

abbrev pub v_083_vcc : ℕ
v_083_vcc = 0x30
