-- ===== src/Control.antt =====
-- Direct commands of src/SSD1315.cpp, each one transaction: raw command access (Control/Raw) and
-- display control (Control/Display, Control/Scroll).
pub mod Refusal
pub mod Raw
pub mod Display
pub mod Scroll
