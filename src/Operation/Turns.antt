-- ===== src/Operation/Turns.antt =====
-- One operation at a time: what the parts of pollOperation of src/SSD1315.cpp make of `_operation`.
pub mod Flush
pub mod Keeps
pub mod Rounds
pub mod Polls
