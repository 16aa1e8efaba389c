-- ===== src/Traffic.antt =====
-- Who talks to the panel: for each operation of src/SSD1315.cpp, what it hands to the write
-- callback.
pub mod Operation
pub mod Rounds
pub mod Request
pub mod Quiet
pub mod Flush
pub mod Calm
