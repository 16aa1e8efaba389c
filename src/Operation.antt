-- ===== src/Operation.antt =====
-- The single cooperative operation of src/SSD1315.cpp: its admission (Operation/Start), its end
-- (Operation/Finish), the rounds of pollOperation (Operation/Phases, Operation/Poll), and what the
-- caller does with its result (Operation/Result).
pub mod Turns
pub mod Finish
pub mod Start
pub mod Init
pub mod Phases
pub mod Poll
pub mod Result
