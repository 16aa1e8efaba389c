-- ===== src/Blocking.antt =====
-- The blocking calls of src/SSD1315.cpp, which drive the bounded ones to their end: recover, begin
-- and the scroll starts (Blocking/Run, Blocking/Calls) and waitFlush (Blocking/Wait).
--
-- A loop over the clock of the application has no bound of its own: a clock that moves at every
-- read without ever reaching a deadline keeps it going. Each loop therefore takes fuel, and gives
-- `none` when it has not ended within it.
pub mod Guard
pub mod Run
pub mod Calls
pub mod Wait
