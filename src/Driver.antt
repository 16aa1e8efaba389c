-- ===== src/Driver.antt =====
-- The state of class SSD1315 (include/ssd1315/SSD1315.h), grouped in records, and its reset.
-- A record holds the members that change together; the names are those of the source without the
-- leading underscore. `Bus` is what the outside has seen and been asked: the frames handed to the
-- write callback, the newest first, and the number of clock reads.
mod Types
mod Reset
pub use Types.*
unfoldable pub use Reset.*
