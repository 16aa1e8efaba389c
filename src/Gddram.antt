-- ===== src/Gddram.antt =====
-- What the flush of src/SSD1315.cpp promises, told without the driver: the display memory (GDDRAM)
-- of the controller, as docs/SSD1315_CONTROLLER_REFERENCE.md describes it in horizontal addressing
-- mode. A window of columns and pages is set by a command each, which moves the pointer
-- to its start; data bytes land at the pointer, which goes through the window row by row.
pub mod Writes
pub mod Mirror
pub mod Refines
pub mod Data
pub mod Polls
pub mod Request
pub mod Drawing
use ssd.Common.{ℕ, Bool, List, [], ◌∷◌, ◌+◌, ◌==◌, ◌&&◌, if◌then◌else◌}
use ssd.Command
use ssd.Driver.{Frame}

-- `ram page column`, the windows and the pointer.
pub record Gddram : Type 0 where
  pub ram : ℕ → ℕ → ℕ
  pub col_start : ℕ
  pub col_end : ℕ
  pub page_start : ℕ
  pub page_end : ℕ
  pub col : ℕ
  pub page : ℕ

unfoldable pub write_byte : ℕ → Gddram → Gddram
write_byte b g = record g {
  ram = λ p c. if p == g.page && c == g.col then b else g.ram p c;
  col = if g.col == g.col_end then g.col_start else g.col + 1;
  page =
      if g.col == g.col_end
      then if g.page == g.page_end then g.page_start else g.page + 1
      else g.page;
}

unfoldable pub write_bytes : List ℕ → Gddram → Gddram
write_bytes [] g = g
write_bytes (b ∷ bs) g = write_bytes bs (write_byte b g)

unfoldable pub set_columns : ℕ → ℕ → Gddram → Gddram
set_columns first last g = record g { col_start = first; col_end = last; col = first }

unfoldable pub set_pages : ℕ → ℕ → Gddram → Gddram
set_pages first last g = record g { page_start = first; page_end = last; page = first }

-- The other commands leave the memory and its pointer alone.
unfoldable pub obey : List ℕ → Gddram → Gddram
obey (command ∷ first ∷ last ∷ []) g =
    if command == Command.set_col_addr
    then set_columns first last g
    else if command == Command.set_page_addr
    then set_pages first last g
    else g
obey _ g = g

-- A frame, with its control byte in front.
unfoldable pub receive : List ℕ → Gddram → Gddram
receive [] g = g
receive (control ∷ bytes) g =
    if control == Command.ctrl_data
    then write_bytes bytes g
    else if control == Command.ctrl_command
    then obey bytes g
    else g

-- The memory after the frames of the bus, the newest first.
unfoldable pub shown : Gddram → List Frame → Gddram
shown g [] = g
shown g (f ∷ fs) = receive f.bytes (shown g fs)
