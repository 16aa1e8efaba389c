-- ===== src/Gddram/Refines.antt =====
-- _pollFlushInternal of src/SSD1315.cpp refines the display memory: what it sends brings the
-- framebuffer there.
use ssd.Common.{
  ℕ, true, List, [], ◌∷◌, ◌+◌, ◌*◌, ◌%◌, ◌≡◌, inl, inr, refl, arith, Bool-cases, get_or,
}
use ssd.Status.{Status, is_ok, is_in_progress}
use ssd.Command
use mathlib.Core.Path.{subst}
use ssd.Driver.{Driver, Bus, Dirty, FlushJob, FlushState}
use ssd.Transport.{i2c_write_raw, transact}
use ssd.Frame.Bounds.{HasShape}
use ssd.Frame.Pixel.{bytes_of}
use ssd.Frame.Dirty.Cover.{HasWindows}
use ssd.Flush.Poll.{Step, stop, next, count16, count_transaction, flush_command}
use ssd.Operation.Turns.Keeps.{i2c_write_raw_definite}
use ssd.Gddram.{Gddram, receive, shown, obey}
use ssd.Gddram.Mirror.{Picture, Shows, Window, Ready, AtPage, set_columns-AtPage, set_pages-AtData}

-- The framebuffer, a byte for each page and column.
abbrev pub picture_of : Driver → Picture
picture_of d = record {
  byte = λ p c. get_or (bytes_of d) (c + p % d.config.page_buffer_pages * d.config.width) 0;
  width = d.config.width;
  pages = d.binding.total_pages;
}

-- The memory, as it was and with all that was sent, holds the framebuffer wherever nothing is due.
abbrev pub Shown : Gddram → Driver → Type 0
Shown g d = Shows (picture_of d) d.dirty (shown g d.bus.sent)

-- A full framebuffer with a flush under way, and the memory that it writes.
pub record Mirrors (g : Gddram) (d : Driver) : Type 0 where
  pub shape : HasShape d
  pub full : d.config.page_buffer_pages ≡ d.binding.total_pages
  pub windows : HasWindows d.config.width d.dirty
  pub shows : Shown g d
  pub window : Window (picture_of d) d.dirty d.flush
  pub ready : Ready (picture_of d) d.flush.state d.flush (shown g d.bus.sent)

-- The bus after a frame.
abbrev pub with_frame : Driver → List ℕ → Bus
with_frame d bytes = record (d.bus) {
  sent =
      record {
        address = d.config.i2c_address;
        bytes = bytes;
        timeout_ms = d.binding.transport_timeout_ms;
      }
      ∷ d.bus.sent;
  calls = d.bus.calls + 1;
}

-- A write that succeeds adds its frame to the bus, and changes nothing else.
pub i2c_write_raw_ok :
    (d : Driver) (bytes : List ℕ)
    → is_ok (i2c_write_raw d bytes).0 ≡ true
    → (i2c_write_raw d bytes).1 ≡ record d { bus = with_frame d bytes }
unfolding i2c_write_raw transact
i2c_write_raw_ok d bytes h = ground arith

-- What a call leaves: after success the memory holds the framebuffer wherever nothing is due, and
-- a flush that goes on can be resumed.
abbrev pub Outcome : Gddram → Status → Driver → Type 0
Outcome g st e = (is_ok st ≡ true → Shown g e) × (is_in_progress st ≡ true → Mirrors g e)

abbrev pub RoundMirrors : Gddram → Step → Type 0
RoundMirrors g (stop st e) = Outcome g st e
RoundMirrors g (next e left) = Mirrors g e

pub HasShape-same :
    (d e : Driver)
    → e.config ≡ d.config
    → e.binding ≡ d.binding
    → e.paging ≡ d.paging
    → HasShape d
    → HasShape e
HasShape-same d e c b p s = ground arith

-- The same window, at any column.
pub Window-same :
    (v : Picture) (t : Dirty) (j k : FlushJob)
    → (k.page ≡ j.page)
      × (k.end_page ≡ j.end_page)
      × (k.min_col ≡ j.min_col)
      × (k.max_col ≡ j.max_col)
    → Window v t j
    → Window v t k
Window-same v t j k e w = ground arith

-- The driver after a command of the job: its frame is sent, and the job goes on.
pub after_command : Driver → List ℕ → FlushState → ℕ → Driver
after_command d bytes state col =
    let e = count_transaction (record d { bus = with_frame d bytes }) in
    record e { flush = record (e.flush) { state = state; col = col } }

pub columns_set :
    (g : Gddram) (d : Driver)
    → Mirrors g d
    → Mirrors g (
        after_command d
          (Command.ctrl_command ∷ Command.set_col_addr ∷ d.flush.min_col ∷ d.flush.max_col ∷ [])
          FlushState.set_page_addr
          d.flush.col)
unfolding shown receive obey after_command
columns_set g d m =
    let (s, a) = set_columns-AtPage (picture_of d) d.dirty d.flush (shown g d.bus.sent) m.shows in
    record {
      shape = HasShape-same d _ refl refl refl m.shape;
      full = m.full;
      windows = m.windows;
      shows = s;
      window = Window-same _ _ d.flush _ (refl, refl, refl, refl) m.window;
      ready = record { last = a.last; pointer = a.pointer };
    }

pub page_set :
    (g : Gddram) (d : Driver)
    → d.flush.state ≡ FlushState.set_page_addr
    → Mirrors g d
    → Mirrors g (
        after_command d
          (Command.ctrl_command ∷ Command.set_page_addr ∷ d.flush.page ∷ d.flush.page ∷ [])
          FlushState.send_data
          d.flush.min_col)
unfolding shown receive obey after_command
page_set g d h m =
    let v = picture_of d in
    let now = shown g d.bus.sent in
    let at : AtPage d.flush now = subst (λ s. Ready v s d.flush now) h m.ready in
    let (s, a) =
      set_pages-AtData v d.dirty d.flush
        (record (d.flush) {
          state = FlushState.send_data;
          col = d.flush.min_col;
          transaction_count = count16 d.flush.transaction_count;
        })
        now m.shows m.window at (refl, refl, refl) in
    record {
      shape = HasShape-same d _ refl refl refl m.shape;
      full = m.full;
      windows = m.windows;
      shows = s;
      window = Window-same _ _ d.flush _ (refl, refl, refl, refl) m.window;
      ready = a;
    }

pub flush_command-RoundMirrors :
    (g : Gddram) (d : Driver) (bytes : List ℕ) (state : FlushState) (col budget : ℕ)
    → Mirrors g (after_command d bytes state col)
    → RoundMirrors g (flush_command d bytes state col budget)
unfolding flush_command after_command
flush_command-RoundMirrors g d bytes state col budget m =
    elim (Bool-cases (is_ok (i2c_write_raw d bytes).0)) [
      | inl ok ↦ rw (ok, i2c_write_raw_ok d bytes ok) m
      | inr failed ↦ rw failed (
        λ h. absurd (ground (arith, failed, h)),
        λ h. absurd (ground (arith, h, i2c_write_raw_definite d bytes)),
      )
    ]
