-- ===== src/Lib.antt =====
-- The SSD1315 OLED display driver: a shallow model of src/SSD1315.cpp and of the headers under
-- include/ssd1315, with the theorems that make the driver correct.
--
-- The driver keeps a framebuffer in memory and brings it to the display controller over I2C, in
-- bounded steps. Drawing calls write bits of the framebuffer and mark pages and columns as dirty.
-- A flush sends the dirty windows. One cooperative operation at a time (initialize, flush, sleep,
-- wake, resync, shutdown, scroll) runs in polls, each with a bound on its transactions, and leaves
-- a result that is taken once. Every write goes through one callback and is counted in the
-- transport health.
--
-- State. `Driver` (Driver/Types) groups the members of class SSD1315 in records that change
-- together. Its `bus` is what the outside has seen: the frames that the write callback was handed,
-- the newest first, with the number of calls and of clock reads. An operation of the class is a
-- function from a driver, and its arguments, to a driver, with its status beside it.
--
-- Files and what they model:
--   Status, Command, Config, Config/Enums   include/ssd1315/Status.h, CommandTable.h, Config.h
--   Config/Validate                         _validateConfig
--   Driver/Types, Driver/Reset              the members of SSD1315.h, _resetRuntimeState, detach
--   Health                                  _nowMs, _updateHealth, page-window settling
--   Transport                               _i2cWriteRaw, _i2cWriteTracked, _sendCommand*
--   Power                                   tickPowerOn, _effectForFailure, uncertain controls
--   Frame/Geometry, Frame/Dirty             bufferIndex, _bufferRow, _clipRect, markDirty, markAllDirty
--   Frame/Pixel, Frame/Shapes               setPixel, getPixel, drawHLine, fillRect, test patterns
--   Frame/Curves, Frame/Bitmap              drawLine, drawCircle, fillCircle, drawBitmap
--   Text, Text/Font                         drawChar, drawText, getTextWidth, the 5x7 font
--   Flush/Request, Flush/Poll               _requestFlushInternal, _pollFlushInternal
--   Flush/Terminal                          _failFlush, _consumeTerminalFlush
--   Operation/Start, Init, Phases, Poll     _startOperation, _pollInitializePhase, pollOperation
--   Operation/Finish, Operation/Result      _finishOperation, _failOperation, takeOperationResult
--   Lifecycle                               attach, validateConfig, byteRangesOverlap, tick
--   Blocking/Run, Blocking/Calls            begin, recover, startHorizontalScroll and their loop
--   Blocking/Wait, Blocking/Guard           waitFlush, waitFlushStallGuardIterations
--   Snapshots                               getSettings, getFlushStatus
--   Control/Raw, Display, Scroll            sendCommand*, probe, the direct setters
--   Pages                                   firstPage, nextPage, clearDirty
--   Gddram                                  the display memory that a flush writes and drawing feeds
-- Gddram is no code of the driver: it says what the frames of a flush mean to the controller, as
-- docs/SSD1315_CONTROLLER_REFERENCE.md describes its addressing, and the flush is measured by it.
-- Proofs stand in child modules named for what they prove, and in Traffic (frames sent) and
-- Operation/Turns (one operation at a time). Examples holds concrete drivers and applies each
-- theorem to them.
--
-- Numbers. Fields are native numbers; where the source's width matters, the wrap-around is written
-- out (u8, u16, u32, sub32). `size_t` is 32 bits wide, as on the boards that the driver targets.
-- Coordinates are integers.
--
-- Loops. Counted loops run on their number of rounds. The loop of pollOperation runs on fuel, two
-- rounds more than the transactions allowed, and Operation/Poll/Fuel shows that more changes
-- nothing. The loop of _pollFlushInternal runs on its instructions. The loops of the blocking calls
-- read the application's clock and have no bound of their own: they take fuel and give `none` when
-- it is used up. Blocking/Run and Blocking/Calls show what is enough for the scroll starts, for a
-- `begin` that only initializes and during the display-on delay, and Blocking/Wait/Returns for
-- waitFlush; nothing is shown of the fuel that resync, recover and wake need. Those of drawLine and of the circles take fuel too; Frame/Curves/Line/Stops and Frame/Curves/Circle/Stops show that it is
-- enough.
--
-- Outside code. The write callback, the clock hook and the allocator are parameters: functions of
-- their arguments and of the number of earlier calls. The cooperative yield hook has no effect on
-- the driver.
--
-- Not modelled: the text of messages and toString, examples and tests of the repository.
pub mod Examples
pub mod Common
pub mod Status
pub mod Command
pub mod Config
pub mod Driver
pub mod Frame
pub mod Health
pub mod Transport
pub mod Power
pub mod Flush
pub mod Operation
pub mod Lifecycle
pub mod Blocking
pub mod Snapshots
pub mod Gddram
pub mod Control
pub mod Text
pub mod Pages
pub mod Traffic
