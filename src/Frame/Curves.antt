-- ===== src/Frame/Curves.antt =====
-- drawLine, drawCircle and fillCircle of src/SSD1315.cpp (Frame/Curves/Line, Frame/Curves/Circle).
-- Each has a loop that stops at a condition of its own; here it also takes fuel, and gives `none`
-- when it has not stopped within it.
pub mod Line
pub mod Circle
