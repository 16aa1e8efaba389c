-- ===== src/Flush.antt =====
-- The flush state machine of src/SSD1315.cpp: a request selects the dirty pages (Flush/Request),
-- polls transfer them window by window (Flush/Poll), and a terminal state is consumed once.
pub mod Terminal
pub mod Request
pub mod Poll
