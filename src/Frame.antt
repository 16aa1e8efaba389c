-- ===== src/Frame.antt =====
-- The framebuffer of src/SSD1315.cpp: where a pixel lies, which pages are dirty, and the drawing
-- primitives. Coordinates are the source's `int16_t` values, as integers; intermediate results
-- are `int32_t` there, which no `int16_t` arguments overflow.
pub mod Bounds
pub mod Geometry
pub mod Dirty
pub mod Pixel
pub mod Shapes
pub mod Curves
pub mod Bitmap
