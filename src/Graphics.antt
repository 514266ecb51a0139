-- ===== src/Graphics.antt =====
-- crates/graphics/src/lib.rs: the framebuffer and the display that discards it.
pub mod Framebuffer
pub mod Display
