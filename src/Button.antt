-- ===== src/Button.antt =====
-- internal/button: the grabbed keys and what a press of one means.
pub mod Gesture
pub mod Route
