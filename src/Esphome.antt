-- ===== src/Esphome.antt =====
-- internal/esphome: the native API that Home Assistant speaks to the Dot.
pub mod Proto
pub mod State
pub mod Worker
pub mod Media
pub mod Commands
pub mod Noise
