-- ===== src/Audio.antt =====
-- internal/audio: what the Dot's speaker plays.
pub mod Mixer
pub mod Output
pub mod Stream
pub mod Anchor
pub mod Fill
