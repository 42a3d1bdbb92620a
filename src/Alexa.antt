-- ===== src/Alexa.antt =====
-- internal/alexa: what the daemon sees of Alexa, and what it asks of her.
pub mod Focus
pub mod Playback
pub mod Speak
pub mod Command
