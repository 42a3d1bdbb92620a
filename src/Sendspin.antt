-- ===== src/Sendspin.antt =====
-- internal/sendspin: the player that a Music Assistant server streams to.
pub mod Ws
pub mod Transport
pub mod Activate
pub mod Stream
