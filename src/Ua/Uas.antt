-- ===== src/Ua/Uas.antt =====
-- The server states of the user agent (sippy/uas_state_*.go).
pub mod Idle
pub mod Trying
pub mod Ringing
pub mod PreConnect
pub mod Updating
