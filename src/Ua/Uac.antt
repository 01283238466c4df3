-- ===== src/Ua/Uac.antt =====
-- The client states of the user agent (sippy/uac_state_*.go).
pub mod Idle
pub mod Trying
pub mod Ringing
pub mod Cancelling
pub mod Updating
