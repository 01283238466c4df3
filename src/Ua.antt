-- ===== src/Ua.antt =====
-- The user agent of sippy/ua.go and the states of sippy/ua*_state_*.go.
pub mod State
pub mod Timers
pub mod Routing
pub mod Exec
pub mod Steps
pub mod Uac
pub mod Uas
pub mod Connected
pub mod Core
pub mod Keepalive
pub mod Graph
pub mod Frame
pub mod Reach
pub mod Trace
pub mod Laws
