-- ===== src/B2bua.antt =====
-- The call controller of the RADIUS B2BUA: cmd/b2bua_radius/call_controller.go, cc_states.go,
-- b2broute.go and fake_accounting.go.
pub mod Duration
pub mod Route
pub mod State
pub mod Placing
pub mod Authorising
pub mod Beginning
pub mod Controller
pub mod Credit
pub mod Hunting
pub mod NextHop
