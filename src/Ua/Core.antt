-- ===== src/Ua/Core.antt =====
-- The methods of `Ua` (sippy/ua.go) that its surroundings call.
pub mod State
pub mod Events
pub mod Messages
