-- ===== src/Ua/Laws.antt =====
-- What the parts of the user agent promise, each by itself.
pub mod Requests
pub mod Timing
pub mod Emitting
pub mod Answers
pub mod Ending
pub mod Hangup
pub mod Failing
pub mod Tagless
