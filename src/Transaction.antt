-- ===== src/Transaction.antt =====
-- The transaction layer: sippy/base_transaction.go, sippy/client_transaction.go,
-- sippy/server_transaction.go and sippy/sip_transaction_manager.go.
pub mod Message
pub mod Cache
pub mod CacheLaws
pub mod Base
pub mod Server
pub mod Client
pub mod Manager
