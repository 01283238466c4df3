-- ===== src/Transaction/Manager/Env.antt =====
-- What the transaction manager finds around it (sippy/sip_transaction_manager.go): settings, the
-- sockets, the user agents and the map of calls, and the datagrams that come in.
use go_b2bua.Prelude.{ℕ, Bool, String, Option}
use go_b2bua.Sip.{HostPort}
use go_b2bua.Transaction.Message.{TrRequest, TrResponse}
use go_b2bua.Transaction.Manager.{Manager}
use go_b2bua.Transaction.Manager.Nat.{Ipv4}

-- `Ua_context`; of a callback the model knows whether it is set
pub record Context : Type 0 where
  pub response : Option TrResponse
  pub has_cancel_cb : Bool
  pub has_noack_cb : Bool

-- what `OnNewDialog` returns; `receives` says whether there is a request receiver
pub record Dialog : Type 0 where
  pub receives : Bool
  pub response : Option TrResponse

-- `server_for` stands for `local4remote.getServer`, `is_wildcard` says whether a transport listens
-- on all addresses. A user agent is named by its number, a transaction by its reference; what one
-- of them does with a new request may change the manager in any way.
pub record Env : Type 0 where
  pub default_port : String
  pub sip_port : String
  pub parse_ip : String → Option Ipv4
  pub is_wildcard : ℕ → Bool
  pub server_for : HostPort → Bool → Option ℕ
  pub fresh_tag : String
  pub fresh_branch : String
  pub set_uack : Bool
  pub has_call_map : Bool
  pub is_yours : ℕ → TrRequest → Bool
  pub recv_request : ℕ → TrRequest → ℕ → Manager → Option Context × Manager
  pub on_new_dialog : TrRequest → ℕ → Manager → Dialog × Manager
  pub recv_new_dialog : TrRequest → ℕ → Manager → Option Context × Manager

-- what `ParseSipRequest` makes of a datagram: a request, a request that is answered with an error
-- at once, or nothing
pub data ParsedRequest : Type 0 where
  good : TrRequest → ParsedRequest
  answered : TrResponse → ParsedRequest
  unreadable : ParsedRequest

-- `size` is the number of bytes, `checksum` the MD5 sum in hexadecimal digits, `is_response` says
-- whether it starts with `SIP/2.0`; `response` is what `ParseSipResponse` makes of it
pub record Datagram : Type 0 where
  pub size : ℕ
  pub checksum : String
  pub is_response : Bool
  pub response : Option TrResponse
  pub request : ParsedRequest
