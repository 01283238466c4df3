-- ===== src/Transaction/Manager/Outgoing.antt =====
-- What the transaction manager does for the code above it: client transactions and responses
-- (`CreateClientTransaction`, `BeginNewClientTransaction` and `SendResponseWithLossEmul` of
-- sippy/sip_transaction_manager.go).
use native.Mathlib.Decide.{ℕ_discrete}
use go_b2bua.Prelude.{
  ℕ, suc, Bool, true, false, String, Option, none, some, ◌∷◌, find, store, is_some, if◌then◌else◌,
}
use go_b2bua.Sip.{HostPort}
use go_b2bua.Transaction.Message.{Tid, Tid-discrete, get_tid, TrRequest, TrResponse}
use go_b2bua.Transaction.Base.{log_error}
use go_b2bua.Transaction.Client.{Client, new_client}
use go_b2bua.Transaction.Client.Handlers.{begin_client}
use go_b2bua.Transaction.Server.Sending.{send_response}
use go_b2bua.Transaction.Manager.{Manager, run_client, run_server}

abbrev pub log : String → Manager → Manager
log msg m = record m { calls = log_error msg ∷ m.calls }

-- What a call that may be refused returns, with the manager after it.
pub data Created : Type 0 where
  refused : String → Created
  created : ℕ → Created

abbrev pub or_else : Option ℕ → Option ℕ → Option ℕ
or_else none b = b
or_else (some a) b = some a

module _ (server_for : HostPort → Bool → Option ℕ) where
  -- the transport: the one given, that of the local address, or that of the target
  abbrev local_server : Option HostPort → Option ℕ
  local_server none = none
  local_server (some laddress) = server_for laddress true

  abbrev pub transport_for : Option ℕ → Option HostPort → HostPort → Option ℕ
  transport_for userv laddress target =
      or_else userv (or_else (local_server laddress) (server_for target false))

-- the new transaction takes its place in the store and in the map
abbrev pub add_client : Tid → Client → Manager → Manager
add_client tid t m = record m {
  tclient = store Tid-discrete tid m.next_ref m.tclient;
  clients = store ℕ_discrete m.next_ref t m.clients;
  next_ref = suc m.next_ref;
}

abbrev pub register : Tid → Option Client → Manager → Created × Manager
register tid none m = (refused "cannot parse CSeq", m)
register tid (some t) m = (created m.next_ref, add_client tid t m)

abbrev pub same_tid : String
same_tid = "BUG: Attempt to initiate transaction with the same TID as existing one!!!"

abbrev pub create_with :
    TrRequest → HostPort → Bool → Bool → Option ℕ → Option Tid → Manager → Created × Manager
create_with req target has_receiver out_cb none tid m =
    (refused "BUG: cannot get userv from local4remote!!!", m)
create_with req target has_receiver out_cb (some u) none m = (refused "cannot parse TID", m)
create_with req target has_receiver out_cb (some u) (some tid) m =
    if is_some (find Tid-discrete tid m.tclient)
    then (refused same_tid, m)
    else register tid (new_client req tid u has_receiver (some target) out_cb) m

-- `CreateClientTransaction`; `target` is `req.GetTarget()`, `server_for` stands for
-- `local4remote.getServer`
unfoldable pub create_client :
    (HostPort → Bool → Option ℕ)
    → TrRequest
    → HostPort
    → Bool
    → Option HostPort
    → Option ℕ
    → Bool
    → Manager
    → Created × Manager
create_client server_for req target has_receiver laddress userv out_cb m =
    create_with req target has_receiver out_cb (transport_for server_for userv laddress target)
      (get_tid true true false req.msg) m

abbrev begin_created : TrRequest → Created × Manager → Manager
begin_created req (refused msg, m) = log msg m
begin_created req (created ref, m) = run_client ref (begin_client req) m

-- `BeginNewClientTransaction`
unfoldable pub begin_new_client :
    (HostPort → Bool → Option ℕ)
    → TrRequest
    → HostPort
    → Bool
    → Option HostPort
    → Option ℕ
    → Bool
    → Manager
    → Manager
unfolding create_client
begin_new_client server_for req target has_receiver laddress userv out_cb m =
    begin_created req (create_client server_for req target has_receiver laddress userv out_cb m)

-- A goroutine that locks `tserver_lock` while it is held for ever goes no further.
abbrev pub locking : Manager → Manager → Manager
locking m next = if m.tserver_locked then m else next

abbrev respond_at : String → String → Bool → ℕ → TrResponse → Option ℕ → Manager → Manager
respond_at default_port fresh has_ack lossemul resp none m = log "Cannot get server transaction" m
respond_at default_port fresh has_ack lossemul resp (some ref) m =
    run_server ref (send_response default_port fresh false has_ack lossemul resp) m

abbrev respond_to : String → String → Bool → ℕ → TrResponse → Option Tid → Manager → Manager
respond_to default_port fresh has_ack lossemul resp none m =
    log "Cannot get transaction ID for server transaction: " m
respond_to default_port fresh has_ack lossemul resp (some tid) m =
    locking m
      (respond_at default_port fresh has_ack lossemul resp (find Tid-discrete tid m.tserver) m)

-- `SendResponseWithLossEmul`; `has_ack` says whether `ack_cb` is given, `fresh` is the tag that
-- `GenTag` makes
unfoldable pub send_response_via : String → String → Bool → ℕ → TrResponse → Manager → Manager
send_response_via default_port fresh has_ack lossemul resp m =
    respond_to default_port fresh has_ack lossemul resp (get_tid false true false resp.msg) m
