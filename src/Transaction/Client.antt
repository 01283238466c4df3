-- ===== src/Transaction/Client.antt =====
-- The client transaction: sippy/client_transaction.go.
pub mod Final
pub mod Handlers
pub mod Timeout
pub mod Reliable
pub mod Cancelling
use text.Mathlib.Text.{◌==◌ as str_eq}
use go_b2bua.Prelude.{
  ℕ, ◌*◌, Bool, true, false, String, Option, none, some, List, [], ltb, if◌then◌else◌,
}
use go_b2bua.Sip.{HostPort, Address, Header}
use go_b2bua.Transaction.Message.{Tid, Rtid, CSeqBody, TrRequest, TrResponse, gen_response}
use go_b2bua.Transaction.Cache.{request_out}
use go_b2bua.Transaction.Base.{
  terminated, Act, recv_response, tclient_del, log_error, TrState, uack, Base, new_base, base_act,
  enter, base_cleanup, cancel_te_a, start_te_a,
}

-- `SetAckRparams`: the address and the routes for the ACK. The target is kept too, and not used.
pub record AckParams : Type 0 where
  pub address : Option HostPort
  pub routes : List (Option Address)

-- `clientTransaction`; of a callback the model knows whether it is set
pub record Client : Type 0 where
  pub base : Base
  pub te_b : Option ℕ
  pub te_c : Option ℕ
  pub te_g : Option ℕ
  pub r408 : Option TrResponse
  pub has_receiver : Bool
  pub expires : ℕ
  pub ack : Option TrRequest
  pub outbound_proxy : Option HostPort
  pub cancel : Option TrRequest
  pub cancel_pending : Bool
  pub wants_uack : Bool
  pub ack_addr : Option HostPort
  pub ack_checksum : String
  pub has_before_request : Bool
  pub ack_params : Option AckParams
  pub txn_headers : List Header
  pub seen_rseqs : List (Rtid × Bool)

abbrev pub on_base : (Base → Base) → Client → Client
on_base f t = record t { base = f t.base }

abbrev pub act : Act → Client → Client
act a t = record t { base = base_act a t.base }

abbrev pub act_if : Bool → Act → Client → Client
act_if b a t = if b then act a t else t

-- the request of a transaction of its own that `GenACK` and `GenCANCEL` make
abbrev pub derived : String → List (Option Address) → TrRequest → CSeqBody → TrRequest
derived method routes req c = record req {
  method = method;
  msg = record (req.msg) {
    cseq = some (record c { method = method });
    more_vias = [];
    rseq = none;
    rack = none;
    contacts = [];
    asterisk = false;
    record_routes = [];
    source = none;
  };
  expires = none;
  requires_100rel = false;
  supports_100rel = false;
  routes = routes;
  headers = [];
  nated = false;
}

-- the Expires header of an INVITE, in milliseconds
abbrev pub invite_expires : Option ℕ → ℕ
invite_expires none = 300 * 1000
invite_expires (some n) = if ltb 0 n then n * 1000 else 300 * 1000

unfoldable pub fresh_client :
    TrRequest
    → Tid
    → ℕ
    → Bool
    → Option HostPort
    → Bool
    → Option TrRequest
    → Option TrRequest
    → ℕ
    → Client
unfolding gen_response
fresh_client req tid userv has_receiver address out_cb ack cancel expires = record {
  base = new_base tid userv address (some (request_out req)) (str_eq req.method "INVITE") [];
  te_b = none;
  te_c = none;
  te_g = none;
  r408 = if has_receiver then some (gen_response 408 "Request Timeout" req) else none;
  has_receiver = has_receiver;
  expires = expires;
  ack = ack;
  outbound_proxy = none;
  cancel = cancel;
  cancel_pending = false;
  wants_uack = false;
  ack_addr = none;
  ack_checksum = "";
  has_before_request = out_cb;
  ack_params = none;
  txn_headers = [];
  seen_rseqs = [];
}

abbrev new_invite :
    TrRequest → Tid → ℕ → Bool → Option HostPort → Bool → Option CSeqBody → Option Client
new_invite req tid userv has_receiver address out_cb none = none
new_invite req tid userv has_receiver address out_cb (some c) = some (
    fresh_client req tid userv has_receiver address out_cb (some (derived "ACK" [] req c))
      (some (derived "CANCEL" req.routes req c)) (invite_expires req.expires))

-- `NewClientTransactionObj`; none if the CSeq of an INVITE does not parse. The request extra headers
-- are not read here.
unfoldable pub new_client : TrRequest → Tid → ℕ → Bool → Option HostPort → Bool → Option Client
new_client req tid userv has_receiver address out_cb =
    if str_eq req.method "INVITE"
    then new_invite req tid userv has_receiver address out_cb req.msg.cseq
    else some (fresh_client req tid userv has_receiver address out_cb none none (32 * 1000))

-- `startTeB`
abbrev pub start_te_b : ℕ → Client → Client
start_te_b n t = record t { te_b = some n }

-- `cancelTeB`
abbrev pub cancel_te_b : Client → Client
cancel_te_b t = record t { te_b = none }

-- `startTeC`
abbrev pub start_te_c : Client → Client
start_te_c t = record t { te_c = some (32 * 1000) }

-- `StartTimers`
abbrev pub start_timers : Client → Client
start_timers t = start_te_b (32 * 1000) (on_base start_te_a t)

-- `cleanup`
unfoldable pub cleanup : Client → Client
cleanup t = record t {
  base = base_cleanup t.base;
  ack = none;
  has_receiver = false;
  te_b = none;
  te_c = none;
  te_g = none;
  r408 = none;
  cancel = none;
}

-- `timerB`
unfoldable pub timer_b : Client → Client
timer_b t =
    if t.base.linked
    then act_if t.has_receiver (recv_response t.r408)
        (start_te_c (on_base (enter terminated) (cancel_te_b (on_base cancel_te_a t))))
    else t

-- `timerC`
unfoldable pub timer_c : Client → Client
timer_c t = if t.base.linked then cleanup (act (tclient_del t.base.tid) t) else t

abbrev pub is_uack : TrState → Bool
is_uack uack = true
is_uack _ = false

-- `timerG`
unfoldable pub timer_g : Client → Client
timer_g t =
    if t.base.linked
    then act_if (is_uack t.base.state)
        (log_error "INVITE transaction stuck in the UACK state, possible UAC bug")
        (record t { te_g = none })
    else t
