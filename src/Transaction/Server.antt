-- ===== src/Transaction/Server.antt =====
-- The server transaction: sippy/server_transaction.go.
pub mod Sending
pub mod Handlers
pub mod Steps
pub mod Sound
pub mod Life
pub mod Cancelling
pub mod Retransmission
use text.Mathlib.Text.{◌==◌ as str_eq}
use go_b2bua.Prelude.{
  ℕ, suc, ◌+◌, ◌-◌, ◌*◌, Bool, true, false, not, ◌&&◌, ◌||◌, String, Option, none, some, [], ltb,
  leb, is_some, is_empty, if◌then◌else◌,
}
use go_b2bua.Sip.{HostPort}
use go_b2bua.Transaction.Message.{
  Via, Tid, Rtid, Rtid-discrete, Msg, TrRequest, TrResponse, t_addr, get_tid, request_rtid,
  response_rtid, gen_response,
}
use go_b2bua.Transaction.Cache.{response_out}
use go_b2bua.Transaction.Base.{
  TrState, trying, ringing, completed, confirmed, terminated, uack, Act, transmit, cache_call_id,
  tserver_del, tserver_replace, rtid_put, rtid_replace, rtid_del, before_response,
  own_before_response, cancel_cb, ack_cb, noack_cb, noprack_cb, prack_cb, log_error, Base, new_base,
  base_act, enter, base_cleanup, cancel_te_a, start_te_a,
}

-- `provInFlight`, with what the function that its timer runs has got as arguments
pub record Prov : Type 0 where
  pub last_timeout : ℕ
  pub lossemul : ℕ
  pub rtid : Rtid

-- `serverTransaction`; of a callback the model knows whether it is set
pub record Server : Type 0 where
  pub base : Base
  pub checksum : String
  pub te_d : Option ℕ
  pub te_e : Option ℕ
  pub r487 : Option TrResponse
  pub has_cancel_cb : Bool
  pub has_noack_cb : Bool
  pub has_ack_cb : Bool
  pub has_prack_cb : Bool
  pub has_noprack_cb : Bool
  pub has_before_response : Bool
  pub method : String
  pub expires : ℕ
  pub prov_inflight : Option Prov
  pub rseq : ℕ
  pub pr_rel : Bool

-- seconds of the Expires header, of an INVITE, in milliseconds
abbrev invite_expires : Option ℕ → ℕ
invite_expires none = 300 * 1000
invite_expires (some n) = if ltb 0 n then n * 1000 else 300 * 1000

abbrev pub fresh_server : TrRequest → String → Tid → ℕ → Bool → Option TrResponse → ℕ → Server
fresh_server req checksum tid userv needack r487 expires = record {
  base = new_base tid userv none none needack [];
  checksum = checksum;
  te_d = none;
  te_e = none;
  r487 = r487;
  has_cancel_cb = false;
  has_noack_cb = false;
  has_ack_cb = false;
  has_prack_cb = false;
  has_noprack_cb = false;
  has_before_response = false;
  method = req.method;
  expires = expires;
  prov_inflight = none;
  rseq = 1;
  pr_rel = false;
}

unfoldable pub new_invite : TrRequest → String → Tid → ℕ → Option Via → Option Server
unfolding gen_response
new_invite req checksum tid userv none = none
new_invite req checksum tid userv (some via) = some (
    fresh_server req checksum tid userv true (some (gen_response 487 "Request Terminated" req))
      (invite_expires req.expires))

-- `NewServerTransaction`; none if the Via of an INVITE does not parse
unfoldable pub new_server : TrRequest → String → Tid → ℕ → Option Server
unfolding new_invite
new_server req checksum tid userv =
    if str_eq req.method "INVITE"
    then new_invite req checksum tid userv req.msg.via0
    else some (fresh_server req checksum tid userv false none 0)

abbrev pub act : Act → Server → Server
act a s = record s { base = base_act a s.base }

abbrev pub on_base : (Base → Base) → Server → Server
on_base f s = record s { base = f s.base }

-- `StartTimers`
abbrev pub start_timers : Server → Server
start_timers s = if ltb 0 s.expires then record s { te_e = some s.expires } else s

-- `cleanup`
unfoldable pub cleanup : Server → Server
cleanup s = record s {
  base = base_cleanup s.base;
  r487 = none;
  has_cancel_cb = false;
  te_d = none;
  te_e = none;
  has_noack_cb = false;
  has_ack_cb = false;
  has_prack_cb = false;
  has_noprack_cb = false;
}

-- `cancelTeE`
abbrev pub cancel_te_e : Server → Server
cancel_te_e s = record s { te_e = none }

-- `cancelTeD`
abbrev pub cancel_te_d : Server → Server
cancel_te_d s = record s { te_d = none }

-- `startTeD`
abbrev pub start_te_d : Server → Server
start_te_d s = record s { te_d = some (32 * 1000) }

-- a callback is called if it is set
abbrev pub call_if : Bool → Act → Server → Server
call_if set a s = if set then act a s else s

abbrev pub is_confirmed : TrState → Bool
is_confirmed confirmed = true
is_confirmed _ = false

abbrev pub is_completed : TrState → Bool
is_completed completed = true
is_completed _ = false

abbrev pub is_ringing : TrState → Bool
is_ringing ringing = true
is_ringing _ = false

-- TRYING or RINGING
abbrev pub is_open : TrState → Bool
is_open trying = true
is_open ringing = true
is_open _ = false

-- `timerD`
unfoldable pub timer_d : Server → Server
timer_d s =
    if s.base.linked
    then cleanup (
        act (tserver_del s.base.tid)
          (call_if (s.has_noack_cb && not (is_confirmed s.base.state)) noack_cb s))
    else s
