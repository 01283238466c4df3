-- ===== src/Ua/Trace.antt =====
-- The life of a user agent: any sequence of calls of its methods (sippy/ua.go), with what the
-- surroundings answer during each. A call is complete before the next one starts, since `Ua` runs
-- them under one lock.
pub mod Laws
use go_b2bua.Prelude.{ℕ, Bool, true, false, String, Option, none, some, List, [], ◌≡◌}
use go_b2bua.Sip.{Body, Request, Response}
use go_b2bua.Event.{CcEvent}
use go_b2bua.Ua.State.{
  UaState, UaStateId, ua_state_none, uas_state_idle, uas_state_trying, uas_state_ringing,
  uas_state_updating, uas_state_pre_connect, uac_state_idle, uac_state_trying, uac_state_ringing,
  uac_state_updating, uac_state_cancelling, ua_state_connected, ua_state_disconnected,
  ua_state_failed, ua_state_dead, state_id, World, Stamps, Ua,
}
use go_b2bua.Ua.Steps.{ClientTr}
use go_b2bua.Ua.Graph.{◌⟶◌}
use go_b2bua.Ua.Core.Events as Events
use go_b2bua.Ua.Core.Messages as Messages

-- The calls. That of a cancel callback holds the state that was current when the transaction got
-- the callback.
pub data Call : Type 0 where
  event : CcEvent → Call
  request : Request → Call
  response : Response → ClientTr → Call
  ack prack : Request → Call
  cancel : Option UaState → ℕ → Option Request → Call
  disconnect : Option ℕ → String → Call
  expires no_progress_expires no_reply_expires : Call
  credit_expires : ℕ → Call
  go_dead : Call
  remote_sdp : CcEvent → Option Body → Option CcEvent → Call
  local_sdp : CcEvent → Option CcEvent → Call

unfoldable pub perform : Call → Ua → Ua
unfolding Events.recv_event Messages.recv_request Messages.recv_response Messages.recv_ack
    Messages.recv_prack Messages.recv_cancel Events.disconnect Events.expires
    Events.no_progress_expires Events.no_reply_expires Events.credit_expires Events.go_dead
    Events.delayed_remote_sdp_update Events.delayed_local_sdp_update
perform (event e) u = Events.recv_event e u
perform (request req) u = (Messages.recv_request req u).0
perform (response resp t) u = Messages.recv_response resp t u
perform (ack req) u = Messages.recv_ack req u
perform (prack req) u = Messages.recv_prack req u
perform (cancel s t req) u = Messages.recv_cancel s t req u
perform (disconnect t origin) u = Events.disconnect t origin u
perform expires u = Events.expires u
perform no_progress_expires u = Events.no_progress_expires u
perform no_reply_expires u = Events.no_reply_expires u
perform (credit_expires t) u = Events.credit_expires t u
perform go_dead u = Events.go_dead u
perform (remote_sdp e body ex) u = Events.delayed_remote_sdp_update e body ex u
perform (local_sdp e ex) u = Events.delayed_local_sdp_update e ex u

unfoldable pub run : World → Call → Ua → Ua
unfolding perform
run w c u = perform c (record u { world = w })

-- What the surroundings grant: a transaction is cancelled only before its final response, so while
-- the call can still be dropped, and `goDead` runs on the timer of a state that dies.
abbrev pub Allowed : Call → UaStateId → Type 0
Allowed (cancel s t req) i = i ⟶ ua_state_disconnected
Allowed go_dead i = i ⟶ ua_state_dead
Allowed _ i = Unit

pub data Trace (v : Ua) : Ua → Type 0 where
  start : Trace v v
  call :
      {u : Ua}
      → Trace v u
      → (w : World) (c : Call) → Allowed c (state_id u.state)
      → Trace v (run w c u)

-- `NewUA`: no state, no events, no time stamps
pub record IsFresh (u : Ua) : Type 0 where
  pub no_state : u.state ≡ none
  pub no_seq : u.elast_seq ≡ none
  pub no_out : u.out ≡ []
  pub alive : u.has_tm ≡ true
  pub no_disconnect : u.stamps.disconnect_ts ≡ none

-- how far a call has come: once it has a dialog, it never has none again until its end
abbrev pub phase : UaStateId → ℕ
phase ua_state_none = 0
phase uas_state_idle = 1
phase uac_state_idle = 1
phase uas_state_trying = 2
phase uac_state_trying = 2
phase uas_state_ringing = 3
phase uac_state_ringing = 3
phase uac_state_cancelling = 4
phase uas_state_pre_connect = 4
phase uas_state_updating = 4
phase uac_state_updating = 4
phase ua_state_connected = 4
phase ua_state_disconnected = 5
phase ua_state_failed = 5
phase ua_state_dead = 6
