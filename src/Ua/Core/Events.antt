-- ===== src/Ua/Core/Events.antt =====
-- `RecvEvent`, `Disconnect`, the expiry of the timers, and the delayed SDP updates of `Ua`.
use go_b2bua.Prelude.{ℕ, ◌+◌, Bool, true, false, String, Option, none, some, if◌then◌else◌}
use go_b2bua.Sip.{Body}
use go_b2bua.Event.{CcEvent, Kind, try_ev, fail_ev, disconnect_ev, new_event}
use go_b2bua.Ua.State.{
  UaState, uac_idle, uac_trying, uac_ringing, uac_updating, uas_trying, uas_ringing, uas_updating,
  uas_ringing_rel, uas_pre_connect, connected, dead, Ua,
}
use go_b2bua.Ua.Routing.{log}
use go_b2bua.Ua.Exec.{Outcome, Exec, stay, enqueue}
use go_b2bua.Ua.Steps.{set_r_sdp}
use go_b2bua.Ua.Uac.Idle as UacIdle
use go_b2bua.Ua.Uac.Trying as UacTrying
use go_b2bua.Ua.Uac.Ringing as UacRinging
use go_b2bua.Ua.Uac.Updating as UacUpdating
use go_b2bua.Ua.Uas.Trying as UasTrying
use go_b2bua.Ua.Uas.Ringing as UasRinging
use go_b2bua.Ua.Uas.PreConnect as UasPreConnect
use go_b2bua.Ua.Uas.Updating as UasUpdating
use go_b2bua.Ua.Connected
use go_b2bua.Ua.Core.State.{change_state, emit_pending_events, returned, settle}

-- `RecvEvent` of the state; those with none of their own have that of `uaStateGeneric`
unfoldable pub state_event : UaState → CcEvent → Exec (Unit {0})
state_event uac_idle e = UacIdle.recv_event e
state_event uac_trying e = UacTrying.recv_event e
state_event uac_ringing e = UacRinging.recv_event e
state_event uac_updating e = UacUpdating.recv_event e
state_event uas_trying e = UasTrying.recv_event e
state_event uas_ringing e = UasRinging.recv_event e
state_event (uas_ringing_rel r) e = UasRinging.rel_recv_event r e
state_event (uas_pre_connect confirm pending) e = UasPreConnect.recv_event confirm e
state_event uas_updating e = UasUpdating.recv_event e
state_event (connected ka) e = Connected.recv_event e
state_event _ e = stay

abbrev pub finish_event : Outcome (Unit {0}) × Ua → Ua
finish_event (r, u) = if (returned r).failed then log "UA::RecvEvent error #1" u else settle (r, u)

-- the events that open a call in a user agent with no state
abbrev pub opens : Kind → Bool
opens (try_ev call_id cli cld caller auth body routes) = true
opens (fail_ev code reason challenges warning) = true
opens (disconnect_ev also) = true
opens _ = false

abbrev pub event_in : Option UaState → CcEvent → Ua → Ua
event_in (some s) e u = finish_event (state_event s e u)
event_in none e u =
    if opens e.kind then finish_event (state_event uac_idle e (change_state uac_idle none u)) else u

-- `RecvEvent`
unfoldable pub recv_event : CcEvent → Ua → Ua
unfolding state_event settle log change_state
recv_event e u = event_in u.state e u

abbrev time_or_now : Option ℕ → ℕ → ℕ
time_or_now none now = now
time_or_now (some t) now = t

-- `Disconnect`: one event goes to the controller, another one to the state
unfoldable pub disconnect : Option ℕ → String → Ua → Ua
unfolding enqueue new_event
disconnect rtime origin u =
    let t = time_or_now rtime u.world.now in
    if u.has_tm
    then recv_event (new_event (u.next_seq + 1) t origin (disconnect_ev none)) (
        enqueue (new_event u.next_seq t origin (disconnect_ev none))
          (record u { next_seq = u.next_seq + 2 }))
    else u

-- The four timers that end a call.
unfoldable pub expires : Ua → Ua
expires u = disconnect none "" (record u { timers = record (u.timers) { expire = none } })

unfoldable pub no_progress_expires : Ua → Ua
no_progress_expires u =
    disconnect none "" (record u { timers = record (u.timers) { no_progress = none } })

unfoldable pub no_reply_expires : Ua → Ua
no_reply_expires u =
    disconnect none "" (record u { timers = record (u.timers) { no_reply = none } })

unfoldable pub credit_expires : ℕ → Ua → Ua
credit_expires t u =
    disconnect (some t) "" (record u { timers = record (u.timers) { credit = none } })

-- `goDead` of the failed and disconnected states, and `goIdle` of the cancelling state
unfoldable pub go_dead : Ua → Ua
go_dead u = change_state dead none u

-- `DelayedRemoteSdpUpdate`; `ex` is the event that the error makes
unfoldable pub delayed_remote_sdp_update : CcEvent → Option Body → Option CcEvent → Ua → Ua
unfolding set_r_sdp enqueue emit_pending_events
delayed_remote_sdp_update event body none u = emit_pending_events (enqueue event (set_r_sdp body u))
delayed_remote_sdp_update event body (some ex) u =
    recv_event ex (emit_pending_events (enqueue ex u))

-- the callback that `GetDelayedLocalSdpUpdate` makes
unfoldable pub delayed_local_sdp_update : CcEvent → Option CcEvent → Ua → Ua
unfolding enqueue emit_pending_events
delayed_local_sdp_update event none u = recv_event event u
delayed_local_sdp_update event (some ex) u = recv_event ex (emit_pending_events (enqueue ex u))
