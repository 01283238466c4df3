-- ===== src/Ua/Uas/Trying.antt =====
-- `UasStateTrying` of sippy/uas_state_trying.go.
use go_b2bua.Prelude.{ℕ, true, false, String, Option, none, List, [], ◌==◌, is_some, if◌then◌else◌}
use go_b2bua.Sip.{Address, Body}
use go_b2bua.Event.{
  CcEvent, Kind, ring_ev, connect_ev, pre_connect_ev, fail_ev, redirect_ev, disconnect_ev,
  get_extra_headers, redirect_contacts,
}
use go_b2bua.Ua.State.{UaState, uas_ringing, ring_cb, conn_cb, disc_cb, fail_cb, Ua}
use go_b2bua.Ua.Timers.{
  cancel_expire_timer, cancel_no_progress_timer, start_expire_timer, start_credit_timer,
  set_p1xx_ts, set_connect_ts, set_disconnect_ts,
}
use go_b2bua.Ua.Routing.{send_uas_response, get_l_contacts}
use go_b2bua.Ua.Exec.{Exec, ◌>>=◌, ◌>>◌, modify, gets, stay, go_to, go_to_with, when}
use go_b2bua.Ua.Steps.{
  set_l_sdp, to_failed, to_disconnected, new_pre_connect, new_ringing_rel, hold_local_body,
}

-- The response code of a ring or fail event that has none.
abbrev pub or_default : ℕ → String → ℕ → String → ℕ × String
or_default code reason dcode dreason = if code == 0 then (dcode, dreason) else (code, reason)

-- a ring with no code has no body
abbrev pub ring_body : ℕ → Option Body → Option Body
ring_body code body = if code == 0 then none else body

-- the no-progress timer gives way to the expire timer
unfoldable pub progress : ℕ → Ua → Ua
unfolding cancel_no_progress_timer start_expire_timer
progress rtime u =
    if is_some u.timers.no_progress
    then (let c = cancel_no_progress_timer u in
        if is_some u.stamps.ex_mtime then start_expire_timer rtime c else c)
    else u

unfoldable pub first_p1xx : ℕ → Ua → Ua
unfolding set_p1xx_ts
first_p1xx t u = if is_some u.stamps.p1xx_ts then u else set_p1xx_ts t u

-- the state that a call rings in
unfoldable pub ringing_state : Exec UaState
ringing_state = do
  rel ← gets (λ u. u.pr_rel)
  if rel then new_ringing_rel else gets (λ u. uas_ringing)

unfoldable pub on_ring : CcEvent → ℕ → String → Option Body → Exec (Unit {0})
on_ring event scode scode_reason body = do
  let code = (or_default scode scode_reason 180 "Ringing").0
  let reason = (or_default scode scode_reason 180 "Ringing").1
  when (code == 100) stay
  hold_local_body (ring_body scode body) event
  modify (set_l_sdp (ring_body scode body))
  contacts ← gets get_l_contacts
  modify (
      send_uas_response false code reason (ring_body scode body) contacts false
        (get_extra_headers event))
  modify (progress event.rtime)
  modify (first_p1xx event.rtime)
  newstate ← ringing_state
  go_to_with newstate (ring_cb event.rtime event.origin code)

unfoldable pub on_pre_connect : CcEvent → ℕ → String → Option Body → Exec (Unit {0})
on_pre_connect event code reason body = do
  hold_local_body body event
  modify (set_l_sdp body)
  modify cancel_no_progress_timer
  contacts ← gets get_l_contacts
  modify (send_uas_response false code reason body contacts true (get_extra_headers event))
  newstate ← new_pre_connect true
  go_to newstate

unfoldable pub on_connect : CcEvent → ℕ → String → Option Body → Exec (Unit {0})
on_connect event code reason body = do
  hold_local_body body event
  modify (set_l_sdp body)
  contacts ← gets get_l_contacts
  modify (send_uas_response false code reason body contacts true (get_extra_headers event))
  modify cancel_expire_timer
  modify cancel_no_progress_timer
  modify (start_credit_timer event.rtime)
  modify (set_connect_ts event.rtime)
  newstate ← new_pre_connect false
  go_to_with newstate (conn_cb event.rtime event.origin)

unfoldable pub on_redirect : CcEvent → ℕ → String → Option Body → List Address → Exec (Unit {0})
on_redirect event code reason body addrs = do
  modify (
      send_uas_response false code reason body (redirect_contacts addrs) false
        (get_extra_headers event))
  modify cancel_expire_timer
  modify cancel_no_progress_timer
  modify (set_disconnect_ts event.rtime)
  to_failed (fail_cb event.rtime event.origin code)

unfoldable pub on_fail : CcEvent → ℕ → String → Exec (Unit {0})
on_fail event scode scode_reason = do
  let code = (or_default scode scode_reason 500 "Failed").0
  let reason = (or_default scode scode_reason 500 "Failed").1
  modify (send_uas_response false code reason none [] false (get_extra_headers event))
  modify cancel_expire_timer
  modify cancel_no_progress_timer
  modify (set_disconnect_ts event.rtime)
  to_failed (fail_cb event.rtime event.origin code)

-- `OnEarlyUasDisconnect` of `Ua` is 500 "Disconnected"
unfoldable pub on_disconnect : CcEvent → Exec (Unit {0})
on_disconnect event = do
  modify (send_uas_response false 500 "Disconnected" none [] false (get_extra_headers event))
  modify cancel_expire_timer
  modify cancel_no_progress_timer
  modify (set_disconnect_ts event.rtime)
  code ← gets (λ u. u.last_scode)
  to_disconnected (disc_cb event.rtime event.origin code none)

unfoldable pub dispatch : Kind → CcEvent → Exec (Unit {0})
dispatch (ring_ev code reason body) event = on_ring event code reason body
dispatch (pre_connect_ev code reason body) event = on_pre_connect event code reason body
dispatch (connect_ev code reason body) event = on_connect event code reason body
dispatch (redirect_ev code reason body addrs) event = on_redirect event code reason body addrs
dispatch (fail_ev code reason challenges warning) event = on_fail event code reason
dispatch (disconnect_ev also) event = on_disconnect event
dispatch _ event = stay

-- `RecvEvent`
unfoldable pub recv_event : CcEvent → Exec (Unit {0})
recv_event event = dispatch event.kind event
