-- ===== src/Ua/Uas/Ringing.antt =====
-- `UasStateRinging` of sippy/uas_state_ringing.go and `UasStateRingingRel` of
-- sippy/uas_state_ringing_rel.go.
use go_b2bua.Prelude.{
  ℕ, true, false, not, ◌&&◌, String, Option, none, some, List, [], ◌∷◌, ltb, ◌==◌, is_some,
  if◌then◌else◌,
}
use go_b2bua.Sip.{Address, Method, bye, Body, Request}
use go_b2bua.Event.{
  CcEvent, Kind, ring_ev, connect_ev, pre_connect_ev, fail_ev, redirect_ev, disconnect_ev,
  update_ev, get_extra_headers, redirect_contacts,
}
use go_b2bua.Ua.State.{RelState, uas_ringing_rel, ring_cb, conn_cb, disc_cb, fail_cb, Ua}
use go_b2bua.Ua.Timers.{cancel_expire_timer, start_credit_timer, set_connect_ts, set_disconnect_ts}
use go_b2bua.Ua.Routing.{send_uas_response, answer, get_l_contacts}
use go_b2bua.Ua.Exec.{
  Exec, ◌>>=◌, ◌>>◌, modify, gets, stay, go_to, go_to_with, skip, when, parse, make_event, enqueue,
}
use go_b2bua.Ua.Steps.{
  set_l_sdp, to_failed, to_disconnected, new_pre_connect, hold_local_body, run_listener,
}
use go_b2bua.Ua.Uas.Trying.{or_default, ring_body, first_p1xx}

unfoldable pub on_ring : CcEvent → ℕ → String → Option Body → Exec (Unit {0})
on_ring event scode scode_reason body = do
  let code = (or_default scode scode_reason 180 "Ringing").0
  let reason = (or_default scode scode_reason 180 "Ringing").1
  when (code == 100) stay
  hold_local_body (ring_body scode body) event
  modify (set_l_sdp (ring_body scode body))
  modify (first_p1xx event.rtime)
  contacts ← gets get_l_contacts
  modify (
      send_uas_response false code reason (ring_body scode body) contacts false
        (get_extra_headers event))
  modify (run_listener (ring_cb event.rtime event.origin code))
  stay

unfoldable pub on_connect : CcEvent → ℕ → String → Option Body → Exec (Unit {0})
on_connect event code reason body = do
  hold_local_body body event
  modify (set_l_sdp body)
  contacts ← gets get_l_contacts
  modify (send_uas_response false code reason body contacts true (get_extra_headers event))
  modify cancel_expire_timer
  modify (start_credit_timer event.rtime)
  modify (set_connect_ts event.rtime)
  newstate ← new_pre_connect false
  go_to_with newstate (conn_cb event.rtime event.origin)

unfoldable pub on_pre_connect : CcEvent → ℕ → String → Option Body → Exec (Unit {0})
on_pre_connect event code reason body = do
  hold_local_body body event
  modify (set_l_sdp body)
  contacts ← gets get_l_contacts
  modify (send_uas_response false code reason body contacts true (get_extra_headers event))
  newstate ← new_pre_connect true
  go_to newstate

unfoldable pub on_redirect : CcEvent → ℕ → String → Option Body → List Address → Exec (Unit {0})
on_redirect event code reason body addrs = do
  modify (
      send_uas_response false code reason body (redirect_contacts addrs) false
        (get_extra_headers event))
  modify cancel_expire_timer
  modify (set_disconnect_ts event.rtime)
  to_failed (fail_cb event.rtime event.origin code)

unfoldable pub on_fail : CcEvent → ℕ → String → Exec (Unit {0})
on_fail event scode scode_reason = do
  let code = (or_default scode scode_reason 500 "Failed").0
  let reason = (or_default scode scode_reason 500 "Failed").1
  modify (send_uas_response false code reason none [] false (get_extra_headers event))
  modify cancel_expire_timer
  modify (set_disconnect_ts event.rtime)
  to_failed (fail_cb event.rtime event.origin code)

unfoldable pub on_disconnect : CcEvent → Exec (Unit {0})
on_disconnect event = do
  modify (send_uas_response false 500 "Disconnected" none [] false (get_extra_headers event))
  modify cancel_expire_timer
  modify (set_disconnect_ts event.rtime)
  code ← gets (λ u. u.last_scode)
  to_disconnected (disc_cb event.rtime event.origin code none)

unfoldable pub dispatch : Kind → CcEvent → Exec (Unit {0})
dispatch (ring_ev code reason body) event = on_ring event code reason body
dispatch (connect_ev code reason body) event = on_connect event code reason body
dispatch (pre_connect_ev code reason body) event = on_pre_connect event code reason body
dispatch (redirect_ev code reason body addrs) event = on_redirect event code reason body addrs
dispatch (fail_ev code reason challenges warning) event = on_fail event code reason
dispatch (disconnect_ev also) event = on_disconnect event
dispatch _ event = stay

-- `RecvEvent` of `UasStateRinging`
unfoldable pub recv_event : CcEvent → Exec (Unit {0})
recv_event event = dispatch event.kind event

-- the first Also of a BYE
unfoldable pub also_of : String → List (Option Address) → Exec (Option Address)
also_of message [] = gets (λ u. none)
also_of message (a ∷ as') = do addr ← parse message a; gets (λ u. some addr)

-- the case of BYE
unfoldable pub recv_bye : Request → Exec (Unit {0})
recv_bye req = do
  modify (send_uas_response true 487 "Request Terminated" none [] false [])
  modify (λ u. answer req.cseq 200 "OK" u.opts.uas_lossemul [] u)
  also ← also_of "UasStateRinging::RecvRequest: #1" req.also
  origin ← gets (λ u. u.origin)
  event ← make_event req.rtime origin (disconnect_ev also)
  modify (enqueue (record event { sip_reason = req.reason }))
  modify cancel_expire_timer
  modify (set_disconnect_ts req.rtime)
  to_disconnected (disc_cb req.rtime origin 0 (some req))

unfoldable pub dispatch_request : Method → Request → Exec (Unit {0})
dispatch_request bye req = recv_bye req
dispatch_request _ req = stay

-- `RecvRequest`
unfoldable pub recv_request : Request → Exec (Unit {0})
recv_request req = dispatch_request req.method req

-- The fields of the reliable state are written through the state that the user agent holds.
unfoldable pub set_rel : RelState → Ua → Ua
set_rel r u = record u { state = some (uas_ringing_rel r) }

unfoldable pub rel_ring : RelState → CcEvent → ℕ → Option Body → Exec (Unit {0})
rel_ring r event code body =
    if not r.prack_received
    then (do
      when (ltb 100 code) (modify (set_rel (record r { pending_ev_ring = some event })))
      stay)
    else modify (set_rel (record r { prack_wait = is_some body; prack_received = false }))

unfoldable pub rel_filter : RelState → Kind → CcEvent → Exec (Unit {0})
rel_filter r (ring_ev code reason body) event = rel_ring r event code body
rel_filter r (connect_ev code reason body) event =
    when (r.prack_wait && not r.prack_received)
      (modify (set_rel (record r { pending_ev_connect = some event })) >> stay)
rel_filter r (update_ev body) event =
    modify (set_rel (record r { pending_ev_update = some event })) >> stay
rel_filter r _ event = skip

-- `RecvEvent` of `UasStateRingingRel`: events wait for the PRACK of the last response
unfoldable pub rel_recv_event : RelState → CcEvent → Exec (Unit {0})
rel_recv_event r event = do rel_filter r event.kind event; recv_event event
