-- ===== src/Ua/Connected.antt =====
-- `UaStateConnected` and `UaStateDisconnected` (sippy/ua_state_connected.go,
-- sippy/ua_state_disconnected.go).
use go_b2bua.Prelude.{
  ℕ, ◌-◌, Bool, true, false, not, ◌&&◌, String, Option, none, some, List, [], ◌∷◌, ◌++◌, leb,
  if◌then◌else◌,
}
use go_b2bua.Sip.{
  Address, Method, invite, bye, refer, info, options, update, Body, Header, max_forwards_hf,
  Request,
}
use go_b2bua.Event.{
  CcEvent, Kind, connect_ev, fail_ev, redirect_ev, disconnect_ev, info_ev, update_ev,
  get_extra_headers,
}
use go_b2bua.Ua.State.{
  uac_updating, uas_updating, conn_cb, disc_cb, send_ack, reinvite_hook, local_sdp_change, Ua,
}
use go_b2bua.Ua.Timers.{
  cancel_expire_timer, cancel_credit_timer, start_credit_timer, set_connect_ts, set_disconnect_ts,
}
use go_b2bua.Ua.Routing.{emit, send_uas_response, answer, get_l_contacts}
use go_b2bua.Ua.Exec.{
  Exec, ◌>>=◌, ◌>>◌, modify, gets, ret, with_error, stay, go_to, skip, when, parse, make_event,
  enqueue, request, begin_client, prep_tr,
}
use go_b2bua.Ua.Steps.{
  set_late_media, set_pending_tr, set_l_sdp, to_disconnected, take_remote_body, hold_local_body,
  run_listener,
}
use text.Mathlib.Text.{◌==◌ as str_eq}
use go_b2bua.Ua.Uas.PreConnect.{end_call, send_info}
use go_b2bua.Ua.Uas.Ringing.{also_of}

-- both bodies are set and read the same
abbrev same_body : Option Body → Option Body → Bool
same_body (some a) (some b) = str_eq a.text b.text
same_body _ _ = false

-- the hook for an offer that needs an update; its error is reported upwards
unfoldable pub report_sdp_error : CcEvent → Option String → Exec (Unit {0})
report_sdp_error event none = skip
report_sdp_error event (some err) = do
  ev ← make_event event.rtime "" (fail_ev 400 "Malformed SDP Body" [] (some err))
  modify (enqueue ev)

unfoldable pub hold_offer : Option Body → CcEvent → Exec (Unit {0})
hold_offer none event = modify (set_late_media true)
hold_offer (some b) event = do
  armed ← gets (λ u. u.media.on_local)
  err ← gets (λ u. u.world.local_sdp_err)
  when (armed && b.needs_update)
      (modify (emit (local_sdp_change b event)) >> report_sdp_error event err >> stay)

-- the Max-Forwards header of the re-INVITE, one less than that of the event
unfoldable pub hop_header : CcEvent → Option (Option ℕ) → Exec (List Header)
hop_header event none = gets (λ u. [])
hop_header event (some none) = ret with_error
hop_header event (some (some n)) =
    if leb n 0
    then (do
      ev ← make_event event.rtime "" (fail_ev 483 "Too Many Hops" [] none)
      modify (enqueue ev)
      stay)
    else gets (λ u. max_forwards_hf (some (n - 1)) ∷ [])

unfoldable pub on_update : CcEvent → Option Body → Exec (Unit {0})
on_update event body = do
  l_sdp ← gets (λ u. u.media.l_sdp)
  r_sdp ← gets (λ u. u.media.r_sdp)
  when (same_body l_sdp body) (do
    ev ← make_event event.rtime event.origin (connect_ev 200 "OK" r_sdp)
    modify (enqueue ev)
    stay)
  hold_offer body event
  hop ← hop_header event event.max_forwards
  req ← request with_error "" invite body (get_extra_headers event ++ hop)
  modify (set_l_sdp body)
  prep_tr with_error
  modify (begin_client req)
  go_to uac_updating

unfoldable pub on_connect : CcEvent → Option Body → Exec (Unit {0})
on_connect event body = do
  pending ← gets (λ u. u.pending_tr)
  when (not pending) stay
  modify cancel_expire_timer
  hold_local_body body event
  modify cancel_credit_timer
  modify (start_credit_timer event.rtime)
  modify (set_connect_ts event.rtime)
  modify (set_l_sdp body)
  modify (emit (send_ack (some body)))
  modify (set_pending_tr false)
  origin ← gets (λ u. u.origin)
  modify (run_listener (conn_cb event.rtime origin))
  stay

unfoldable pub dispatch : Kind → CcEvent → Exec (Unit {0})
dispatch (disconnect_ev also) event = end_call event
dispatch (redirect_ev code reason body []) event = stay
dispatch (redirect_ev code reason body (a ∷ addrs)) event = end_call event
dispatch (fail_ev code reason challenges warning) event = end_call event
dispatch (update_ev body) event = on_update event body
dispatch (info_ev body) event = send_info event body
dispatch (connect_ev code reason body) event = on_connect event body
dispatch _ event = stay

-- `RecvEvent`. A redirect event with no address is a fault that ends the handler.
unfoldable pub recv_event : CcEvent → Exec (Unit {0})
recv_event event = dispatch event.kind event

-- `raise` is `RecvEvent` of the user agent, which a REFER calls.
module _ (raise : CcEvent → Ua → Ua) where
  unfoldable pub recv_refer : Request → Option (Option Address) → Exec (Unit {0})
  recv_refer req none = modify (answer req.cseq 400 "Bad Request" 0 []) >> stay
  recv_refer req (some header) = do
    modify (answer req.cseq 202 "Accepted" 0 [])
    refer_to ← parse "UaStateConnected::RecvRequest: #1" header
    origin ← gets (λ u. u.origin)
    event ← make_event req.rtime origin (disconnect_ev (some refer_to))
    modify (enqueue event)
    again ← make_event req.rtime origin (disconnect_ev none)
    modify (raise again)
    stay

  unfoldable pub unless_same : Request → Exec (Unit {0})
  unless_same req = do
    r_sdp ← gets (λ u. u.media.r_sdp)
    l_sdp ← gets (λ u. u.media.l_sdp)
    contacts ← gets get_l_contacts
    when (same_body r_sdp req.body)
        (modify (send_uas_response true 200 "OK" l_sdp contacts false []) >> stay)

  unfoldable pub recv_invite : Request → Exec (Unit {0})
  recv_invite req = do
    modify (λ u. record u { uas_resp = req.cseq })
    modify (answer req.cseq 100 "Trying" 0 [])
    unless_same req
    origin ← gets (λ u. u.origin)
    made ← make_event req.rtime origin (update_ev req.body)
    let event = record made { sip_reason = req.reason; max_forwards = req.max_forwards }
    modify (emit (reinvite_hook event))
    take_remote_body req.body event (go_to uas_updating)
    modify (enqueue event)
    go_to uas_updating

  unfoldable pub recv_bye : Request → Exec (Unit {0})
  recv_bye req = do
    modify (answer req.cseq 200 "OK" 0 [])
    also ← also_of "UaStateConnected::RecvRequest: #3" req.also
    origin ← gets (λ u. u.origin)
    event ← make_event req.rtime origin (disconnect_ev also)
    modify (enqueue (record event { sip_reason = req.reason }))
    modify cancel_credit_timer
    modify (set_disconnect_ts req.rtime)
    to_disconnected (disc_cb req.rtime origin 0 (some req))

  unfoldable pub recv_info : Request → Exec (Unit {0})
  recv_info req = do
    modify (answer req.cseq 200 "OK" 0 [])
    origin ← gets (λ u. u.origin)
    event ← make_event req.rtime origin (info_ev req.body)
    modify (enqueue (record event { sip_reason = req.reason }))
    stay

  unfoldable pub dispatch_request : Method → Request → Exec (Unit {0})
  dispatch_request refer req = recv_refer req req.refer_to
  dispatch_request invite req = recv_invite req
  dispatch_request bye req = recv_bye req
  dispatch_request info req = recv_info req
  dispatch_request options req = modify (answer req.cseq 200 "OK" 0 []) >> stay
  dispatch_request update req = modify (answer req.cseq 200 "OK" 0 []) >> stay
  dispatch_request _ req = stay

  -- `RecvRequest`
  unfoldable pub recv_request : Request → Exec (Unit {0})
  recv_request req = dispatch_request req.method req

unfoldable pub late_request : Method → Request → Exec (Unit {0})
late_request bye req = modify (answer req.cseq 200 "OK" 0 []) >> stay
late_request _ req = modify (answer req.cseq 500 "Disconnected" 0 []) >> stay

-- `RecvRequest` of `UaStateDisconnected`
unfoldable pub disconnected_request : Request → Exec (Unit {0})
disconnected_request req = late_request req.method req
