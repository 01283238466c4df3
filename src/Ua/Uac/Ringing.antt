-- ===== src/Ua/Uac/Ringing.antt =====
-- `UacStateRinging` of sippy/uac_state_ringing.go.
use go_b2bua.Prelude.{
  true, false, not, ◌&&◌, ◌||◌, String, Option, none, some, [], ltb, leb, ◌==◌, is_some, is_empty,
  if◌then◌else◌,
}
use go_b2bua.Sip.{bye, Response}
use go_b2bua.Event.{CcEvent, ring_ev, connect_ev, pre_connect_ev, fail_ev, redirect_ev}
use go_b2bua.Ua.State.{Callback, ring_cb, conn_cb, disc_cb, fail_cb, cancel_transaction, set_uack}
use go_b2bua.Ua.Timers.{
  cancel_expire_timer, start_credit_timer, set_p1xx_ts, set_connect_ts, stamp_disconnect,
}
use go_b2bua.Ua.Routing.{emit, update_routing}
use go_b2bua.Ua.Exec.{
  Exec, ◌>>=◌, ◌>>◌, modify, gets, no_change, stay, when, parse, make_event, enqueue, request,
  begin_new,
}
use go_b2bua.Ua.Steps.{
  ClientTr, set_last_scode, set_r_tag, set_late_media, set_pending_tr, to_failed, to_cancelling,
  new_connected, take_remote_body, send_prack, parse_all, run_listener,
}
use go_b2bua.Ua.Uac.Trying.{has_contacts, first_contact, confirms, connect_to, is_ending}

-- a provisional response: the ring callback is called at once, the state stays
unfoldable pub provisional : Response → ClientTr → Exec (Unit {0})
provisional resp tr = do
  send_prack "UacStateRinging::RecvResponse" tr resp resp.rseq
  modify (λ u. if is_some u.stamps.p1xx_ts then u else set_p1xx_ts resp.rtime u)
  origin ← gets (λ u. u.origin)
  event ← make_event resp.rtime origin (ring_ev resp.scode resp.reason_phrase resp.body)
  modify (run_listener (ring_cb resp.rtime origin resp.scode))
  take_remote_body resp.body event stay
  modify (enqueue event)
  stay

-- a 2xx with no To tag
unfoldable pub tagless : Response → Exec (Unit {0})
tagless resp = do
  origin ← gets (λ u. u.origin)
  event ← make_event resp.rtime origin (fail_ev 502 "Bad Gateway" [] none)
  modify (enqueue event)
  req ← request no_change "UacStateRinging::RecvResponse: #2" bye none []
  modify (begin_new req)
  modify (stamp_disconnect resp.rtime)
  to_failed (fail_cb resp.rtime origin 502)

-- the event for a 2xx and the callback that goes with it
unfoldable pub connect_event : Response → Exec (CcEvent × Option Callback)
connect_event resp = do
  origin ← gets (λ u. u.origin)
  now ← gets (confirms resp.body)
  if now
      then (do
        modify (set_late_media false)
        event ← make_event resp.rtime origin (connect_ev resp.scode resp.reason_phrase resp.body)
        modify (start_credit_timer resp.rtime)
        modify (set_connect_ts resp.rtime)
        gets (λ u. (event, some (conn_cb resp.rtime origin))))
      else (do
        event ←
            make_event resp.rtime origin (pre_connect_ev resp.scode resp.reason_phrase resp.body)
        modify (emit set_uack)
        modify (set_pending_tr true)
        gets (λ u. (event, none)))

-- a 2xx with a To tag
unfoldable pub accepted : Response → String → Exec (Unit {0})
accepted resp tag = do
  r_uri ← gets (λ u. u.dialog.r_uri)
  _ ← parse "UacStateRinging::RecvResponse: #3" r_uri
  modify (set_r_tag tag)
  made ← connect_event resp
  newstate ← new_connected
  take_remote_body resp.body made.0 (connect_to newstate made.1)
  modify (enqueue made.0)
  connect_to newstate made.1

-- the event for a negative final response
unfoldable pub final_event : Response → Exec CcEvent
final_event resp = do
  origin ← gets (λ u. u.origin)
  if (resp.scode == 301 || resp.scode == 302) && has_contacts resp.contacts
      then (do
        addrs ← parse "UacStateRinging::RecvResponse: #4" (first_contact resp.contacts)
        make_event resp.rtime origin (redirect_ev resp.scode resp.reason_phrase resp.body addrs))
      else if resp.scode == 300 && has_contacts resp.contacts
      then (do
        addrs ← parse "UacStateRinging::RecvResponse: #5" (parse_all resp.contacts)
        make_event resp.rtime origin (redirect_ev resp.scode resp.reason_phrase resp.body addrs))
      else (do
        event ← make_event resp.rtime origin (fail_ev resp.scode resp.reason_phrase [] none)
        gets (λ u. record event { sip_reason = resp.reason }))

unfoldable pub rejected : Response → Exec (Unit {0})
rejected resp = do
  event ← final_event resp
  modify (enqueue event)
  modify (stamp_disconnect resp.rtime)
  origin ← gets (λ u. u.origin)
  to_failed (fail_cb resp.rtime origin resp.scode)

unfoldable pub final : Response → Exec (Unit {0})
final resp = do
  modify cancel_expire_timer
  if leb 200 resp.scode && ltb resp.scode 300
      then (do
        to_body ← parse "UacStateRinging::RecvResponse: #1" resp.to_body
        if is_empty to_body.tag then tagless resp else accepted resp to_body.tag)
      else rejected resp

-- `RecvResponse`
unfoldable pub recv_response : Response → ClientTr → Exec (Unit {0})
recv_response resp tr = do
  when (ltb 180 resp.scode) (modify (set_last_scode resp.scode))
  when (ltb 100 resp.scode && ltb resp.scode 300)
      (modify (update_routing resp.contacts resp.record_routes true true))
  if ltb resp.scode 200 then provisional resp tr else final resp

-- `RecvEvent`
unfoldable pub recv_event : CcEvent → Exec (Unit {0})
recv_event event = do
  when (not (is_ending event.kind)) stay
  modify (emit (cancel_transaction []))
  modify cancel_expire_timer
  modify (stamp_disconnect event.rtime)
  code ← gets (λ u. u.last_scode)
  to_cancelling (disc_cb event.rtime event.origin code none)
