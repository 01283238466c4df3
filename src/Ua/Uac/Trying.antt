-- ===== src/Ua/Uac/Trying.antt =====
-- `UacStateTrying` of sippy/uac_state_trying.go.
use go_b2bua.Prelude.{
  Bool, true, false, not, ◌&&◌, ◌||◌, String, Option, none, some, List, [], ◌∷◌, ltb, leb, ◌==◌,
  is_some, is_empty, if◌then◌else◌,
}
use go_b2bua.Sip.{Address, bye, Body, Header, Response}
use go_b2bua.Event.{
  CcEvent, Kind, ring_ev, connect_ev, pre_connect_ev, fail_ev, redirect_ev, disconnect_ev,
  get_extra_headers,
}
use go_b2bua.Ua.State.{
  UaState, uac_ringing, Callback, ring_cb, conn_cb, disc_cb, fail_cb, cancel_transaction, set_uack,
  Ua,
}
use go_b2bua.Ua.Timers.{
  cancel_expire_timer, cancel_no_progress_timer, cancel_no_reply_timer, start_no_progress_timer,
  start_expire_timer, start_credit_timer, set_p100_ts, set_p1xx_ts, set_connect_ts,
  stamp_disconnect,
}
use go_b2bua.Ua.Routing.{emit, update_routing}
use go_b2bua.Ua.Exec.{
  Exec, ◌>>=◌, ◌>>◌, modify, gets, ret, no_change, stay, go_to_with, when, parse, make_event,
  enqueue, request, begin_new,
}
use go_b2bua.Ua.Steps.{
  ClientTr, set_last_scode, set_r_tag, set_late_media, set_pending_tr, to_failed, to_cancelling,
  new_connected, take_remote_body, send_prack, parse_all,
}

-- the timers that take over from the no-reply timer, and from the no-progress timer
unfoldable pub after_no_reply : Response → Ua → Ua
unfolding cancel_no_reply_timer start_no_progress_timer start_expire_timer
after_no_reply resp u =
    let c = cancel_no_reply_timer u in
    if resp.scode == 100 && is_some u.stamps.np_mtime
    then start_no_progress_timer c
    else if ltb resp.scode 200 && is_some u.stamps.ex_mtime
    then start_expire_timer resp.rtime c
    else c

unfoldable pub after_no_progress : Response → Ua → Ua
unfolding cancel_no_progress_timer start_expire_timer
after_no_progress resp u =
    let c = cancel_no_progress_timer u in
    if ltb resp.scode 200 && is_some u.stamps.ex_mtime then start_expire_timer resp.rtime c else c

-- a provisional response other than 100
unfoldable pub provisional : Response → Exec (Unit {0})
provisional resp = do
  origin ← gets (λ u. u.origin)
  event ← make_event resp.rtime origin (ring_ev resp.scode resp.reason_phrase resp.body)
  let cb = ring_cb resp.rtime origin resp.scode
  take_remote_body resp.body event (modify (set_p1xx_ts resp.rtime) >> go_to_with uac_ringing cb)
  modify (enqueue event)
  modify (set_p1xx_ts resp.rtime)
  go_to_with uac_ringing cb

-- a 2xx with no To tag
unfoldable pub tagless : Response → Exec (Unit {0})
tagless resp = do
  origin ← gets (λ u. u.origin)
  event ← make_event resp.rtime origin (fail_ev 502 "Bad Gateway" [] none)
  modify (enqueue event)
  req ← request no_change "UacStateTrying::RecvResponse: #2" bye none []
  modify (begin_new req)
  modify (stamp_disconnect resp.rtime)
  to_failed (fail_cb resp.rtime origin resp.scode)

-- `!self.ua.GetLateMedia() || body == nil`
abbrev pub confirms : Option Body → Ua → Bool
confirms body u = not u.media.late_media || not (is_some body)

-- the event for a 2xx and the callback that goes with it
unfoldable pub connect_event : Response → Exec (CcEvent × Option Callback)
connect_event resp = do
  origin ← gets (λ u. u.origin)
  now ← gets (confirms resp.body)
  if now
      then (do
        modify (set_late_media false)
        event ← make_event resp.rtime origin (connect_ev resp.scode resp.reason_phrase resp.body)
        modify (start_credit_timer resp.rtime)
        modify (set_connect_ts resp.rtime)
        gets (λ u. (event, some (conn_cb resp.rtime origin))))
      else (do
        event ←
            make_event resp.rtime origin (pre_connect_ev resp.scode resp.reason_phrase resp.body)
        modify (emit set_uack)
        modify (set_pending_tr true)
        gets (λ u. (event, none)))

abbrev pub connect_to : UaState → Option Callback → Exec (Unit {0})
connect_to s cb = ret (record { newstate = some s; cb = cb; failed = false })

-- a 2xx with a To tag
unfoldable pub accepted : Response → String → Exec (Unit {0})
accepted resp tag = do
  r_uri ← gets (λ u. u.dialog.r_uri)
  _ ← parse "UacStateTrying::RecvResponse: #3" r_uri
  modify (set_r_tag tag)
  made ← connect_event resp
  newstate ← new_connected
  take_remote_body resp.body made.0
      (modify (set_connect_ts resp.rtime) >> connect_to newstate made.1)
  modify (enqueue made.0)
  connect_to newstate made.1

-- the challenges that a failure carries upwards
abbrev pub challenges_of : Bool → Response → List Header
challenges_of pass resp =
    if not pass
    then []
    else if resp.scode == 401
    then resp.www_texts
    else if resp.scode == 407
    then resp.proxy_texts
    else []

-- the first contact for 301 and 302, all contacts for 300, none for any other code
abbrev pub first_contact : List (Option Address) → Option (List Address)
first_contact (some c ∷ cs) = some (c ∷ [])
first_contact _ = none

abbrev pub has_contacts : List (Option Address) → Bool
has_contacts [] = false
has_contacts (c ∷ cs) = true

-- the event for a negative final response
unfoldable pub final_event : Response → Exec CcEvent
final_event resp = do
  origin ← gets (λ u. u.origin)
  pass ← gets (λ u. u.opts.pass_auth)
  if (resp.scode == 301 || resp.scode == 302) && has_contacts resp.contacts
      then (do
        addrs ← parse "UacStateTrying::RecvResponse: #4" (first_contact resp.contacts)
        make_event resp.rtime origin (redirect_ev resp.scode resp.reason_phrase resp.body addrs))
      else if resp.scode == 300 && has_contacts resp.contacts
      then (do
        addrs ← parse "UacStateTrying::RecvResponse: #5" (parse_all resp.contacts)
        make_event resp.rtime origin (redirect_ev resp.scode resp.reason_phrase resp.body addrs))
      else (do
        event ←
            make_event resp.rtime origin
              (fail_ev resp.scode resp.reason_phrase (challenges_of pass resp) none)
        gets (λ u. record event { sip_reason = resp.reason }))

unfoldable pub rejected : Response → Exec (Unit {0})
rejected resp = do
  event ← final_event resp
  modify (enqueue event)
  modify (stamp_disconnect resp.rtime)
  origin ← gets (λ u. u.origin)
  to_failed (fail_cb resp.rtime origin resp.scode)

unfoldable pub final : Response → Exec (Unit {0})
final resp = do
  modify cancel_expire_timer
  if leb 200 resp.scode && ltb resp.scode 300
      then (do
        to_body ← parse "UacStateTrying::RecvResponse: #1" resp.to_body
        if is_empty to_body.tag then tagless resp else accepted resp to_body.tag)
      else rejected resp

-- `RecvResponse`
unfoldable pub recv_response : Response → ClientTr → Exec (Unit {0})
recv_response resp tr = do
  modify (set_last_scode resp.scode)
  no_reply ← gets (λ u. is_some u.timers.no_reply)
  when no_reply (modify (after_no_reply resp))
  origin ← gets (λ u. u.origin)
  when (resp.scode == 100) (do
    modify (set_p100_ts resp.rtime)
    event ← make_event resp.rtime origin (ring_ev resp.scode resp.reason_phrase resp.body)
    modify (enqueue event)
    stay)
  no_progress ← gets (λ u. is_some u.timers.no_progress)
  when no_progress (modify (after_no_progress resp))
  send_prack "UacStateTrying::RecvResponse" tr resp resp.rseq
  when (ltb 100 resp.scode && ltb resp.scode 300)
      (modify (update_routing resp.contacts resp.record_routes true true))
  if ltb resp.scode 200 then provisional resp else final resp

-- The events that end the call on this side: disconnect, fail and redirect.
abbrev pub is_ending : Kind → Bool
is_ending (disconnect_ev also) = true
is_ending (fail_ev code reason challenges warning) = true
is_ending (redirect_ev code reason body addrs) = true
is_ending _ = false

-- `RecvEvent`
unfoldable pub recv_event : CcEvent → Exec (Unit {0})
recv_event event = do
  when (not (is_ending event.kind)) stay
  modify (emit (cancel_transaction (get_extra_headers event)))
  modify cancel_expire_timer
  modify cancel_no_progress_timer
  modify cancel_no_reply_timer
  modify (stamp_disconnect event.rtime)
  code ← gets (λ u. u.last_scode)
  to_cancelling (disc_cb event.rtime event.origin code none)
