-- ===== src/Ua/Uac/Updating.antt =====
-- `UacStateUpdating` of sippy/uac_state_updating.go.
use go_b2bua.Prelude.{
  true, not, ◌&&◌, ◌||◌, String, Option, none, some, List, [], ◌∷◌, ltb, leb, ◌==◌, if◌then◌else◌,
}
use go_b2bua.Sip.{Method, invite, bye, Header, reason_hf, Request, Response}
use go_b2bua.Event.{
  CcEvent, ring_ev, connect_ev, pre_connect_ev, fail_ev, redirect_ev, disconnect_ev,
  get_extra_headers,
}
use go_b2bua.Ua.State.{disc_cb, cancel_transaction, set_uack}
use go_b2bua.Ua.Timers.{cancel_credit_timer, set_disconnect_ts}
use go_b2bua.Ua.Routing.{emit, answer}
use go_b2bua.Ua.Exec.{
  Exec, ◌>>=◌, ◌>>◌, modify, gets, no_change, with_error, stay, go_to, when, parse, make_event,
  enqueue, request, begin_new,
}
use go_b2bua.Ua.Steps.{
  ClientTr, set_pending_tr, set_l_sdp, to_disconnected, new_connected, take_remote_body, parse_all,
}
use go_b2bua.Ua.Uac.Trying.{has_contacts, first_contact, confirms, is_ending}

-- the case of BYE
unfoldable pub recv_bye : Request → Exec (Unit {0})
recv_bye req = do
  modify (emit (cancel_transaction []))
  modify (answer req.cseq 200 "OK" 0 [])
  origin ← gets (λ u. u.origin)
  event ← make_event req.rtime origin (disconnect_ev none)
  modify (enqueue (record event { sip_reason = req.reason }))
  modify cancel_credit_timer
  modify (set_disconnect_ts req.rtime)
  to_disconnected (disc_cb req.rtime origin 0 none)

unfoldable pub dispatch : Method → Request → Exec (Unit {0})
dispatch invite req = modify (answer req.cseq 491 "Request Pending" 0 []) >> stay
dispatch bye req = recv_bye req
dispatch _ req = stay

-- `RecvRequest`
unfoldable pub recv_request : Request → Exec (Unit {0})
recv_request req = dispatch req.method req

abbrev reason_list : Option String → List Header
reason_list none = []
reason_list (some r) = reason_hf r ∷ []

-- `updateFailed`
unfoldable pub update_failed : CcEvent → Exec (Unit {0})
update_failed event = do
  modify (enqueue event)
  req ←
      request no_change "UacStateUpdating::updateFailed: #1" bye none (reason_list event.sip_reason)
  modify (begin_new req)
  modify cancel_credit_timer
  modify (set_disconnect_ts event.rtime)
  origin ← gets (λ u. u.origin)
  last ← make_event event.rtime origin (disconnect_ev none)
  modify (enqueue last)
  to_disconnected (disc_cb last.rtime last.origin 0 none)

-- the event for a 2xx
unfoldable pub connect_event : Response → Exec CcEvent
connect_event resp = do
  origin ← gets (λ u. u.origin)
  now ← gets (confirms resp.body)
  if now
      then make_event resp.rtime origin (connect_ev resp.scode resp.reason_phrase resp.body)
      else (do
        event ←
            make_event resp.rtime origin (pre_connect_ev resp.scode resp.reason_phrase resp.body)
        modify (emit set_uack)
        modify (set_pending_tr true)
        gets (λ u. event))

-- the answer of the remote SDP hook: an error ends the call
unfoldable pub hooked : CcEvent → Option String → Exec (Unit {0})
hooked event none = do newstate ← new_connected; go_to newstate
hooked event (some err) = do
  ev ← make_event event.rtime "" (fail_ev 502 "Bad Gateway" [] (some err))
  update_failed ev

unfoldable pub accepted : Response → Exec (Unit {0})
accepted resp = do
  event ← connect_event resp
  err ← gets (λ u. u.world.remote_sdp_err)
  take_remote_body resp.body event (hooked event err)
  modify (enqueue event)
  newstate ← new_connected
  go_to newstate

-- the event for a negative final response
unfoldable pub final_event : Response → Exec CcEvent
final_event resp = do
  origin ← gets (λ u. u.origin)
  if (resp.scode == 301 || resp.scode == 302) && has_contacts resp.contacts
      then (do
        addrs ← parse "UacStateUpdating::RecvResponse: #1" (first_contact resp.contacts)
        make_event resp.rtime origin (redirect_ev resp.scode resp.reason_phrase resp.body addrs))
      else if resp.scode == 300 && has_contacts resp.contacts
      then (do
        addrs ← parse "UacStateUpdating::RecvResponse: #2" (parse_all resp.contacts)
        make_event resp.rtime origin (redirect_ev resp.scode resp.reason_phrase resp.body addrs))
      else (do
        modify (set_l_sdp none)
        event ← make_event resp.rtime origin (fail_ev resp.scode resp.reason_phrase [] none)
        gets (λ u. record event { sip_reason = resp.reason }))

unfoldable pub rejected : Response → Exec (Unit {0})
rejected resp = do
  event ← final_event resp
  if resp.scode == 408 || resp.scode == 481
      then update_failed event
      else (do modify (enqueue event); newstate ← new_connected; go_to newstate)

-- `RecvResponse`
unfoldable pub recv_response : Response → ClientTr → Exec (Unit {0})
recv_response resp tr = do
  origin ← gets (λ u. u.origin)
  when (ltb resp.scode 200) (do
    event ← make_event resp.rtime origin (ring_ev resp.scode resp.reason_phrase resp.body)
    modify (enqueue event)
    stay)
  if leb 200 resp.scode && ltb resp.scode 300 then accepted resp else rejected resp

-- `RecvEvent`
unfoldable pub recv_event : CcEvent → Exec (Unit {0})
recv_event event = do
  when (not (is_ending event.kind)) stay
  modify (emit (cancel_transaction []))
  req ← request with_error "" bye none (get_extra_headers event)
  modify (begin_new req)
  modify cancel_credit_timer
  modify (set_disconnect_ts event.rtime)
  to_disconnected (disc_cb event.rtime event.origin 0 none)
