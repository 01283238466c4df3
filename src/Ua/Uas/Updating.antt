-- ===== src/Ua/Uas/Updating.antt =====
-- `UasStateUpdating` of sippy/uas_state_updating.go.
use go_b2bua.Prelude.{ℕ, Bool, true, false, String, Option, none, some, List, [], ◌∷◌, ◌++◌}
use go_b2bua.Sip.{Address, Method, invite, bye, refer, Body, Header, warning_hf, Request}
use go_b2bua.Event.{
  CcEvent, Kind, ring_ev, connect_ev, pre_connect_ev, fail_ev, redirect_ev, disconnect_ev,
  get_extra_headers, redirect_contacts,
}
use go_b2bua.Ua.State.{disc_cb}
use go_b2bua.Ua.Timers.{cancel_credit_timer, set_disconnect_ts}
use go_b2bua.Ua.Routing.{send_uas_response, answer, get_l_contacts}
use go_b2bua.Ua.Exec.{
  Exec, ◌>>=◌, ◌>>◌, modify, gets, with_error, stay, go_to, make_event, enqueue, request, begin_new,
}
use go_b2bua.Ua.Steps.{set_l_sdp, set_r_sdp, to_disconnected, new_pre_connect, hold_local_body}
use go_b2bua.Ua.Uas.Trying.{or_default, ring_body}
use go_b2bua.Ua.Uas.PreConnect.{recv_refer}

unfoldable pub recv_bye : Request → Exec (Unit {0})
recv_bye req = do
  modify (send_uas_response true 487 "Request Terminated" none [] false [])
  modify (λ u. answer req.cseq 200 "OK" u.opts.uas_lossemul [] u)
  origin ← gets (λ u. u.origin)
  event ← make_event req.rtime origin (disconnect_ev none)
  modify (enqueue (record event { sip_reason = req.reason }))
  modify cancel_credit_timer
  modify (set_disconnect_ts req.rtime)
  to_disconnected (disc_cb req.rtime origin 0 (some req))

unfoldable pub dispatch_request : Method → Request → Exec (Unit {0})
dispatch_request invite req =
    modify (λ u. answer req.cseq 491 "Request Pending" u.opts.uas_lossemul [] u) >> stay
dispatch_request bye req = recv_bye req
dispatch_request refer req = recv_refer "UasStateUpdating::RecvRequest: #1" req req.refer_to
dispatch_request _ req = stay

-- `RecvRequest`
unfoldable pub recv_request : Request → Exec (Unit {0})
recv_request req = dispatch_request req.method req

unfoldable pub on_ring : CcEvent → ℕ → String → Option Body → Exec (Unit {0})
on_ring event scode scode_reason body = do
  let code = (or_default scode scode_reason 180 "Ringing").0
  let reason = (or_default scode scode_reason 180 "Ringing").1
  hold_local_body (ring_body scode body) event
  modify (set_l_sdp (ring_body scode body))
  modify (
      send_uas_response false code reason (ring_body scode body) [] false (get_extra_headers event))
  stay

-- the cases of pre-connect and connect, which differ in `confirm_connect`
unfoldable pub on_connect : Bool → CcEvent → ℕ → String → Option Body → Exec (Unit {0})
on_connect confirm event code reason body = do
  hold_local_body body event
  modify (set_l_sdp body)
  contacts ← gets get_l_contacts
  modify (send_uas_response false code reason body contacts true (get_extra_headers event))
  newstate ← new_pre_connect confirm
  go_to newstate

unfoldable pub on_redirect : CcEvent → ℕ → String → Option Body → List Address → Exec (Unit {0})
on_redirect event code reason body addrs = do
  modify (
      send_uas_response false code reason body (redirect_contacts addrs) true
        (get_extra_headers event))
  newstate ← new_pre_connect false
  go_to newstate

abbrev warning_list : Option String → List Header
warning_list none = []
warning_list (some w) = warning_hf w ∷ []

unfoldable pub on_fail : CcEvent → ℕ → String → Option String → Exec (Unit {0})
on_fail event scode scode_reason warning = do
  let code = (or_default scode scode_reason 500 "Failed").0
  let reason = (or_default scode scode_reason 500 "Failed").1
  modify (set_r_sdp none)
  modify (
      send_uas_response false code reason none [] true
        (get_extra_headers event ++ warning_list warning))
  newstate ← new_pre_connect false
  go_to newstate

unfoldable pub on_disconnect : CcEvent → Exec (Unit {0})
on_disconnect event = do
  modify (send_uas_response false 487 "Request Terminated" none [] false (get_extra_headers event))
  req ← request with_error "" bye none (get_extra_headers event)
  modify (begin_new req)
  modify cancel_credit_timer
  modify (set_disconnect_ts event.rtime)
  to_disconnected (disc_cb event.rtime event.origin 0 none)

unfoldable pub dispatch : Kind → CcEvent → Exec (Unit {0})
dispatch (ring_ev code reason body) event = on_ring event code reason body
dispatch (pre_connect_ev code reason body) event = on_connect true event code reason body
dispatch (connect_ev code reason body) event = on_connect false event code reason body
dispatch (redirect_ev code reason body addrs) event = on_redirect event code reason body addrs
dispatch (fail_ev code reason challenges warning) event = on_fail event code reason warning
dispatch (disconnect_ev also) event = on_disconnect event
dispatch _ event = stay

-- `RecvEvent`
unfoldable pub recv_event : CcEvent → Exec (Unit {0})
recv_event event = dispatch event.kind event
