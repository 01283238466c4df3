-- ===== src/Ua/Uas/PreConnect.antt =====
-- `UasStatePreConnect` of sippy/uas_state_preconnect.go.
use go_b2bua.Prelude.{Bool, true, false, String, Option, none, some, [], ◌∷◌}
use go_b2bua.Sip.{Address, Method, invite, bye, refer, info, Body, Request}
use go_b2bua.Event.{
  CcEvent, Kind, fail_ev, redirect_ev, disconnect_ev, info_ev, update_ev, get_extra_headers,
  redirect_url,
}
use go_b2bua.Ua.State.{uas_pre_connect, disc_cb, Ua}
use go_b2bua.Ua.Timers.{cancel_credit_timer, set_disconnect_ts}
use go_b2bua.Ua.Routing.{send_uas_response, answer}
use go_b2bua.Ua.Exec.{
  Exec, ◌>>=◌, ◌>>◌, modify, gets, with_error, stay, parse, make_event, enqueue, request, begin_new,
}
use go_b2bua.Ua.Steps.{to_disconnected, ending_request}

-- `try_other_events`
unfoldable pub end_call : CcEvent → Exec (Unit {0})
end_call event = do
  ending_request (redirect_url event.kind) (get_extra_headers event)
  modify cancel_credit_timer
  modify (set_disconnect_ts event.rtime)
  to_disconnected (disc_cb event.rtime event.origin 0 none)

unfoldable pub recv_bye : Request → Exec (Unit {0})
recv_bye req = do
  modify (send_uas_response true 200 "OK" none [] false [])
  modify (λ u. answer req.cseq 200 "OK" u.opts.uas_lossemul [] u)
  origin ← gets (λ u. u.origin)
  event ← make_event req.rtime origin (disconnect_ev none)
  modify (enqueue (record event { sip_reason = req.reason }))
  modify cancel_credit_timer
  modify (set_disconnect_ts req.rtime)
  to_disconnected (disc_cb req.rtime origin 0 (some req))

-- REFER, where `refer_to` is the header
unfoldable pub recv_refer : String → Request → Option (Option Address) → Exec (Unit {0})
recv_refer message req none = do
  modify (λ u. answer req.cseq 400 "Bad Request" u.opts.uas_lossemul [] u)
  stay
recv_refer message req (some header) = do
  modify (send_uas_response true 487 "Request Terminated" none [] false [])
  modify (λ u. answer req.cseq 202 "Accepted" u.opts.uas_lossemul [] u)
  refer_to ← parse message header
  origin ← gets (λ u. u.origin)
  event ← make_event req.rtime origin (disconnect_ev (some refer_to))
  modify (enqueue event)
  modify cancel_credit_timer
  modify (set_disconnect_ts req.rtime)
  to_disconnected (disc_cb req.rtime origin 0 (some req))

unfoldable pub dispatch_request : Method → Request → Exec (Unit {0})
dispatch_request invite req =
    modify (λ u. answer req.cseq 491 "Request Pending" u.opts.uas_lossemul [] u) >> stay
dispatch_request bye req = recv_bye req
dispatch_request refer req = recv_refer "UasStatePreConnect::RecvRequest: #1" req req.refer_to
dispatch_request _ req = stay

-- `RecvRequest`
unfoldable pub recv_request : Request → Exec (Unit {0})
recv_request req = dispatch_request req.method req

unfoldable pub send_info : CcEvent → Option Body → Exec (Unit {0})
send_info event body = do
  req ← request with_error "" info none (get_extra_headers event)
  modify (begin_new (record req { body = body }))
  stay

unfoldable pub set_pending : Bool → CcEvent → Ua → Ua
set_pending confirm event u = record u { state = some (uas_pre_connect confirm (some event)) }

unfoldable pub dispatch : Bool → Kind → CcEvent → Exec (Unit {0})
dispatch confirm (update_ev body) event = modify (set_pending confirm event) >> stay
dispatch confirm (info_ev body) event = send_info event body
dispatch confirm (disconnect_ev also) event = end_call event
dispatch confirm (redirect_ev code reason body []) event = stay
dispatch confirm (redirect_ev code reason body (a ∷ addrs)) event = end_call event
dispatch confirm (fail_ev code reason challenges warning) event = end_call event
dispatch confirm _ event = stay

-- `RecvEvent`. A redirect event with no address is a fault (an index out of range) that ends the
-- handler.
unfoldable pub recv_event : Bool → CcEvent → Exec (Unit {0})
recv_event confirm event = dispatch confirm event.kind event
