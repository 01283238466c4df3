-- ===== src/Ua/Uac/Cancelling.antt =====
-- `UacStateCancelling` of sippy/uac_state_cancelling.go.
use go_b2bua.Prelude.{
  Bool, true, false, ◌&&◌, String, Option, none, some, [], ltb, leb, if◌then◌else◌,
}
use go_b2bua.Sip.{Address, bye, Response}
use go_b2bua.Ua.State.{uac_cancelling, disconnected, dead, cancel_timeout, Ua}
use go_b2bua.Ua.Routing.{emit, update_routing}
use go_b2bua.Ua.Exec.{
  Exec, ◌>>=◌, ◌>>◌, modify, gets, no_change, stay, go_to, when, parse, request, begin_new,
}
use go_b2bua.Ua.Steps.{ClientTr, set_r_tag, reset_sdp_hooks}

-- `te` is stopped and forgotten if it runs
unfoldable pub stop_te : Bool → Ua → Ua
unfolding emit
stop_te te u =
    if te then emit cancel_timeout (record u { state = some (uac_cancelling false) }) else u

-- a tag of a To that cannot be parsed is a nil dereference, which ends the handler
unfoldable pub tag_or_fault : Option Address → Exec String
tag_or_fault none = stay
tag_or_fault (some a) = gets (λ u. a.tag)

-- `RecvResponse`, where `te` tells whether the timer of the state runs
unfoldable pub recv_response : Bool → Response → ClientTr → Exec (Unit {0})
recv_response te resp tr = do
  when (ltb resp.scode 200) stay
  modify (stop_te te)
  if leb 200 resp.scode && ltb resp.scode 300
      then (do
        modify (update_routing resp.contacts resp.record_routes true true)
        r_uri ← gets (λ u. u.dialog.r_uri)
        _ ← parse "UacStateCancelling::RecvResponse: #1" r_uri
        tag ← tag_or_fault resp.to_body
        modify (set_r_tag tag)
        req ← request no_change "UacStateCancelling::RecvResponse: #2" bye none []
        modify (begin_new req)
        modify reset_sdp_hooks
        go_to disconnected)
      else go_to dead
