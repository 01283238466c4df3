-- ===== src/Ua/Frame/Connected.antt =====
-- The same for the connected and disconnected states (see Uas).
use go_b2bua.Prelude.{ℕ, String, Option, none, some, [], ◌∷◌}
use go_b2bua.Sip.{Body, Request, Method, bye}
use go_b2bua.Event.{
  CcEvent, Kind, connect_ev, fail_ev, redirect_ev, disconnect_ev, info_ev, update_ev,
}
use go_b2bua.Ua.State.{Ua, ua_state_connected, ua_state_disconnected}
use go_b2bua.Ua.Exec.Keeps.{Keeps}
use go_b2bua.Ua.Connected
use go_b2bua.Ua.Graph.{Goes, edges}
use go_b2bua.Ua.Frame.{Frame}
use go_b2bua.Ua.Frame.Statements.{frames}
use go_b2bua.Ua.Graph.{talk_connected}
use go_b2bua.Ua.Frame.Dialog.{end_call-Frame, send_info-Frame}
use go_b2bua.Ua.Frame.UasRinging.{also_of-Frame}

ruleset rules = (frames, edges)

module _ (v : Ua) where
  report_sdp_error-Frame :
      (e : CcEvent) (err : Option String)
      → Keeps (Frame v) (Goes ua_state_connected) (Connected.report_sdp_error e err)
  unfolding Connected.report_sdp_error
  report_sdp_error-Frame e none = search rules depth 30
  report_sdp_error-Frame e (some err) = search rules depth 30

  hold_offer-Frame :
      (b : Option Body) (e : CcEvent)
      → Keeps (Frame v) (Goes ua_state_connected) (Connected.hold_offer b e)
  unfolding Connected.hold_offer
  hold_offer-Frame none e = search rules depth 30
  hold_offer-Frame (some b) e = search (rules, report_sdp_error-Frame) depth 30

  hop_header-Frame :
      (e : CcEvent) (n : Option (Option ℕ))
      → Keeps (Frame v) (Goes ua_state_connected) (Connected.hop_header e n)
  unfolding Connected.hop_header
  hop_header-Frame e none = search rules depth 30
  hop_header-Frame e (some none) = search rules depth 30
  hop_header-Frame e (some (some n)) = search rules depth 30

  on_update-Frame :
      (e : CcEvent) (b : Option Body)
      → Keeps (Frame v) (Goes ua_state_connected) (Connected.on_update e b)
  unfolding Connected.on_update
  on_update-Frame e b = search (rules, hold_offer-Frame, hop_header-Frame) depth 30

  on_connect-Frame :
      (e : CcEvent) (b : Option Body)
      → Keeps (Frame v) (Goes ua_state_connected) (Connected.on_connect e b)
  unfolding Connected.on_connect
  on_connect-Frame e b = search rules depth 30

  dispatch-Frame :
      (k : Kind) (e : CcEvent) → Keeps (Frame v) (Goes ua_state_connected) (Connected.dispatch k e)
  unfolding Connected.dispatch
  dispatch-Frame (disconnect_ev also) e = end_call-Frame v talk_connected e
  dispatch-Frame (redirect_ev a r b []) e = search rules
  dispatch-Frame (redirect_ev a r b (x ∷ xs)) e = end_call-Frame v talk_connected e
  dispatch-Frame (fail_ev a r hs w) e = end_call-Frame v talk_connected e
  dispatch-Frame (update_ev b) e = on_update-Frame e b
  dispatch-Frame (info_ev b) e = send_info-Frame v talk_connected e b
  dispatch-Frame (connect_ev c r b) e = on_connect-Frame e b
  dispatch-Frame _ e = search rules

  pub connected_event-Frame :
      (e : CcEvent) → Keeps (Frame v) (Goes ua_state_connected) (Connected.recv_event e)
  unfolding Connected.recv_event
  connected_event-Frame e = dispatch-Frame e.kind e

  unless_same-Frame :
      (f : CcEvent → Ua → Ua) (req : Request)
      → Keeps (Frame v) (Goes ua_state_connected) (Connected.unless_same f req)
  unfolding Connected.unless_same
  unless_same-Frame f req = search rules depth 30

  pub recv_invite-Frame :
      (f : CcEvent → Ua → Ua) (req : Request)
      → Keeps (Frame v) (Goes ua_state_connected) (Connected.recv_invite f req)
  unfolding Connected.recv_invite
  recv_invite-Frame f req = search (rules, unless_same-Frame) depth 40

  pub recv_bye-Frame :
      (f : CcEvent → Ua → Ua) (req : Request)
      → Keeps (Frame v) (Goes ua_state_connected) (Connected.recv_bye f req)
  unfolding Connected.recv_bye
  recv_bye-Frame f req = search (rules, also_of-Frame) depth 40

  pub recv_info-Frame :
      (f : CcEvent → Ua → Ua) (req : Request)
      → Keeps (Frame v) (Goes ua_state_connected) (Connected.recv_info f req)
  unfolding Connected.recv_info
  recv_info-Frame f req = search rules depth 40

  late_request-Frame :
      (m : Method) (req : Request)
      → Keeps (Frame v) (Goes ua_state_disconnected) (Connected.late_request m req)
  unfolding Connected.late_request
  late_request-Frame bye req = search rules depth 30
  late_request-Frame _ req = search rules depth 30

  pub disconnected_request-Frame :
      (req : Request)
      → Keeps (Frame v) (Goes ua_state_disconnected) (Connected.disconnected_request req)
  unfolding Connected.disconnected_request
  disconnected_request-Frame req = late_request-Frame req.method req
