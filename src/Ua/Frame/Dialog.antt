-- ===== src/Ua/Frame/Dialog.antt =====
-- The same for the server states of an established dialog (see Uas).
use go_b2bua.Prelude.{ℕ, Bool, true, false, String, Option, none, some, List, [], ◌∷◌, ◌≡◌, sym}
use go_b2bua.Sip.{Address, Body, Request, Method, invite, bye, refer}
use go_b2bua.Event.{
  CcEvent, Kind, ring_ev, connect_ev, pre_connect_ev, fail_ev, redirect_ev, disconnect_ev, info_ev,
  update_ev,
}
use go_b2bua.Ua.State.{Ua, UaStateId, state_id, uas_state_pre_connect, uas_state_updating}
use go_b2bua.Ua.Exec.Keeps.{Keeps}
use go_b2bua.Ua.Uas.PreConnect as UasPreConnect
use go_b2bua.Ua.Uas.Updating as UasUpdating
use go_b2bua.Ua.Graph.{Goes, edges, IsTalking}
use go_b2bua.Ua.Frame.{Frame}
use go_b2bua.Ua.Frame.Statements.{frames}
use go_b2bua.Ua.Graph.{talk_pre_connect}

ruleset rules = (frames, edges)

module _ (v : Ua) where
  pub end_call-Frame :
      {s : UaStateId}
      → IsTalking s
      → (e : CcEvent) → Keeps (Frame v) (Goes s) (UasPreConnect.end_call e)
  unfolding UasPreConnect.end_call
  end_call-Frame t e = search rules depth 30

  pub recv_refer-Frame :
      {s : UaStateId}
      → IsTalking s
      → (w : String) (req : Request) (h : Option (Option Address))
      → Keeps (Frame v) (Goes s) (UasPreConnect.recv_refer w req h)
  unfolding UasPreConnect.recv_refer
  recv_refer-Frame t w req none = search rules depth 30
  recv_refer-Frame t w req (some h) = search rules depth 30

  pub send_info-Frame :
      {s : UaStateId}
      → IsTalking s
      → (e : CcEvent) (b : Option Body) → Keeps (Frame v) (Goes s) (UasPreConnect.send_info e b)
  unfolding UasPreConnect.send_info
  send_info-Frame t e b = search rules depth 30

  recv_bye-Frame :
      {s : UaStateId}
      → IsTalking s
      → (req : Request) → Keeps (Frame v) (Goes s) (UasPreConnect.recv_bye req)
  unfolding UasPreConnect.recv_bye
  recv_bye-Frame t req = search rules depth 30

  dispatch_request-Frame :
      {s : UaStateId}
      → IsTalking s
      → (m : Method) (req : Request)
      → Keeps (Frame v) (Goes s) (UasPreConnect.dispatch_request m req)
  unfolding UasPreConnect.dispatch_request
  dispatch_request-Frame t invite req = search rules depth 30
  dispatch_request-Frame t bye req = recv_bye-Frame t req
  dispatch_request-Frame t refer req = recv_refer-Frame t _ req req.refer_to
  dispatch_request-Frame t _ req = search rules

  pub pre_connect_request-Frame :
      {s : UaStateId}
      → IsTalking s
      → (req : Request) → Keeps (Frame v) (Goes s) (UasPreConnect.recv_request req)
  unfolding UasPreConnect.recv_request
  pre_connect_request-Frame t req = dispatch_request-Frame t req.method req

  updating_recv_bye-Frame :
      {s : UaStateId}
      → IsTalking s
      → (req : Request) → Keeps (Frame v) (Goes s) (UasUpdating.recv_bye req)
  unfolding UasUpdating.recv_bye
  updating_recv_bye-Frame t req = search rules depth 30

  updating_dispatch-Frame :
      {s : UaStateId}
      → IsTalking s
      → (m : Method) (req : Request) → Keeps (Frame v) (Goes s) (UasUpdating.dispatch_request m req)
  unfolding UasUpdating.dispatch_request
  updating_dispatch-Frame t invite req = search rules depth 30
  updating_dispatch-Frame t bye req = updating_recv_bye-Frame t req
  updating_dispatch-Frame t refer req = recv_refer-Frame t _ req req.refer_to
  updating_dispatch-Frame t _ req = search rules

  pub updating_request-Frame :
      {s : UaStateId}
      → IsTalking s
      → (req : Request) → Keeps (Frame v) (Goes s) (UasUpdating.recv_request req)
  unfolding UasUpdating.recv_request
  updating_request-Frame t req = updating_dispatch-Frame t req.method req

  set_pending-Frame :
      state_id v.state ≡ uas_state_pre_connect
      → (c : Bool) (e : CcEvent) (u : Ua) → Frame v u
      → Frame v (UasPreConnect.set_pending c e u)
  unfolding UasPreConnect.set_pending
  set_pending-Frame e c ev u h = record {
    id_same = sym e;
    elast_same = h.elast_same;
    sent_same = h.sent_same;
    tm_same = h.tm_same;
    controller_same = h.controller_same;
    ordered = h.ordered;
  }

  pre_connect_dispatch-Frame :
      state_id v.state ≡ uas_state_pre_connect
      → (c : Bool) (k : Kind) (e : CcEvent)
      → Keeps (Frame v) (Goes uas_state_pre_connect) (UasPreConnect.dispatch c k e)
  unfolding UasPreConnect.dispatch
  pre_connect_dispatch-Frame q c (update_ev b) e = search (rules, set_pending-Frame q) depth 20
  pre_connect_dispatch-Frame q c (info_ev b) e = send_info-Frame talk_pre_connect e b
  pre_connect_dispatch-Frame q c (disconnect_ev also) e = end_call-Frame talk_pre_connect e
  pre_connect_dispatch-Frame q c (redirect_ev a r b []) e = search rules
  pre_connect_dispatch-Frame q c (redirect_ev a r b (x ∷ xs)) e = end_call-Frame talk_pre_connect e
  pre_connect_dispatch-Frame q c (fail_ev a r hs w) e = end_call-Frame talk_pre_connect e
  pre_connect_dispatch-Frame q c _ e = search rules

  pub pre_connect_event-Frame :
      state_id v.state ≡ uas_state_pre_connect
      → (c : Bool) (e : CcEvent)
      → Keeps (Frame v) (Goes uas_state_pre_connect) (UasPreConnect.recv_event c e)
  unfolding UasPreConnect.recv_event
  pre_connect_event-Frame q c e = pre_connect_dispatch-Frame q c e.kind e

  updating_on_ring-Frame :
      (e : CcEvent) (c : ℕ) (r : String) (b : Option Body)
      → Keeps (Frame v) (Goes uas_state_updating) (UasUpdating.on_ring e c r b)
  unfolding UasUpdating.on_ring
  updating_on_ring-Frame e c r b = search rules depth 30

  updating_on_connect-Frame :
      (a : Bool) (e : CcEvent) (c : ℕ) (r : String) (b : Option Body)
      → Keeps (Frame v) (Goes uas_state_updating) (UasUpdating.on_connect a e c r b)
  unfolding UasUpdating.on_connect
  updating_on_connect-Frame a e c r b = search rules depth 30

  updating_on_redirect-Frame :
      (e : CcEvent) (c : ℕ) (r : String) (b : Option Body) (as' : List Address)
      → Keeps (Frame v) (Goes uas_state_updating) (UasUpdating.on_redirect e c r b as')
  unfolding UasUpdating.on_redirect
  updating_on_redirect-Frame e c r b as' = search rules depth 30

  updating_on_fail-Frame :
      (e : CcEvent) (c : ℕ) (r : String) (w : Option String)
      → Keeps (Frame v) (Goes uas_state_updating) (UasUpdating.on_fail e c r w)
  unfolding UasUpdating.on_fail
  updating_on_fail-Frame e c r w = search rules depth 30

  updating_on_disconnect-Frame :
      (e : CcEvent) → Keeps (Frame v) (Goes uas_state_updating) (UasUpdating.on_disconnect e)
  unfolding UasUpdating.on_disconnect
  updating_on_disconnect-Frame e = search rules depth 30

  updating_event_dispatch-Frame :
      (k : Kind) (e : CcEvent)
      → Keeps (Frame v) (Goes uas_state_updating) (UasUpdating.dispatch k e)
  unfolding UasUpdating.dispatch
  updating_event_dispatch-Frame (ring_ev c r b) e = updating_on_ring-Frame e c r b
  updating_event_dispatch-Frame (pre_connect_ev c r b) e = updating_on_connect-Frame true e c r b
  updating_event_dispatch-Frame (connect_ev c r b) e = updating_on_connect-Frame false e c r b
  updating_event_dispatch-Frame (redirect_ev c r b as') e = updating_on_redirect-Frame e c r b as'
  updating_event_dispatch-Frame (fail_ev c r hs w) e = updating_on_fail-Frame e c r w
  updating_event_dispatch-Frame (disconnect_ev also) e = updating_on_disconnect-Frame e
  updating_event_dispatch-Frame _ e = search rules depth 12

  pub updating_event-Frame :
      (e : CcEvent) → Keeps (Frame v) (Goes uas_state_updating) (UasUpdating.recv_event e)
  unfolding UasUpdating.recv_event
  updating_event-Frame e = updating_event_dispatch-Frame e.kind e
