-- ===== src/Ua/Frame/UasRinging.antt =====
-- The same for the server states while the call rings (see Uas).
use go_b2bua.Prelude.{ℕ, String, Option, List, [], ◌∷◌, ◌≡◌, sym}
use go_b2bua.Sip.{Address, Body, Request, Method, bye}
use go_b2bua.Event.{
  CcEvent, Kind, ring_ev, connect_ev, pre_connect_ev, fail_ev, redirect_ev, disconnect_ev,
  update_ev,
}
use go_b2bua.Ua.State.{Ua, UaStateId, state_id, RelState, uas_state_ringing}
use go_b2bua.Ua.Exec.Keeps.{Keeps}
use go_b2bua.Ua.Uas.Ringing as UasRinging
use go_b2bua.Ua.Graph.{Goes, edges}
use go_b2bua.Ua.Frame.{Frame}
use go_b2bua.Ua.Frame.Statements.{frames}

ruleset rules = (frames, edges)

module _ (v : Ua) where
  ringing_on_ring-Frame :
      (e : CcEvent) (c : ℕ) (r : String) (b : Option Body)
      → Keeps (Frame v) (Goes uas_state_ringing) (UasRinging.on_ring e c r b)
  unfolding UasRinging.on_ring
  ringing_on_ring-Frame e c r b = search rules depth 30

  ringing_on_connect-Frame :
      (e : CcEvent) (c : ℕ) (r : String) (b : Option Body)
      → Keeps (Frame v) (Goes uas_state_ringing) (UasRinging.on_connect e c r b)
  unfolding UasRinging.on_connect
  ringing_on_connect-Frame e c r b = search rules depth 30

  ringing_on_pre_connect-Frame :
      (e : CcEvent) (c : ℕ) (r : String) (b : Option Body)
      → Keeps (Frame v) (Goes uas_state_ringing) (UasRinging.on_pre_connect e c r b)
  unfolding UasRinging.on_pre_connect
  ringing_on_pre_connect-Frame e c r b = search rules depth 30

  ringing_on_redirect-Frame :
      (e : CcEvent) (c : ℕ) (r : String) (b : Option Body) (as' : List Address)
      → Keeps (Frame v) (Goes uas_state_ringing) (UasRinging.on_redirect e c r b as')
  unfolding UasRinging.on_redirect
  ringing_on_redirect-Frame e c r b as' = search rules depth 30

  ringing_on_fail-Frame :
      (e : CcEvent) (c : ℕ) (r : String)
      → Keeps (Frame v) (Goes uas_state_ringing) (UasRinging.on_fail e c r)
  unfolding UasRinging.on_fail
  ringing_on_fail-Frame e c r = search rules depth 30

  ringing_on_disconnect-Frame :
      (e : CcEvent) → Keeps (Frame v) (Goes uas_state_ringing) (UasRinging.on_disconnect e)
  unfolding UasRinging.on_disconnect
  ringing_on_disconnect-Frame e = search rules depth 30

  ringing_dispatch-Frame :
      (k : Kind) (e : CcEvent) → Keeps (Frame v) (Goes uas_state_ringing) (UasRinging.dispatch k e)
  unfolding UasRinging.dispatch
  ringing_dispatch-Frame (ring_ev c r b) e = ringing_on_ring-Frame e c r b
  ringing_dispatch-Frame (pre_connect_ev c r b) e = ringing_on_pre_connect-Frame e c r b
  ringing_dispatch-Frame (connect_ev c r b) e = ringing_on_connect-Frame e c r b
  ringing_dispatch-Frame (redirect_ev c r b as') e = ringing_on_redirect-Frame e c r b as'
  ringing_dispatch-Frame (fail_ev c r hs w) e = ringing_on_fail-Frame e c r
  ringing_dispatch-Frame (disconnect_ev also) e = ringing_on_disconnect-Frame e
  ringing_dispatch-Frame _ e = search rules depth 12

  pub ringing_event-Frame :
      (e : CcEvent) → Keeps (Frame v) (Goes uas_state_ringing) (UasRinging.recv_event e)
  unfolding UasRinging.recv_event
  ringing_event-Frame e = ringing_dispatch-Frame e.kind e

  pub also_of-Frame :
      (s : UaStateId) (w : String) (as' : List (Option Address))
      → Keeps (Frame v) (Goes s) (UasRinging.also_of w as')
  unfolding UasRinging.also_of
  also_of-Frame s w [] = search rules
  also_of-Frame s w (a ∷ as') = search rules

  ringing_recv_bye-Frame :
      (req : Request) → Keeps (Frame v) (Goes uas_state_ringing) (UasRinging.recv_bye req)
  unfolding UasRinging.recv_bye
  ringing_recv_bye-Frame req = search (rules, also_of-Frame) depth 30

  ringing_dispatch_request-Frame :
      (m : Method) (req : Request)
      → Keeps (Frame v) (Goes uas_state_ringing) (UasRinging.dispatch_request m req)
  unfolding UasRinging.dispatch_request
  ringing_dispatch_request-Frame bye req = ringing_recv_bye-Frame req
  ringing_dispatch_request-Frame _ req = search rules

  pub ringing_request-Frame :
      (req : Request) → Keeps (Frame v) (Goes uas_state_ringing) (UasRinging.recv_request req)
  unfolding UasRinging.recv_request
  ringing_request-Frame req = ringing_dispatch_request-Frame req.method req

  set_rel-Frame :
      state_id v.state ≡ uas_state_ringing
      → (r : RelState) (u : Ua) → Frame v u
      → Frame v (UasRinging.set_rel r u)
  unfolding UasRinging.set_rel
  set_rel-Frame e r u h = record {
    id_same = sym e;
    elast_same = h.elast_same;
    sent_same = h.sent_same;
    tm_same = h.tm_same;
    controller_same = h.controller_same;
    ordered = h.ordered;
  }

  rel_ring-Frame :
      state_id v.state ≡ uas_state_ringing
      → (r : RelState) (e : CcEvent) (c : ℕ) (b : Option Body)
      → Keeps (Frame v) (Goes uas_state_ringing) (UasRinging.rel_ring r e c b)
  unfolding UasRinging.rel_ring
  rel_ring-Frame q r e c b = search (rules, set_rel-Frame q) depth 20

  rel_filter-Frame :
      state_id v.state ≡ uas_state_ringing
      → (r : RelState) (k : Kind) (e : CcEvent)
      → Keeps (Frame v) (Goes uas_state_ringing) (UasRinging.rel_filter r k e)
  unfolding UasRinging.rel_filter
  rel_filter-Frame q r (ring_ev c s b) e = rel_ring-Frame q r e c b
  rel_filter-Frame q r (connect_ev c s b) e = search (rules, set_rel-Frame q) depth 20
  rel_filter-Frame q r (update_ev b) e = search (rules, set_rel-Frame q) depth 20
  rel_filter-Frame q r _ e = search rules

  pub rel_event-Frame :
      state_id v.state ≡ uas_state_ringing
      → (r : RelState) (e : CcEvent)
      → Keeps (Frame v) (Goes uas_state_ringing) (UasRinging.rel_recv_event r e)
  unfolding UasRinging.rel_recv_event
  rel_event-Frame q r e = search (rules, rel_filter-Frame q, ringing_event-Frame) depth 20
