-- ===== src/Ua/Frame/Uas.antt =====
-- The handlers of the server states before the call rings keep the frame, and return states that
-- the diagram allows.
use go_b2bua.Prelude.{ℕ, String, Option, List, [], ◌∷◌}
use go_b2bua.Sip.{Address, Body, Request, Method, invite}
use go_b2bua.Event.{
  CcEvent, Kind, ring_ev, connect_ev, pre_connect_ev, fail_ev, redirect_ev, disconnect_ev,
}
use go_b2bua.Ua.State.{Ua, uas_state_idle, uas_state_trying}
use go_b2bua.Ua.Exec.Keeps.{Keeps}
use go_b2bua.Ua.Uas.Idle as UasIdle
use go_b2bua.Ua.Uas.Trying as UasTrying
use go_b2bua.Ua.Graph.{Goes, edges}
use go_b2bua.Ua.Frame.{Frame}
use go_b2bua.Ua.Frame.Statements.{frames}

ruleset rules = (frames, edges)

module _ (v : Ua) where
  idle_first_of-Frame :
      (cs : List (Option Address)) → Keeps (Frame v) (Goes uas_state_idle) (UasIdle.first_of cs)
  unfolding UasIdle.first_of
  idle_first_of-Frame [] = search rules depth 30
  idle_first_of-Frame (c ∷ cs) = search rules depth 30

  idle_recv_invite-Frame :
      (req : Request) → Keeps (Frame v) (Goes uas_state_idle) (UasIdle.recv_invite req)
  unfolding UasIdle.recv_invite
  idle_recv_invite-Frame req = search (rules, idle_first_of-Frame) depth 60

  idle_dispatch-Frame :
      (m : Method) (req : Request) → Keeps (Frame v) (Goes uas_state_idle) (UasIdle.dispatch m req)
  unfolding UasIdle.dispatch
  idle_dispatch-Frame invite req = idle_recv_invite-Frame req
  idle_dispatch-Frame _ req = search rules

  pub idle_request-Frame :
      (req : Request) → Keeps (Frame v) (Goes uas_state_idle) (UasIdle.recv_request req)
  unfolding UasIdle.recv_request
  idle_request-Frame req = idle_dispatch-Frame req.method req

  trying_on_ring-Frame :
      (e : CcEvent) (c : ℕ) (r : String) (b : Option Body)
      → Keeps (Frame v) (Goes uas_state_trying) (UasTrying.on_ring e c r b)
  unfolding UasTrying.on_ring
  trying_on_ring-Frame e c r b = search rules depth 30

  trying_on_connect-Frame :
      (e : CcEvent) (c : ℕ) (r : String) (b : Option Body)
      → Keeps (Frame v) (Goes uas_state_trying) (UasTrying.on_connect e c r b)
  unfolding UasTrying.on_connect
  trying_on_connect-Frame e c r b = search rules depth 30

  trying_on_pre_connect-Frame :
      (e : CcEvent) (c : ℕ) (r : String) (b : Option Body)
      → Keeps (Frame v) (Goes uas_state_trying) (UasTrying.on_pre_connect e c r b)
  unfolding UasTrying.on_pre_connect
  trying_on_pre_connect-Frame e c r b = search rules depth 30

  trying_on_redirect-Frame :
      (e : CcEvent) (c : ℕ) (r : String) (b : Option Body) (as' : List Address)
      → Keeps (Frame v) (Goes uas_state_trying) (UasTrying.on_redirect e c r b as')
  unfolding UasTrying.on_redirect
  trying_on_redirect-Frame e c r b as' = search rules depth 30

  trying_on_fail-Frame :
      (e : CcEvent) (c : ℕ) (r : String)
      → Keeps (Frame v) (Goes uas_state_trying) (UasTrying.on_fail e c r)
  unfolding UasTrying.on_fail
  trying_on_fail-Frame e c r = search rules depth 30

  trying_on_disconnect-Frame :
      (e : CcEvent) → Keeps (Frame v) (Goes uas_state_trying) (UasTrying.on_disconnect e)
  unfolding UasTrying.on_disconnect
  trying_on_disconnect-Frame e = search rules depth 30

  trying_dispatch-Frame :
      (k : Kind) (e : CcEvent) → Keeps (Frame v) (Goes uas_state_trying) (UasTrying.dispatch k e)
  unfolding UasTrying.dispatch
  trying_dispatch-Frame (ring_ev c r b) e = trying_on_ring-Frame e c r b
  trying_dispatch-Frame (pre_connect_ev c r b) e = trying_on_pre_connect-Frame e c r b
  trying_dispatch-Frame (connect_ev c r b) e = trying_on_connect-Frame e c r b
  trying_dispatch-Frame (redirect_ev c r b as') e = trying_on_redirect-Frame e c r b as'
  trying_dispatch-Frame (fail_ev c r hs w) e = trying_on_fail-Frame e c r
  trying_dispatch-Frame (disconnect_ev also) e = trying_on_disconnect-Frame e
  trying_dispatch-Frame _ e = search rules depth 12

  pub trying_event-Frame :
      (e : CcEvent) → Keeps (Frame v) (Goes uas_state_trying) (UasTrying.recv_event e)
  unfolding UasTrying.recv_event
  trying_event-Frame e = trying_dispatch-Frame e.kind e
