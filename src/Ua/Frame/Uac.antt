-- ===== src/Ua/Frame/Uac.antt =====
-- The handlers of the client states keep the frame, and return states that the diagram allows.
use go_b2bua.Prelude.{String, Option, none, some, List}
use go_b2bua.Sip.{Address, Body, Response}
use go_b2bua.Event.{CcEvent, Kind, try_ev}
use go_b2bua.Ua.State.{Ua, uac_state_idle, uac_state_trying}
use go_b2bua.Ua.Exec.Keeps.{Keeps}
use go_b2bua.Ua.Steps.{ClientTr}
use go_b2bua.Ua.Uac.Idle as UacIdle
use go_b2bua.Ua.Uac.Trying as UacTrying
use go_b2bua.Ua.Uac.Trying as UacTrying
use go_b2bua.Ua.Graph.{Goes, edges}
use go_b2bua.Ua.Frame.{Frame}
use go_b2bua.Ua.Frame.Statements.{frames}

ruleset rules = (frames, edges)

module _ (v : Ua) where
  take_offer-Frame :
      (b : Option Body) (e : CcEvent)
      → Keeps (Frame v) (Goes uac_state_idle) (UacIdle.take_offer b e)
  unfolding UacIdle.take_offer
  take_offer-Frame none e = search rules depth 12
  take_offer-Frame (some b) e = search rules depth 12

  try_call-Frame :
      (e : CcEvent) (c : Option String) (cli cld caller : String) (a : Option String)
      (b : Option Body) (rs : List (Option Address))
      → Keeps (Frame v) (Goes uac_state_idle) (UacIdle.try_call e c cli cld caller a b rs)
  unfolding UacIdle.try_call
  try_call-Frame e c cli cld caller a b rs = search (rules, take_offer-Frame) depth 40

  give_up-Frame : (e : CcEvent) → Keeps (Frame v) (Goes uac_state_idle) (UacIdle.give_up e)
  unfolding UacIdle.give_up
  give_up-Frame e = search rules depth 20

  idle_dispatch-Frame :
      (k : Kind) (e : CcEvent) → Keeps (Frame v) (Goes uac_state_idle) (UacIdle.dispatch k e)
  unfolding UacIdle.dispatch
  idle_dispatch-Frame (try_ev c cli cld caller a b rs) e = try_call-Frame e c cli cld caller a b rs
  idle_dispatch-Frame _ e = search (rules, give_up-Frame)

  pub idle_event-Frame :
      (e : CcEvent) → Keeps (Frame v) (Goes uac_state_idle) (UacIdle.recv_event e)
  unfolding UacIdle.recv_event
  idle_event-Frame e = idle_dispatch-Frame e.kind e

  provisional-Frame :
      (resp : Response) → Keeps (Frame v) (Goes uac_state_trying) (UacTrying.provisional resp)
  unfolding UacTrying.provisional
  provisional-Frame resp = search rules depth 30

  tagless-Frame :
      (resp : Response) → Keeps (Frame v) (Goes uac_state_trying) (UacTrying.tagless resp)
  unfolding UacTrying.tagless
  tagless-Frame resp = search rules depth 30

  connect_event-Frame :
      (resp : Response) → Keeps (Frame v) (Goes uac_state_trying) (UacTrying.connect_event resp)
  unfolding UacTrying.connect_event
  connect_event-Frame resp = search rules depth 30

  accepted-Frame :
      (resp : Response) (tag : String)
      → Keeps (Frame v) (Goes uac_state_trying) (UacTrying.accepted resp tag)
  unfolding UacTrying.accepted
  accepted-Frame resp tag = search (rules, connect_event-Frame) depth 30

  final_event-Frame :
      (resp : Response) → Keeps (Frame v) (Goes uac_state_trying) (UacTrying.final_event resp)
  unfolding UacTrying.final_event
  final_event-Frame resp = search rules depth 30

  rejected-Frame :
      (resp : Response) → Keeps (Frame v) (Goes uac_state_trying) (UacTrying.rejected resp)
  unfolding UacTrying.rejected
  rejected-Frame resp = search (rules, final_event-Frame) depth 30

  final-Frame : (resp : Response) → Keeps (Frame v) (Goes uac_state_trying) (UacTrying.final resp)
  unfolding UacTrying.final
  final-Frame resp = search (rules, tagless-Frame, accepted-Frame, rejected-Frame) depth 30

  pub trying_response-Frame :
      (resp : Response) (tr : ClientTr)
      → Keeps (Frame v) (Goes uac_state_trying) (UacTrying.recv_response resp tr)
  unfolding UacTrying.recv_response
  trying_response-Frame resp tr = search (rules, provisional-Frame, final-Frame) depth 30

  pub trying_event-Frame :
      (e : CcEvent) → Keeps (Frame v) (Goes uac_state_trying) (UacTrying.recv_event e)
  unfolding UacTrying.recv_event
  trying_event-Frame e = search rules depth 30
