-- ===== src/Ua/Frame/UacDialog.antt =====
-- The same for the client states after the first response (see Uac).
use go_b2bua.Prelude.{◌≡◌, sym, Bool, true, false, String, Option, none, some}
use go_b2bua.Sip.{Address, Response}
use go_b2bua.Event.{CcEvent}
use go_b2bua.Ua.State.{state_id, Ua}
use go_b2bua.Ua.Exec.Keeps.{Keeps}
use go_b2bua.Ua.Steps.{ClientTr}
use go_b2bua.Ua.Uac.Ringing as UacRinging
use go_b2bua.Ua.Uac.Cancelling as UacCancelling
use go_b2bua.Ua.Uac.Updating as UacUpdating
use go_b2bua.Sip.{Request, Method, bye}
use go_b2bua.Ua.State.{uac_state_ringing, uac_state_updating, uac_state_cancelling}
use go_b2bua.Ua.Routing.{emit}
use go_b2bua.Ua.Graph.{Goes, edges}
use go_b2bua.Ua.Frame.{Frame}
use go_b2bua.Ua.Frame.Statements.{frames}

ruleset rules = (frames, edges)

module _ (v : Ua) where
  ringing_provisional-Frame :
      (resp : Response) (tr : ClientTr)
      → Keeps (Frame v) (Goes uac_state_ringing) (UacRinging.provisional resp tr)
  unfolding UacRinging.provisional
  ringing_provisional-Frame resp tr = search rules depth 30

  ringing_tagless-Frame :
      (resp : Response) → Keeps (Frame v) (Goes uac_state_ringing) (UacRinging.tagless resp)
  unfolding UacRinging.tagless
  ringing_tagless-Frame resp = search rules depth 30

  ringing_connect_event-Frame :
      (resp : Response) → Keeps (Frame v) (Goes uac_state_ringing) (UacRinging.connect_event resp)
  unfolding UacRinging.connect_event
  ringing_connect_event-Frame resp = search rules depth 30

  ringing_accepted-Frame :
      (resp : Response) (tag : String)
      → Keeps (Frame v) (Goes uac_state_ringing) (UacRinging.accepted resp tag)
  unfolding UacRinging.accepted
  ringing_accepted-Frame resp tag = search (rules, ringing_connect_event-Frame) depth 30

  ringing_final_event-Frame :
      (resp : Response) → Keeps (Frame v) (Goes uac_state_ringing) (UacRinging.final_event resp)
  unfolding UacRinging.final_event
  ringing_final_event-Frame resp = search rules depth 30

  ringing_rejected-Frame :
      (resp : Response) → Keeps (Frame v) (Goes uac_state_ringing) (UacRinging.rejected resp)
  unfolding UacRinging.rejected
  ringing_rejected-Frame resp = search (rules, ringing_final_event-Frame) depth 30

  ringing_final-Frame :
      (resp : Response) → Keeps (Frame v) (Goes uac_state_ringing) (UacRinging.final resp)
  unfolding UacRinging.final
  ringing_final-Frame resp =
      search (rules, ringing_tagless-Frame, ringing_accepted-Frame, ringing_rejected-Frame) depth 30

  pub ringing_response-Frame :
      (resp : Response) (tr : ClientTr)
      → Keeps (Frame v) (Goes uac_state_ringing) (UacRinging.recv_response resp tr)
  unfolding UacRinging.recv_response
  ringing_response-Frame resp tr =
      search (rules, ringing_provisional-Frame, ringing_final-Frame) depth 30

  pub ringing_event-Frame :
      (e : CcEvent) → Keeps (Frame v) (Goes uac_state_ringing) (UacRinging.recv_event e)
  unfolding UacRinging.recv_event
  ringing_event-Frame e = search rules depth 30

  updating_recv_bye-Frame :
      (req : Request) → Keeps (Frame v) (Goes uac_state_updating) (UacUpdating.recv_bye req)
  unfolding UacUpdating.recv_bye
  updating_recv_bye-Frame req = search rules depth 30

  updating_dispatch-Frame :
      (k : Method) (req : Request)
      → Keeps (Frame v) (Goes uac_state_updating) (UacUpdating.dispatch k req)
  unfolding UacUpdating.dispatch
  updating_dispatch-Frame bye req = updating_recv_bye-Frame req
  updating_dispatch-Frame _ req = search rules depth 30

  pub updating_request-Frame :
      (req : Request) → Keeps (Frame v) (Goes uac_state_updating) (UacUpdating.recv_request req)
  unfolding UacUpdating.recv_request
  updating_request-Frame req = updating_dispatch-Frame req.method req

  updating_update_failed-Frame :
      (e : CcEvent) → Keeps (Frame v) (Goes uac_state_updating) (UacUpdating.update_failed e)
  unfolding UacUpdating.update_failed
  updating_update_failed-Frame e = search rules depth 30

  updating_connect_event-Frame :
      (resp : Response) → Keeps (Frame v) (Goes uac_state_updating) (UacUpdating.connect_event resp)
  unfolding UacUpdating.connect_event
  updating_connect_event-Frame resp = search rules depth 30

  updating_hooked-Frame :
      (e : CcEvent) (err : Option String)
      → Keeps (Frame v) (Goes uac_state_updating) (UacUpdating.hooked e err)
  unfolding UacUpdating.hooked
  updating_hooked-Frame e none = search rules depth 30
  updating_hooked-Frame e (some err) = search (rules, updating_update_failed-Frame) depth 30

  updating_accepted-Frame :
      (resp : Response) → Keeps (Frame v) (Goes uac_state_updating) (UacUpdating.accepted resp)
  unfolding UacUpdating.accepted
  updating_accepted-Frame resp =
      search (rules, updating_connect_event-Frame, updating_hooked-Frame) depth 30

  updating_final_event-Frame :
      (resp : Response) → Keeps (Frame v) (Goes uac_state_updating) (UacUpdating.final_event resp)
  unfolding UacUpdating.final_event
  updating_final_event-Frame resp = search rules depth 30

  updating_rejected-Frame :
      (resp : Response) → Keeps (Frame v) (Goes uac_state_updating) (UacUpdating.rejected resp)
  unfolding UacUpdating.rejected
  updating_rejected-Frame resp =
      search (rules, updating_update_failed-Frame, updating_final_event-Frame) depth 30

  pub updating_response-Frame :
      (resp : Response) (tr : ClientTr)
      → Keeps (Frame v) (Goes uac_state_updating) (UacUpdating.recv_response resp tr)
  unfolding UacUpdating.recv_response
  updating_response-Frame resp tr =
      search (rules, updating_accepted-Frame, updating_rejected-Frame) depth 30

  pub updating_event-Frame :
      (e : CcEvent) → Keeps (Frame v) (Goes uac_state_updating) (UacUpdating.recv_event e)
  unfolding UacUpdating.recv_event
  updating_event-Frame e = search rules depth 30

  tag_or_fault-Frame :
      (a : Option Address)
      → Keeps (Frame v) (Goes uac_state_cancelling) (UacCancelling.tag_or_fault a)
  unfolding UacCancelling.tag_or_fault
  tag_or_fault-Frame none = search rules
  tag_or_fault-Frame (some a) = search rules

  stop_te-Frame :
      state_id v.state ≡ uac_state_cancelling
      → (te : Bool) (u : Ua) → Frame v u
      → Frame v (UacCancelling.stop_te te u)
  unfolding UacCancelling.stop_te emit
  stop_te-Frame e true u h = record {
    id_same = sym e;
    elast_same = h.elast_same;
    sent_same = h.sent_same;
    tm_same = h.tm_same;
    controller_same = h.controller_same;
    ordered = h.ordered;
  }
  stop_te-Frame e false u h = h

  pub cancelling_response-Frame :
      state_id v.state ≡ uac_state_cancelling
      → (te : Bool) (resp : Response) (tr : ClientTr)
      → Keeps (Frame v) (Goes uac_state_cancelling) (UacCancelling.recv_response te resp tr)
  unfolding UacCancelling.recv_response
  cancelling_response-Frame e te resp tr =
      search (rules, tag_or_fault-Frame, stop_te-Frame e) depth 30
