-- ===== src/Ua/Frame/Effects.antt =====
-- What a handler sends, and the fields that it sets, keep the frame.
use go_b2bua.Prelude.{ℕ, Bool, String, Option, List, arith}
use go_b2bua.Sip.{Address, Body, CSeq, Header, OutRequest, Request, Url}
use go_b2bua.Event.{CcEvent}
use go_b2bua.Ua.State.{
  Ua, Callback, accept_rseq, cancel_transaction, set_uack, send_ack, local_sdp_change,
  remote_sdp_change, reinvite_hook,
}
use go_b2bua.Ua.Routing.{emit, log, update_routing, send_uas_response, answer}
use go_b2bua.Ua.Exec.{enqueue, begin_new, begin_new_refer, begin_client}
use go_b2bua.Ua.Steps.{
  set_l_sdp, set_r_sdp, set_late_media, set_pending_tr, set_last_scode, reset_sdp_hooks,
  clear_branch, set_r_tag, run_listener,
}
use go_b2bua.Ua.Uac.Idle as UacIdle
use go_b2bua.Ua.Uas.Idle as UasIdle
use go_b2bua.Ua.Frame.{Frame}

module _ (v : Ua) where
  pub log-Frame : (s : String) (u : Ua) → Frame v u → Frame v (log s u)
  unfolding log
  log-Frame s u h = ground arith

  pub update_routing-Frame :
      (cs : List (Option Address)) (rs : List (Option Address)) (a : Bool) (b : Bool) (u : Ua)
      → Frame v u
      → Frame v (update_routing cs rs a b u)
  unfolding update_routing
  update_routing-Frame cs rs a b u h = ground arith

  pub send_uas_response-Frame :
      (d : Bool) (c : ℕ) (r : String) (b : Option Body) (cs : List (Option Address)) (w : Bool)
      (eh : List Header) (u : Ua)
      → Frame v u
      → Frame v (send_uas_response d c r b cs w eh u)
  unfolding send_uas_response
  send_uas_response-Frame d c r b cs w eh u h = ground arith

  pub answer-Frame :
      (q : Option CSeq) (c : ℕ) (r : String) (l : ℕ) (hs : List Header) (u : Ua)
      → Frame v u
      → Frame v (answer q c r l hs u)
  unfolding answer
  answer-Frame q c r l hs u h = ground arith

  pub enqueue-Frame : (e : CcEvent) (u : Ua) → Frame v u → Frame v (enqueue e u)
  unfolding enqueue
  enqueue-Frame e u h = ground arith

  pub begin_new-Frame : (q : OutRequest) (u : Ua) → Frame v u → Frame v (begin_new q u)
  unfolding begin_new
  begin_new-Frame q u h = ground arith

  pub begin_new_refer-Frame : (q : OutRequest) (u : Ua) → Frame v u → Frame v (begin_new_refer q u)
  unfolding begin_new_refer
  begin_new_refer-Frame q u h = ground arith

  pub begin_client-Frame : (q : OutRequest) (u : Ua) → Frame v u → Frame v (begin_client q u)
  unfolding begin_client
  begin_client-Frame q u h = ground arith

  pub set_l_sdp-Frame : (b : Option Body) (u : Ua) → Frame v u → Frame v (set_l_sdp b u)
  unfolding set_l_sdp
  set_l_sdp-Frame b u h = ground arith

  pub set_r_sdp-Frame : (b : Option Body) (u : Ua) → Frame v u → Frame v (set_r_sdp b u)
  unfolding set_r_sdp
  set_r_sdp-Frame b u h = ground arith

  pub set_late_media-Frame : (b : Bool) (u : Ua) → Frame v u → Frame v (set_late_media b u)
  unfolding set_late_media
  set_late_media-Frame b u h = ground arith

  pub set_pending_tr-Frame : (b : Bool) (u : Ua) → Frame v u → Frame v (set_pending_tr b u)
  unfolding set_pending_tr
  set_pending_tr-Frame b u h = ground arith

  pub set_last_scode-Frame : (n : ℕ) (u : Ua) → Frame v u → Frame v (set_last_scode n u)
  unfolding set_last_scode
  set_last_scode-Frame n u h = ground arith

  pub reset_sdp_hooks-Frame : (u : Ua) → Frame v u → Frame v (reset_sdp_hooks u)
  unfolding reset_sdp_hooks
  reset_sdp_hooks-Frame u h = ground arith

  pub clear_branch-Frame : (u : Ua) → Frame v u → Frame v (clear_branch u)
  unfolding clear_branch
  clear_branch-Frame u h = ground arith

  pub set_r_tag-Frame : (t : String) (u : Ua) → Frame v u → Frame v (set_r_tag t u)
  unfolding set_r_tag
  set_r_tag-Frame t u h = ground arith

  pub run_listener-Frame : (cb : Callback) (u : Ua) → Frame v u → Frame v (run_listener cb u)
  unfolding run_listener
  run_listener-Frame cb u h = ground arith

  pub emit-accept_rseq : (n : ℕ) (u : Ua) → Frame v u → Frame v (emit (accept_rseq n) u)
  unfolding emit
  emit-accept_rseq n u h = ground arith

  pub emit-cancel_transaction :
      (hs : List Header) (u : Ua) → Frame v u → Frame v (emit (cancel_transaction hs) u)
  unfolding emit
  emit-cancel_transaction hs u h = ground arith

  pub emit-set_uack : (u : Ua) → Frame v u → Frame v (emit set_uack u)
  unfolding emit
  emit-set_uack u h = ground arith

  pub emit-send_ack :
      (b : Option (Option Body)) (u : Ua) → Frame v u → Frame v (emit (send_ack b) u)
  unfolding emit
  emit-send_ack b u h = ground arith

  pub emit-local_sdp_change :
      (b : Body) (e : CcEvent) (u : Ua) → Frame v u → Frame v (emit (local_sdp_change b e) u)
  unfolding emit
  emit-local_sdp_change b e u h = ground arith

  pub emit-remote_sdp_change :
      (b : Body) (e : CcEvent) (u : Ua) → Frame v u → Frame v (emit (remote_sdp_change b e) u)
  unfolding emit
  emit-remote_sdp_change b e u h = ground arith

  pub emit-reinvite_hook : (e : CcEvent) (u : Ua) → Frame v u → Frame v (emit (reinvite_hook e) u)
  unfolding emit
  emit-reinvite_hook e u h = ground arith

  pub uac_open_dialog-Frame :
      (c : Option String) (cli : String) (cld : String) (caller : String)
      (rs : List (Option Address)) (u : Ua)
      → Frame v u
      → Frame v (UacIdle.open_dialog c cli cld caller rs u)
  unfolding UacIdle.open_dialog
  uac_open_dialog-Frame c cli cld caller rs u h = ground arith

  pub register-Frame : (u : Ua) → Frame v u → Frame v (UacIdle.register u)
  unfolding UacIdle.register
  register-Frame u h = ground arith

  pub call_setup_complete-Frame : (u : Ua) → Frame v u → Frame v (UacIdle.call_setup_complete u)
  unfolding UacIdle.call_setup_complete
  call_setup_complete-Frame u h = ground arith

  pub pass_authorization-Frame :
      (a : Option String) (q : OutRequest) (u : Ua)
      → Frame v u
      → Frame v (UacIdle.pass_authorization a q u)
  unfolding UacIdle.pass_authorization
  pass_authorization-Frame a q u h = ground arith

  pub answer_call-Frame : (req : Request) (u : Ua) → Frame v u → Frame v (UasIdle.answer_call req u)
  unfolding UasIdle.answer_call
  answer_call-Frame req u h = ground arith

  pub set_target-Frame : (url : Url) (u : Ua) → Frame v u → Frame v (UasIdle.set_target url u)
  unfolding UasIdle.set_target
  set_target-Frame url u h = ground arith

  pub fix_next_hop-Frame : (u : Ua) → Frame v u → Frame v (UasIdle.fix_next_hop u)
  unfolding UasIdle.fix_next_hop
  fix_next_hop-Frame u h = ground arith

  pub uas_open_dialog-Frame :
      (req : Request) (a : Address) (b : Address) (u : Ua)
      → Frame v u
      → Frame v (UasIdle.open_dialog req a b u)
  unfolding UasIdle.open_dialog
  uas_open_dialog-Frame req a b u h = ground arith

  pub set_branch-Frame : (b : String) (u : Ua) → Frame v u → Frame v (UasIdle.set_branch b u)
  unfolding UasIdle.set_branch
  set_branch-Frame b u h = ground arith

  pub set_origin-Frame : (s : String) (u : Ua) → Frame v u → Frame v (record u { origin = s })
  set_origin-Frame s u h = ground arith

  pub set_uas_resp-Frame :
      (q : Option CSeq) (u : Ua) → Frame v u → Frame v (record u { uas_resp = q })
  set_uas_resp-Frame q u h = ground arith

pub ruleset effect_frames = (
  log-Frame, update_routing-Frame, send_uas_response-Frame, answer-Frame, enqueue-Frame,
  begin_new-Frame, begin_new_refer-Frame, begin_client-Frame, set_l_sdp-Frame, set_r_sdp-Frame,
  set_late_media-Frame, set_pending_tr-Frame, set_last_scode-Frame, reset_sdp_hooks-Frame,
  clear_branch-Frame, set_r_tag-Frame, run_listener-Frame, emit-accept_rseq,
  emit-cancel_transaction, emit-set_uack, emit-send_ack, emit-local_sdp_change,
  emit-remote_sdp_change, emit-reinvite_hook, uac_open_dialog-Frame, register-Frame,
  call_setup_complete-Frame, pass_authorization-Frame, answer_call-Frame, set_target-Frame,
  fix_next_hop-Frame, uas_open_dialog-Frame, set_branch-Frame, set_origin-Frame, set_uas_resp-Frame,
)
