-- ===== src/Ua/Reach/Calls.antt =====
-- `RecvACK`, `RecvPRACK` and the cancel callbacks (sippy/ua.go and the states' own files).
use go_b2bua.Prelude.{ℕ, Bool, true, false, Option, none, some, [], ◌≡◌, refl, sym, ◌∙◌, ◌+◌, arith}
use mathlib.Core.Path.{subst}
use go_b2bua.Sip.{Body, Request, bye, OutRequest}
use go_b2bua.Event.{CcEvent}
use go_b2bua.Ua.State.{
  UaState, uas_trying, uas_ringing, uas_updating, uas_ringing_rel, uas_pre_connect, disconnected,
  ua_state_disconnected, uas_state_pre_connect, uas_state_ringing, ua_state_connected, RelState,
  state_id, Ua, Callback, conn_cb, disc_cb,
}
use go_b2bua.Ua.Routing.{gen_request}
use go_b2bua.Ua.Steps.{clear_branch}
use go_b2bua.Ua.Uas.Ringing as UasRinging
use go_b2bua.Ua.Graph.{Goes, GoesTo, ◌⟶◌, confirm}
use go_b2bua.Ua.Frame.{Frame}
use go_b2bua.Ua.Frame.Timers.{
  cancel_expire_timer-Frame, cancel_credit_timer-Frame, start_credit_timer-Frame,
  set_connect_ts-Frame, set_disconnect_ts-Frame,
}
use go_b2bua.Ua.Frame.Effects.{
  set_r_sdp-Frame, emit-remote_sdp_change, run_listener-Frame, clear_branch-Frame,
  reset_sdp_hooks-Frame, begin_new-Frame, log-Frame,
}
use go_b2bua.Ua.Frame.UasRinging as UasRingingFrame
use go_b2bua.Ua.Core.State.{change_state, returned}
use go_b2bua.Ua.Core.Messages.{
  take_ack_body, ack_event, to_connected, confirm_call, resume, pre_connect_ack, ack_in, recv_ack,
  reset_pending, first_pending, replay, store_prack_body, rel_prack, prack_in, recv_prack,
  cancel_early, cancel_with, cancel_update, recv_cancel, is_connected,
}
use go_b2bua.Ua.Reach.{
  Sound, Reaches, Reaches_refl, Reaches_trans, Reaches-if, Frame_refl, Frame-Reaches,
}
use go_b2bua.Ua.Reach.Emission.{
  change_state-Reaches, enter_lem, no_exit, emit_event-Reaches, emit_pending_events-Reaches,
}
use go_b2bua.Ua.Reach.Events.{recv_event-Reaches}
use go_b2bua.Ua.Reach.Messages.{gen_request-Frame}

-- a fresh event takes a number
count-Frame : (v : Ua) (n : ℕ) (u : Ua) → Frame v u → Frame v (record u { next_seq = n })
count-Frame v n u f = record {
  id_same = f.id_same;
  elast_same = f.elast_same;
  sent_same = f.sent_same;
  tm_same = f.tm_same;
  controller_same = f.controller_same;
  ordered = f.ordered;
}

take_ack_body-Frame :
    (v : Ua) (b : Option Body) (e : CcEvent) (u : Ua) → Frame v u → Frame v (take_ack_body b e u).1
take_ack_body-Frame v none e u k = set_r_sdp-Frame v none u k
take_ack_body-Frame v (some b) e u k =
    let x = emit-remote_sdp_change v b e u k in
    let y = set_r_sdp-Frame v (some b) u k in ground (arith, x, y)

to_connected-Reaches :
    (cb : Option Callback) (v u : Ua)
    → Sound v
    → Frame v u
    → state_id v.state ≡ uas_state_pre_connect
    → Reaches v (to_connected cb u)
to_connected-Reaches cb v u h k q =
    let r = Frame-Reaches v (clear_branch u) h (clear_branch-Frame v u k) in
    Reaches_trans v _ _ r (
      change_state-Reaches _ cb (clear_branch u) r.sound (
        subst (λ t. t ⟶ ua_state_connected) (sym ((clear_branch-Frame v u k).id_same ∙ q)) confirm))

confirm_call-Reaches :
    (t : ℕ) (b : Option Body) (v : Ua)
    → Sound v
    → state_id v.state ≡ uas_state_pre_connect
    → Reaches v (confirm_call t b v)
unfolding confirm_call
confirm_call-Reaches t b v h q =
    let f = count-Frame v (v.next_seq + 1) v (Frame_refl v h) in
    let g = set_connect_ts-Frame v t _ (
      start_credit_timer-Frame v t _
        (cancel_credit_timer-Frame v _ (cancel_expire_timer-Frame v _ f))) in
    let k =
      take_ack_body-Frame v b (ack_event v t b) _ (run_listener-Frame v (conn_cb t v.origin) _ g) in
    let r = to_connected-Reaches (some (conn_cb t v.origin)) v _ h k q in
    Reaches-if v _ _ _ (λ w. Reaches_trans v _ _ r (emit_event-Reaches (ack_event v t b) _ r.sound))
      (λ w. r)

resume-Reaches : (o : Option CcEvent) (v : Ua) → Sound v → Reaches v (resume o v)
resume-Reaches none v h = Reaches_refl v h
resume-Reaches (some e) v h = recv_event-Reaches e v h

pre_connect_ack-Reaches :
    (c : Bool) (o : Option CcEvent) (req : Request) (v : Ua)
    → Sound v
    → state_id v.state ≡ uas_state_pre_connect
    → Reaches v (pre_connect_ack c o req v)
unfolding pre_connect_ack
pre_connect_ack-Reaches true o req v h q =
    let r = confirm_call-Reaches req.rtime req.body v h q in
    Reaches_trans v _ _ r (resume-Reaches o _ r.sound)
pre_connect_ack-Reaches false o req v h q =
    let r = to_connected-Reaches none v v h (Frame_refl v h) q in
    Reaches_trans v _ _ r (resume-Reaches o _ r.sound)

ack_in-Reaches :
    (o : Option UaState) (req : Request) (v : Ua)
    → Sound v
    → state_id v.state ≡ state_id o
    → Reaches v (ack_in o req v)
ack_in-Reaches (some (uas_pre_connect c p)) req v h q = pre_connect_ack-Reaches c p req v h q
ack_in-Reaches _ req v h q = Reaches_refl v h

pub recv_ack-Reaches : (req : Request) (v : Ua) → Sound v → Reaches v (recv_ack req v)
unfolding recv_ack
recv_ack-Reaches req v h =
    let r = ack_in-Reaches v.state req v h refl in
    Reaches-if v _ _ (is_connected v.state)
      (λ q. Reaches_trans v _ _ r (emit_pending_events-Reaches _ r.sound)) (λ q. Reaches_refl v h)

-- a write to the fields of the reliable ringing state
set_rel-Reaches :
    (r : RelState) (v : Ua)
    → Sound v
    → state_id v.state ≡ uas_state_ringing
    → Reaches v (record v { state = some (uas_ringing_rel r) })
set_rel-Reaches r v h q = Frame-Reaches v _ h (record {
  id_same = sym q;
  elast_same = refl;
  sent_same = refl;
  tm_same = refl;
  controller_same = refl;
  ordered = h.ordered;
})

enter_rel_lem :
    (n : Option UaState) (cb : Option Callback) (v u : Ua)
    → Sound v
    → Frame v u
    → GoesTo (state_id v.state) n
    → Reaches v (elim n [ none ↦ u | some s ↦ change_state s cb u ])
enter_rel_lem none cb v u h k g = Frame-Reaches v u h k
enter_rel_lem (some s) cb v u h k g = enter_lem (some s) cb v u h k g

replay-Reaches :
    (r : RelState) (o : Option CcEvent) (v : Ua)
    → Sound v
    → state_id v.state ≡ uas_state_ringing
    → Reaches v (replay r o v)
replay-Reaches r none v h q = Reaches_refl v h
replay-Reaches r (some e) v h q =
    let m = UasRinging.rel_recv_event r e in
    let p = (UasRingingFrame.rel_event-Frame v q r e).at v (Frame_refl v h) in
    enter_rel_lem (returned (m v).0).newstate (returned (m v).0).cb v (m v).1 h p.0
      (subst (λ t. Goes t (returned (m v).0)) (sym q) (no_exit (m v).0 uas_state_ringing p.1))

reset_pending-Reaches :
    (o : Option UaState) (v : Ua)
    → Sound v
    → state_id v.state ≡ state_id o
    → Reaches v (reset_pending o v)
reset_pending-Reaches (some (uas_ringing_rel r)) v h q = set_rel-Reaches _ v h q
reset_pending-Reaches _ v h q = Reaches_refl v h

store-Reaches : (b : Option Body) (v : Ua) → Sound v → Reaches v (store_prack_body b v)
store-Reaches none v h = Reaches_refl v h
store-Reaches (some b) v h = Frame-Reaches v _ h (set_r_sdp-Frame v (some b) v (Frame_refl v h))

rel_prack-Reaches :
    (r : RelState) (req : Request) (v : Ua)
    → Sound v
    → state_id v.state ≡ uas_state_ringing
    → Reaches v (rel_prack r req v)
unfolding rel_prack
rel_prack-Reaches r req v h q =
    let acked = record r { prack_received = true } in
    let a = set_rel-Reaches acked v h q in
    let b = replay-Reaches acked (first_pending r) _ a.sound refl in
    let c = resume-Reaches r.pending_ev_update _ b.sound in
    let d = reset_pending-Reaches _ _ c.sound refl in
    let e = store-Reaches req.body _ d.sound in
    Reaches_trans v _ _ a (Reaches_trans _ _ _ b (Reaches_trans _ _ _ c (Reaches_trans _ _ _ d e)))

prack_in-Reaches :
    (o : Option UaState) (req : Request) (v : Ua)
    → Sound v
    → state_id v.state ≡ state_id o
    → Reaches v (prack_in o req v)
prack_in-Reaches (some (uas_ringing_rel r)) req v h q = rel_prack-Reaches r req v h q
prack_in-Reaches _ req v h q = Reaches_refl v h

pub recv_prack-Reaches : (req : Request) (v : Ua) → Sound v → Reaches v (recv_prack req v)
unfolding recv_prack
recv_prack-Reaches req v h = prack_in-Reaches v.state req v h refl

-- the way to the disconnected state, then an event
module _ (v : Ua) (h : Sound v) (g : state_id v.state ⟶ ua_state_disconnected) where
  dropped : (cb : Option Callback) (u : Ua) → Frame v u → Reaches v (change_state disconnected cb u)
  dropped cb u k = enter_lem (some disconnected) cb v u h k g

  cancel_early-Reaches : (t : ℕ) (req : Option Request) → Reaches v (cancel_early t req v)
  unfolding cancel_early
  cancel_early-Reaches t req =
      let f = set_disconnect_ts-Frame v t _ (count-Frame v (v.next_seq + 1) v (Frame_refl v h)) in
      let r = dropped (some (disc_cb t v.origin 0 req)) _ (reset_sdp_hooks-Frame v _ f) in
      Reaches_trans v _ _ r (emit_event-Reaches _ _ r.sound)

  cancel_with-Reaches :
      (t : ℕ) (req : Option Request) (o : Option OutRequest) (u : Ua)
      → Frame v u
      → Reaches v (cancel_with t req (o, u))
  cancel_with-Reaches t req none u k = Frame-Reaches v _ h (log-Frame v _ u k)
  cancel_with-Reaches t req (some q) u k =
      let f =
        set_disconnect_ts-Frame v t _ (cancel_credit_timer-Frame v _ (begin_new-Frame v q u k)) in
      let r = dropped (some (disc_cb t u.origin 0 req)) _ (reset_sdp_hooks-Frame v _ f) in
      let c = Frame-Reaches _ _ r.sound (count-Frame _ _ _ (Frame_refl _ r.sound)) in
      Reaches_trans v _ _ r (Reaches_trans _ _ _ c (emit_event-Reaches _ _ c.sound))

  cancel_update-Reaches : (t : ℕ) (req : Option Request) → Reaches v (cancel_update t req v)
  unfolding cancel_update
  cancel_update-Reaches t req =
      cancel_with-Reaches t req (gen_request bye none none [] v).0
        (gen_request bye none none [] v).1 (gen_request-Frame v bye none none [] v (Frame_refl v h))

  pub recv_cancel-Reaches :
      (s : Option UaState) (t : ℕ) (req : Option Request) → Reaches v (recv_cancel s t req v)
  unfolding recv_cancel
  recv_cancel-Reaches (some uas_trying) t req = cancel_early-Reaches t req
  recv_cancel-Reaches (some uas_ringing) t req = cancel_early-Reaches t req
  recv_cancel-Reaches (some (uas_ringing_rel r)) t req = cancel_early-Reaches t req
  recv_cancel-Reaches (some uas_updating) t req = cancel_update-Reaches t req
  recv_cancel-Reaches _ t req = Reaches_refl v h
