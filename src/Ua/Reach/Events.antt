-- ===== src/Ua/Reach/Events.antt =====
-- `RecvEvent`, `Disconnect`, the timers and the delayed SDP updates (sippy/ua.go).
use go_b2bua.Prelude.{ℕ, String, Option, none, some, ◌≡◌, refl, sym, ◌+◌}
use mathlib.Core.Path.{subst}
use go_b2bua.Sip.{Body}
use go_b2bua.Event.{CcEvent, disconnect_ev, new_event}
use go_b2bua.Ua.State.{
  UaState, UaStateId, uac_idle, uac_trying, uac_ringing, uac_updating, uas_trying, uas_ringing,
  uas_updating, uas_ringing_rel, uas_pre_connect, connected, dead, ua_state_dead, state_id, id_of,
  Timers, Ua,
}
use go_b2bua.Ua.Exec.{Exec, enqueue, stay, no_change}
use go_b2bua.Ua.Exec.Keeps.{Keeps, Keeps-ret}
use go_b2bua.Ua.Graph.{Goes, ◌⟶◌, open_uac}
use go_b2bua.Ua.Frame.{Frame}
use go_b2bua.Ua.Frame.Effects.{log-Frame, enqueue-Frame, set_r_sdp-Frame}
use go_b2bua.Ua.Frame.Uac.{idle_event-Frame, trying_event-Frame}
use go_b2bua.Ua.Frame.UacDialog as UacDialog
use go_b2bua.Ua.Frame.Uas as Uas
use go_b2bua.Ua.Frame.UasRinging as UasRinging
use go_b2bua.Ua.Frame.Dialog as Dialog
use go_b2bua.Ua.Frame.Connected.{connected_event-Frame}
use go_b2bua.Ua.Core.State.{change_state, emit_pending_events, returned}
use go_b2bua.Ua.Core.Events.{
  state_event, finish_event, recv_event, opens, event_in, disconnect, expires, no_progress_expires,
  no_reply_expires, credit_expires, go_dead, delayed_remote_sdp_update, delayed_local_sdp_update,
}
use go_b2bua.Ua.Reach.{
  Sound, Reaches, Reaches_refl, Reaches_trans, Reaches-if, Frame_refl, Frame-Reaches,
}
use go_b2bua.Ua.Reach.Emission.{
  change_state-id, change_state-Reaches, settle-Reaches, emit_pending_events-Reaches,
}

pub stay-Frame : (v : Ua) (s : UaStateId) → Keeps {A = Unit {0}} (Frame v) (Goes s) stay
stay-Frame v s = Keeps-ret no_change tt

state_event-Frame :
    (s : UaState) (e : CcEvent) (v : Ua)
    → state_id v.state ≡ id_of s
    → Keeps (Frame v) (Goes (id_of s)) (state_event s e)
unfolding state_event
state_event-Frame uac_idle e v q = idle_event-Frame v e
state_event-Frame uac_trying e v q = trying_event-Frame v e
state_event-Frame uac_ringing e v q = UacDialog.ringing_event-Frame v e
state_event-Frame uac_updating e v q = UacDialog.updating_event-Frame v e
state_event-Frame uas_trying e v q = Uas.trying_event-Frame v e
state_event-Frame uas_ringing e v q = UasRinging.ringing_event-Frame v e
state_event-Frame (uas_ringing_rel r) e v q = UasRinging.rel_event-Frame v q r e
state_event-Frame (uas_pre_connect c p) e v q = Dialog.pre_connect_event-Frame v q c e
state_event-Frame uas_updating e v q = Dialog.updating_event-Frame v e
state_event-Frame (connected ka) e v q = connected_event-Frame v e
state_event-Frame _ e v q = stay-Frame v _

finish_event-Reaches :
    (m : Exec (Unit {0})) (v : Ua)
    → Sound v
    → Keeps (Frame v) (Goes (state_id v.state)) m
    → Reaches v (finish_event (m v))
finish_event-Reaches m v h k =
    Reaches-if v _ _ (returned (m v).0).failed
      (λ q. Frame-Reaches v _ h (log-Frame v _ _ (k.at v (Frame_refl v h)).0))
      (λ q. settle-Reaches m v h k)

in_state :
    (s : UaState) (e : CcEvent) (v : Ua)
    → Sound v
    → state_id v.state ≡ id_of s
    → Reaches v (finish_event (state_event s e v))
in_state s e v h q =
    finish_event-Reaches (state_event s e) v h
      (subst (λ t. Keeps (Frame v) (Goes t) (state_event s e)) (sym q) (state_event-Frame s e v q))

event_in-Reaches :
    (o : Option UaState) (e : CcEvent) (v : Ua)
    → Sound v
    → state_id v.state ≡ state_id o
    → Reaches v (event_in o e v)
event_in-Reaches (some s) e v h q = in_state s e v h q
event_in-Reaches none e v h q =
    let r =
      change_state-Reaches uac_idle none v h (subst (λ t. t ⟶ id_of uac_idle) (sym q) open_uac) in
    Reaches-if v _ _ (opens e.kind)
      (λ w. Reaches_trans v _ _ r (
        in_state uac_idle e (change_state uac_idle none v) r.sound
          (change_state-id uac_idle none v)))
      (λ w. Reaches_refl v h)

pub recv_event-Reaches : (e : CcEvent) (v : Ua) → Sound v → Reaches v (recv_event e v)
unfolding recv_event
recv_event-Reaches e v h = event_in-Reaches v.state e v h refl

-- a step that keeps the frame, and then the event
pub then_event : (v u : Ua) (e : CcEvent) → Sound v → Frame v u → Reaches v (recv_event e u)
then_event v u e h k =
    let r = Frame-Reaches v u h k in Reaches_trans v u _ r (recv_event-Reaches e u r.sound)

disconnect_frame :
    (t : ℕ) (o : String) (v : Ua)
    → Sound v
    → Frame v (
        enqueue
          (new_event v.next_seq t o (disconnect_ev none))
          (record v { next_seq = v.next_seq + 2 }))
unfolding enqueue
disconnect_frame t o v h = record {
  id_same = refl;
  elast_same = refl;
  sent_same = refl;
  tm_same = refl;
  controller_same = refl;
  ordered = h.ordered;
}

pub disconnect-Reaches :
    (t : Option ℕ) (o : String) (v : Ua) → Sound v → Reaches v (disconnect t o v)
unfolding disconnect
disconnect-Reaches t o v h =
    Reaches-if v _ _ v.has_tm (λ q. then_event v _ _ h (disconnect_frame _ o v h))
      (λ q. Reaches_refl v h)

-- a timer that expires is forgotten first
module _ (v : Ua) (h : Sound v) where
  timers_frame : (ts : Timers) → Reaches v (record v { timers = ts })
  timers_frame ts = Frame-Reaches v _ h (record {
    id_same = refl;
    elast_same = refl;
    sent_same = refl;
    tm_same = refl;
    controller_same = refl;
    ordered = h.ordered;
  })

  expired : (ts : Timers) (t : Option ℕ) → Reaches v (disconnect t "" (record v { timers = ts }))
  expired ts t =
      let r = timers_frame ts in Reaches_trans v _ _ r (disconnect-Reaches t "" _ r.sound)

  pub expires-Reaches : Reaches v (expires v)
  unfolding expires
  expires-Reaches = expired _ none

  pub no_progress_expires-Reaches : Reaches v (no_progress_expires v)
  unfolding no_progress_expires
  no_progress_expires-Reaches = expired _ none

  pub no_reply_expires-Reaches : Reaches v (no_reply_expires v)
  unfolding no_reply_expires
  no_reply_expires-Reaches = expired _ none

  pub credit_expires-Reaches : (t : ℕ) → Reaches v (credit_expires t v)
  unfolding credit_expires
  credit_expires-Reaches t = expired _ (some t)

  pub go_dead-Reaches : state_id v.state ⟶ ua_state_dead → Reaches v (go_dead v)
  unfolding go_dead
  go_dead-Reaches e = change_state-Reaches dead none v h e

  emit_after : (u : Ua) → Frame v u → Reaches v (emit_pending_events u)
  emit_after u k =
      let r = Frame-Reaches v u h k in Reaches_trans v u _ r (emit_pending_events-Reaches u r.sound)

  -- the error of a hook: the event goes up, then to the state
  failed_update : (ex : CcEvent) → Reaches v (recv_event ex (emit_pending_events (enqueue ex v)))
  failed_update ex =
      let r = emit_after (enqueue ex v) (enqueue-Frame v ex v (Frame_refl v h)) in
      Reaches_trans v _ _ r (recv_event-Reaches ex _ r.sound)

  pub delayed_remote-Reaches :
      (e : CcEvent) (b : Option Body) (ex : Option CcEvent)
      → Reaches v (delayed_remote_sdp_update e b ex v)
  unfolding delayed_remote_sdp_update
  delayed_remote-Reaches e b none =
      emit_after _ (enqueue-Frame v e _ (set_r_sdp-Frame v b v (Frame_refl v h)))
  delayed_remote-Reaches e b (some ex) = failed_update ex

  pub delayed_local-Reaches :
      (e : CcEvent) (ex : Option CcEvent) → Reaches v (delayed_local_sdp_update e ex v)
  unfolding delayed_local_sdp_update
  delayed_local-Reaches e none = recv_event-Reaches e v h
  delayed_local-Reaches e (some ex) = failed_update ex
