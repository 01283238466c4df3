-- ===== src/Ua/Reach/Emission.antt =====
-- `ChangeState` and the emission of events (sippy/ua.go).
use mathlib.Core.Path.{subst}
use go_b2bua.Prelude.{
  ap, ◌∙◌, Option, none, some, List, [], ◌∷◌, ◌≡◌, Bool, true, false, refl, arith, not, ◌&&◌, sym,
}
use go_b2bua.Event.{CcEvent}
use go_b2bua.Ua.State.{UaState, UaStateId, ua_state_dead, state_id, id_of, Ua, Callback, controller}
use go_b2bua.Ua.Graph.{◌⟶◌, here, step}
use go_b2bua.Ua.Exec.Keeps.{Keeps, Exits}
use go_b2bua.Ua.Graph.{Goes, GoesTo}
use go_b2bua.Ua.Exec.{Outcome, Exec, next, exit}
use go_b2bua.Ua.Frame.{Frame, delivered}
use go_b2bua.Ua.Core.State.{
  change_state, emit_event, emit_all, emit_pending_events, returned, settle, is_stale, enter,
}
use go_b2bua.Ua.Reach.{
  Reaches-if, Reaches_refl, Frame_refl, Frame-Reaches, Frame-Sound, Reaches_trans, Increasing,
  last_seq, Sound, Reaches,
}

push_sent :
    (e : CcEvent) (es : List CcEvent)
    → Increasing es
    → is_stale (last_seq es) e.seq ≡ false
    → Increasing (e ∷ es)
push_sent e [] i q = tt
push_sent e (d ∷ es) i q = ground arith

module _ (s : UaState) (cb : Option Callback) (u : Ua) where
  pub change_state-id : state_id (change_state s cb u).state ≡ id_of s
  unfolding change_state
  change_state-id = ground arith

  change_state-sent : delivered (change_state s cb u).out ≡ delivered u.out
  unfolding change_state
  change_state-sent = ground arith

  change_state-elast : (change_state s cb u).elast_seq ≡ u.elast_seq
  unfolding change_state
  change_state-elast = ground arith

  change_state-stamps : (change_state s cb u).stamps ≡ u.stamps
  unfolding change_state
  change_state-stamps = ground arith

  change_state-alive :
      (u.has_tm ≡ false → u.has_controller ≡ false)
      → (change_state s cb u).has_tm ≡ false
      → (change_state s cb u).has_controller ≡ false
  unfolding change_state
  change_state-alive h e = ground arith

  change_state-dead : id_of s ≡ ua_state_dead → (change_state s cb u).has_tm ≡ false
  unfolding change_state
  change_state-dead e = ground arith

  change_state-quiet : u.has_controller ≡ false → (change_state s cb u).has_controller ≡ false
  unfolding change_state
  change_state-quiet e = ground arith

  pub change_state-Reaches : Sound u → state_id u.state ⟶ id_of s → Reaches u (change_state s cb u)
  change_state-Reaches h e = record {
    path = rw change_state-id (step here e);
    sound = record {
      last = change_state-elast ∙ h.last ∙ ap last_seq (sym change_state-sent);
      increasing = rw change_state-sent h.increasing;
      ordered = rw change_state-stamps h.ordered;
      tm_gone = change_state-alive h.tm_gone;
      dead_gone = λ d. change_state-dead (sym change_state-id ∙ d);
    };
    quiet = λ q. (change_state-quiet q, change_state-sent);
  }

deliver_lem :
    (e : CcEvent) (u : Ua)
    → Sound u
    → u.has_controller ≡ true
    → is_stale u.elast_seq e.seq ≡ false
    → Reaches u (record u { elast_seq = some e.seq; out = controller e ∷ u.out })
deliver_lem e u h c q = record {
  path = here;
  sound = record {
    last = refl;
    increasing =
        push_sent e (delivered u.out) h.increasing (subst (λ l. is_stale l e.seq ≡ false) h.last q);
    ordered = h.ordered;
    tm_gone = h.tm_gone;
    dead_gone = h.dead_gone;
  };
  quiet = λ n. ground arith;
}

and_parts : (a b : Bool) → (a && not b) ≡ true → (a ≡ true) × (b ≡ false)
and_parts a b q = ground arith

pub emit_event-Reaches : (e : CcEvent) (u : Ua) → Sound u → Reaches u (emit_event e u)
unfolding emit_event
emit_event-Reaches e u h =
    Reaches-if u _ _ (u.has_controller && not (is_stale u.elast_seq e.seq))
      (λ q.
        let p = and_parts u.has_controller (is_stale u.elast_seq e.seq) q in
        deliver_lem e u h p.0 p.1)
      (λ q. Reaches_refl u h)

pub emit_all-Reaches : (q : List CcEvent) (u : Ua) → Sound u → Reaches u (emit_all q u)
unfolding emit_all
emit_all-Reaches [] u h = Reaches_refl u h
emit_all-Reaches (e ∷ q) u h =
    let r = emit_event-Reaches e u h in
    Reaches_trans u (emit_event e u) _ r (emit_all-Reaches q (emit_event e u) r.sound)

empty_queue : (u : Ua) → Sound u → Reaches u (record u { equeue = [] })
empty_queue u h = record {
  path = here;
  sound = record {
    last = h.last;
    increasing = h.increasing;
    ordered = h.ordered;
    tm_gone = h.tm_gone;
    dead_gone = h.dead_gone;
  };
  quiet = λ q. (q, refl);
}

pub emit_pending_events-Reaches : (u : Ua) → Sound u → Reaches u (emit_pending_events u)
unfolding emit_pending_events
emit_pending_events-Reaches u h =
    Reaches-if u _ _ u.has_controller
      (λ q.
        Reaches_trans u (record u { equeue = [] }) _ (empty_queue u h)
          (emit_all-Reaches u.equeue (record u { equeue = [] }) (empty_queue u h).sound))
      (λ q. Reaches_refl u h)

pub enter_lem :
    (n : Option UaState) (cb : Option Callback) (v u : Ua)
    → Sound v
    → Frame v u
    → GoesTo (state_id v.state) n
    → Reaches v (enter n cb u)
enter_lem none cb v u h k g = Frame-Reaches v u h k
enter_lem (some s) cb v u h k g =
    Reaches_trans v u _ (Frame-Reaches v u h k) (
      change_state-Reaches s cb u (Frame-Sound v u h k)
        (subst (λ t. t ⟶ id_of s) (sym k.id_same) g))

pub no_exit : (r : Outcome (Unit {0})) (s : UaStateId) → Exits (Goes s) r → Goes s (returned r)
no_exit (next a) s e = tt
no_exit (exit r) s e = e

-- a handler that keeps the frame, and what `Ua` does with what it returns
pub settle-Reaches :
    (m : Exec (Unit {0})) (v : Ua)
    → Sound v
    → Keeps (Frame v) (Goes (state_id v.state)) m
    → Reaches v (settle (m v))
unfolding settle
settle-Reaches m v h k =
    let p = k.at v (Frame_refl v h) in
    let e =
      enter_lem (returned (m v).0).newstate (returned (m v).0).cb v (m v).1 h p.0
        (no_exit (m v).0 (state_id v.state) p.1) in
    Reaches_trans v _ _ e (emit_pending_events-Reaches _ e.sound)

pub settle_in :
    (s : UaState) (m : Exec (Unit {0})) (v : Ua)
    → Sound v
    → state_id v.state ≡ id_of s
    → Keeps (Frame v) (Goes (id_of s)) m
    → Reaches v (settle (m v))
settle_in s m v h q k = settle-Reaches m v h (subst (λ t. Keeps (Frame v) (Goes t) m) (sym q) k)
