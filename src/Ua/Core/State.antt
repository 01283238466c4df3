-- ===== src/Ua/Core/State.antt =====
-- `ChangeState`, `OnDead` and the emission of events of `Ua` (sippy/ua.go), with `OnActivation`
-- and `OnDeactivate` of the states.
use go_b2bua.Prelude.{
  ℕ, Bool, true, false, not, ◌&&◌, Option, none, some, List, [], ◌∷◌, leb, is_some, if◌then◌else◌,
}
use go_b2bua.Event.{CcEvent}
use go_b2bua.Ua.State.{
  UaState, uac_cancelling, uas_pre_connect, connected, disconnected, failed, dead, Callback, Effect,
  controller, start_timeout, start_keepalive, stop_keepalive, send_ack, unreg_consumer, dead_cb,
  Listeners, Ua,
}
use go_b2bua.Ua.Timers.{cancel_expire_timer}
use go_b2bua.Ua.Routing.{emit}
use go_b2bua.Ua.Exec.{Ret, Outcome, next, exit, no_change}
use go_b2bua.Ua.Steps.{run_listener}

-- the pending ACK is sent as it is
abbrev flush_ack : Ua → Ua
flush_ack u =
    if u.pending_tr then record u { pending_tr = false; out = send_ack none ∷ u.out } else u

abbrev stop_ka : Bool → Ua → Ua
stop_ka true u = record u { out = stop_keepalive ∷ u.out }
stop_ka false u = u

-- `OnDeactivate`
unfoldable pub on_deactivate : Option UaState → Ua → Ua
unfolding cancel_expire_timer
on_deactivate (some (connected ka)) u = cancel_expire_timer (flush_ack (stop_ka ka u))
on_deactivate (some (uas_pre_connect confirm pending)) u = cancel_expire_timer u
on_deactivate _ u = u

abbrev no_listeners : Listeners
no_listeners = record {
  has_ring = false;
  has_conn = false;
  has_disc = false;
  has_fail = false;
  has_dead = false;
}

abbrev unregister : Ua → List Effect → List Effect
unregister u out = if is_some u.dialog.call_id then unreg_consumer u.dialog.call_id ∷ out else out

abbrev tell_dead : Ua → List Effect → List Effect
tell_dead u out = if u.listeners.has_dead then dead_cb ∷ out else out

-- `OnDead`. The timers are forgotten, not cancelled, and the no-reply timer is not touched.
unfoldable pub on_dead : Ua → Ua
on_dead u = if not u.has_tm then u else record u {
  has_tm = false;
  has_controller = false;
  listeners = no_listeners;
  media = record (u.media) { on_local = false; on_remote = false };
  timers = record (u.timers) { expire = none; no_progress = none; credit = none };
  out = tell_dead u (unregister u u.out);
}

-- `OnActivation`. The argument of the cancelling state's timer is `300.0`, in nanoseconds.
unfoldable pub on_activation : UaState → Ua → Ua
unfolding on_dead emit
on_activation (connected true) u = emit start_keepalive u
on_activation (uac_cancelling te) u =
    emit (start_timeout 300) (record u { state = some (uac_cancelling true) })
on_activation disconnected u = emit (start_timeout u.opts.godead_timeout) u
on_activation failed u = emit (start_timeout u.opts.godead_timeout) u
on_activation dead u = on_dead u
on_activation _ u = u

abbrev run_cb : Option Callback → Ua → Ua
run_cb none u = u
run_cb (some cb) u = run_listener cb u

-- `ChangeState`
unfoldable pub change_state : UaState → Option Callback → Ua → Ua
unfolding on_deactivate on_activation run_listener
change_state s cb u =
    run_cb cb (on_activation s (record (on_deactivate u.state u) { state = some s }))

-- `self.elast_seq != -1 && self.elast_seq >= seq`
abbrev pub is_stale : Option ℕ → ℕ → Bool
is_stale none seq = false
is_stale (some last) seq = leb seq last

abbrev deliver : CcEvent → Ua → Ua
deliver e u = record u { elast_seq = some (e.seq); out = controller e ∷ u.out }

-- `EmitEvent`
unfoldable pub emit_event : CcEvent → Ua → Ua
emit_event e u = if u.has_controller && not (is_stale u.elast_seq e.seq) then deliver e u else u

-- the loop of `emitPendingEvents` over the queue
unfoldable pub emit_all : List CcEvent → Ua → Ua
unfolding emit_event
emit_all [] u = u
emit_all (e ∷ q) u = emit_all q (emit_event e u)

-- `emitPendingEvents`: the queue stays when there is no controller
unfoldable pub emit_pending_events : Ua → Ua
unfolding emit_all
emit_pending_events u = if u.has_controller then emit_all u.equeue (record u { equeue = [] }) else u

-- What a handler returns, and the user agent behind it.
abbrev pub returned : Outcome (Unit {0}) → Ret
returned (next _) = no_change
returned (exit r) = r

abbrev pub enter : Option UaState → Option Callback → Ua → Ua
enter none cb u = u
enter (some s) cb u = change_state s cb u

-- `if newstate != nil { ChangeState(newstate, cb) }; emitPendingEvents()`
unfoldable pub settle : Outcome (Unit {0}) × Ua → Ua
unfolding change_state emit_pending_events
settle (r, u) = emit_pending_events (enter (returned r).newstate (returned r).cb u)
