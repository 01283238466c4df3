-- ===== src/Ua/Trace/Laws.antt =====
-- What holds of every life of a user agent.
use go_b2bua.Prelude.{◌≢◌, ℕ, ◌≤◌, Option, none, some, ◌≡◌, refl, sym, ap, ◌∙◌, arith}
use mathlib.Core.Path.{subst}
use go_b2bua.Ua.State.{UaState, UaStateId, Ua, World, state_id, ua_state_dead}
use go_b2bua.Ua.Graph.{
  pick_up, uas_refuse, uas_drop, hang_up, early_trying, early_ringing, talk_connected,
  talk_pre_connect, talk_uac_updating, talk_uas_updating, ◌⟶◌, ◌⟶*◌, here, step,
}
use go_b2bua.Ua.Frame.{Ordered, delivered}
use go_b2bua.Ua.Reach.{
  last_seq, Sound, Reaches, Reaches_refl, Reaches_trans, Frame-Reaches, Increasing,
}
use go_b2bua.Ua.Reach.Events as Events
use go_b2bua.Ua.Reach.Messages.{recv_response-Reaches}
use go_b2bua.Ua.Reach.Requests.{recv_request-Reaches}
use go_b2bua.Ua.Reach.Calls.{recv_ack-Reaches, recv_prack-Reaches, recv_cancel-Reaches}
use go_b2bua.Ua.Trace.{
  Call, event, request, response, ack, prack, cancel, disconnect, expires, no_progress_expires,
  no_reply_expires, credit_expires, go_dead, remote_sdp, local_sdp, perform, run, Allowed, Trace,
  start, call, IsFresh, phase,
}

perform-Reaches :
    (c : Call) (v : Ua) → Sound v → Allowed c (state_id v.state) → Reaches v (perform c v)
unfolding perform
perform-Reaches (event e) v h a = Events.recv_event-Reaches e v h
perform-Reaches (request req) v h a = recv_request-Reaches req v h
perform-Reaches (response resp t) v h a = recv_response-Reaches resp t v h
perform-Reaches (ack req) v h a = recv_ack-Reaches req v h
perform-Reaches (prack req) v h a = recv_prack-Reaches req v h
perform-Reaches (cancel s t req) v h a = recv_cancel-Reaches v h a s t req
perform-Reaches (disconnect t o) v h a = Events.disconnect-Reaches t o v h
perform-Reaches expires v h a = Events.expires-Reaches v h
perform-Reaches no_progress_expires v h a = Events.no_progress_expires-Reaches v h
perform-Reaches no_reply_expires v h a = Events.no_reply_expires-Reaches v h
perform-Reaches (credit_expires t) v h a = Events.credit_expires-Reaches v h t
perform-Reaches go_dead v h a = Events.go_dead-Reaches v h a
perform-Reaches (remote_sdp e b ex) v h a = Events.delayed_remote-Reaches v h e b ex
perform-Reaches (local_sdp e ex) v h a = Events.delayed_local-Reaches v h e ex

-- Every call takes a sound user agent along the diagram of the states to a sound one.
run-Reaches :
    (w : World) (c : Call) (v : Ua) → Sound v → Allowed c (state_id v.state) → Reaches v (run w c v)
unfolding run
run-Reaches w c v h a =
    let f =
      Frame-Reaches v (record v { world = w }) h
        (record {
          id_same = refl;
          elast_same = refl;
          sent_same = refl;
          tm_same = refl;
          controller_same = refl;
          ordered = h.ordered;
        }) in
    Reaches_trans v _ _ f (perform-Reaches c (record v { world = w }) f.sound a)

unended_lem : (c d : Option ℕ) → d ≡ none → Ordered c d
unended_lem none d q = tt
unended_lem (some c) none q = tt
unended_lem (some c) (some d) q = ground arith

none_alive : (s : Option UaState) → s ≡ none → state_id s ≢ ua_state_dead
none_alive none q e = ground arith
none_alive (some s) q e = ground arith

fresh-Sound : (v : Ua) → IsFresh v → Sound v
fresh-Sound v f = record {
  last = f.no_seq ∙ sym (ap (λ o. last_seq (delivered o)) f.no_out);
  increasing = subst (λ o. Increasing (delivered o)) (sym f.no_out) tt;
  ordered = unended_lem v.stamps.connect_ts v.stamps.disconnect_ts f.no_disconnect;
  tm_gone = λ e. ground (arith, e, f.alive);
  dead_gone = λ e. ground (arith, none_alive v.state f.no_state e);
}

trace-Reaches : (v u : Ua) → Sound v → Trace v u → Reaches v u
trace-Reaches v u h start = Reaches_refl v h
trace-Reaches v u h (call t w c a) =
    let r = trace-Reaches v _ h t in Reaches_trans v _ _ r (run-Reaches w c _ r.sound a)

⟶-phase : (s t : UaStateId) → s ⟶ t → phase s ≤ phase t
⟶-phase s t (pick_up early_trying) = omega arith
⟶-phase s t (pick_up early_ringing) = omega arith
⟶-phase s t (uas_refuse early_trying) = omega arith
⟶-phase s t (uas_refuse early_ringing) = omega arith
⟶-phase s t (uas_drop early_trying) = omega arith
⟶-phase s t (uas_drop early_ringing) = omega arith
⟶-phase s t (hang_up talk_connected) = omega arith
⟶-phase s t (hang_up talk_pre_connect) = omega arith
⟶-phase s t (hang_up talk_uac_updating) = omega arith
⟶-phase s t (hang_up talk_uas_updating) = omega arith
⟶-phase s t _ = omega arith

⟶*-phase : (s t : UaStateId) → s ⟶* t → phase s ≤ phase t
⟶*-phase s t here = omega arith
⟶*-phase s t (step p e) = omega (arith, ⟶*-phase s _ p, ⟶-phase _ t e)

last_phase : (t : UaStateId) → 6 ≤ phase t → t ≡ ua_state_dead
last_phase t h = ground arith

dead_stays : (s t : UaStateId) → s ≡ ua_state_dead → s ⟶* t → t ≡ ua_state_dead
dead_stays s t q p = last_phase t (subst (λ r. phase r ≤ phase t) q (⟶*-phase s t p))

module _ (v u w : Ua) (f : IsFresh v) (before : Trace v u) (after : Trace u w) where
  life-Sound : Sound u
  life-Sound = (trace-Reaches v u (fresh-Sound v f) before).sound

  now-later : Reaches u w
  now-later = trace-Reaches u w life-Sound after

  -- Whatever is called on a user agent that started afresh, its state moves along the edges of the
  -- diagram alone, from any moment of its life to any later one.
  pub trace-path : state_id u.state ⟶* state_id w.state
  trace-path = now-later.path

  -- A call never falls back to an earlier phase (idle, trying, ringing, dialog, ended, dead).
  pub trace-phase : phase (state_id u.state) ≤ phase (state_id w.state)
  trace-phase = ⟶*-phase _ _ trace-path

  -- A dead user agent stays dead, and nothing is delivered to the call controller any more.
  pub trace-dead :
      state_id u.state ≡ ua_state_dead
      → (state_id w.state ≡ ua_state_dead) × (delivered w.out ≡ delivered u.out)
  trace-dead d = (
    dead_stays _ _ d trace-path,
    (now-later.quiet (life-Sound.tm_gone (life-Sound.dead_gone d))).1,
  )

module _ (v u : Ua) (f : IsFresh v) (life : Trace v u) where
  -- The events that the call controller gets come in the order of their sequence numbers, and none
  -- of them twice, whatever is called on a user agent that started afresh.
  pub trace-Increasing : Increasing (delivered u.out)
  trace-Increasing = (trace-Reaches v u (fresh-Sound v f) life).sound.increasing

  -- When a user agent that started afresh has both a connect time and a disconnect time, the first
  -- one is not later, whatever the clocks of the events were.
  pub trace-Ordered : Ordered u.stamps.connect_ts u.stamps.disconnect_ts
  trace-Ordered = (trace-Reaches v u (fresh-Sound v f) life).sound.ordered
