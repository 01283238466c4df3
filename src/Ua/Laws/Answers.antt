-- ===== src/Ua/Laws/Answers.antt =====
-- What the handlers of the states do with the messages that end or answer a call
-- (sippy/uac_state_trying.go, sippy/ua_state_connected.go, sippy/uas_state_preconnect.go).
use go_b2bua.Ua.Core.State.{change_state, emit_event}
use go_b2bua.Prelude.{
  ap, ◌∙◌, if◌then◌else◌, suc, ℕ, ◌+◌, ◌≤◌, Bool, true, false, Option, none, some, List, [], ◌∷◌,
  ◌++◌, ◌≡◌, refl, arith, String,
}
use go_b2bua.Sip.{Body, Response}
use go_b2bua.Event.{CcEvent, fail_ev, new_event}
use go_b2bua.Ua.State.{Ua, failed, fail_cb, conn_cb, Effect, listener}
use go_b2bua.Ua.Timers.{
  start_credit_timer, set_connect_ts, cancel_expire_timer, cancel_credit_timer, stamp_disconnect,
}
use go_b2bua.Ua.Routing.{target_fails, next_hop, emit}
use go_b2bua.Ua.Exec.{◌>>=◌, modify, gets, ret, make_event, enqueue, exit}
use go_b2bua.Ua.Steps.{run_listener, clear_branch, set_r_sdp, reset_sdp_hooks}
use go_b2bua.Ua.Uac.Trying as UacTrying
use go_b2bua.Ua.Core.Messages.{take_ack_body, ack_event, to_connected, confirm_call}

-- the branch of a final response with a code of 303 or more
pub final-rejected :
    (resp : Response) (u : Ua)
    → 303 ≤ resp.scode
    → ((UacTrying.final resp u).0
        ≡ exit (record {
          newstate = some failed;
          cb = some (fail_cb resp.rtime u.origin resp.scode);
          failed = false;
        }))
      × ((UacTrying.final resp u).1.equeue
          ≡ u.equeue
            ++ (record (new_event u.next_seq resp.rtime u.origin (
                  fail_ev resp.scode resp.reason_phrase
                    (UacTrying.challenges_of u.opts.pass_auth resp)
                    none)) { sip_reason = resp.reason }
                ∷ []))
      × ((UacTrying.final resp u).1.timers.expire ≡ none)
unfolding UacTrying.final UacTrying.rejected UacTrying.final_event ◌>>=◌ modify gets ret make_event
    enqueue cancel_expire_timer stamp_disconnect reset_sdp_hooks new_event
final-rejected resp u h = ground arith

-- `NewSipRequest` has an address to send to
abbrev pub CanSend : Ua → Type 0
CanSend u = target_fails (next_hop u.opts.outbound_proxy u.dialog.r_addr) u.dialog.routes ≡ false

-- how often the connect listener was called
abbrev pub conn_calls : List Effect → ℕ
conn_calls [] = 0
conn_calls (listener (conn_cb t o) ∷ out) = suc (conn_calls out)
conn_calls (e ∷ out) = conn_calls out

timed_out :
    (t : ℕ) (u : Ua)
    → let v =
        set_connect_ts t (start_credit_timer t (cancel_credit_timer (cancel_expire_timer u))) in
      (v.out ≡ u.out) × (v.listeners ≡ u.listeners)
unfolding cancel_expire_timer cancel_credit_timer start_credit_timer set_connect_ts
timed_out t u = ground arith

ran_listener :
    (t : ℕ) (o : String) (u : Ua)
    → u.listeners.has_conn ≡ true
    → (conn_calls (run_listener (conn_cb t o) u).out ≡ suc (conn_calls u.out))
      × ((run_listener (conn_cb t o) u).listeners ≡ u.listeners)
unfolding run_listener
ran_listener t o u h = ground arith

ack_body_calls :
    (b : Option Body) (e : CcEvent) (u : Ua)
    → (conn_calls (take_ack_body b e u).1.out ≡ conn_calls u.out)
      × ((take_ack_body b e u).1.listeners ≡ u.listeners)
unfolding emit set_r_sdp
ack_body_calls b e u = ground arith

connected_calls :
    (t : ℕ) (o : String) (u : Ua)
    → u.listeners.has_conn ≡ true
    → conn_calls (to_connected (some (conn_cb t o)) u).out ≡ suc (conn_calls u.out)
unfolding change_state clear_branch
connected_calls t o u h = ground arith

emitted_calls : (e : CcEvent) (u : Ua) → conn_calls (emit_event e u).out ≡ conn_calls u.out
unfolding emit_event
emitted_calls e u = ground arith

if_calls :
    (b : Bool) (e : CcEvent) (u : Ua)
    → conn_calls (if b then emit_event e u else u).out ≡ conn_calls u.out
if_calls true e u = emitted_calls e u
if_calls false e u = refl

-- The ACK that confirms a call runs the connect listener, if it is set, twice.
pub confirm_call-twice :
    (t : ℕ) (b : Option Body) (u : Ua)
    → u.listeners.has_conn ≡ true
    → conn_calls (confirm_call t b u).out ≡ suc (suc (conn_calls u.out))
unfolding confirm_call
confirm_call-twice t b u h =
    let u1 : Ua = record u { next_seq = u.next_seq + 1 } in
    let u2 =
      set_connect_ts t (start_credit_timer t (cancel_credit_timer (cancel_expire_timer u1))) in
    let u3 = run_listener (conn_cb t u.origin) u2 in
    let e = ack_event u t b in
    let r = take_ack_body b e u3 in
    let a = timed_out t u1 in
    let l2 = ap (λ l. l.has_conn) a.1 ∙ h in
    let c = ran_listener t u.origin u2 l2 in
    let d = ack_body_calls b e u3 in
    let l3 = ap (λ l. l.has_conn) (d.1 ∙ c.1) ∙ l2 in
    if_calls r.0 e _
    ∙ connected_calls t u.origin r.1 l3
    ∙ ap suc (d.0 ∙ c.0 ∙ ap (λ o. suc (conn_calls o)) a.0)
