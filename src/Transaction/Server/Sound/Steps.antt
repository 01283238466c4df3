-- ===== src/Transaction/Server/Sound/Steps.antt =====
-- The timers of a server transaction from its start on (sippy/server_transaction.go).
use go_b2bua.Prelude.{ℕ, Bool, String, Option, refl, ltb, is_some, if_lem, ◌||◌}
use go_b2bua.Transaction.Message.{Tid, TrRequest, TrResponse}
use go_b2bua.Transaction.Server.{start_timers, fresh_server, Server}
use go_b2bua.Transaction.Server.Sending.{prov_timer}
use go_b2bua.Transaction.Server.Steps.{
  Input, send, receive, fire_a, fire_d, fire_e, fire_prov, setup, prack_cbs, cancel_callback,
  noack_callback, response_callback, step,
}
use go_b2bua.Transaction.Server.Sound.{IsSound, same-IsSound, true-not-false, linked-IsSound}
use go_b2bua.Transaction.Server.Sound.Sending.{send_response-IsSound, prov_timer-IsSound}
use go_b2bua.Transaction.Server.Sound.Handlers.{
  timer_a-IsSound, timer_d-IsSound, timer_e-IsSound, incoming_request-IsSound,
}

-- On the timers: whatever happens, each of these holds of what follows.
pub step-IsSound :
    (default_port : String) (i : Input) (s : Server) → IsSound s → IsSound (step default_port i s)
step-IsSound default_port (send fresh retrans has_ack n resp) s h =
    send_response-IsSound default_port fresh retrans has_ack n resp s h
step-IsSound default_port (receive fresh req checksum) s h =
    incoming_request-IsSound default_port fresh req checksum s h
step-IsSound default_port fire_a s h =
    if_lem IsSound (is_some s.base.te_a) (λ e. timer_a-IsSound s e h) (λ _. h)
step-IsSound default_port fire_d s h =
    if_lem IsSound (is_some s.te_d) (λ _. timer_d-IsSound s h) (λ _. h)
step-IsSound default_port fire_prov s h =
    unfold prov_timer in prov_timer-IsSound s.prov_inflight s h
step-IsSound default_port (fire_e fresh) s h =
    if_lem IsSound (is_some s.te_e) (λ _. timer_e-IsSound default_port fresh s h) (λ _. h)
step-IsSound default_port (setup req) s h =
    if_lem IsSound (req.requires_100rel || req.supports_100rel)
      (λ _. same-IsSound s _ (refl, refl, refl, refl, refl, refl) h) (λ _. h)
step-IsSound default_port (prack_cbs prack noprack) s h =
    if_lem IsSound s.base.linked (λ l. linked-IsSound _ l h.bounded h.invites) (λ _. h)
step-IsSound default_port (cancel_callback set) s h =
    same-IsSound s _ (refl, refl, refl, refl, refl, refl) h
step-IsSound default_port (noack_callback set) s h =
    same-IsSound s _ (refl, refl, refl, refl, refl, refl) h
step-IsSound default_port (response_callback set) s h =
    same-IsSound s _ (refl, refl, refl, refl, refl, refl) h

pub fresh-IsSound :
    (req : TrRequest) (checksum : String) (tid : Tid) (userv : ℕ) (b : Bool)
    (r487 : Option TrResponse) (expires : ℕ)
    → IsSound (start_timers (fresh_server req checksum tid userv b r487 expires))
fresh-IsSound req checksum tid userv b r487 expires =
    if_lem IsSound (ltb 0 expires)
      (λ _.
        linked-IsSound _ refl (λ f. absurd (true-not-false f refl))
          (λ f. absurd (true-not-false f refl)))
      (λ _.
        linked-IsSound _ refl (λ f. absurd (true-not-false f refl))
          (λ f. absurd (true-not-false f refl)))
