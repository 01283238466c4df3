-- ===== src/Ua/Keepalive/OneByOne.antt =====
-- The keepalives of one controller come one at a time (sippy/keepalive_controller.go).
use mathlib.Core.Path.{subst}
use mathlib.Core.Option.{some-injective}
use go_b2bua.Prelude.{
  ℕ, suc, ◌+◌, ◌≤◌, Bool, true, false, Option, none, some, List, [], ◌∷◌, ◌≡◌, refl, arith, ltb,
  ◌==◌, length, if_lem, if◌then◌else◌,
}
use go_b2bua.Sip.{Challenge, Header, OutRequest, invite}
use go_b2bua.Ua.State.{Ua, state_id}
use go_b2bua.Ua.Routing.{gen_request}
use go_b2bua.Ua.Keepalive.{
  KaTimeout, probe, hang_up, Keepalive, new_keepalive, start, is_connected, send_probe, keep_alive,
  challenge_of, answer_challenge, is_refusal, take_response, recv_response, fire, KaInput, response,
  timeout, ua_becomes, ka_step, ka_steps,
}

-- the keepalives under way: the one that was sent, and the timeouts
abbrev pub under_way : Keepalive → ℕ
under_way k = (if k.has_ka_tr then 1 else 0) + length k.pending

send_probe-OneMore :
    (again : Bool) (r : Option OutRequest × Ua) (k : Keepalive)
    → length k.pending ≡ 0
    → under_way (send_probe again r k) ≤ 1
unfolding send_probe
send_probe-OneMore again (none, u) k h = ground arith
send_probe-OneMore again (some q, u) k h = ground arith

keep_alive-OneMore : (k : Keepalive) → length k.pending ≡ 0 → under_way (keep_alive k) ≤ 1
unfolding keep_alive
keep_alive-OneMore k h =
    if_lem (λ d. under_way d ≤ 1) (is_connected (state_id k.ua.state))
      (λ _. send_probe-OneMore false (gen_request invite k.ua.media.l_sdp none [] k.ua) k h)
      (λ _. ground arith)

answer_challenge-OneMore :
    (auth : Option Header) (k : Keepalive)
    → length k.pending ≡ 0
    → under_way (answer_challenge auth k) ≤ 1
answer_challenge-OneMore auth k h =
    send_probe-OneMore true (gen_request invite k.ua.media.l_sdp auth [] k.ua) k h

take_response-OneMore :
    (code : ℕ) (c : Option Challenge) (k : Keepalive)
    → length k.pending ≡ 0
    → under_way (take_response code c k) ≤ 1
unfolding take_response
take_response-OneMore code (some c) k h = answer_challenge-OneMore c.auth k h
take_response-OneMore code none k h =
    if_lem (λ d. under_way d ≤ 1) (ltb code 200) (λ _. ground arith)
      (λ _.
        if_lem (λ d. under_way d ≤ 1) (is_refusal code)
          (λ _.
            if_lem (λ d. under_way d ≤ 1) (suc k.keepalives == 1) (λ _. ground arith)
              (λ _. ground arith))
          (λ _. ground arith))

recv_response-OneMore :
    (code : ℕ) (www proxy : List Challenge) (k : Keepalive)
    → length k.pending ≡ 0
    → under_way (recv_response code www proxy k) ≤ 1
unfolding recv_response
recv_response-OneMore code www proxy k h =
    if_lem (λ d. under_way d ≤ 1) (is_connected (state_id k.ua.state))
      (λ _. take_response-OneMore code (challenge_of code www proxy k) k h) (λ _. ground arith)

sent_alone : (b : Bool) (n : ℕ) → b ≡ true → (if b then 1 else 0) + n ≤ 1 → n ≡ 0
sent_alone b n = ground arith

fire-OneMore :
    (ts : List KaTimeout) (k : Keepalive)
    → k.pending ≡ ts
    → under_way k ≤ 1
    → under_way (fire ts k) ≤ 1
unfolding fire
fire-OneMore [] k e h = h
fire-OneMore (probe t ∷ ts) k e h =
    keep_alive-OneMore (record k { pending = ts }) (ground (arith, e, h))
fire-OneMore (hang_up t ∷ ts) k e h = ground (arith, e, h)

ka_step-OneMore : (i : KaInput) (k : Keepalive) → under_way k ≤ 1 → under_way (ka_step i k) ≤ 1
unfolding ka_step
ka_step-OneMore (response code www proxy) k h =
    if_lem (λ d. under_way d ≤ 1) k.has_ka_tr
      (λ t. recv_response-OneMore code www proxy k (sent_alone k.has_ka_tr (length k.pending) t h))
      (λ _. h)
ka_step-OneMore timeout k h = fire-OneMore k.pending k refl h
ka_step-OneMore (ua_becomes u) k h = h

ka_steps-OneMore :
    (is : List KaInput) (k : Keepalive) → under_way k ≤ 1 → under_way (ka_steps is k) ≤ 1
unfolding ka_steps
ka_steps-OneMore [] k h = h
ka_steps-OneMore (i ∷ is) k h = ka_step-OneMore i (ka_steps is k) (ka_steps-OneMore is k h)

-- One keepalive controller, from its start until it is stopped, through every sequence of responses
-- to the keepalive that runs, timeouts and changes of the user agent: at most one keepalive of this
-- controller is under way, be it sent or waited for.
pub keepalive-AtMostOne :
    (u : Ua) (k : Keepalive) (is : List KaInput)
    → new_keepalive u ≡ some k
    → under_way (ka_steps is (start k)) ≤ 1
unfolding new_keepalive
keepalive-AtMostOne u k is e = ka_steps-OneMore is (start k) (fresh e)
  where
    fresh : new_keepalive u ≡ some k → under_way (start k) ≤ 1
    fresh =
        if_lem (λ o. o ≡ some k → under_way (start k) ≤ 1) (ltb 0 u.opts.ka_interval)
          (λ _ f. subst (λ j. under_way (start j) ≤ 1) (some-injective _ k f) (omega arith))
          (λ _ f. cc f)
