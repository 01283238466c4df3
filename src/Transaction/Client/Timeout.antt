-- ===== src/Transaction/Client/Timeout.antt =====
-- What the code above hears of a client transaction that timed out (sippy/client_transaction.go).
use go_b2bua.Prelude.{
  ℕ, ◌+◌, ◌≡◌, ◌⊎◌, inl, inr, suc, refl, arith, Bool, true, false, String, Option, none, List, [],
  ◌∷◌, is_some, if_lem, if◌then◌else◌,
}
use go_b2bua.Sip.{Header}
use go_b2bua.Transaction.Message.{TrResponse}
use go_b2bua.Transaction.Base.{
  Act, Base, recv_response, timer_a, base_cleanup, before_request, enter, cancel_te_a, terminated,
}
use go_b2bua.Transaction.Client.{
  Client, act, act_if, on_base, cleanup, is_uack, cancel_te_b, start_te_c, timer_b, timer_c,
  timer_g,
}
use go_b2bua.Transaction.Client.Handlers.{
  incoming_response, cancel_by, send_ack, is_terminated, is_ringing, Input, receive, cancelled,
  acked, fire_a, fire_b, fire_c, fire_g, step, steps,
}

-- how often the receiver was told of a response
abbrev pub heard : List Act → ℕ
heard [] = 0
heard (recv_response resp ∷ acts) = suc (heard acts)
heard (a ∷ acts) = heard acts

-- The transaction is over or timed out, with `n` responses told so far.
abbrev Quiet : ℕ → Client → Type 0
Quiet n t =
    (heard t.base.acts ≡ n)
    × (is_some t.te_b ≡ false)
    × ((t.base.linked ≡ false) ⊎ (is_terminated t.base.state ≡ true))

cleanup-Quiet : (n : ℕ) (t : Client) → heard t.base.acts ≡ n → Quiet n (cleanup t)
unfolding cleanup base_cleanup
cleanup-Quiet n t h = (h, refl, inl refl)

receive-Quiet :
    (default_port branch : String) (set_uack : Bool) (checksum : String) (resp : TrResponse) (n : ℕ)
    (t : Client)
    → Quiet n t
    → Quiet n (incoming_response default_port branch set_uack checksum resp t)
unfolding incoming_response
receive-Quiet default_port branch set_uack checksum resp n t q =
    if_lem (Quiet n) t.base.linked
      (λ l.
        if_lem (Quiet n) (is_terminated t.base.state) (λ _. q)
          (λ k. absurd (ground (arith, q.2, l, k))))
      (λ _. q)

cancelled-Quiet :
    (extra : List Header) (n : ℕ) (t : Client) → Quiet n t → Quiet n (cancel_by extra t)
unfolding cancel_by
cancelled-Quiet extra n t q =
    if_lem (Quiet n) t.base.linked
      (λ _. if_lem (Quiet n) (is_ringing t.base.state) (λ _. q) (λ _. q)) (λ _. q)

acked-Quiet : (n : ℕ) (t : Client) → Quiet n t → Quiet n (send_ack t)
unfolding send_ack
acked-Quiet n t q =
    let asked =
      if_lem (λ (u : Client). heard u.base.acts ≡ n) t.has_before_request
        {x = act (before_request t.ack) (record t { te_g = none })} {y = record t { te_g = none }}
        (λ _. q.0) (λ _. q.0) in
    cleanup-Quiet n _ (
      if_lem (λ (u : Client). heard u.base.acts ≡ n)
        (act_if t.has_before_request (before_request t.ack) (record t { te_g = none })).base.linked
        (λ _. asked) (λ _. asked))

fire_a-Quiet : (n : ℕ) (t : Client) → Quiet n t → Quiet n (on_base timer_a t)
unfolding timer_a
fire_a-Quiet n t q =
    if_lem (λ (b : Base). Quiet n (record t { base = b })) t.base.linked (λ _. q) (λ _. q)

fire_c-Quiet : (n : ℕ) (t : Client) → Quiet n t → Quiet n (timer_c t)
unfolding timer_c
fire_c-Quiet n t q = if_lem (Quiet n) t.base.linked (λ _. cleanup-Quiet n _ q.0) (λ _. q)

fire_g-Quiet : (n : ℕ) (t : Client) → Quiet n t → Quiet n (timer_g t)
unfolding timer_g
fire_g-Quiet n t q =
    if_lem (Quiet n) t.base.linked (λ _. if_lem (Quiet n) (is_uack t.base.state) (λ _. q) (λ _. q))
      (λ _. q)

step-Quiet :
    (default_port : String) (i : Input) (n : ℕ) (t : Client)
    → Quiet n t
    → Quiet n (step default_port i t)
step-Quiet default_port (receive branch set_uack checksum resp) n t q =
    receive-Quiet default_port branch set_uack checksum resp n t q
step-Quiet default_port (cancelled extra) n t q = cancelled-Quiet extra n t q
step-Quiet default_port acked n t q = acked-Quiet n t q
step-Quiet default_port fire_a n t q =
    if_lem (Quiet n) (is_some t.base.te_a) (λ _. fire_a-Quiet n t q) (λ _. q)
step-Quiet default_port fire_b n t q =
    if_lem (Quiet n) (is_some t.te_b) (λ e. absurd (ground (arith, e, q.1))) (λ _. q)
step-Quiet default_port fire_c n t q =
    if_lem (Quiet n) (is_some t.te_c) (λ _. fire_c-Quiet n t q) (λ _. q)
step-Quiet default_port fire_g n t q =
    if_lem (Quiet n) (is_some t.te_g) (λ _. fire_g-Quiet n t q) (λ _. q)

steps-Quiet :
    (default_port : String) (is : List Input) (n : ℕ) (t : Client)
    → Quiet n t
    → Quiet n (steps default_port is t)
steps-Quiet default_port [] n t q = q
steps-Quiet default_port (i ∷ is) n t q =
    step-Quiet default_port i n (steps default_port is t) (steps-Quiet default_port is n t q)

told-Quiet :
    (b : Bool) (resp : Option TrResponse) (t : Client)
    → is_some t.te_b ≡ false
    → is_terminated t.base.state ≡ true
    → Quiet ((if b then 1 else 0) + heard t.base.acts) (act_if b (recv_response resp) t)
told-Quiet true resp t e s = (omega arith, e, inr s)
told-Quiet false resp t e s = (omega arith, e, inr s)

timer_b-Quiet :
    (t : Client)
    → t.base.linked ≡ true
    → Quiet ((if t.has_receiver then 1 else 0) + heard t.base.acts) (timer_b t)
unfolding timer_b
timer_b-Quiet t l =
    if_lem (Quiet ((if t.has_receiver then 1 else 0) + heard t.base.acts)) t.base.linked
      (λ _.
        told-Quiet t.has_receiver t.r408
          (start_te_c (on_base (enter terminated) (cancel_te_b (on_base cancel_te_a t)))) refl refl)
      (λ f. absurd (cc (l, f)))

-- When timer B of a client transaction that is not cleaned up runs out, its receiver, if it has
-- one, is told once, and no sequence of responses, cancellations, acknowledgements and timers that
-- follows tells it of anything again.
pub timeout-heard_once :
    (default_port : String) (is : List Input) (t : Client)
    → t.base.linked ≡ true
    → heard (steps default_port is (timer_b t)).base.acts
      ≡ (if t.has_receiver then 1 else 0) + heard t.base.acts
timeout-heard_once default_port is t l =
    (steps-Quiet default_port is _ (timer_b t) (timer_b-Quiet t l)).0
