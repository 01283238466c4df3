-- ===== src/Transaction/Server/Life.antt =====
-- The life of a server transaction (sippy/server_transaction.go): from `NewServerTransaction` and
-- `StartTimers` through any sequence of responses, requests and timers.
use go_b2bua.Prelude.{
  ℕ, ◌*◌, ◌&&◌, ◌||◌, Bool, true, false, String, Option, none, some, List, [], ◌∷◌, ◌≡◌, ◌∙◌, refl,
  sym, arith, ltb, is_some, ◌==◌, if_lem,
}
use go_b2bua.Transaction.Message.{Via, Tid, TrRequest}
use go_b2bua.Transaction.Base.{Act, noprack_cb}
use mathlib.Core.Path.{subst}
use mathlib.Core.Option.{some-injective}
use text.Mathlib.Text.{◌==◌ as str_eq}
use go_b2bua.Transaction.Server.{
  Prov, Server, call_if, is_ringing, new_invite, new_server, start_timers,
}
use go_b2bua.Transaction.Server.Sending.{
  send_response, free_prov, rearm, retransmit, left_over, prov_timer_of, retr_uas_response,
  prov_timer,
}
use go_b2bua.Transaction.Server.Handlers.{incoming_request}
use go_b2bua.Transaction.Server.Steps.{
  Input, send, receive, fire_a, fire_d, fire_e, fire_prov, setup, prack_cbs, cancel_callback,
  noack_callback, response_callback, step, steps,
}
use go_b2bua.Transaction.Server.Sound.{IsSound}
use go_b2bua.Transaction.Server.Sound.Steps.{fresh-IsSound, step-IsSound}

none-not-some : (s : Server) → none ≡ some s → ⊥
none-not-some s e = cc e

some-inj-IsSound :
    (s t : Server) → IsSound (start_timers s) → some s ≡ some t → IsSound (start_timers t)
some-inj-IsSound s t h e = subst (λ u. IsSound (start_timers u)) (some-injective s t e) h

new_invite-IsSound :
    (req : TrRequest) (checksum : String) (tid : Tid) (userv : ℕ) (via : Option Via) (s : Server)
    → new_invite req checksum tid userv via ≡ some s
    → IsSound (start_timers s)
unfolding new_invite
new_invite-IsSound req checksum tid userv none s e = absurd (none-not-some s e)
new_invite-IsSound req checksum tid userv (some via) s e =
    some-inj-IsSound _ s (fresh-IsSound req checksum tid userv true _ _) e

new_server-IsSound :
    (req : TrRequest) (checksum : String) (tid : Tid) (userv : ℕ) (s : Server)
    → new_server req checksum tid userv ≡ some s
    → IsSound (start_timers s)
unfolding new_server
new_server-IsSound req checksum tid userv s =
    if_lem (λ (r : Option Server). r ≡ some s → IsSound (start_timers s))
      (str_eq req.method "INVITE") (λ _. new_invite-IsSound req checksum tid userv req.msg.via0 s)
      (λ _. some-inj-IsSound _ s (fresh-IsSound req checksum tid userv false none 0))

steps-IsSound :
    (default_port : String) (is : List Input) (s : Server)
    → IsSound s
    → IsSound (steps default_port is s)
steps-IsSound default_port [] s h = h
steps-IsSound default_port (i ∷ is) s h =
    step-IsSound default_port i (steps default_port is s) (steps-IsSound default_port is s h)

pub life-IsSound :
    (default_port : String) (req : TrRequest) (checksum : String) (tid : Tid) (userv : ℕ)
    (is : List Input) (s : Server)
    → new_server req checksum tid userv ≡ some s
    → IsSound (steps default_port is (start_timers s))
life-IsSound default_port req checksum tid userv is s e =
    steps-IsSound default_port is (start_timers s) (new_server-IsSound req checksum tid userv s e)

-- over, and nothing was done since
abbrev IsOver : Server → List Act → Type 0
IsOver s acts = (s.base.linked ≡ false) × (s.base.acts ≡ acts)

free_prov-IsOver :
    (p : Option Prov) (s : Server) → s.base.linked ≡ false → IsOver (free_prov p s) s.base.acts
free_prov-IsOver none s l = (l, refl)
free_prov-IsOver (some p) s l = rw l (refl, refl)

call_if-IsOver :
    (b : Bool) (a : Act) (s : Server) (acts : List Act)
    → b ≡ false
    → IsOver s acts
    → IsOver (call_if b a s) acts
call_if-IsOver b a s acts e h = rw e h

rearm-IsOver :
    (n m : ℕ) (p : Option Prov) (s : Server) (acts : List Act)
    → IsOver s acts
    → IsOver (rearm n m p s) acts
rearm-IsOver n m none s acts h = h
rearm-IsOver n m (some p) s acts h = h

prov_timer_of-IsOver :
    (p : Option Prov) (s : Server)
    → s.base.linked ≡ false
    → s.has_noprack_cb ≡ false
    → IsOver (prov_timer_of p s) s.base.acts
unfolding retr_uas_response
prov_timer_of-IsOver none s l c = (l, refl)
prov_timer_of-IsOver (some p) s l c =
    if_lem (λ t. IsOver t s.base.acts) (ltb (16 * 1000) p.last_timeout)
      (λ _.
        call_if-IsOver (s.has_noprack_cb && is_ringing s.base.state) noprack_cb
          (free_prov s.prov_inflight s) s.base.acts (rw c refl)
          (free_prov-IsOver s.prov_inflight s l))
      (λ _.
        rearm-IsOver (p.last_timeout * 2) (left_over s.base.linked p.lossemul) s.prov_inflight
          (retransmit p.lossemul s) s.base.acts
          (if_lem (λ t. IsOver t s.base.acts) (s.base.linked && p.lossemul == 0)
            (λ b. absurd (ground (arith, l, b))) (λ _. (l, refl))))

step-IsOver :
    (default_port : String) (i : Input) (s : Server)
    → s.base.linked ≡ false
    → IsSound s
    → IsOver (step default_port i s) s.base.acts
unfolding send_response incoming_request
step-IsOver default_port (send fresh retrans has_ack n resp) s l h =
    if_lem (λ t. IsOver t s.base.acts) s.base.linked (λ y. absurd (cc (l, y))) (λ _. (l, refl))
step-IsOver default_port (receive fresh req checksum) s l h =
    if_lem (λ t. IsOver t s.base.acts) s.base.linked (λ y. absurd (cc (l, y))) (λ _. (l, refl))
step-IsOver default_port fire_a s l h =
    if_lem (λ t. IsOver t s.base.acts) (is_some s.base.te_a) (λ y. absurd (cc (h.quiet_a l, y)))
      (λ _. (l, refl))
step-IsOver default_port fire_d s l h =
    if_lem (λ t. IsOver t s.base.acts) (is_some s.te_d) (λ y. absurd (cc (h.quiet_d l, y)))
      (λ _. (l, refl))
step-IsOver default_port (fire_e fresh) s l h =
    if_lem (λ t. IsOver t s.base.acts) (is_some s.te_e) (λ y. absurd (cc (h.quiet_e l, y)))
      (λ _. (l, refl))
step-IsOver default_port fire_prov s l h =
    unfold prov_timer in prov_timer_of-IsOver s.prov_inflight s l (h.uncalled l)
step-IsOver default_port (setup req) s l h =
    if_lem (λ t. IsOver t s.base.acts) (req.requires_100rel || req.supports_100rel) (λ _. (l, refl))
      (λ _. (l, refl))
step-IsOver default_port (prack_cbs prack noprack) s l h =
    if_lem (λ t. IsOver t s.base.acts) s.base.linked (λ y. absurd (cc (l, y))) (λ _. (l, refl))
step-IsOver default_port (cancel_callback set) s l h = (l, refl)
step-IsOver default_port (noack_callback set) s l h = (l, refl)
step-IsOver default_port (response_callback set) s l h = (l, refl)

steps-IsOver :
    (default_port : String) (is : List Input) (s : Server)
    → s.base.linked ≡ false
    → IsSound s
    → IsOver (steps default_port is s) s.base.acts
steps-IsOver default_port [] s l h = (l, refl)
steps-IsOver default_port (i ∷ is) s l h =
    let before = steps-IsOver default_port is s l h in
    let after =
      step-IsOver default_port i (steps default_port is s) before.0
        (steps-IsSound default_port is s h) in
    (after.0, after.1 ∙ before.1)

-- Once a server transaction is cleaned up, no sequence of responses, requests, settings and timers,
-- that of a reliable provisional response included, makes it send, delete, cache or call anything
-- again, and it stays cleaned up. The callbacks for a PRACK are set only before that.
pub life-Over :
    (default_port : String) (req : TrRequest) (checksum : String) (tid : Tid) (userv : ℕ)
    (before after : List Input) (s t : Server)
    → new_server req checksum tid userv ≡ some s
    → t ≡ steps default_port before (start_timers s)
    → t.base.linked ≡ false
    → ((steps default_port after t).base.linked ≡ false)
      × ((steps default_port after t).base.acts ≡ t.base.acts)
life-Over default_port req checksum tid userv before after s t e r l =
    steps-IsOver default_port after t l
      (subst IsSound (sym r) (life-IsSound default_port req checksum tid userv before s e))
