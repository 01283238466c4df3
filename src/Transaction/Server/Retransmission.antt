-- ===== src/Transaction/Server/Retransmission.antt =====
-- How often a server transaction retransmits (sippy/server_transaction.go,
-- sippy/base_transaction.go).
use mathlib.Core.Option.{some-injective}
use go_b2bua.Prelude.{
  ℕ, zero, suc, ◌+◌, ◌*◌, ◌<◌, ◌≤◌, ◌&&◌, true, false, Option, none, some, ◌≡◌, ◌∙◌, ◌⊎◌, inl, inr,
  ap, refl, sym, arith, ltb, if_lem,
}
use go_b2bua.Transaction.Base.{Base, timer_a}
use go_b2bua.Transaction.Server.{Prov, Server, is_ringing}
use go_b2bua.Transaction.Server.Sending.{
  free_prov, give_up, rearm, retransmit, left_over, retr_uas_response, prov_timer_of, prov_timer,
}

abbrev pub prov_timers : ℕ → Server → Server
prov_timers zero s = s
prov_timers (suc n) s = prov_timers n (prov_timer s)

free_prov-freed :
    (p : Option Prov) (s : Server) → s.prov_inflight ≡ p → (free_prov p s).prov_inflight ≡ none
free_prov-freed none s e = e
free_prov-freed (some p) s e = ground arith

give_up-freed : (s : Server) → (give_up s).prov_inflight ≡ none
give_up-freed s =
    if_lem (λ (t : Server). t.prov_inflight ≡ none) (s.has_noprack_cb && is_ringing s.base.state)
      (λ _. free_prov-freed s.prov_inflight s refl) (λ _. free_prov-freed s.prov_inflight s refl)

prov_timer_of-idle :
    (p : Option Prov) (s : Server)
    → p ≡ none
    → s.prov_inflight ≡ none
    → (prov_timer_of p s).prov_inflight ≡ none
prov_timer_of-idle none s q e = e
prov_timer_of-idle (some p) s q e = absurd (cc q)

idle-prov_timers :
    (n : ℕ) (s : Server) → s.prov_inflight ≡ none → (prov_timers n s).prov_inflight ≡ none
unfolding prov_timer
idle-prov_timers zero s e = e
idle-prov_timers (suc n) s e =
    idle-prov_timers n (prov_timer_of s.prov_inflight s) (prov_timer_of-idle s.prov_inflight s e e)

abbrev doubled : ℕ → ℕ → ℕ
doubled zero n = n
doubled (suc k) n = doubled k (n * 2)

-- in flight, with this timeout
abbrev Waits : ℕ → Server → Type 0
Waits n s = (q : Prov) × (s.prov_inflight ≡ some q) × (q.last_timeout ≡ n)

rearm-Waits :
    (n m : ℕ) (r : Option Prov) (p : Prov) (s : Server) → r ≡ some p → Waits n (rearm n m r s)
rearm-Waits n m none p s e = absurd (cc e)
rearm-Waits n m (some r) p s e = (record r { last_timeout = n; lossemul = m }, refl, refl)

-- A timeout gives up, or is not above 16 seconds and doubles.
abbrev Fires : ℕ → Server → Type 0
Fires n t = (t.prov_inflight ≡ none) ⊎ ((ltb (16 * 1000) n ≡ false) × Waits (n * 2) t)

retr_uas_response-Fires :
    (n m : ℕ) (p : Prov) (s : Server) → s.prov_inflight ≡ some p → Fires n (retr_uas_response n m s)
unfolding retr_uas_response
retr_uas_response-Fires n m p s e =
    if_lem (Fires n) (ltb (16 * 1000) n) (λ _. inl (give_up-freed s))
      (λ b.
        inr
          (b, rearm-Waits (n * 2) (left_over s.base.linked m) s.prov_inflight p (retransmit m s) e))

prov_timer_of-Fires :
    (r : Option Prov) (s : Server) (p : Prov)
    → r ≡ some p
    → s.prov_inflight ≡ some p
    → Fires p.last_timeout (prov_timer_of r s)
prov_timer_of-Fires none s p e f = absurd (cc e)
prov_timer_of-Fires (some r) s p e f =
    rw⁻¹ (some-injective r p e) (retr_uas_response-Fires r.last_timeout r.lossemul p s f)

prov_timers-ends :
    (k : ℕ) (s : Server) (p : Prov)
    → s.prov_inflight ≡ some p
    → 16 * 1000 < doubled k p.last_timeout
    → (prov_timers (suc k) s).prov_inflight ≡ none
unfolding prov_timer
prov_timers-ends zero s p e b = elim (prov_timer_of-Fires s.prov_inflight s p e e) [
  | inl freed ↦ freed
  | inr (again, w) ↦ absurd (ground (arith, again, b))
]
prov_timers-ends (suc k) s p e b = elim (prov_timer_of-Fires s.prov_inflight s p e e) [
  | inl freed ↦ idle-prov_timers (suc k) (prov_timer s) freed
  | inr (again, w) ↦ prov_timers-ends k (prov_timer s) w.0 w.1 (rw (w.2) b)
]

-- A reliable provisional response is not retransmitted for ever: whatever its timeout of a
-- millisecond or more is, without a PRACK the transaction gives up after at most fifteen timeouts.
pub prov_timers-gives_up :
    (s : Server) (p : Prov)
    → s.prov_inflight ≡ some p
    → 0 < p.last_timeout
    → (prov_timers 15 s).prov_inflight ≡ none
prov_timers-gives_up s p e b = prov_timers-ends 14 s p e (omega (arith, b))

abbrev pub timers_a : ℕ → Base → Base
timers_a zero b = b
timers_a (suc n) b = timers_a n (timer_a b)

-- the delay that timer A is set to
abbrev pub delay : Option ℕ → ℕ
delay none = 0
delay (some d) = d

-- the time from the start of timer A until it has run out `n` times
abbrev pub elapsed : ℕ → Base → ℕ
elapsed zero b = 0
elapsed (suc n) b = delay b.te_a + elapsed n (timer_a b)

doubled-above : (k n : ℕ) → n ≤ doubled k n
doubled-above zero n = omega arith
doubled-above (suc k) n = omega (arith, doubled-above k (n * 2))

timer_a-again :
    (b : Base)
    → b.linked ≡ true
    → ((timer_a b).linked ≡ true)
      × ((timer_a b).te_a ≡ some (timer_a b).tout)
      × ((timer_a b).tout ≡ b.tout * 2)
unfolding timer_a
timer_a-again b l = rw l (refl, refl, refl)

elapsed-doubled :
    (n : ℕ) (b : Base)
    → b.linked ≡ true
    → b.te_a ≡ some b.tout
    → elapsed n b + b.tout ≡ doubled n b.tout
elapsed-doubled zero b l e = omega arith
elapsed-doubled (suc n) b l e =
    let next = timer_a-again b l in
    omega (
      arith,
      elapsed-doubled n (timer_a b) next.0 next.1,
      next.2,
      ap (doubled n) next.2,
      ap delay e,
    )

at_most : (n : ℕ) → doubled n 500 ≤ 32500 → n ≤ 6
at_most (suc (suc (suc (suc (suc (suc (suc n))))))) h =
    absurd (omega (arith, doubled-above n 64000, h))
at_most _ h = omega arith

-- While timer A of a linked transaction runs from half a second on, it runs out at most six times
-- in the 32 seconds after which timer B or D stops it.
pub elapsed-bound :
    (n : ℕ) (b : Base)
    → b.linked ≡ true
    → b.te_a ≡ some 500
    → b.tout ≡ 500
    → elapsed n b ≤ 32 * 1000
    → n ≤ 6
elapsed-bound n b l e t h =
    at_most n (omega (arith, elapsed-doubled n b l (e ∙ ap some (sym t)), ap (doubled n) t, t, h))
