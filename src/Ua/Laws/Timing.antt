-- ===== src/Ua/Laws/Timing.antt =====
-- The timers and the account of a call (sippy/ua.go, sippy/uac_state_idle.go).
use go_b2bua.Prelude.{
  refl, ◌-◌, false, minus, pos, ℕ, ◌+◌, ◌≤◌, ◌<◌, true, Option, none, some, List, [], ◌∷◌, ◌≡◌,
  arith, ◌⊎◌,
}
use go_b2bua.Ua.State.{Ua}
use go_b2bua.Ua.Timers.{get_acct}
use go_b2bua.Ua.Uac.Idle.{set_deadlines}
use go_b2bua.Ua.Trace.{Trace, IsFresh}
use go_b2bua.Ua.Trace.Laws.{trace-Ordered}

abbrev pub LimitsAll : ℕ → List (ℕ × ℕ) → Type 0
LimitsAll t [] = Unit
LimitsAll t ((k, s) ∷ m) = (t ≤ s) × LimitsAll t m

abbrev pub IsTime : ℕ → List (ℕ × ℕ) → Type 0
IsTime t [] = ⊥
IsTime t ((k, s) ∷ m) = (t ≡ s) ⊎ IsTime t m

-- what the credit timer is armed with
abbrev pub Armed : Option ℕ → List (ℕ × ℕ) → ℕ → Option ℕ → Type 0
Armed before m now after =
    ((m ≡ []) × (after ≡ before))
    ⊎ ((t : ℕ) × LimitsAll t m × IsTime t m × (after ≡ some (t - now)))

-- Is the first time set, it lies before the second if that one is set.
abbrev pub Before : Option ℕ → Option ℕ → Type 0
Before (some a) (some b) = a < b
Before _ _ = Unit

-- On a call with no deadlines yet, the deadlines that a new client call gets are in order: that
-- for a reply before that for progress, and both before that of the call.
pub set_deadlines-Before :
    (t : ℕ) (u : Ua)
    → u.stamps.nr_mtime ≡ none
    → u.stamps.np_mtime ≡ none
    → u.stamps.ex_mtime ≡ none
    → Before (set_deadlines t u).stamps.nr_mtime (set_deadlines t u).stamps.np_mtime
      × Before (set_deadlines t u).stamps.nr_mtime (set_deadlines t u).stamps.ex_mtime
      × Before (set_deadlines t u).stamps.np_mtime (set_deadlines t u).stamps.ex_mtime
unfolding set_deadlines
set_deadlines-Before t u a b c = ground arith

minus_exact : (c d : ℕ) → c ≤ d → (n : ℕ) × (minus d c ≡ pos n) × (c + n ≡ d)
minus_exact c d h = (d - c, ground (arith, h), omega (arith, h))

-- After any life of a user agent that started afresh, and whatever time it is asked with, the
-- account of a call that was connected and has ended is exact: the duration is not negative, and it
-- leads from the connect time to the disconnect time. Until it ends, the time that it is asked with
-- stands for the disconnect time.
pub get_acct-exact :
    (v u : Ua)
    → IsFresh v
    → Trace v u
    → (given : Option ℕ) (c : ℕ) → u.stamps.connect_ts ≡ some c
    → ((get_acct given u).is_connected ≡ true)
      × ((d : ℕ)
          → u.stamps.disconnect_ts ≡ some d
          → ((get_acct given u).is_disconnected ≡ true)
            × (n : ℕ) × ((get_acct given u).duration ≡ pos n)
            × (c + n ≡ d))
      × ((t : ℕ)
          → u.stamps.disconnect_ts ≡ none
          → given ≡ some t
          → ((get_acct given u).is_disconnected ≡ false)
            × ((get_acct given u).duration ≡ minus t c))
unfolding get_acct
get_acct-exact v u f life given c p = (
  ground (arith, p),
  λ d q.
      let o : c ≤ d = (let w = trace-Ordered v u f life in ground (arith, w, p, q)) in
      let n = minus_exact c d o in rw (p, q) (refl, n.0, n.1, n.2),
  λ t q g. ground (arith, p, q, g),
)
