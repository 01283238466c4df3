-- ===== src/Ua/Timers.antt =====
-- The timers and time stamps of `Ua` (sippy/ua.go).
use go_b2bua.Prelude.{
  ℤ, pos, minus, ℕ, ◌+◌, ◌-◌, Bool, true, false, Option, none, some, List, [], ◌∷◌, ltb, leb, ◌==◌,
  is_some, if◌then◌else◌,
}
use go_b2bua.Ua.State.{Stamps, Timers, Ua}

abbrev stamp : Ua → Stamps → Ua
stamp u s = record u { stamps = s }

abbrev arm : Ua → Timers → Ua
arm u t = record u { timers = t }

-- A timer that is nil stays nil when it is cancelled.
unfoldable pub cancel_expire_timer : Ua → Ua
cancel_expire_timer u = record u { timers = record (u.timers) { expire = none } }

unfoldable pub cancel_no_progress_timer : Ua → Ua
cancel_no_progress_timer u = record u { timers = record (u.timers) { no_progress = none } }

unfoldable pub cancel_no_reply_timer : Ua → Ua
cancel_no_reply_timer u = record u { timers = record (u.timers) { no_reply = none } }

unfoldable pub cancel_credit_timer : Ua → Ua
cancel_credit_timer u = record u { timers = record (u.timers) { credit = none } }

-- `t.Sub(now)` of a time that may be nil; the callers test it first
abbrev sub_now : Option ℕ → ℕ → ℕ
sub_now none now = 0
sub_now (some t) now = t - now

unfoldable pub start_no_reply_timer : Ua → Ua
start_no_reply_timer u = record u {
  timers = record (u.timers) { no_reply = some (sub_now u.stamps.nr_mtime u.world.now) };
}

unfoldable pub start_no_progress_timer : Ua → Ua
start_no_progress_timer u = record u {
  timers = record (u.timers) { no_progress = some (sub_now u.stamps.np_mtime u.world.now) };
}

-- With a start time that lies after `now`, `now.Sub(start)` is negative and adds to the time left.
unfoldable pub start_expire_timer : ℕ → Ua → Ua
start_expire_timer start u = record u {
  timers = record (u.timers) {
    expire = some (
        if u.opts.expire_starts_on_setup
        then sub_now u.stamps.ex_mtime u.world.now
        else u.opts.expire_time + start - u.world.now);
  };
}

-- `self.credit_times[0] = t`
abbrev pub set_credit : ℕ → List (ℕ × ℕ) → List (ℕ × ℕ)
set_credit t [] = (0, t) ∷ []
set_credit t ((k, s) ∷ m) = if k == 0 then (0, t) ∷ m else (k, s) ∷ set_credit t m

abbrev pub add_credit : ℕ → Option ℕ → List (ℕ × ℕ) → List (ℕ × ℕ)
add_credit rtime none m = m
add_credit rtime (some d) m = set_credit (rtime + d) m

-- the loop over `credit_times`
unfoldable pub earliest : Option ℕ → List (ℕ × ℕ) → Option ℕ
earliest best [] = best
earliest none ((k, t) ∷ m) = earliest (some t) m
earliest (some b) ((k, t) ∷ m) = earliest (some (if ltb t b then t else b)) m

abbrev pub arm_credit : Option ℕ → Ua → Ua
arm_credit none u = u
arm_credit (some t) u = record u { timers = record (u.timers) { credit = some (t - u.world.now) } }

unfoldable pub start_credit_timer : ℕ → Ua → Ua
start_credit_timer rtime u =
    let m = add_credit rtime u.credit_time u.credit_times in
    arm_credit (earliest none m) (record u { credit_times = m; credit_time = none })

unfoldable pub set_setup_ts : ℕ → Ua → Ua
set_setup_ts t u = stamp u (record (u.stamps) { setup_ts = some t })

-- the time `t`, or the other one if that is set and earlier (`clamp_low`: later)
abbrev clamp_high : Option ℕ → ℕ → ℕ
clamp_high none t = t
clamp_high (some d) t = if ltb d t then d else t

abbrev clamp_low : Option ℕ → ℕ → ℕ
clamp_low none t = t
clamp_low (some c) t = if ltb t c then c else t

unfoldable pub set_disconnect_ts : ℕ → Ua → Ua
set_disconnect_ts t u =
    stamp u (record (u.stamps) { disconnect_ts = some (clamp_low u.stamps.connect_ts t) })

abbrev first_connect : Option ℕ → Option ℕ → ℕ → ℕ
first_connect (some c) disc t = c
first_connect none disc t = clamp_high disc t

unfoldable pub set_connect_ts : ℕ → Ua → Ua
set_connect_ts t u = stamp u (record (u.stamps) {
  connect_ts = some (first_connect u.stamps.connect_ts u.stamps.disconnect_ts t);
})

abbrev or_else : Option ℕ → ℕ → ℕ
or_else none t = t
or_else (some s) t = s

unfoldable pub set_p100_ts : ℕ → Ua → Ua
set_p100_ts t u = stamp u (record (u.stamps) { p100_ts = some (or_else u.stamps.p100_ts t) })

unfoldable pub set_p1xx_ts : ℕ → Ua → Ua
set_p1xx_ts t u = stamp u (record (u.stamps) { p1xx_ts = some t })

unfoldable pub set_ex_mtime : ℕ → Ua → Ua
set_ex_mtime t u = stamp u (record (u.stamps) { ex_mtime = some t })

unfoldable pub set_np_mtime : ℕ → Ua → Ua
set_np_mtime t u = stamp u (record (u.stamps) { np_mtime = some t })

unfoldable pub set_nr_mtime : ℕ → Ua → Ua
set_nr_mtime t u = stamp u (record (u.stamps) { nr_mtime = some t })

-- `setup_ts != nil && ! setup_ts.After(t)`
abbrev is_after_setup : Option ℕ → ℕ → Bool
is_after_setup none t = false
is_after_setup (some s) t = leb s t

-- The choice of the disconnect time that the client states make: `t`, or the clock when the call
-- has no setup time or that lies after `t`.
unfoldable pub stamp_disconnect : ℕ → Ua → Ua
unfolding set_disconnect_ts
stamp_disconnect t u =
    set_disconnect_ts (if is_after_setup u.stamps.setup_ts t then t else u.world.now) u

-- durations are signed
pub record Acct : Type 0 where
  pub duration : ℤ
  pub delay : ℤ
  pub is_connected : Bool
  pub is_disconnected : Bool

abbrev acct_at : Option ℕ → ℕ → Option ℕ → Bool → Acct
acct_at (some c) d setup closed = record {
  duration = minus d c;
  delay = minus c (or_else setup 0);
  is_connected = true;
  is_disconnected = closed;
}
acct_at none d setup closed = record {
  duration = pos 0;
  delay = minus d (or_else setup 0);
  is_connected = false;
  is_disconnected = closed;
}

abbrev end_time : Option ℕ → Option ℕ → ℕ → ℕ
end_time (some d) given now = d
end_time none given now = or_else given now

-- `GetAcct`; the setup time is set whenever a call is accounted
unfoldable pub get_acct : Option ℕ → Ua → Acct
get_acct given u =
    acct_at u.stamps.connect_ts (end_time u.stamps.disconnect_ts given u.world.now)
      u.stamps.setup_ts (is_some u.stamps.disconnect_ts)
