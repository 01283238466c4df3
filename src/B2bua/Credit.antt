-- ===== src/B2bua/Credit.antt =====
-- The credit time of a route and of its leg (`customize` of cmd/b2bua_radius/b2broute.go, and
-- `placeOriginate` of cmd/b2bua_radius/call_controller.go).
use go_b2bua.Prelude.{
  ℤ, pos, negsuc, ℕ, Bool, false, not, ◌&&◌, ◌||◌, String, none, List, ◌≡◌, refl, arith, if_lem,
  if◌then◌else◌,
}
use go_b2bua.Sip.{HostPort, Header}
use go_b2bua.B2bua.Duration.{seconds, is_zero, is_positive, exceeds}
use go_b2bua.B2bua.Route.{B2bRoute, limited, customize}
use go_b2bua.B2bua.State.{Cc}
use go_b2bua.B2bua.Placing.{Host, when_positive, leg_of}
use go_b2bua.B2bua.Authorising.{customized}

exceeds_self : (m : ℤ) → exceeds m m ≡ false
exceeds_self (pos n) = ground arith
exceeds_self (negsuc n) = ground arith

-- a credit time under the limit `m`
abbrev Within : ℤ → ℤ → Type 0
Within m t = (is_zero t ≡ false) × (exceeds t m ≡ false)

limited-Within : (m t : ℤ) → is_zero m ≡ false → Within m (limited m t)
limited-Within m t h =
    if_lem (Within m) (not (is_zero m) && (is_zero t || exceeds t m)) (λ _. (h, exceeds_self m))
      (kept (is_zero t) (exceeds t m) (is_zero m) h)
  where
    kept : (z x y : Bool) → y ≡ false → not y && (z || x) ≡ false → (z ≡ false) × (x ≡ false)
    kept z x y = ground arith

negative-timer : (m t : ℤ) → is_positive m ≡ false → Within m t → when_positive t ≡ none
negative-timer (pos a) (pos b) h w = ground arith
negative-timer (pos a) (negsuc b) h w = refl
negative-timer (negsuc a) (pos b) h w = cc (w.1)
negative-timer (negsuc a) (negsuc b) h w = refl

customize-Within :
    (rnum : ℕ) (cld cli : String) (credit : ℤ) (hs : List Header) (m : ℤ) (r : B2bRoute)
    → is_zero m ≡ false
    → Within m (customize rnum cld cli credit hs m r).credit_time
unfolding customize
customize-Within rnum cld cli credit hs m r h =
    limited-Within m (if r.crt_set then r.credit_time else credit) h

module _ (host : Host) where
  -- With a limit on the length of calls that is not 0, a route has a credit time other than 0, so
  -- that none is left out for the want of it, and one that does not exceed the limit. Where the
  -- limit is negative, as the default of -1 second is, no leg gets a credit timer, whatever credit
  -- time its route names.
  pub customized-Limited :
      (rnum : ℕ) (credit : ℤ) (c d : Cc) (r : B2bRoute) (nh_address : HostPort)
      → is_zero (seconds host.max_credit_time) ≡ false
      → (is_zero (customized host rnum credit c r).credit_time ≡ false)
        × (exceeds (customized host rnum credit c r).credit_time (seconds host.max_credit_time)
            ≡ false)
        × (is_positive (seconds host.max_credit_time) ≡ false
            → (leg_of host (customized host rnum credit c r) nh_address d).credit_time ≡ none)
  unfolding customized
  customized-Limited rnum credit c d r nh_address h =
      let w =
        customize-Within rnum c.cld c.cli credit c.pass_headers (seconds host.max_credit_time)
          (customize rnum c.cld c.cli (pos 0) c.pass_headers (pos 0) r) h in
      (w.0, w.1, λ n. negative-timer (seconds host.max_credit_time) _ n w)
