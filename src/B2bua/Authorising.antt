-- ===== src/B2bua/Authorising.antt =====
-- What the call controller does with the answer of the authorisation (`rDone` of
-- cmd/b2bua_radius/call_controller.go): the routes of the call, and the first leg.
use Prim.Native.String.{len, slice}
use text.Mathlib.Text.{starts_with, ◌==◌ as str_eq}
use go_b2bua.Prelude.{
  ℤ, pos, ℕ, suc, Bool, true, false, ◌&&◌, ◌||◌, String, Option, none, some, List, [], ◌∷◌, ◌++◌,
  ◌==◌, if◌then◌else◌,
}
use go_b2bua.Sip.{Header}
use go_b2bua.Ua.State.{UaStateId, uas_state_trying}
use go_b2bua.B2bua.Duration.{seconds, is_zero}
use go_b2bua.B2bua.Route.{B2bRoute, customize}
use go_b2bua.B2bua.State.{
  cc_ar_complete, cc_dead, fake_accounting, radius_accounting, fail_a, disc_acct_a, Cc, enter, note,
}
use go_b2bua.B2bua.Placing.{Host, tell, refuse, place_originate}

abbrev pub is_trying : UaStateId → Bool
is_trying uas_state_trying = true
is_trying _ = false

-- `RadiusResult`, with the name and the value of each attribute
pub record RadiusResult : Type 0 where
  pub rcode : ℕ
  pub avps : List (String × String)

abbrev pub is_ivr_in : String × String → Bool
is_ivr_in avp = str_eq avp.0 "h323-ivr-in"

abbrev or_zero : Option ℤ → ℤ
or_zero none = pos 0
or_zero (some v) = seconds v

abbrev add_route : Option B2bRoute → List B2bRoute → List B2bRoute
add_route none rs = rs
add_route (some r) rs = r ∷ rs

abbrev challenge_code : Option Header → ℕ
challenge_code none = 403
challenge_code (some h) = 401

abbrev challenge_reason : Option Header → String
challenge_reason none = "Auth Failed"
challenge_reason (some h) = "Unauthorized"

module _ (host : Host) where
  -- the credit time: of the first attribute with this name, if it is a number
  abbrev pub credit_of : List (String × String) → ℤ
  credit_of [] = pos 0
  credit_of (avp ∷ avps) = if is_ivr_in avp then or_zero (host.atoi avp.1) else credit_of avps

  abbrev pub routes_of : List (String × String) → List B2bRoute
  routes_of [] = []
  routes_of (avp ∷ avps) =
      if is_ivr_in avp && starts_with avp.1 "Routing:"
      then add_route (host.new_route (slice avp.1 8 (len avp.1))) (routes_of avps)
      else routes_of avps

  abbrev pub routing_of : Option B2bRoute → List (String × String) → List B2bRoute
  routing_of none avps = routes_of avps
  routing_of (some r) avps = r ∷ []

  -- a route for this call; it is customized twice
  unfoldable pub customized : ℕ → ℤ → Cc → B2bRoute → B2bRoute
  customized rnum credit c r =
      customize rnum c.cld c.cli credit c.pass_headers (seconds host.max_credit_time)
        (customize rnum c.cld c.cli (pos 0) c.pass_headers (pos 0) r)

  -- the routes from number `suc n` on, without those that have no time left
  unfoldable pub usable : ℕ → ℤ → Cc → List B2bRoute → List B2bRoute
  unfolding customized
  usable n credit c [] = []
  usable n credit c (r ∷ rs) =
      let rest = usable (suc n) credit c rs in
      let route = customized (suc n) credit c r in
      if is_zero route.credit_time || is_zero route.expires then rest else route ∷ rest

  -- the next route, if there is one
  unfoldable pub place_next : List B2bRoute → Cc → Cc
  place_next [] c = c
  place_next (r ∷ rs) c = place_originate host r (record c { routes = rs })

  unfoldable pub hunt : List B2bRoute → Cc → Cc
  unfolding place_next
  hunt [] c = refuse host 500 "Internal Server Error (3)" c
  hunt (r ∷ rs) c = place_next (r ∷ rs) (enter cc_ar_complete c)

  unfoldable pub route_call : ℤ → List B2bRoute → Cc → Cc
  unfolding hunt usable
  route_call credit [] c = refuse host 500 "Internal Server Error (2)" c
  route_call credit (r ∷ rs) c = hunt (c.routes ++ usable 0 credit c (r ∷ rs)) c

  -- the call is not authorised
  unfoldable pub reject : Cc → Cc
  reject c =
      if is_trying c.a_state
      then enter cc_dead (
          tell host (fail_a (challenge_code c.challenge) (challenge_reason c.challenge) c.challenge)
            c)
      else c

  unfoldable pub accept : List (String × String) → Cc → Cc
  unfolding route_call
  accept avps c =
      let billed = record c {
        acct_a = some (if host.acct_enable then radius_accounting else fake_accounting);
      } in
      let routed = route_call (credit_of avps) (routing_of host.static_route avps) billed in
      if is_trying c.a_state then routed else note disc_acct_a billed

  -- `rDone_nolock`
  unfoldable pub r_done : Option RadiusResult → Cc → Cc
  unfolding reject accept
  r_done none c = reject c
  r_done (some results) c =
      let accepted = accept results.avps c in
      let rejected = reject c in if results.rcode == 0 then accepted else rejected

  -- the answer of the authorisation, which comes once (`rDone`)
  unfoldable pub auth_done : Option RadiusResult → Cc → Cc
  unfolding r_done
  auth_done results c =
      let done = r_done results (record c { asked = false }) in if c.asked then done else c
