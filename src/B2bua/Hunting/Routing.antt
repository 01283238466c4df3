-- ===== src/B2bua/Hunting/Routing.antt =====
-- A call gets its routes and tries the first (`rDone` of cmd/b2bua_radius/call_controller.go).
use mathlib.Core.Path.{subst}
use go_b2bua.Prelude.{
  ℤ, ◌++◌, sym, ℕ, suc, true, false, ◌||◌, String, Option, none, some, List, [], ◌∷◌, ◌≡◌, refl,
  arith, if_lem, ◌==◌,
}
use go_b2bua.B2bua.Duration.{is_zero}
use go_b2bua.B2bua.Route.{B2bRoute, customize}
use go_b2bua.B2bua.State.{Order, Cc, enter, cc_ar_complete}
use go_b2bua.B2bua.Placing.{Host, tell, refuse}
use go_b2bua.B2bua.Authorising.{
  is_trying, RadiusResult, customized, usable, place_next, hunt, route_call, reject, accept, r_done,
  auth_done,
}
use go_b2bua.B2bua.Controller.{is_idle}
use go_b2bua.B2bua.Hunting.{
  last_tried, InOrder, Ascending, IsHunting, Quiet-IsHunting, Ascending-weaken, tell-Quiet,
  refuse-Quiet, place_originate-IsHunting,
}

-- nothing was tried and nothing is to be tried
pub record IsUntried (c : Cc) : Type 0 where
  pub legs : c.legs ≡ []
  pub routes : c.routes ≡ []
  pub unasked : c.asked ≡ false

-- a call with no leg and no route
pub still-IsHunting :
    (c : Cc)
    → c.legs ≡ []
    → c.routes ≡ []
    → (is_idle c.state ≡ true → c.asked ≡ false)
    → IsHunting c
unfolding InOrder Ascending
still-IsHunting c l r a = record {
  tried = rw l tt;
  pending = rw r tt;
  untried = λ _. (l, r);
  unbegun = λ i. (l, r, a i);
}

pub untried-IsHunting : (c : Cc) → IsUntried c → IsHunting c
untried-IsHunting c h = still-IsHunting c h.legs h.routes (λ _. h.unasked)

module _ (host : Host) where
  pub usable-Ascending :
      (n : ℕ) (credit : ℤ) (c : Cc) (rs : List B2bRoute) → Ascending n (usable host n credit c rs)
  unfolding usable customized customize Ascending
  usable-Ascending n credit c [] = tt
  usable-Ascending n credit c (r ∷ rs) =
      let rest = usable-Ascending (suc n) credit c rs in
      let route = customized host (suc n) credit c r in
      if_lem (Ascending n) (is_zero route.credit_time || is_zero route.expires)
        {x = usable host (suc n) credit c rs} {y = route ∷ usable host (suc n) credit c rs}
        (λ _. Ascending-weaken n (suc n) (usable host (suc n) credit c rs) (omega arith) rest)
        (λ _. (omega arith, rest))

  pub place_next-IsHunting :
      (rs : List B2bRoute) (c : Cc)
      → InOrder c.legs
      → Ascending (last_tried c.legs) rs
      → is_idle c.state ≡ false
      → c.asked ≡ false
      → IsHunting c
      → IsHunting (place_next host rs c)
  unfolding place_next Ascending
  place_next-IsHunting [] c t p i a h = h
  place_next-IsHunting (r ∷ rs) c t p i a h =
      place_originate-IsHunting host r (record c { routes = rs })
        record { tried = t; later = p.0; pending = p.1; begun = i; unasked = a }

  pub refused-IsHunting :
      (scode : ℕ) (reason : String) (c : Cc) → IsHunting c → IsHunting (refuse host scode reason c)
  refused-IsHunting scode reason c = Quiet-IsHunting c _ (refuse-Quiet host scode reason c)

  pub told-IsHunting : (o : Order) (c : Cc) → IsHunting c → IsHunting (tell host o c)
  told-IsHunting o c = Quiet-IsHunting c _ (tell-Quiet host o c)

  hunt-IsHunting :
      (rs : List B2bRoute) (c : Cc) → Ascending 0 rs → IsUntried c → IsHunting (hunt host rs c)
  unfolding hunt InOrder
  hunt-IsHunting [] c p h = refused-IsHunting 500 _ c (untried-IsHunting c h)
  hunt-IsHunting (r ∷ rs) c p h =
      place_next-IsHunting (r ∷ rs) (enter cc_ar_complete c) (rw h.legs tt) (rw h.legs p) refl
        h.unasked
        (untried-IsHunting (enter cc_ar_complete c)
          record { legs = h.legs; routes = h.routes; unasked = h.unasked })

  route_call-IsHunting :
      (credit : ℤ) (rs : List B2bRoute) (c : Cc)
      → IsUntried c
      → IsHunting (route_call host credit rs c)
  unfolding route_call
  route_call-IsHunting credit [] c h = refused-IsHunting 500 _ c (untried-IsHunting c h)
  route_call-IsHunting credit (r ∷ rs) c h =
      hunt-IsHunting _ c
        (subst (λ xs. Ascending 0 (xs ++ usable host 0 credit c (r ∷ rs))) (sym h.routes)
          (usable-Ascending 0 credit c (r ∷ rs)))
        h

  reject-IsHunting : (c : Cc) → IsHunting c → IsHunting (reject host c)
  unfolding reject
  reject-IsHunting c h =
      if_lem IsHunting (is_trying c.a_state)
        (λ _.
          let o = Order.fail_a _ _ c.challenge in
          let q = tell-Quiet host o c in Quiet-IsHunting c _ (q.0, q.1, q.2, λ i. cc i) h)
        (λ _. h)

  accept-IsHunting :
      (avps : List (String × String)) (c : Cc) → IsUntried c → IsHunting (accept host avps c)
  unfolding accept
  accept-IsHunting avps c h =
      if_lem IsHunting (is_trying c.a_state)
        (λ _.
          route_call-IsHunting _ _ _
            record { legs = h.legs; routes = h.routes; unasked = h.unasked })
        (λ _. still-IsHunting _ h.legs h.routes (λ _. h.unasked))

  pub r_done-IsHunting :
      (results : Option RadiusResult) (c : Cc) → IsUntried c → IsHunting (r_done host results c)
  unfolding r_done
  r_done-IsHunting none c h = reject-IsHunting c (untried-IsHunting c h)
  r_done-IsHunting (some results) c h =
      if_lem IsHunting (results.rcode == 0) (λ _. accept-IsHunting results.avps c h)
        (λ _. reject-IsHunting c (untried-IsHunting c h))

  pub auth_done-IsHunting :
      (results : Option RadiusResult) (c : Cc) → IsHunting c → IsHunting (auth_done host results c)
  unfolding auth_done
  auth_done-IsHunting results c h =
      if_lem IsHunting c.asked
        (λ a.
          let p = h.untried a in
          r_done-IsHunting results (record c { asked = false })
            record { legs = p.0; routes = p.1; unasked = refl })
        (λ _. h)
