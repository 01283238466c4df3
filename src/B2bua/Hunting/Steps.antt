-- ===== src/B2bua/Hunting/Steps.antt =====
-- The routes of a call are tried in their order, through every sequence of events, answers, timers
-- and reactions of its user agents (cmd/b2bua_radius/call_controller.go).
use mathlib.Core.Path.{subst}
use mathlib.Core.Option.{some-injective}
use go_b2bua.Prelude.{
  ℤ, ℕ, suc, Bool, true, false, ◌&&◌, String, Option, none, some, List, [], ◌∷◌, ◌≡◌, refl, arith,
  if_lem,
}
use go_b2bua.Sip.{HostPort, Header}
use go_b2bua.Event.{CcEvent}
use go_b2bua.B2bua.Route.{B2bRoute}
use go_b2bua.B2bua.State.{Order, Cc, new_call, disconnect_o, disconnect_a, CcState}
use go_b2bua.B2bua.Placing.{Host}
use go_b2bua.B2bua.Authorising.{place_next}
use go_b2bua.B2bua.Controller.{
  is_idle, is_ar_complete, is_waiting, hunts, recv_event_o, skip_to, is_num, is_over, last_num,
  skipped, expire_group, group_expires, Input, step, steps,
}
use go_b2bua.B2bua.Hunting.{
  last_tried, InOrder, Ascending, IsHunting, react-Quiet, Quiet-IsHunting, Ascending-weaken,
}
use go_b2bua.B2bua.Hunting.Routing.{told-IsHunting, place_next-IsHunting, auth_done-IsHunting}
use go_b2bua.B2bua.Hunting.Beginning.{recv_event_a-IsHunting}

module _ (host : Host) where
  hunts-IsHunting :
      (rs : List B2bRoute) (c : Cc)
      → c.routes ≡ rs
      → is_idle c.state ≡ false
      → IsHunting c
      → IsHunting (place_next host rs c)
  unfolding place_next
  hunts-IsHunting [] c e i h = h
  hunts-IsHunting (r ∷ rs) c e i h =
      place_next-IsHunting host (r ∷ rs) c h.tried
        (subst (Ascending (last_tried c.legs)) e h.pending) i (unasked c.asked refl) h
    where
      unasked : (b : Bool) → c.asked ≡ b → c.asked ≡ false
      unasked true a = let p = h.untried a in cc (e, p.1)
      unasked false a = a

  hunts-begun : (e : CcEvent) (c : Cc) → hunts e c ≡ true → is_idle c.state ≡ false
  hunts-begun e c = ground arith

  recv_event_o-IsHunting : (e : CcEvent) (c : Cc) → IsHunting c → IsHunting (recv_event_o host e c)
  unfolding recv_event_o
  recv_event_o-IsHunting e c h =
      if_lem IsHunting (hunts e c) (λ t. hunts-IsHunting c.routes c refl (hunts-begun e c t) h)
        (λ _. told-IsHunting host (Order.event_a (host.fixup_version e)) c h)

  -- the routes that are left come in their order too
  skip_to-Ascending :
      (skipto : ℤ) (rs ss : List B2bRoute) (n : ℕ)
      → Ascending n rs
      → skip_to skipto rs ≡ some ss
      → Ascending n ss
  unfolding skip_to Ascending
  skip_to-Ascending skipto [] ss n p = λ e. cc e
  skip_to-Ascending skipto (r ∷ rs) ss n p =
      if_lem (λ (o : Option (List B2bRoute)). o ≡ some ss → Ascending n ss) (is_num r.rnum skipto)
        (λ _ e. subst (Ascending n) (some-injective (r ∷ rs) ss e) p)
        (λ _ e. skip_to-Ascending skipto rs ss n (Ascending-weaken n r.rnum rs p.0 p.1) e)

  fewer-IsHunting :
      (r : B2bRoute) (rs ss : List B2bRoute) (c : Cc)
      → c.routes ≡ r ∷ rs
      → Ascending (last_tried c.legs) ss
      → is_idle c.state ≡ false
      → IsHunting c
      → IsHunting (record c { routes = ss })
  fewer-IsHunting r rs ss c e p i h = record {
    tried = h.tried;
    pending = p;
    untried = λ a. let q = h.untried a in cc (e, q.1);
    unbegun = λ j. cc (i, j);
  }

  skipped-IsHunting :
      (skipto : ℤ) (r : B2bRoute) (rs : List B2bRoute) (found : Option (List B2bRoute)) (c : Cc)
      → skip_to skipto (r ∷ rs) ≡ found
      → c.routes ≡ r ∷ rs
      → is_idle c.state ≡ false
      → IsHunting c
      → IsHunting (skipped host found c)
  unfolding Ascending
  skipped-IsHunting skipto r rs none c f e i h = fewer-IsHunting r rs [] c e tt i h
  skipped-IsHunting skipto r rs (some ss) c f e i h =
      told-IsHunting host disconnect_o (record c { routes = ss })
        (fewer-IsHunting r rs ss c e
          (skip_to-Ascending skipto (r ∷ rs) ss (last_tried c.legs)
            (subst (Ascending (last_tried c.legs)) e h.pending) f)
          i h)

  expire_group-IsHunting :
      (skipto : ℤ) (rs : List B2bRoute) (c : Cc)
      → c.routes ≡ rs
      → is_idle c.state ≡ false
      → IsHunting c
      → IsHunting (expire_group host skipto rs c)
  unfolding Ascending
  expire_group-IsHunting skipto [] c e i h = h
  expire_group-IsHunting skipto (r ∷ rs) c e i h =
      if_lem IsHunting (is_over r.rnum skipto) (λ _. h)
        (λ _.
          if_lem IsHunting (is_num (suc (last_num r rs)) skipto)
            (λ _. fewer-IsHunting r rs [] c e tt i h)
            (λ _. skipped-IsHunting skipto r rs (skip_to skipto (r ∷ rs)) c refl e i h))

  ar_complete-begun : (st : CcState) (b : Bool) → is_ar_complete st && b ≡ true → is_idle st ≡ false
  ar_complete-begun st b = ground arith

  group_expires-IsHunting :
      (skipto : ℤ) (c : Cc) → IsHunting c → IsHunting (group_expires host skipto c)
  unfolding group_expires
  group_expires-IsHunting skipto c h =
      if_lem IsHunting (is_ar_complete c.state && is_waiting c.a_state)
        (λ t.
          expire_group-IsHunting skipto c.routes c refl
            (ar_complete-begun c.state (is_waiting c.a_state) t) h)
        (λ _. h)

  step-IsHunting : (i : Input) (c : Cc) → IsHunting c → IsHunting (step host i c)
  unfolding step
  step-IsHunting (Input.from_a e) c h = recv_event_a-IsHunting host e c h
  step-IsHunting (Input.from_o e) c h = recv_event_o-IsHunting e c h
  step-IsHunting (Input.authorised results) c h = auth_done-IsHunting host results c h
  step-IsHunting (Input.group_over skipto) c h = group_expires-IsHunting skipto c h
  step-IsHunting Input.hang_up c h = told-IsHunting host disconnect_a c h
  step-IsHunting (Input.reacts r) c h = Quiet-IsHunting c _ (react-Quiet r c) h

  steps-IsHunting : (is : List Input) (c : Cc) → IsHunting c → IsHunting (steps host is c)
  unfolding steps
  steps-IsHunting [] c h = h
  steps-IsHunting (i ∷ is) c h = step-IsHunting i (steps host is c) (steps-IsHunting is c h)

  -- Through every sequence of events of both user agents, answers of the authorisation, timers of
  -- groups, hang-ups and reactions of the user agents, from a new call on: the legs that were made
  -- are for routes with ever higher numbers, so that no route is tried twice or out of its order;
  -- every route that is left comes after the latest leg's, in its order; and no leg is made and no
  -- route is known before the call begins, or while the answer of the authorisation is awaited.
  pub hunt-InOrder :
      (is : List Input) (remote_ip : String) (source : HostPort) (pass_headers : List Header)
      (challenge : Option Header)
      → IsHunting (steps host is (new_call remote_ip source pass_headers challenge))
  unfolding InOrder Ascending
  hunt-InOrder is remote_ip source pass_headers challenge =
      steps-IsHunting is (new_call remote_ip source pass_headers challenge) record {
        tried = tt;
        pending = tt;
        untried = λ _. (refl, refl);
        unbegun = λ _. (refl, refl, refl);
      }
