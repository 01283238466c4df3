-- ===== src/B2bua/Hunting.antt =====
-- The routes of a call are tried in their order (cmd/b2bua_radius/call_controller.go).
pub mod Routing
pub mod Beginning
pub mod Steps
use go_b2bua.Prelude.{
  ℤ, ℕ, zero, suc, ◌+◌, ◌≤◌, ◌<◌, Bool, true, false, not, ◌&&◌, ◌||◌, String, Option, none, some,
  List, [], ◌∷◌, ◌≡◌, ◌∙◌, refl, sym, ap, arith, if_lem, is_some, if◌then◌else◌, leb, find,
  string_discrete,
}
use text.Mathlib.Text.{◌==◌ as str_eq}
use mathlib.Core.Path.{subst}
use go_b2bua.Sip.{HostPort, Header}
use go_b2bua.Event.{Kind, CcEvent}
use go_b2bua.B2bua.Route.{B2bRoute, customize, get_nh_addr}
use go_b2bua.B2bua.State.{
  CcState, Order, Leg, Cc, enter, note, note_if, Reaction, on_a_conn, on_o_conn, on_o_disc,
  stop_auth, leave, stop_rtp, on_a_disc, on_a_dead, on_o_dead, react, react_all, new_call, cc_dead,
}
use go_b2bua.B2bua.Placing.{
  Host, tell, refuse, make_leg, send_try, send_try_of, start_group, group_args, place_to,
  place_number, place_originate,
}
use go_b2bua.B2bua.Authorising.{RadiusResult}
use go_b2bua.B2bua.Controller.{is_idle, Input, step, steps}

-- the number of the latest leg
abbrev pub last_tried : List Leg → ℕ
last_tried [] = 0
last_tried (l ∷ ls) = l.rnum

-- every leg is for a later route than the legs before it
unfoldable pub InOrder : List Leg → Type 0
InOrder [] = Unit
InOrder (l ∷ ls) = (last_tried ls < l.rnum) × InOrder ls

-- the routes come in their order, all after number `n`
unfoldable pub Ascending : ℕ → List B2bRoute → Type 0
Ascending n [] = Unit
Ascending n (r ∷ rs) = (n < r.rnum) × Ascending r.rnum rs

-- Nothing is tried before the answer of the authorisation, which is not asked for before the call
-- begins.
pub record IsHunting (c : Cc) : Type 0 where
  pub tried : InOrder c.legs
  pub pending : Ascending (last_tried c.legs) c.routes
  pub untried : (c.asked ≡ true) → (c.legs ≡ []) × (c.routes ≡ [])
  pub unbegun : is_idle c.state ≡ true → (c.legs ≡ []) × (c.routes ≡ []) × (c.asked ≡ false)

-- what most of the code leaves alone
abbrev pub Quiet : Cc → Cc → Type 0
Quiet c d =
    (d.legs ≡ c.legs)
    × (d.routes ≡ c.routes)
    × (d.asked ≡ c.asked)
    × (is_idle d.state ≡ true → is_idle c.state ≡ true)

pub react-Quiet : (r : Reaction) (c : Cc) → Quiet c (react r c)
unfolding react on_a_conn on_o_conn on_o_disc on_a_disc on_a_dead on_o_dead
react-Quiet (Reaction.a_turns st) c = (refl, refl, refl, λ h. h)
react-Quiet (Reaction.o_turns st) c = (refl, refl, refl, λ h. h)
react-Quiet Reaction.a_conn c = ground arith
react-Quiet Reaction.a_disc c = ground arith
react-Quiet Reaction.a_dead c = ground arith
react-Quiet Reaction.o_conn c = ground arith
react-Quiet Reaction.o_disc c = ground arith
react-Quiet Reaction.o_dead c = ground arith

then_Quiet : (c d e : Cc) → Quiet c d → Quiet d e → Quiet c e
then_Quiet c d e p q = (q.0 ∙ p.0, q.1 ∙ p.1, q.2 ∙ p.2, λ h. p.3 (q.3 h))

react_all-Quiet : (rs : List Reaction) (c : Cc) → Quiet c (react_all rs c)
unfolding react_all
react_all-Quiet [] c = (refl, refl, refl, λ h. h)
react_all-Quiet (r ∷ rs) c =
    then_Quiet c (react r c) (react_all rs (react r c)) (react-Quiet r c)
      (react_all-Quiet rs (react r c))

pub Quiet-IsHunting : (c d : Cc) → Quiet c d → IsHunting c → IsHunting d
Quiet-IsHunting c d q h = record {
  tried = subst InOrder (sym q.0) h.tried;
  pending = rw (q.0, q.1) h.pending;
  untried = λ a. let p = h.untried (sym q.2 ∙ a) in (q.0 ∙ p.0, q.1 ∙ p.1);
  unbegun = λ i. let p = h.unbegun (q.3 i) in (q.0 ∙ p.0, q.1 ∙ p.1, q.2 ∙ p.2);
}

pub Ascending-weaken : (m n : ℕ) (rs : List B2bRoute) → m < n → Ascending n rs → Ascending m rs
unfolding Ascending
Ascending-weaken m n [] l h = h
Ascending-weaken m n (r ∷ rs) l h = (omega (arith, l, h.0), h.1)

-- the call is under way, and the route comes after the legs and before the other routes
pub record IsNext (r : B2bRoute) (c : Cc) : Type 0 where
  pub tried : InOrder c.legs
  pub later : last_tried c.legs < r.rnum
  pub pending : Ascending r.rnum c.routes
  pub begun : is_idle c.state ≡ false
  pub unasked : c.asked ≡ false

next-IsHunting : (r : B2bRoute) (c : Cc) → IsNext r c → IsHunting c
next-IsHunting r c h = record {
  tried = h.tried;
  pending = Ascending-weaken (last_tried c.legs) r.rnum c.routes h.later h.pending;
  untried = λ a. cc (h.unasked, a);
  unbegun = λ i. cc (h.begun, i);
}

module _ (host : Host) where
  pub tell-Quiet : (o : Order) (c : Cc) → Quiet c (tell host o c)
  unfolding tell
  tell-Quiet o c = react_all-Quiet (host.reactions o c) (note o c)

  pub refuse-Quiet : (scode : ℕ) (reason : String) (c : Cc) → Quiet c (refuse host scode reason c)
  unfolding refuse
  refuse-Quiet scode reason c =
      let q = tell-Quiet (Order.fail_a scode reason none) c in (q.0, q.1, q.2, λ h. cc h)

  make_leg-IsHunting :
      (r : B2bRoute) (bill_host : String) (nh_address : HostPort) (c : Cc)
      → IsNext r c
      → IsHunting (make_leg host r bill_host nh_address c)
  unfolding make_leg InOrder
  make_leg-IsHunting r bill_host nh_address c h = record {
    tried = (h.later, h.tried);
    pending = h.pending;
    untried = λ a. cc (h.unasked, a);
    unbegun = λ i. cc (h.begun, i);
  }

  send_try-Quiet :
      (r : B2bRoute) (cld : String) (e : CcEvent) (max_forwards : Option (Option ℕ)) (c : Cc)
      → Quiet c (send_try host r cld e max_forwards c)
  unfolding send_try
  send_try-Quiet r cld e none c = tell-Quiet _ c
  send_try-Quiet r cld e (some none) c = (refl, refl, refl, λ h. h)
  send_try-Quiet r cld e (some (some n)) c =
      if_lem (λ d. Quiet c d) (leb n 1) (λ _. refuse-Quiet 483 "Too Many Hops" c)
        (λ _. tell-Quiet _ c)

  send_try_of-Quiet :
      (r : B2bRoute) (cld : String) (e : Option CcEvent) (c : Cc)
      → Quiet c (send_try_of host r cld e c)
  send_try_of-Quiet r cld none c = (refl, refl, refl, λ h. h)
  send_try_of-Quiet r cld (some e) c = send_try-Quiet r cld e e.max_forwards c

  start_group-Quiet : (p : Option (ℤ × ℤ)) (c : Cc) → Quiet c (start_group host p c)
  start_group-Quiet none c = (refl, refl, refl, λ h. h)
  start_group-Quiet (some p) c = (refl, refl, refl, λ h. h)

  place_to-IsHunting :
      (r : B2bRoute) (cld bill_host : String) (nh_address : Option HostPort) (c : Cc)
      → IsNext r c
      → IsHunting (place_to host r cld bill_host nh_address c)
  unfolding place_to
  place_to-IsHunting r cld bill_host none c h = next-IsHunting r c h
  place_to-IsHunting r cld bill_host (some nh_address) c h =
      let made = make_leg host r bill_host nh_address c in
      let args = group_args host (find string_discrete "gt" r.params) in
      Quiet-IsHunting (start_group host args made) _
        (send_try_of-Quiet r cld made.e_try (start_group host args made))
        (Quiet-IsHunting made (start_group host args made) (start_group-Quiet args made)
          (make_leg-IsHunting r bill_host nh_address c h))

  place_number-IsHunting :
      (r : B2bRoute) (cld : Option String) (c : Cc)
      → IsNext r c
      → IsHunting (place_number host r cld c)
  unfolding place_number
  place_number-IsHunting r none c h =
      Quiet-IsHunting c _ (refuse-Quiet 500 "Internal Server Error (7)" c) (next-IsHunting r c h)
  place_number-IsHunting r (some cld) c h =
      if_lem IsHunting (str_eq r.hostport "sip-ua")
        (λ _. place_to-IsHunting r cld c.source.host (some c.source) c h)
        (λ _. place_to-IsHunting r cld r.hostonly _ c h)

  pub place_originate-IsHunting :
      (r : B2bRoute) (c : Cc) → IsNext r c → IsHunting (place_originate host r c)
  unfolding place_originate
  place_originate-IsHunting r c h =
      place_number-IsHunting r _ (record c { huntstop_scodes = r.huntstop_scodes })
        record {
          tried = h.tried;
          later = h.later;
          pending = h.pending;
          begun = h.begun;
          unasked = h.unasked;
        }
