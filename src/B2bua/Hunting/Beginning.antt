-- ===== src/B2bua/Hunting/Beginning.antt =====
-- A call begins (`RecvEvent` of cmd/b2bua_radius/call_controller.go, the events of `uaA`).
use Prim.Native.String.{len, slice}
use text.Mathlib.Text.{starts_with, ◌==◌ as str_eq}
use go_b2bua.Prelude.{
  true, false, ◌&&◌, String, Option, none, some, List, [], ◌≡◌, refl, if_lem, is_some, is_empty,
}
use go_b2bua.Sip.{Body}
use go_b2bua.Event.{Kind, CcEvent, try_ev}
use go_b2bua.B2bua.State.{Order, Cc, enter, cc_wait_route}
use go_b2bua.B2bua.Placing.{Host}
use go_b2bua.B2bua.Beginning.{
  ask_as, authorise, start_rtp, translate, strip_nat, change_body, allowed, filter_formats,
  filter_sections, check_body, begin, is_nil,
}
use go_b2bua.B2bua.Controller.{is_idle, passes_on, recv_event_a}
use go_b2bua.B2bua.Hunting.{IsHunting}
use go_b2bua.B2bua.Hunting.Routing.{
  IsUntried, still-IsHunting, untried-IsHunting, refused-IsHunting, told-IsHunting,
  r_done-IsHunting,
}

module _ (host : Host) where
  ask_as-IsHunting :
      (user : Option String) (c : Cc)
      → IsUntried c
      → is_idle c.state ≡ false
      → IsHunting (ask_as host user c)
  ask_as-IsHunting none c h i = refused-IsHunting host 500 _ c (untried-IsHunting c h)
  ask_as-IsHunting (some user) c h i =
      told-IsHunting host _ (record c { username = _; auth_proc = true; asked = true })
        (still-IsHunting _ h.legs h.routes (λ j. cc (i, j)))

  authorise-IsHunting : (e : CcEvent) (c : Cc) → IsUntried c → IsHunting (authorise host e c)
  unfolding authorise
  authorise-IsHunting e c h =
      let waiting : Cc = enter cc_wait_route (record c { e_try = some e }) in
      if_lem IsHunting host.auth_enable
        (λ _.
          ask_as-IsHunting _ waiting
            record { legs = h.legs; routes = h.routes; unasked = h.unasked } refl)
        (λ _.
          r_done-IsHunting host (some record { rcode = 0; avps = [] })
            (record waiting { username = waiting.remote_ip })
            record { legs = h.legs; routes = h.routes; unasked = h.unasked })

  start_rtp-IsHunting : (e : CcEvent) (c : Cc) → IsUntried c → IsHunting (start_rtp host e c)
  unfolding start_rtp
  start_rtp-IsHunting e c h =
      if_lem IsHunting host.has_rtp_proxies
        (λ _.
          if_lem IsHunting host.rtp_starts
            (λ _.
              authorise-IsHunting e (record c { has_rtp = true })
                record { legs = h.legs; routes = h.routes; unasked = h.unasked })
            (λ _. refused-IsHunting host 500 _ c (untried-IsHunting c h)))
        (λ _. authorise-IsHunting e c h)

  translate-IsHunting :
      (e : CcEvent) (cld : Option String) (c : Cc)
      → IsUntried c
      → IsHunting (translate host e cld c)
  unfolding translate
  translate-IsHunting e none c h =
      refused-IsHunting host 500 _ (record c { cld = "" })
        (still-IsHunting _ h.legs h.routes (λ _. h.unasked))
  translate-IsHunting e (some cld) c h =
      start_rtp-IsHunting e (record c { cld = cld })
        record { legs = h.legs; routes = h.routes; unasked = h.unasked }

  strip_nat-IsHunting : (e : CcEvent) (c : Cc) → IsUntried c → IsHunting (strip_nat host e c)
  unfolding strip_nat
  strip_nat-IsHunting e c h =
      if_lem IsHunting (starts_with c.cld "nat-")
        (λ _.
          translate-IsHunting (change_body host.append_nated e) _
            (record c { cld = slice c.cld 4 (len c.cld) })
            record { legs = h.legs; routes = h.routes; unasked = h.unasked })
        (λ _. translate-IsHunting e _ c h)

  filter_formats-IsHunting :
      (transport : String) (formats : List String) (e : CcEvent) (c : Cc)
      → IsUntried c
      → IsHunting (filter_formats host transport formats e c)
  filter_formats-IsHunting transport formats e c h =
      if_lem IsHunting (str_eq transport "rtp/avp")
        (λ _.
          if_lem IsHunting (is_nil (allowed host formats))
            (λ _. refused-IsHunting host 488 _ c (untried-IsHunting c h))
            (λ _.
              strip_nat-IsHunting (change_body (host.set_formats (allowed host formats)) e) c h))
        (λ _. strip_nat-IsHunting e c h)

  filter_sections-IsHunting :
      (sections : Option (Option (String × List String))) (e : CcEvent) (c : Cc)
      → IsUntried c
      → IsHunting (filter_sections host sections e c)
  filter_sections-IsHunting none e c h = refused-IsHunting host 400 _ c (untried-IsHunting c h)
  filter_sections-IsHunting (some none) e c h = strip_nat-IsHunting e c h
  filter_sections-IsHunting (some (some s)) e c h = filter_formats-IsHunting s.0 s.1 e c h

  check_body-IsHunting :
      (body : Option Body) (e : CcEvent) (c : Cc)
      → IsUntried c
      → IsHunting (check_body host body e c)
  check_body-IsHunting none e c h = strip_nat-IsHunting e c h
  check_body-IsHunting (some body) e c h =
      if_lem IsHunting (is_nil host.allowed_pts) (λ _. strip_nat-IsHunting e c h)
        (λ _. filter_sections-IsHunting (host.sections body) e c h)

  begin-IsHunting :
      (e : CcEvent) (k : Kind) (c : Cc) → IsUntried c → IsHunting c → IsHunting (begin host e k c)
  unfolding begin
  begin-IsHunting e (try_ev cid cli cld name auth body routes) c h g =
      let called : Cc = record c { cli = cli; cld = cld; caller_name = name } in
      let u : IsUntried called = record { legs = h.legs; routes = h.routes; unasked = h.unasked } in
      if_lem IsHunting (is_empty cld)
        (λ _. refused-IsHunting host 500 _ called (untried-IsHunting called u))
        (λ _. check_body-IsHunting body e called u)
  begin-IsHunting e _ c h g = told-IsHunting host Order.disconnect_event_a c g

  pub recv_event_a-IsHunting :
      (e : CcEvent) (c : Cc) → IsHunting c → IsHunting (recv_event_a host e c)
  unfolding recv_event_a
  recv_event_a-IsHunting e c h =
      if_lem IsHunting (is_idle c.state)
        (λ i.
          let p = h.unbegun i in
          begin-IsHunting e e.kind c record { legs = p.0; routes = p.1; unasked = p.2 } h)
        (λ _.
          if_lem IsHunting (passes_on c.state && is_some c.o_state)
            (λ _. told-IsHunting host (Order.event_o e) c h) (λ _. h))
