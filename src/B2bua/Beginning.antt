-- ===== src/B2bua/Beginning.antt =====
-- How a call begins: the first event of `uaA` (`RecvEvent` of cmd/b2bua_radius/call_controller.go).
use Prim.Native.String.{len, slice}
use text.Mathlib.Text.{starts_with, ◌==◌ as str_eq}
use go_b2bua.Prelude.{
  Bool, true, false, ◌||◌, String, Option, none, some, List, [], ◌∷◌, is_empty, if◌then◌else◌,
}
use go_b2bua.Sip.{Body}
use go_b2bua.Event.{Kind, CcEvent, try_ev}
use go_b2bua.B2bua.State.{cc_wait_route, disconnect_event_a, do_auth, Cc, enter}
use go_b2bua.B2bua.Placing.{Host, try_auth, tell, refuse, translated}
use go_b2bua.B2bua.Authorising.{r_done}

-- `len(xs) == 0`
abbrev pub is_nil {ℓ} : {A : Type ℓ} → List A → Bool
is_nil [] = true
is_nil (x ∷ xs) = false

abbrev map_body : (Body → Body) → Kind → Kind
map_body f (try_ev cid cli cld name auth (some body) routes) =
    try_ev cid cli cld name auth (some (f body)) routes
map_body f k = k

abbrev pub change_body : (Body → Body) → CcEvent → CcEvent
change_body f e = record e { kind = map_body f e.kind }

abbrev has_text : String → List String → Bool
has_text t [] = false
has_text t (u ∷ us) = str_eq u t || has_text t us

module _ (host : Host) where
  -- without a user name the address of the caller is the user
  abbrev pub ask_as : Option String → Cc → Cc
  ask_as none c = refuse host 500 "Internal Server Error (6)" c
  ask_as (some user) c =
      let name = if is_empty user then c.remote_ip else user in
      tell host (do_auth name) (record c { username = name; auth_proc = true; asked = true })

  abbrev auth_user_of : Option String → Option String
  auth_user_of none = some ""
  auth_user_of (some hf) = host.auth_user hf

  unfoldable pub authorise : CcEvent → Cc → Cc
  unfolding r_done
  authorise e c =
      let waiting = enter cc_wait_route (record c { e_try = some e }) in
      let unasked =
        r_done host (some record { rcode = 0; avps = [] })
          (record waiting { username = waiting.remote_ip }) in
      let asked = ask_as (auth_user_of (try_auth e.kind)) waiting in
      if host.auth_enable then asked else unasked

  unfoldable pub start_rtp : CcEvent → Cc → Cc
  unfolding authorise
  start_rtp e c =
      let without = authorise e c in
      let with_rtp = authorise e (record c { has_rtp = true }) in
      let failed = refuse host 500 "Internal Server Error (4)" c in
      if host.has_rtp_proxies then (if host.rtp_starts then with_rtp else failed) else without

  -- the translation of the number, on the number without the prefix that marks a NAT
  unfoldable pub translate : CcEvent → Option String → Cc → Cc
  unfolding start_rtp
  translate e none c = refuse host 500 "Internal Server Error (5)" (record c { cld = "" })
  translate e (some cld) c = start_rtp e (record c { cld = cld })

  unfoldable pub strip_nat : CcEvent → Cc → Cc
  unfolding translate
  strip_nat e c =
      let number = slice c.cld 4 (len c.cld) in
      let natted =
        translate (change_body host.append_nated e) (translated host host.static_tr_in number)
          (record c { cld = number }) in
      let plain = translate e (translated host host.static_tr_in c.cld) c in
      if starts_with c.cld "nat-" then natted else plain

  -- the formats that are allowed
  abbrev pub allowed : List String → List String
  allowed [] = []
  allowed (pt ∷ pts) = if has_text pt host.allowed_pts then pt ∷ allowed pts else allowed pts

  -- The formats are written back if some were left out, which comes to writing them back.
  abbrev pub filter_formats : String → List String → CcEvent → Cc → Cc
  filter_formats transport formats e c =
      let refused = refuse host 488 "Not Acceptable Here" c in
      let kept = strip_nat (change_body (host.set_formats (allowed formats)) e) c in
      let plain = strip_nat e c in
      if str_eq transport "rtp/avp"
      then (if is_nil (allowed formats) then refused else kept)
      else plain

  abbrev pub filter_sections : Option (Option (String × List String)) → CcEvent → Cc → Cc
  filter_sections none e c = refuse host 400 "Malformed SDP Body" c
  filter_sections (some none) e c = strip_nat e c
  filter_sections (some (some s)) e c = filter_formats s.0 s.1 e c

  abbrev pub check_body : Option Body → CcEvent → Cc → Cc
  check_body none e c = strip_nat e c
  check_body (some body) e c =
      let filtered = filter_sections (host.sections body) e c in
      let plain = strip_nat e c in if is_nil host.allowed_pts then plain else filtered

  -- the first event of `uaA`
  unfoldable pub begin : CcEvent → Kind → Cc → Cc
  begin e (try_ev cid cli cld name auth body routes) c =
      let called = record c { cli = cli; cld = cld; caller_name = name } in
      let refused = refuse host 500 "Internal Server Error (1)" called in
      let checked = check_body body e called in if is_empty cld then refused else checked
  begin e k c = tell host disconnect_event_a c
