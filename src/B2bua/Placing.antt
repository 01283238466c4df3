-- ===== src/B2bua/Placing.antt =====
-- How the call controller makes an outgoing leg (`placeOriginate` of
-- cmd/b2bua_radius/call_controller.go).
use text.Mathlib.Text.{◌==◌ as str_eq}
use go_b2bua.Prelude.{
  ℤ, ℕ, ◌-◌, Bool, true, not, ◌&&◌, String, Option, none, some, List, ◌∷◌, ◌++◌, find, leb,
  string_discrete, is_empty, if◌then◌else◌,
}
use go_b2bua.Sip.{HostPort, Header, Body}
use go_b2bua.Event.{Kind, CcEvent, try_ev}
use go_b2bua.Ua.State.{ua_state_none}
use go_b2bua.B2bua.Duration.{is_positive}
use go_b2bua.B2bua.Route.{Ip, B2bRoute, get_nh_addr}
use go_b2bua.B2bua.State.{
  cc_dead, Order, fail_a, try_o, group_timer, Leg, LegTry, Cc, enter, note, Reaction, react_all,
}

-- The configuration, what the Go library and the parts that are not modelled compute, and what the
-- user agents do while they are told an order.
pub record Host : Type 0 where
  pub static_tr_in : String
  pub static_tr_out : String
  pub auth_enable : Bool
  pub acct_enable : Bool
  pub max_credit_time : ℤ
  pub allowed_pts : List String
  pub has_rtp_proxies : Bool
  pub static_route : Option B2bRoute
  -- the two headers of `cGUID`
  pub guid_headers : List Header
  -- `re_replace`; none is an error
  pub re_replace : String → String → Option String
  pub parse_ip : String → Option Ip
  pub atoi : String → Option ℤ
  -- `strings.SplitN(gt, ",", 2)` if it has two parts
  pub split_comma : String → Option (String × String)
  -- the Call-ID of the leg of the route with this number, from the Call-ID of the call
  pub leg_call_id : Option String → ℕ → String
  -- the transport of the first section, in lower case, with its formats; the outer option is the
  -- parse error, the inner one is for no section
  pub sections : Body → Option (Option (String × List String))
  pub set_formats : List String → Body → Body
  pub append_nated : Body → Body
  -- whether `NewRtp_proxy_session` succeeds
  pub rtp_starts : Bool
  -- the user of an Authorization header, "" if it has none; none is a parse error
  pub auth_user : String → Option String
  -- `NewB2BRoute`
  pub new_route : String → Option B2bRoute
  pub fixup_version : CcEvent → CcEvent
  pub reactions : Order → Cc → List Reaction

abbrev pub try_body : Kind → Option Body
try_body (try_ev cid cli cld name auth body routes) = body
try_body _ = none

abbrev pub try_call_id : Kind → Option String
try_call_id (try_ev cid cli cld name auth body routes) = cid
try_call_id _ = none

abbrev pub try_auth : Kind → Option String
try_auth (try_ev cid cli cld name auth body routes) = auth
try_auth _ = none

abbrev pub or_text : Option String → String → String
or_text none t = t
or_text (some u) t = u

abbrev same_addr : HostPort → HostPort → Bool
same_addr a b = str_eq a.host b.host && str_eq a.port b.port

abbrev pub proxy_for : HostPort → Option HostPort → Option HostPort
proxy_for source none = none
proxy_for source (some p) = if same_addr source p then none else some p

abbrev pub when_positive : ℤ → Option ℤ
when_positive t = if is_positive t then some t else none

-- the arguments of the Go routine for the parameter "gt"
abbrev pub timer_args : Option ℤ → Option ℤ → Option (ℤ × ℤ)
timer_args (some timeout) (some skipto) = some (timeout, skipto)
timer_args _ _ = none

module _ (host : Host) where
  -- an order to a user agent, or to the authorisation, and what the user agents do meanwhile
  unfoldable pub tell : Order → Cc → Cc
  tell o c = react_all (host.reactions o c) (note o c)

  -- `uaA` fails and the call is over
  unfoldable pub refuse : ℕ → String → Cc → Cc
  unfolding tell
  refuse scode reason c = enter cc_dead (tell (fail_a scode reason none) c)

  abbrev pub parsed_pair : Option (String × String) → Option (ℤ × ℤ)
  parsed_pair none = none
  parsed_pair (some p) = timer_args (host.atoi p.0) (host.atoi p.1)

  abbrev pub group_args : Option String → Option (ℤ × ℤ)
  group_args none = none
  group_args (some gt) = parsed_pair (host.split_comma gt)

  abbrev pub start_group : Option (ℤ × ℤ) → Cc → Cc
  start_group none c = c
  start_group (some p) c = note (group_timer p.0 p.1) c

  abbrev pub leg_of : B2bRoute → HostPort → Cc → Leg
  leg_of r nh_address c = record {
    rnum = r.rnum;
    nh_address = nh_address;
    username = r.user;
    password = r.passw;
    credit_time = when_positive r.credit_time;
    expire_time = when_positive r.expires;
    no_progress_time = r.no_progress_expires;
    extra_headers = host.guid_headers ++ r.extra_headers;
    outbound_proxy = proxy_for c.source r.outbound_proxy;
  }

  abbrev pub param_or : String → String → B2bRoute → String
  param_or name default r = or_text (find string_discrete name r.params) default

  -- the accounting of the leg, and its user agent
  unfoldable pub make_leg : B2bRoute → String → HostPort → Cc → Cc
  make_leg r bill_host nh_address c = record c {
    acct_o =
        if not r.forward_on_fail && host.acct_enable
        then some record {
          bill_to = param_or "bill-to" c.username r;
          cli = param_or "bill-cli" r.cli r;
          cld = param_or "bill-cld" r.cld r;
          host = bill_host;
        }
        else none;
    o_state = some ua_state_none;
    legs = leg_of r nh_address c ∷ c.legs;
    proxied = if c.has_rtp && r.rtpp then true else c.proxied;
  }

  abbrev pub leg_try : B2bRoute → String → CcEvent → Option ℕ → Cc → LegTry
  leg_try r cld e max_forwards c = record {
    call_id = host.leg_call_id (try_call_id e.kind) r.rnum;
    cli = r.cli;
    cld = cld;
    caller_name = if is_empty r.caller_name then c.caller_name else r.caller_name;
    body = if c.has_rtp && r.rtpp then try_body e.kind else none;
    auth = try_auth e.kind;
    max_forwards = max_forwards;
    reason = e.sip_reason;
  }

  -- Max-Forwards goes down by one, and the call is refused where nothing of it is left. A header
  -- that does not parse is a nil dereference.
  unfoldable pub send_try : B2bRoute → String → CcEvent → Option (Option ℕ) → Cc → Cc
  unfolding tell refuse
  send_try r cld e none c = tell (try_o (leg_try r cld e none c)) c
  send_try r cld e (some none) c = c
  send_try r cld e (some (some n)) c =
      let sent = tell (try_o (leg_try r cld e (some (n - 1)) c)) c in
      let refused = refuse 483 "Too Many Hops" c in if leb n 1 then refused else sent

  abbrev pub send_try_of : B2bRoute → String → Option CcEvent → Cc → Cc
  send_try_of r cld none c = c
  send_try_of r cld (some e) c = send_try r cld e e.max_forwards c

  -- the address of the leg; none is an index out of range
  unfoldable pub place_to : B2bRoute → String → String → Option HostPort → Cc → Cc
  unfolding make_leg send_try
  place_to r cld bill_host none c = c
  place_to r cld bill_host (some nh_address) c =
      let made = make_leg r bill_host nh_address c in
      send_try_of r cld made.e_try
        (start_group (group_args (find string_discrete "gt" r.params)) made)

  abbrev pub translated : String → String → Option String
  translated rule number =
      let out = host.re_replace rule number in if is_empty rule then some number else out

  unfoldable pub place_number : B2bRoute → Option String → Cc → Cc
  unfolding place_to refuse
  place_number r none c = refuse 500 "Internal Server Error (7)" c
  place_number r (some cld) c =
      let to_source = place_to r cld c.source.host (some c.source) c in
      let to_route = place_to r cld r.hostonly (get_nh_addr (host.parse_ip c.source.host) r) c in
      if str_eq r.hostport "sip-ua" then to_source else to_route

  -- `placeOriginate`
  unfoldable pub place_originate : B2bRoute → Cc → Cc
  unfolding place_number
  place_originate r c =
      place_number r (translated host.static_tr_out r.cld)
        (record c { huntstop_scodes = r.huntstop_scodes })
