-- ===== src/Tests/Calls.antt =====
-- A concrete call of the call controller: the authorisation answers with two routes, and the second
-- one is tried when the first one fails.
use go_b2bua.Prelude.{
  pos, negsuc, ◌<◌, true, false, none, some, List, [], ◌∷◌, ◌++◌, map, ◌≡◌, ◌⊎◌, inl, inr, refl,
  String, ℕ, Option,
}
use go_b2bua.Sip.{HostPort}
use go_b2bua.Event.{CcEvent, try_ev, fail_ev}
use go_b2bua.Ua.State.{uas_state_trying}
use go_b2bua.B2bua.Duration.{seconds, is_zero, exceeds, is_positive}
use go_b2bua.B2bua.Route.{Ip, AinfoItem, host_port, B2bRoute, first_addr, get_nh_addr}
use go_b2bua.B2bua.State.{Cc, Leg, new_call, Reaction}
use go_b2bua.B2bua.Placing.{Host, leg_of}
use go_b2bua.B2bua.Authorising.{RadiusResult, customized}
use go_b2bua.B2bua.Controller.{Input, from_a, from_o, authorised, reacts, steps}
use go_b2bua.B2bua.Hunting.{IsHunting}
use go_b2bua.B2bua.Hunting.Steps.{hunt-InOrder}
use go_b2bua.B2bua.Credit.{customized-Limited}
use go_b2bua.B2bua.NextHop.{FirstOf, NoneOf, get_nh_addr-First}

abbrev caller : HostPort
caller = record { host = "10.0.0.2"; port = "5060" }

abbrev ip4 : Ip
ip4 = record { text = "10.0.0.9"; is_ip4 = true }

abbrev ip6 : Ip
ip6 = record { text = "::9"; is_ip4 = false }

-- a route that names a credit time of a minute
abbrev route : String → B2bRoute
route hostport = record {
  cld = "";
  cld_set = false;
  hostport = hostport;
  hostonly = hostport;
  huntstop_scodes = 486 ∷ [];
  ainfo = record { ip = ip6; port = "5060" } ∷ record { ip = ip4; port = "5070" } ∷ [];
  credit_time = seconds (pos 60);
  crt_set = true;
  expires = negsuc 0;
  no_progress_expires = pos 0;
  forward_on_fail = false;
  user = "";
  passw = "";
  cli = "";
  cli_set = false;
  caller_name = "";
  extra_headers = [];
  rtpp = true;
  outbound_proxy = none;
  rnum = 0;
  params = [];
}

-- the configuration that the code has by default, with the authorisation
abbrev host : Host
host = record {
  static_tr_in = "";
  static_tr_out = "";
  auth_enable = true;
  acct_enable = false;
  max_credit_time = negsuc 0;
  allowed_pts = [];
  has_rtp_proxies = false;
  static_route = none;
  guid_headers = [];
  re_replace = λ rule number. some number;
  parse_ip = λ text. some ip4;
  atoi = λ text. none;
  split_comma = λ text. none;
  leg_call_id = λ call_id rnum. "leg";
  sections = λ body. none;
  set_formats = λ formats body. body;
  append_nated = λ body. body;
  rtp_starts = true;
  auth_user = λ hf. some "";
  new_route = λ text. some (route text);
  fixup_version = λ e. e;
  reactions = λ o c. [];
}

abbrev try_event : CcEvent
try_event = record {
  seq = 1;
  rtime = 0;
  origin = "";
  extra_headers = [];
  sip_reason = none;
  max_forwards = some (some 70);
  kind = try_ev (some "call") "100" "200" "" none none [];
}

abbrev failure : CcEvent
failure = record try_event { seq = 2; kind = fail_ev 503 "Service Unavailable" [] none }

abbrev answer : RadiusResult
answer = record {
  rcode = 0;
  avps = ("h323-ivr-in", "Routing:one") ∷ ("h323-ivr-in", "Routing:two") ∷ [];
}

-- the latest comes first
abbrev inputs : List Input
inputs =
    from_o failure
    ∷ authorised (some answer)
    ∷ from_a try_event
    ∷ reacts (Reaction.a_turns uas_state_trying)
    ∷ []

abbrev called : Cc
called = steps host inputs (new_call "10.0.0.2" caller [] none)

tries_both : map (λ (l : Leg). l.rnum) called.legs ≡ 2 ∷ 1 ∷ []
unfolding steps go_b2bua.B2bua.State.react go_b2bua.B2bua.Beginning.strip_nat
    go_b2bua.B2bua.Placing.tell go_b2bua.B2bua.State.react_all go_b2bua.B2bua.Route.customize
    seconds go_b2bua.B2bua.Placing.place_originate get_nh_addr go_b2bua.Prelude.find
tries_both = refl

hunt-InOrder_example : IsHunting (steps host inputs (new_call "10.0.0.2" caller [] none))
hunt-InOrder_example = hunt-InOrder host inputs "10.0.0.2" caller [] none

-- the minute of the route gives the leg no timer
customized-Limited_example :
    (is_zero (customized host 1 (pos 0) called (route "one")).credit_time ≡ false)
    × (exceeds
          (customized host 1 (pos 0) called (route "one")).credit_time
          (seconds host.max_credit_time)
        ≡ false)
    × (is_positive (seconds host.max_credit_time) ≡ false
        → (leg_of host (customized host 1 (pos 0) called (route "one")) caller called).credit_time
          ≡ none)
unfolding seconds
customized-Limited_example =
    customized-Limited host 1 (pos 0) called called (route "one") caller refl

get_nh_addr-First_example :
    FirstOf true (route "one").ainfo (get_nh_addr (some ip4) (route "one"))
    ⊎ (NoneOf true (route "one").ainfo
        × (get_nh_addr (some ip4) (route "one") ≡ first_addr (route "one").ainfo))
get_nh_addr-First_example = get_nh_addr-First ip4 (route "one")
