-- ===== src/B2bua/State.antt =====
-- The state of the call controller (`callController` of cmd/b2bua_radius/call_controller.go), and
-- what its two user agents do to it. A user agent is seen as the code sees it, by the interface
-- `sippy_types.UA`: it has a state, it is told events, and it calls its listeners meanwhile.
use go_b2bua.Prelude.{
  ℤ, ℕ, Bool, true, false, not, ◌&&◌, ◌||◌, String, Option, none, some, List, [], ◌∷◌, is_some,
  if◌then◌else◌,
}
use go_b2bua.Sip.{HostPort, Header, Body}
use go_b2bua.Event.{CcEvent}
use go_b2bua.Ua.State.{UaStateId, ua_state_none, ua_state_dead}
use go_b2bua.B2bua.Route.{B2bRoute}

-- `CCState`
pub data CcState : Type 0 where
  cc_idle cc_wait_route cc_ar_complete cc_connected cc_dead cc_disconnecting : CcState

-- `Accounting`: the fake one and the RADIUS one
pub data Accounting : Type 0 where
  fake_accounting radius_accounting : Accounting

-- `RadiusAccounting` of an outgoing leg, by its parameters
pub record AcctO : Type 0 where
  pub bill_to : String
  pub cli : String
  pub cld : String
  pub host : String

-- an outgoing leg as it is made, with what is set on its user agent
pub record Leg : Type 0 where
  pub rnum : ℕ
  pub nh_address : HostPort
  pub username : String
  pub password : String
  pub credit_time : Option ℤ
  pub expire_time : Option ℤ
  pub no_progress_time : ℤ
  pub extra_headers : List Header
  pub outbound_proxy : Option HostPort

-- the `CCEventTry` that an outgoing leg gets
pub record LegTry : Type 0 where
  pub call_id : String
  pub cli : String
  pub cld : String
  pub caller_name : String
  pub body : Option Body
  pub auth : Option String
  pub max_forwards : Option ℕ
  pub reason : Option String

-- what the controller makes its user agents, its accounting and the authorisation do
pub data Order : Type 0 where
  event_a event_o : CcEvent → Order
  fail_a : ℕ → String → Option Header → Order
  disconnect_a disconnect_o : Order
  -- a fresh `CCEventDisconnect` for `uaA`
  disconnect_event_a : Order
  try_o : LegTry → Order
  do_auth : String → Order
  cancel_auth : Order
  group_timer : ℤ → ℤ → Order
  conn_acct_a disc_acct_a conn_acct_o disc_acct_o : Order
  delete_rtp : Order
  drop_cc : Order

pub record Cc : Type 0 where
  pub state : CcState
  pub remote_ip : String
  pub source : HostPort
  pub routes : List B2bRoute
  pub pass_headers : List Header
  pub username : String
  pub cli : String
  pub cld : String
  pub caller_name : String
  pub challenge : Option Header
  pub has_rtp : Bool
  pub e_try : Option CcEvent
  pub huntstop_scodes : List ℕ
  pub acct_a : Option Accounting
  pub acct_o : Option AcctO
  pub proxied : Bool
  pub has_cmap : Bool
  -- `auth_proc`, and whether its answer is still to come
  pub auth_proc : Bool
  pub asked : Bool
  -- the states of `uaA`, and of `uaO` if there is one
  pub a_state : UaStateId
  pub o_state : Option UaStateId
  -- every leg that was made and every order, the latest first
  pub legs : List Leg
  pub orders : List Order

-- `NewCallController`
abbrev pub new_call : String → HostPort → List Header → Option Header → Cc
new_call remote_ip source pass_headers challenge = record {
  state = cc_idle;
  remote_ip = remote_ip;
  source = source;
  routes = [];
  pass_headers = pass_headers;
  username = "";
  cli = "";
  cld = "";
  caller_name = "";
  challenge = challenge;
  has_rtp = false;
  e_try = none;
  huntstop_scodes = [];
  acct_a = none;
  acct_o = none;
  proxied = false;
  has_cmap = true;
  auth_proc = false;
  asked = false;
  a_state = ua_state_none;
  o_state = none;
  legs = [];
  orders = [];
}

abbrev pub enter : CcState → Cc → Cc
enter st c = record c { state = st }

abbrev pub note : Order → Cc → Cc
note o c = record c { orders = o ∷ c.orders }

abbrev pub note_if : Bool → Order → Cc → Cc
note_if test o c = if test then note o c else c

abbrev pub is_wait_route : CcState → Bool
is_wait_route cc_wait_route = true
is_wait_route _ = false

abbrev pub is_cc_dead : CcState → Bool
is_cc_dead cc_dead = true
is_cc_dead _ = false

abbrev pub is_dead_id : UaStateId → Bool
is_dead_id ua_state_dead = true
is_dead_id _ = false

abbrev pub is_dead_leg : Option UaStateId → Bool
is_dead_leg none = false
is_dead_leg (some st) = is_dead_id st

-- What the user agents do: they get to another state and call their listeners.
pub data Reaction : Type 0 where
  a_turns o_turns : UaStateId → Reaction
  a_conn a_disc a_dead o_conn o_disc o_dead : Reaction

-- `aConn`
unfoldable pub on_a_conn : Cc → Cc
on_a_conn c = note_if (is_some c.acct_a) conn_acct_a (enter cc_connected c)

-- `oConn`
unfoldable pub on_o_conn : Cc → Cc
on_o_conn c = note_if (is_some c.acct_o) conn_acct_o c

-- the function that is set for the end of an outgoing leg; without its accounting it is a nil
-- dereference
unfoldable pub on_o_disc : Cc → Cc
on_o_disc c = note_if (is_some c.acct_o) disc_acct_o c

abbrev pub stop_auth : Cc → Cc
stop_auth c =
    if is_wait_route c.state && c.auth_proc
    then note cancel_auth (record c { auth_proc = false })
    else c

abbrev pub leave : Cc → Cc
leave c =
    enter (if is_some c.o_state && not (is_cc_dead c.state) then cc_disconnecting else cc_dead) c

abbrev pub stop_rtp : Cc → Cc
stop_rtp c = note_if c.has_rtp delete_rtp (record c { has_rtp = false })

-- `aDisc`, and `aFail`, which does the same
unfoldable pub on_a_disc : Cc → Cc
on_a_disc c =
    let left = leave (stop_auth c) in stop_rtp (note_if (is_some left.acct_a) disc_acct_a left)

-- `aDead`; without the map of calls it is a nil dereference
unfoldable pub on_a_dead : Cc → Cc
on_a_dead c =
    if (not (is_some c.o_state) || is_dead_leg c.o_state) && c.has_cmap
    then note drop_cc (record c { acct_a = none; acct_o = none; has_cmap = false })
    else c

-- `oDead`
unfoldable pub on_o_dead : Cc → Cc
on_o_dead c =
    if is_dead_id c.a_state && c.has_cmap
    then note drop_cc (record c { acct_a = none; acct_o = none })
    else c

unfoldable pub react : Reaction → Cc → Cc
unfolding on_a_conn on_a_disc on_a_dead on_o_conn on_o_disc on_o_dead
react (a_turns st) c = record c { a_state = st }
react (o_turns st) c = record c { o_state = if is_some c.o_state then some st else none }
react a_conn c = on_a_conn c
react a_disc c = on_a_disc c
react a_dead c = on_a_dead c
react o_conn c = on_o_conn c
react o_disc c = on_o_disc c
react o_dead c = on_o_dead c

-- the first of the list comes first
unfoldable pub react_all : List Reaction → Cc → Cc
unfolding react
react_all [] c = c
react_all (r ∷ rs) c = react_all rs (react r c)
