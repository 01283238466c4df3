-- ===== src/Event.antt =====
-- Call control events (sippy/cc_events.go, sippy/cc_event_redirect.go): one constructor of `Kind`
-- for each `CCEvent…` struct, and the fields of `CCEventGeneric` in `CcEvent`.
use go_b2bua.Prelude.{ℕ, String, Option, none, some, List, [], ◌∷◌, ◌++◌, map}
use go_b2bua.Sip.{Address, Body, Header, reason_hf}

pub data Kind : Type 0 where
  try_ev :
      Option String
      → String
      → String
      → String
      → Option String
      → Option Body
      → List (Option Address)
      → Kind
  ring_ev : ℕ → String → Option Body → Kind
  connect_ev : ℕ → String → Option Body → Kind
  pre_connect_ev : ℕ → String → Option Body → Kind
  update_ev : Option Body → Kind
  info_ev : Option Body → Kind
  disconnect_ev : Option Address → Kind
  fail_ev : ℕ → String → List Header → Option String → Kind
  redirect_ev : ℕ → String → Option Body → List Address → Kind

pub record CcEvent : Type 0 where
  pub seq : ℕ
  pub rtime : ℕ
  pub origin : String
  pub extra_headers : List Header
  pub sip_reason : Option String
  pub max_forwards : Option (Option ℕ)
  pub kind : Kind

abbrev reason_headers : Option String → List Header
reason_headers none = []
reason_headers (some r) = reason_hf r ∷ []

abbrev challenge_headers : Kind → List Header
challenge_headers (fail_ev code reason challenges warning) = challenges
challenge_headers _ = []

-- `GetExtraHeaders` of `CCEventGeneric`, and the version of `CCEventFail` that adds its challenges
unfoldable pub get_extra_headers : CcEvent → List Header
get_extra_headers e = e.extra_headers ++ (reason_headers e.sip_reason ++ challenge_headers e.kind)

-- `newCCEventGeneric` with no extra headers, under the number that it took from the counter
unfoldable pub new_event : ℕ → ℕ → String → Kind → CcEvent
new_event seq rtime origin kind = record {
  seq = seq;
  rtime = rtime;
  origin = origin;
  extra_headers = [];
  sip_reason = none;
  max_forwards = none;
  kind = kind;
}

-- `GetRedirectURL` of the two events that have it; a redirect with no address is a fault there
unfoldable pub redirect_url : Kind → Option Address
redirect_url (disconnect_ev also) = also
redirect_url (redirect_ev code reason body (a ∷ addrs)) = some a
redirect_url _ = none

-- `CCEventRedirect.GetContacts`
unfoldable pub redirect_contacts : List Address → List (Option Address)
redirect_contacts = map some
