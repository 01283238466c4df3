-- ===== src/Sip.antt =====
-- What the call logic reads of a SIP message (sippy/sip_msg.go, sippy/sip_request.go,
-- sippy/sip_response.go, sippy/headers). A header that the code parses on demand with `GetBody` is
-- an option, where `none` stands for the parse error. Status codes and CSeq numbers are natural
-- numbers; times are nanoseconds of the monotonic clock.
use go_b2bua.Prelude.{ℕ, Bool, String, Option, none, some, List}

pub record HostPort : Type 0 where
  pub host : String
  pub port : String

pub record Url : Type 0 where
  pub username : String
  pub host : String
  pub port : Option String
  pub lr : Bool

pub record Address : Type 0 where
  pub name : String
  pub url : Url
  pub tag : String

-- `SipURL.GetAddr`, where `default_port` is `config.DefaultPort()`
unfoldable pub get_addr : String → Url → HostPort
get_addr default_port u = record {
  host = u.host;
  port = elim u.port [ none ↦ default_port | some p ↦ p ];
}

pub data Method : Type 0 where
  invite ack bye cancel refer info options update prack : Method
  other_method : String → Method

pub record Body : Type 0 where
  pub text : String
  pub needs_update : Bool

-- the headers that the call logic itself puts on a message, and any other
pub data Header : Type 0 where
  reason_hf : String → Header
  max_forwards_hf : Option ℕ → Header
  rack_hf : ℕ → ℕ → Method → Header
  refer_to_hf : Address → Header
  referred_by_hf : Url → Header
  also_hf : Address → Header
  unsupported_hf : String → Header
  warning_hf : String → Header
  challenge_hf : String → Header
  authorization_hf : String → Header
  proxy_authorization_hf : String → Header
  other_hf : String → String → Header

pub record CSeq : Type 0 where
  pub num : ℕ
  pub method : Method

-- a challenge of a 401 or 407 response; `auth` is what `GenAuthHF` makes of it
pub record Challenge : Type 0 where
  pub algorithm : Option String
  pub supported : Option Bool
  pub auth : Option Header

pub record Request : Type 0 where
  pub method : Method
  pub rtime : ℕ
  pub cseq : Option CSeq
  pub body : Option Body
  pub reason : Option String
  pub max_forwards : Option (Option ℕ)
  pub contacts : List (Option Address)
  pub record_routes : List (Option Address)
  pub via_branch : Option String
  pub from_body : Option Address
  pub to_body : Option Address
  pub call_id : String
  pub ruri_username : String
  pub also : List (Option Address)
  pub refer_to : Option (Option Address)
  pub auth_hdr : Option (Option String)
  pub require_100rel : Bool
  pub offers_100rel : Bool
  pub user_agent : Option String
  pub server : Option String

pub record Response : Type 0 where
  pub scode : ℕ
  pub reason_phrase : String
  pub rtime : ℕ
  pub cseq : Option CSeq
  pub body : Option Body
  pub reason : Option String
  pub rseq : Option ℕ
  pub to_body : Option Address
  pub contacts : List (Option Address)
  pub record_routes : List (Option Address)
  pub www_challenges : List Challenge
  pub proxy_challenges : List Challenge
  pub www_texts : List Header
  pub proxy_texts : List Header
  pub user_agent : Option String
  pub server : Option String

-- A request that the user agent builds.
pub record OutRequest : Type 0 where
  pub method : Method
  pub ruri : Option Url
  pub cseq : ℕ
  pub to_uri : Option Address
  pub from_uri : Option Address
  pub routes : List (Option Address)
  pub target : Option HostPort
  pub body : Option Body
  pub headers : List Header

-- A response that the user agent sends. `cseq` is that of the request which it answers; `direct`
-- tells a response on the transaction at hand from one that the transaction manager looks up.
pub record Reply : Type 0 where
  pub scode : ℕ
  pub reason_phrase : String
  pub cseq : Option CSeq
  pub body : Option Body
  pub contacts : List (Option Address)
  pub headers : List Header
  pub ack_wait : Bool
  pub lossemul : ℕ
  pub direct : Bool
