-- ===== src/Transaction/Message.antt =====
-- What the transaction layer reads of a SIP message, and the identifiers of transactions
-- (sippy/headers/tid.go, rtid.go, sip_via.go; `GetTId`, `getTIds` and `GetRTId` of sippy/sip_msg.go,
-- sip_request.go and sip_response.go). A header that the code parses on demand with `GetBody` is an
-- option, where `none` stands for the parse error; a header that may be missing is an option of
-- that. The bytes of a message that is sent are represented by the message that is printed.
use go_b2bua.Prelude.{
  ℕ, Bool, true, false, String, Option, none, some, List, [], ◌∷◌, string_discrete, if◌then◌else◌,
}
use go_b2bua.Sip.{HostPort, Url, Address, Header}
use native.Mathlib.Decide.{ℕ_discrete}

-- The number of the CSeq header is a text here and a number there in the code; it is one number.
pub record Tid : Type 0 where
  pub call_id : String
  pub cseq : ℕ
  pub cseq_method : String
  pub from_tag : String
  pub to_tag : String
  pub branch : String

abbrev pub Tid-discrete : Discrete Tid
Tid-discrete = hlevel (ℕ_discrete, string_discrete)

pub record Rtid : Type 0 where
  pub call_id : String
  pub from_tag : String
  pub rseq : ℕ
  pub cseq : ℕ
  pub method : String

abbrev pub Rtid-discrete : Discrete Rtid
Rtid-discrete = hlevel (ℕ_discrete, string_discrete)

pub record CSeqBody : Type 0 where
  pub cseq : ℕ
  pub method : String

pub record RackBody : Type 0 where
  pub rseq : ℕ
  pub cseq : ℕ
  pub method : String

-- `SipViaBody`: a parameter that is not there is `none`, one without a value `some none`
pub record Via : Type 0 where
  pub host : String
  pub port : Option String
  pub received : Option (Option String)
  pub rport : Option (Option String)
  pub branch : Option (Option String)

abbrev value_or : String → Option (Option String) → String
value_or d (some (some v)) = v
value_or d _ = d

-- `GetBranch`
unfoldable pub branch_of : Via → String
branch_of v = value_or "" v.branch

-- `GetAddr`, where `default_port` is `config.DefaultPort()`
unfoldable pub via_port : String → Via → String
via_port default_port v = elim v.port [ none ↦ default_port | some p ↦ p ]

-- `GetTAddr`
unfoldable pub t_addr : String → Via → HostPort
t_addr default_port v = record {
  host = value_or v.host v.received;
  port = value_or (via_port default_port v) v.rport;
}

-- A parsed message has all of Call-ID, CSeq, From and To, and a Via. `asterisk` says that the first
-- Contact is `*`; `source` is where the message came from.
pub record Msg : Type 0 where
  pub call_id : String
  pub cseq : Option CSeqBody
  pub from_tag : Option String
  pub to_tag : Option String
  pub via0 : Option Via
  pub more_vias : List (Option Via)
  pub rseq : Option (Option ℕ)
  pub rack : Option (Option RackBody)
  pub contacts : List (Option Address)
  pub asterisk : Bool
  pub record_routes : List (Option Address)
  pub source : Option HostPort

pub record TrRequest : Type 0 where
  pub method : String
  pub msg : Msg
  pub expires : Option ℕ
  pub rtime : ℕ
  pub requires_100rel : Bool
  pub supports_100rel : Bool
  pub ruri : Option Url
  pub routes : List (Option Address)
  pub headers : List Header
  pub nated : Bool

pub record TrResponse : Type 0 where
  pub scode : ℕ
  pub reason : String
  pub msg : Msg

infixl 15 ◌>>=◌
abbrev ◌>>=◌ {ℓ ℓ'} : {A : Type ℓ} {B : Type ℓ'} → Option A → (A → Option B) → Option B
none >>= f = none
some a >>= f = f a

-- A header field that a flag of `GetTId` asks for: "" if it does not, none on a parse error.
abbrev wanted : Bool → Option String → Option String
wanted true field = field
wanted false field = some ""

-- `GetTId(wCSM, wBRN, wTTG)`
unfoldable pub get_tid : Bool → Bool → Bool → Msg → Option Tid
get_tid with_method with_branch with_to m = do
  c ← m.cseq
  ftag ← m.from_tag
  branch ← wanted with_branch (elim m.via0 [ none ↦ none | some v ↦ some (branch_of v) ])
  ttag ← wanted with_to m.to_tag
  some record {
    call_id = m.call_id;
    cseq = c.cseq;
    cseq_method = if with_method then c.method else "";
    from_tag = ftag;
    to_tag = ttag;
    branch = branch;
  }

-- the TIDs of `getTIds`, one for each Via, with the branch where the To tag stands in `get_tid`
unfoldable pub via_tids : Msg → CSeqBody → String → List (Option Via) → Option (List Tid)
via_tids m c ftag [] = some []
via_tids m c ftag (v ∷ vs) = do
  via ← v
  rest ← via_tids m c ftag vs
  some (
      record {
        call_id = m.call_id;
        cseq = c.cseq;
        cseq_method = c.method;
        from_tag = ftag;
        to_tag = branch_of via;
        branch = "";
      }
      ∷ rest)

unfoldable pub get_tids : Msg → Option (List Tid)
unfolding via_tids
get_tids m = do ftag ← m.from_tag; c ← m.cseq; via_tids m c ftag (m.via0 ∷ m.more_vias)

-- `sipRequest.GetRTId`
unfoldable pub request_rtid : Msg → Option Rtid
request_rtid m = do
  hf ← m.rack
  rack ← hf
  ftag ← m.from_tag
  some record {
    call_id = m.call_id;
    from_tag = ftag;
    rseq = rack.rseq;
    cseq = rack.cseq;
    method = rack.method;
  }

-- `sipResponse.GetRTId`
unfoldable pub response_rtid : Msg → Option Rtid
response_rtid m = do
  hf ← m.rseq
  rseq ← hf
  c ← m.cseq
  ftag ← m.from_tag
  some
      record { call_id = m.call_id; from_tag = ftag; rseq = rseq; cseq = c.cseq; method = c.method }

-- `GenResponse`: the header fields of the request that are copied, the others not there
unfoldable pub gen_response : ℕ → String → TrRequest → TrResponse
gen_response scode reason req = record {
  scode = scode;
  reason = reason;
  msg = record (req.msg) {
    rseq = none;
    rack = none;
    contacts = [];
    asterisk = false;
    source = none;
  };
}
