-- ===== src/Transaction/Manager/Matching.antt =====
-- How the ACK for a final response finds its server transaction (`SendResponseWithLossEmul` of
-- sippy/server_transaction.go, `tserver_replace` and `incomingRequest` of
-- sippy/sip_transaction_manager.go).
mod Renaming
use native.Mathlib.Decide.{ℕ_discrete}
use text.Mathlib.Text.{◌==◌ as str_eq}
use go_b2bua.Prelude.{
  ℕ, suc, Bool, true, false, not, ◌&&◌, ◌≡◌, ◌≢◌, refl, sym, arith, String, Option, none, some,
  List, [], ◌∷◌, ◌-◌, ◌==◌, ◌||◌, is_some, is_empty, ltb, if_lem, if◌then◌else◌, find, delete,
  store, find-store, ap, ◌∙◌,
}
use go_b2bua.Sip.{HostPort}
use go_b2bua.Transaction.Message.{
  Via, t_addr, Tid, Tid-discrete, CSeqBody, Rtid, Msg, get_tid, TrRequest, TrResponse,
}
use go_b2bua.Transaction.Cache.{Packet, Entry, response_out}
use go_b2bua.Transaction.Base.{
  Act, transmit, cache_put, cache_call_id, tclient_del, tserver_del, tserver_replace, rtid_put,
  rtid_replace, rtid_del, before_response,
}
use go_b2bua.Transaction.Server.{Server, is_open}
use go_b2bua.Transaction.Server.Sending.{
  ends_here, send_response, send_tagged, prepare, deliver, emit, conclude, send_now, final_tid,
  tagged, with_to_tag, tag_or_fresh,
}
use go_b2bua.Transaction.Server.Handlers.{incoming_request}
use go_b2bua.Transaction.Manager.{
  Manager, transmit_data, apply_act, apply_acts, save_server, run_server, run_server_on,
  replace_rtid,
}
use go_b2bua.Transaction.Manager.Env.{Env}
use go_b2bua.Transaction.Manager.Requests.{
  dispatch, match_server, tid_of, unless_looping, looping, request_in,
}
use Renaming.{send_response-IsRenamed, save_server-tserver, save_server-locked}

abbrev pub cseq_number : Option CSeqBody → Option ℕ
cseq_number none = none
cseq_number (some c) = some c.cseq

-- The headers by which an ACK names the request that it is for, with the To tag of the response.
pub record AcksFor (ack req : Msg) (tag : String) : Type 0 where
  pub same_call : ack.call_id ≡ req.call_id
  pub same_from : ack.from_tag ≡ req.from_tag
  pub same_cseq : cseq_number ack.cseq ≡ cseq_number req.cseq
  pub has_tag : ack.to_tag ≡ some tag

get_tid-ack :
    (ack req : Msg) (tag : String) (tid : Tid)
    → AcksFor ack req tag
    → get_tid false true false req ≡ some tid
    → get_tid false false true ack ≡ some (final_tid tag tid)
unfolding get_tid
get_tid-ack ack req tag tid a e = ground arith

module _ (env : Env) (ref : ℕ) (resp : TrResponse) (tag : String) (s : Server) where
  save_server-found :
      (m : Manager)
      → s.base.linked ≡ true
      → s.base.needack ≡ true
      → ltb resp.scode 200 ≡ false
      → resp.msg.to_tag ≡ some tag
      → is_empty tag ≡ false
      → is_some resp.msg.via0 ≡ true
      → (has_ack : Bool) (n : ℕ)
      → find Tid-discrete
          (final_tid tag s.base.tid)
          (save_server ref
            (send_response env.default_port env.fresh_tag false has_ack n resp s)
            m).tserver
        ≡ some ref
  save_server-found m linked needs final has filled at has_ack n =
      ap (find Tid-discrete (final_tid tag s.base.tid)) (save_server-tserver ref _ m)
      ∙ send_response-IsRenamed env.default_port env.fresh_tag has_ack n ref resp tag s m.tserver
          linked needs final has filled at

  request_in-ack :
      (req : TrRequest) (sum : String) (tids : List Tid) (server : ℕ) (tid : Tid) (m : Manager)
      → str_eq req.method "ACK" ≡ true
      → looping env tids m ≡ none
      → m.tserver_locked ≡ false
      → get_tid false false true req.msg ≡ some tid
      → find Tid-discrete tid m.tserver ≡ some ref
      → request_in env req sum tids server m
        ≡ run_server ref (incoming_request env.default_port env.fresh_tag req sum) m
  unfolding request_in unless_looping tid_of match_server dispatch
  request_in-ack req sum tids server tid m a l k t f = rw (l, a, t, k, f)

-- A transaction that needs an ACK sends a final response with a To tag. Then an ACK with the Call-ID,
-- the From tag and the CSeq number of the request and with that To tag gets to this transaction,
-- whatever its branch is, if it does not loop and the lock is free.
pub ack-Matches :
    (env : Env) (ref n : ℕ) (has_ack : Bool) (resp : TrResponse) (tag : String) (s : Server)
    (req ack : TrRequest) (sum : String) (tids : List Tid) (server : ℕ) (m : Manager)
    → s.base.linked ≡ true
    → s.base.needack ≡ true
    → get_tid false true false req.msg ≡ some s.base.tid
    → ltb resp.scode 200 ≡ false
    → resp.msg.to_tag ≡ some tag
    → is_empty tag ≡ false
    → is_some resp.msg.via0 ≡ true
    → m.tserver_locked ≡ false
    → str_eq ack.method "ACK" ≡ true
    → AcksFor ack.msg req.msg tag
    → looping env tids
        (save_server ref (send_response env.default_port env.fresh_tag false has_ack n resp s) m)
      ≡ none
    → request_in env ack sum tids server
        (save_server ref (send_response env.default_port env.fresh_tag false has_ack n resp s) m)
      ≡ run_server ref
          (incoming_request env.default_port env.fresh_tag ack sum)
          (save_server ref (send_response env.default_port env.fresh_tag false has_ack n resp s) m)
ack-Matches env ref n has_ack resp tag s req ack sum tids server m linked needs t final has filled
      at k a for l =
    request_in-ack env ref resp tag s ack sum tids server (final_tid tag s.base.tid) _ a l
      (save_server-locked ref _ m ∙ k) (get_tid-ack ack.msg req.msg tag s.base.tid for t)
      (save_server-found env ref resp tag s m linked needs final has filled at has_ack n)
