-- ===== src/Transaction/Server/Sending.antt =====
-- How a server transaction sends a response (`SendResponseWithLossEmul` of
-- sippy/server_transaction.go), and the timer that retransmits a reliable provisional response.
use go_b2bua.Prelude.{
  ℕ, ◌-◌, ◌*◌, Bool, true, false, not, ◌&&◌, String, Option, none, some, ltb, is_empty, ◌==◌,
  if◌then◌else◌,
}
use go_b2bua.Transaction.Message.{Tid, TrResponse, t_addr, get_tid, response_rtid, Via, Rtid}
use go_b2bua.Transaction.Cache.{response_out}
use go_b2bua.Transaction.Base.{
  ringing, completed, transmit, tserver_del, tserver_replace, rtid_put, rtid_replace, rtid_del,
  before_response, own_before_response, noprack_cb, log_error, enter, start_te_a,
}
use go_b2bua.Transaction.Server.{
  Prov, Server, act, on_base, cleanup, cancel_te_e, start_te_d, call_if, is_open, is_ringing,
}

-- a response with its To tag; `fresh` is the tag that `GenTag` makes
abbrev pub tag_or_fresh : String → String → String
tag_or_fresh fresh tag = if is_empty tag then fresh else tag

abbrev pub with_to_tag : String → TrResponse → TrResponse
with_to_tag tag resp = record resp { msg = record (resp.msg) { to_tag = some tag } }

-- the To header of a response above 100; none on a parse error
abbrev pub tagged : String → TrResponse → Option TrResponse
tagged fresh resp =
    if ltb 100 resp.scode
    then elim resp.msg.to_tag [
      | none ↦ none
      | some tag ↦ some (with_to_tag (tag_or_fresh fresh tag) resp)
    ]
    else some resp

abbrev pub numbered : ℕ → TrResponse → TrResponse
numbered n resp = record resp { msg = record (resp.msg) { rseq = some (some n) } }

-- `prov_inflight`, unless one is there already
unfoldable pub start_prov : ℕ → Rtid → Option Prov → Server → Server
start_prov lossemul rtid none s = record s {
  prov_inflight = some record { last_timeout = 500; lossemul = lossemul; rtid = rtid };
}
start_prov lossemul rtid (some p) s =
    act (log_error "Attempt to start new PRACK timeout while the old one is still active") s

-- A reliable response takes the next RSeq. The result says whether the response goes on, with the
-- response and with the loss that is left to emulate.
abbrev pub Prepared : Type 0
Prepared = Option (TrResponse × ℕ) × Server

unfoldable pub register : ℕ → TrResponse → Option Tid → Option Rtid → Server → Prepared
unfolding start_prov
register lossemul resp (some tid) (some rtid) s = (
  some (resp, lossemul - 1),
  act (rtid_put rtid tid) (start_prov (lossemul - 1) rtid s.prov_inflight s),
)
register lossemul resp tid rtid s = (none, s)

unfoldable pub make_reliable : ℕ → TrResponse → Server → Prepared
unfolding register
make_reliable lossemul resp s =
    let out = numbered s.rseq resp in
    register lossemul out (get_tid false true false out.msg) (response_rtid out.msg)
      (record s { rseq = ℕ.suc s.rseq })

unfoldable pub prepare : ℕ → TrResponse → Server → Prepared
unfolding make_reliable
prepare lossemul resp s =
    if s.pr_rel && (ltb 100 resp.scode && ltb resp.scode 200)
    then make_reliable lossemul resp s
    else (some (resp, lossemul), s)

-- `tid` once the response is final: matched by the To tag, and by no branch
abbrev pub final_tid : String → Tid → Tid
final_tid tag tid = record tid { branch = ""; to_tag = tag }

abbrev replace_rtid : Option Prov → Tid → Tid → Server → Server
replace_rtid none old new s = s
replace_rtid (some p) old new s = act (rtid_replace p.rtid old new) s

abbrev rename : String → Server → Server
rename tag s =
    let old = s.base.tid in
    let new = final_tid tag old in
    act (tserver_replace old new)
      (replace_rtid s.prov_inflight old new (on_base (λ b. record b { tid = new }) s))

abbrev to_tag_of : TrResponse → String
to_tag_of resp = elim resp.msg.to_tag [ none ↦ "" | some tag ↦ tag ]

-- A final response of an INVITE waits for the ACK; `has_ack` says whether `ack_cb` is given.
abbrev await_ack : Bool → TrResponse → Server → Server
await_ack has_ack resp s =
    on_base (λ b. start_te_a (record b { tout = 500 }))
      (rename (to_tag_of resp) (start_te_d (record s { has_ack_cb = has_ack })))

-- the state that follows, before the response is sent
unfoldable pub conclude : Bool → TrResponse → Server → Server
conclude has_ack resp s =
    if ltb resp.scode 200
    then on_base (enter ringing) s
    else let done = cancel_te_e (on_base (enter completed) s) in
      if s.base.needack then await_ack has_ack resp done else act (tserver_del s.base.tid) done

unfoldable pub send_now : ℕ → TrResponse → Server → Server
send_now lossemul resp s =
    act (transmit s.base.userv s.base.packet s.base.address s.checksum s.base.tid.call_id lossemul)
      (call_if s.has_before_response (own_before_response resp) s)

-- whether the transaction is over once the response is sent
abbrev pub ends_here : TrResponse → Server → Bool
ends_here resp s = not (ltb resp.scode 200) && not s.base.needack

unfoldable pub emit : String → Bool → ℕ → TrResponse → Option Via → Server → Server
unfolding conclude send_now
emit default_port has_ack lossemul resp none s = s
emit default_port has_ack lossemul resp (some via) s =
    let sent = send_now lossemul resp (
      conclude has_ack resp
        (on_base (λ b. record b { address = some (t_addr default_port via) }) s)) in
    if ends_here resp s then cleanup sent else sent

unfoldable pub deliver : String → Bool → Prepared → Server
unfolding emit
deliver default_port has_ack (none, s) = s
deliver default_port has_ack (some (resp, lossemul), s) =
    emit default_port has_ack lossemul resp resp.msg.via0
      (on_base (λ b. record b { packet = some (response_out resp) }) (act (before_response resp) s))

unfoldable pub send_tagged : String → Bool → ℕ → Option TrResponse → Server → Server
unfolding prepare deliver
send_tagged default_port has_ack lossemul none s = s
send_tagged default_port has_ack lossemul (some resp) s =
    deliver default_port has_ack (prepare lossemul resp s)

-- `SendResponseWithLossEmul`
unfoldable pub send_response : String → String → Bool → Bool → ℕ → TrResponse → Server → Server
unfolding send_tagged
send_response default_port fresh retrans has_ack lossemul resp s =
    if s.base.linked
    then send_tagged default_port has_ack lossemul (tagged fresh resp) (
        call_if (not (is_open s.base.state) && not retrans)
          (log_error "BUG: attempt to send reply on already finished transaction!!!") s)
    else s

-- `retrUasResponse`: a timeout above 16 seconds gives up, any other retransmits and doubles. The
-- loss that is left to emulate holds the response back.
abbrev pub free_prov : Option Prov → Server → Server
free_prov none s = s
free_prov (some p) s =
    let freed = record s { prov_inflight = none } in
    if s.base.linked then act (rtid_del p.rtid) freed else freed

abbrev pub give_up : Server → Server
give_up s =
    call_if (s.has_noprack_cb && is_ringing s.base.state) noprack_cb (free_prov s.prov_inflight s)

abbrev pub retransmit : ℕ → Server → Server
retransmit lossemul s =
    if s.base.linked && lossemul == 0
    then act (transmit s.base.userv s.base.packet s.base.address "" s.base.tid.call_id 0) s
    else s

abbrev pub left_over : Bool → ℕ → ℕ
left_over linked lossemul = if linked then lossemul - 1 else lossemul

-- the timer is set again on the provisional response that is in flight
abbrev pub rearm : ℕ → ℕ → Option Prov → Server → Server
rearm last_timeout lossemul none s = s
rearm last_timeout lossemul (some p) s = record s {
  prov_inflight = some (record p { last_timeout = last_timeout; lossemul = lossemul });
}

unfoldable pub retr_uas_response : ℕ → ℕ → Server → Server
retr_uas_response last_timeout lossemul s =
    if ltb (16 * 1000) last_timeout
    then give_up s
    else rearm (last_timeout * 2) (left_over s.base.linked lossemul) s.prov_inflight
        (retransmit lossemul s)

-- the timer of the provisional response that is in flight runs out
abbrev pub prov_timer_of : Option Prov → Server → Server
prov_timer_of none s = s
prov_timer_of (some p) s = retr_uas_response p.last_timeout p.lossemul s

unfoldable pub prov_timer : Server → Server
prov_timer s = prov_timer_of s.prov_inflight s
