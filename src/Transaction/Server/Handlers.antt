-- ===== src/Transaction/Server/Handlers.antt =====
-- What a server transaction does on a request that belongs to it, and on its timers
-- (sippy/server_transaction.go).
use text.Mathlib.Text.{◌==◌ as str_eq}
use go_b2bua.Prelude.{Bool, true, false, String, Option, none, some, ◌||◌, is_some, if◌then◌else◌}
use go_b2bua.Transaction.Message.{
  Via, Rtid, Rtid-discrete, TrRequest, TrResponse, t_addr, request_rtid, gen_response,
}
use go_b2bua.Transaction.Cache.{response_out}
use go_b2bua.Transaction.Base.{
  confirmed, transmit, cache_call_id, tserver_del, rtid_del, cancel_cb, ack_cb, prack_cb, enter,
  cancel_te_a,
}
use go_b2bua.Transaction.Server.{
  Prov, Server, act, on_base, cleanup, cancel_te_d, cancel_te_e, call_if, is_completed, is_open,
}
use go_b2bua.Transaction.Server.Sending.{send_response}

module _ (default_port fresh : String) where
  abbrev pub send_487 : Option TrResponse → Server → Server
  send_487 none s = s
  send_487 (some resp) s = send_response default_port fresh true false 0 resp s

  -- `doCancel`
  unfoldable pub do_cancel : Option TrRequest → Server → Server
  do_cancel req s = let sent = send_487 s.r487 s in call_if sent.has_cancel_cb (cancel_cb req) sent

  -- `transmitMsg` to the address of the first Via, if it parses
  abbrev pub reply_to : TrRequest → String → TrResponse → Option Via → Server → Option Server
  reply_to req checksum resp none s = none
  reply_to req checksum resp (some via) s = some (
      act
        (transmit s.base.userv (some (response_out resp)) (some (t_addr default_port via)) checksum
          s.base.tid.call_id 0)
        s)

  -- a retransmission of the request gets the latest response again
  unfoldable pub incoming_again : String → Server → Server
  incoming_again checksum s =
      if is_some s.base.packet
      then act (transmit s.base.userv s.base.packet s.base.address checksum s.base.tid.call_id 0) s
      else s

  unfoldable pub cancel_open : TrRequest → Server → Option Server → Server
  unfolding do_cancel
  cancel_open req s none = s
  cancel_open req s (some replied) =
      if is_open replied.base.state then do_cancel (some req) replied else replied

  unfoldable pub incoming_cancel : TrRequest → String → Server → Server
  unfolding cancel_open
  incoming_cancel req checksum s =
      cancel_open req s (reply_to req checksum (gen_response 200 "OK" req) req.msg.via0 s)

  abbrev pub forget : Server → Server
  forget s = act (tserver_del s.base.tid) (cancel_te_d s)

  abbrev pub tell_ack : TrRequest → String → Server → Server
  tell_ack req checksum s =
      act (cache_call_id checksum s.base.tid.call_id) (call_if s.has_ack_cb (ack_cb req) s)

  -- With no provisional response in flight the transaction is over.
  abbrev pub confirm : Bool → TrRequest → String → Server → Server
  confirm true req checksum s = tell_ack req checksum s
  confirm false req checksum s = cleanup (tell_ack req checksum (forget s))

  unfoldable pub incoming_ack : TrRequest → String → Server → Server
  incoming_ack req checksum s =
      if is_completed s.base.state
      then confirm (is_some s.prov_inflight) req checksum
          (on_base (λ b. cancel_te_a (enter confirmed b)) s)
      else s

  -- `*self.prov_inflight.rtid == *rskey`
  abbrev pub is_in_flight : Rtid → Option Prov → Bool
  is_in_flight key none = false
  is_in_flight key (some p) = elim (Rtid-discrete p.rtid key) [ yes e ↦ true | no n ↦ false ]

  abbrev pub or_same : Server → Option Server → Server
  or_same s none = s
  or_same s (some after) = after

  abbrev pub accept_prack : TrRequest → String → Rtid → Server → Server
  accept_prack req checksum key s =
      let told =
        call_if s.has_prack_cb (prack_cb req (gen_response 200 "OK" req))
          (act (rtid_del key) (record s { prov_inflight = none })) in
      or_same told (reply_to req checksum (gen_response 200 "OK" req) req.msg.via0 told)

  abbrev pub answer_prack : TrRequest → String → Rtid → Server → Server
  answer_prack req checksum key s =
      if is_in_flight key s.prov_inflight
      then accept_prack req checksum key s
      else or_same s (reply_to req checksum (gen_response 481 "Huh?" req) req.msg.via0 s)

  abbrev pub prack_by : TrRequest → String → Option Rtid → Server → Server
  prack_by req checksum none s = s
  prack_by req checksum (some key) s = answer_prack req checksum key s

  unfoldable pub incoming_prack : TrRequest → String → Server → Server
  incoming_prack req checksum s = prack_by req checksum (request_rtid req.msg) s

  -- `IncomingRequest`
  unfoldable pub incoming_request : TrRequest → String → Server → Server
  unfolding incoming_again incoming_cancel incoming_ack incoming_prack
  incoming_request req checksum s =
      let again = incoming_again checksum s in
      let cancelled = incoming_cancel req checksum s in
      let acked = incoming_ack req checksum s in
      let pracked = incoming_prack req checksum s in
      if s.base.linked
      then (if str_eq req.method s.method
          then again
          else (if str_eq req.method "CANCEL"
              then cancelled
              else (if str_eq req.method "ACK"
                  then acked
                  else (if str_eq req.method "PRACK" then pracked else s))))
      else s

  -- the 487 of an expired request says so
  abbrev pub expired : Option TrResponse → Option TrResponse
  expired none = none
  expired (some resp) = some (record resp { reason = "Request Expired" })

  -- `timerE`
  unfoldable pub timer_e : Server → Server
  unfolding do_cancel
  timer_e s =
      if s.base.linked
      then (if is_open s.base.state
          then do_cancel none (record (cancel_te_e s) { r487 = expired s.r487 })
          else cancel_te_e s)
      else s

-- `TimersAreActive`
abbrev pub timers_are_active : Server → Bool
timers_are_active s = is_some s.base.te_a || (is_some s.te_d || is_some s.te_e)

-- `SetPrackCBs`, with which of the two callbacks are not nil
abbrev pub set_prack_cbs : Bool → Bool → Server → Server
set_prack_cbs prack noprack s = record s { has_prack_cb = prack; has_noprack_cb = noprack }

-- `SetCancelCB`, `SetNoackCB` and `SetBeforeResponseSent`
abbrev pub set_cancel_cb : Bool → Server → Server
set_cancel_cb set s = record s { has_cancel_cb = set }

abbrev pub set_noack_cb : Bool → Server → Server
set_noack_cb set s = record s { has_noack_cb = set }

abbrev pub set_before_response : Bool → Server → Server
set_before_response set s = record s { has_before_response = set }

-- `Setup100rel`
abbrev pub setup_100rel : TrRequest → Server → Server
setup_100rel req s =
    if req.requires_100rel || req.supports_100rel then record s { pr_rel = true } else s
