-- ===== src/Transaction/Client/Handlers.antt =====
-- What a client transaction does on a response, when it is cancelled and when its ACK is sent
-- (sippy/client_transaction.go).
use go_b2bua.Prelude.{
  ◌&&◌, Bool, true, false, String, Option, none, some, List, [], ◌∷◌, ◌++◌, ltb, is_some, find,
  store, if◌then◌else◌,
}
use go_b2bua.Sip.{Header}
use go_b2bua.Transaction.Message.{Rtid, Rtid-discrete, TrRequest, TrResponse, response_rtid}
use go_b2bua.Transaction.Cache.{Packet, request_out, silent}
use go_b2bua.Transaction.Base.{
  TrState, trying, ringing, terminated, transmit, cache_put, cache_call_id, tclient_del,
  before_request, begin_cancel, log_error, enter, cancel_te_a, timer_a,
}
use go_b2bua.Transaction.Client.{
  Client, act, act_if, on_base, cleanup, start_timers, start_te_b, cancel_te_b, timer_b, timer_c,
  timer_g,
}
use go_b2bua.Transaction.Client.Final.{told, process_final}

abbrev pub packet_of : Option TrRequest → Option Packet
packet_of none = none
packet_of (some req) = some (request_out req)

abbrev pub is_trying : TrState → Bool
is_trying trying = true
is_trying _ = false

abbrev pub is_terminated : TrState → Bool
is_terminated terminated = true
is_terminated _ = false

abbrev pub is_ringing : TrState → Bool
is_ringing ringing = true
is_ringing _ = false

-- a CANCEL that waited goes out on the first provisional response
abbrev pub cancel_pending_now : Client → Client
cancel_pending_now t =
    if t.cancel_pending
    then act (begin_cancel t.cancel) (record t { cancel_pending = false })
    else t

abbrev pub first_provisional : Client → Client
first_provisional t =
    if is_trying t.base.state then cancel_pending_now (on_base (enter ringing) t) else t

-- `process_provisional_response`
unfoldable pub process_provisional : Bool → String → TrResponse → Client → Client
process_provisional set_uack checksum resp t =
    let rings = first_provisional t in
    told set_uack resp
      (act (cache_call_id checksum rings.base.tid.call_id) (start_te_b rings.expires rings))

abbrev pub stop_te_a : Client → Client
stop_te_a t = if is_trying t.base.state then on_base cancel_te_a t else t

-- the response goes on to be processed
unfoldable pub process : String → String → Bool → String → TrResponse → Client → Client
unfolding process_final process_provisional
process default_port branch set_uack checksum resp t =
    let stopped = cancel_te_b (stop_te_a t) in
    if ltb resp.scode 200
    then process_provisional set_uack checksum resp stopped
    else process_final default_port branch set_uack checksum resp stopped

abbrev pub is_seen : Rtid → Client → Bool
is_seen key t = is_some (find Rtid-discrete key t.seen_rseqs)

abbrev pub see : Rtid → Client → Client
see key t = record t { seen_rseqs = store Rtid-discrete key true t.seen_rseqs }

-- a reliable provisional response goes on once
unfoldable pub process_once :
    String → String → Bool → String → TrResponse → Option Rtid → Client → Client
unfolding process
process_once default_port branch set_uack checksum resp none t =
    act (log_error "Cannot get rtid: ") t
process_once default_port branch set_uack checksum resp (some key) t =
    if is_seen key t
    then act (cache_put checksum (silent "")) t
    else process default_port branch set_uack checksum resp (see key t)

-- a provisional response above 100 with an RSeq
abbrev pub is_reliable : TrResponse → Bool
is_reliable resp = ltb 100 resp.scode && (ltb resp.scode 200 && is_some resp.msg.rseq)

-- `IncomingResponse`; `branch` is what `GenBranch` makes, `set_uack` says whether the code above
-- calls `SetUAck(true)` when it is told of the response
unfoldable pub incoming_response : String → String → Bool → String → TrResponse → Client → Client
unfolding process_once process
incoming_response default_port branch set_uack checksum resp t =
    if t.base.linked
    then (if is_terminated t.base.state
        then t
        else (if is_reliable resp
            then process_once default_port branch set_uack checksum resp (response_rtid resp.msg) t
            else process default_port branch set_uack checksum resp t))
    else t

abbrev pub with_headers : List Header → Option TrRequest → Option TrRequest
with_headers hdrs none = none
with_headers hdrs (some req) = some (record req { headers = req.headers ++ hdrs })

-- `Cancel`
unfoldable pub cancel_by : List Header → Client → Client
cancel_by extra t =
    let full = with_headers (extra ++ t.txn_headers) t.cancel in
    if t.base.linked
    then (if is_ringing t.base.state
        then act (begin_cancel full) (record t { cancel = full })
        else record t { cancel_pending = true })
    else t

-- `SendACK`
unfoldable pub send_ack : Client → Client
send_ack t =
    let asked = act_if t.has_before_request (before_request t.ack) (record t { te_g = none }) in
    cleanup (
      if asked.base.linked
      then act (tclient_del asked.base.tid) (
          act
            (transmit asked.base.userv (packet_of asked.ack) asked.ack_addr asked.ack_checksum
              asked.base.tid.call_id 0)
            asked)
      else asked)

-- `TransmitData`
unfoldable pub transmit_data : Client → Client
transmit_data t =
    if t.base.linked
    then act (transmit t.base.userv t.base.packet t.base.address "" t.base.tid.call_id 0) t
    else t

-- `BeginClientTransaction`: the timers start before the request is sent
unfoldable pub begin_client : TrRequest → Client → Client
unfolding transmit_data
begin_client req t =
    transmit_data (act_if t.has_before_request (before_request (some req)) (start_timers t))

-- What happens to a client transaction. A timer that does not run does not run out.
pub data Input : Type 0 where
  receive : String → Bool → String → TrResponse → Input
  cancelled : List Header → Input
  acked : Input
  fire_a fire_b fire_c fire_g : Input

module _ (default_port : String) where
  abbrev pub step : Input → Client → Client
  step (receive branch set_uack checksum resp) t =
      incoming_response default_port branch set_uack checksum resp t
  step (cancelled extra) t = cancel_by extra t
  step acked t = send_ack t
  step fire_a t = if is_some t.base.te_a then on_base timer_a t else t
  step fire_b t = if is_some t.te_b then timer_b t else t
  step fire_c t = if is_some t.te_c then timer_c t else t
  step fire_g t = if is_some t.te_g then timer_g t else t

  -- the latest input comes first
  abbrev pub steps : List Input → Client → Client
  steps [] t = t
  steps (i ∷ is) t = step i (steps is t)
