-- ===== src/Ua/Core/Messages.antt =====
-- `RecvRequest`, `RecvResponse`, `RecvACK`, `RecvPRACK` and the cancel callbacks of `Ua`.
use go_b2bua.Prelude.{
  ℕ, ◌+◌, Bool, true, false, not, ◌&&◌, ◌||◌, String, Option, none, some, List, [], ◌∷◌, leb, ◌==◌,
  is_some, is_empty, if◌then◌else◌,
}
use text.Mathlib.Text.{◌==◌ as str_eq}
use go_b2bua.Sip.{
  Body, CSeq, Challenge, Header, authorization_hf, proxy_authorization_hf, unsupported_hf, Method,
  invite, bye, OutRequest, Request, Response,
}
use go_b2bua.Event.{CcEvent, connect_ev, disconnect_ev, new_event}
use go_b2bua.Ua.State.{
  UaState, uac_trying, uac_ringing, uac_updating, uac_cancelling, uas_idle, uas_trying, uas_ringing,
  uas_updating, uas_ringing_rel, uas_pre_connect, connected, disconnected, RelState, Callback,
  conn_cb, disc_cb, remote_sdp_change, Ua,
}
use go_b2bua.Ua.Timers.{
  cancel_expire_timer, cancel_credit_timer, start_credit_timer, set_connect_ts, set_disconnect_ts,
}
use go_b2bua.Ua.Routing.{emit, log, gen_request, find_req, remove_req}
use go_b2bua.Ua.Exec.{Outcome, Exec, stay, begin_client, begin_new}
use go_b2bua.Ua.Steps.{ClientTr, set_r_sdp, reset_sdp_hooks, clear_branch, run_listener}
use go_b2bua.Ua.Uac.Trying as UacTrying
use go_b2bua.Ua.Uac.Ringing as UacRinging
use go_b2bua.Ua.Uac.Cancelling as UacCancelling
use go_b2bua.Ua.Uac.Updating as UacUpdating
use go_b2bua.Ua.Uas.Idle as UasIdle
use go_b2bua.Ua.Uas.Ringing as UasRinging
use go_b2bua.Ua.Uas.PreConnect as UasPreConnect
use go_b2bua.Ua.Uas.Updating as UasUpdating
use go_b2bua.Ua.Connected
use go_b2bua.Ua.Core.State.{change_state, emit_event, emit_pending_events, returned, settle}
use go_b2bua.Ua.Core.Events.{recv_event}

-- `RecvResponse` of the state
unfoldable pub state_response : UaState → Response → ClientTr → Exec (Unit {0})
state_response uac_trying resp tr = UacTrying.recv_response resp tr
state_response uac_ringing resp tr = UacRinging.recv_response resp tr
state_response (uac_cancelling te) resp tr = UacCancelling.recv_response te resp tr
state_response uac_updating resp tr = UacUpdating.recv_response resp tr
state_response _ resp tr = stay

-- `RecvRequest` of the state
unfoldable pub state_request : UaState → Request → Exec (Unit {0})
state_request uas_idle req = UasIdle.recv_request req
state_request uas_ringing req = UasRinging.recv_request req
state_request (uas_ringing_rel r) req = UasRinging.recv_request req
state_request (uas_pre_connect confirm pending) req = UasPreConnect.recv_request req
state_request uas_updating req = UasUpdating.recv_request req
state_request uac_updating req = UacUpdating.recv_request req
state_request (connected ka) req = Connected.recv_request recv_event req
state_request disconnected req = Connected.disconnected_request req
state_request _ req = stay

-- `update_ua`
abbrev pub agent_of : Option String → Option String → String → String
agent_of (some a) server old = a
agent_of none (some s) old = s
agent_of none none old = old

-- `_, ok := self.auth_enalgs[algorithm]`
abbrev pub is_enabled : Option (List String) → String → Bool
is_enabled none a = true
is_enabled (some []) a = false
is_enabled (some (x ∷ xs)) a = str_eq x a || is_enabled (some xs) a

-- The choice of `processChallenge`: the first enabled challenge with a supported algorithm, unless
-- one before it has an algorithm that cannot be read.
unfoldable pub choose : Option (List String) → List Challenge → Option Challenge
choose enalgs [] = none
choose enalgs (c ∷ cs) =
    let rest = choose enalgs cs in
    elim c.algorithm [
      | none ↦ none
      | some a ↦
          if not (is_enabled enalgs a)
          then rest
          else elim c.supported [ none ↦ rest | some b ↦ if b then some c else rest ]
    ]

-- the rest of `processChallenge`, on the request that `GenRequest` made
abbrev pub retry : ℕ → Option OutRequest × Ua → Bool × Ua
retry cseq (none, u) = (false, log "UA::processChallenge: cannot create INVITE" u)
retry cseq (some q, u) =
    let v : Ua = record u { dialog = record (u.dialog) { l_cseq = u.dialog.l_cseq + 1 } } in
    if v.has_tm && not v.world.tm_refuses
    then (
      true,
      (let w : Ua = begin_client q v in
          record w { dialog = record (w.dialog) { reqs = remove_req cseq w.dialog.reqs } }),
    )
    else (false, log "UA::processChallenge: cannot prepare client transaction" v)

abbrev pub retry_with : ℕ → List Header → Option Challenge → Ua → Bool × Ua
retry_with cseq eh none u = (false, u)
retry_with cseq eh (some c) u = retry cseq (gen_request invite u.media.l_sdp c.auth eh u)

-- `processChallenge`
unfoldable pub process_challenge : List Challenge → ℕ → List Header → Ua → Bool × Ua
unfolding choose gen_request begin_client log
process_challenge challenges cseq eh u = retry_with cseq eh (choose u.opts.auth_enalgs challenges) u

abbrev has_auth : List Header → Bool
has_auth [] = false
has_auth (authorization_hf s ∷ hs) = true
has_auth (h ∷ hs) = has_auth hs

abbrev has_proxy_auth : List Header → Bool
has_proxy_auth [] = false
has_proxy_auth (proxy_authorization_hf s ∷ hs) = true
has_proxy_auth (h ∷ hs) = has_proxy_auth hs

-- `processWWWChallenge` and `processProxyChallenge`
unfoldable pub process_www_challenge : Response → ℕ → OutRequest → List Header → Ua → Bool × Ua
unfolding process_challenge
process_www_challenge resp cseq orig eh u =
    if is_empty u.opts.username || is_empty u.opts.password || has_auth orig.headers
    then (false, u)
    else process_challenge resp.www_challenges cseq eh u

unfoldable pub process_proxy_challenge : Response → ℕ → OutRequest → List Header → Ua → Bool × Ua
unfolding process_challenge
process_proxy_challenge resp cseq orig eh u =
    if is_empty u.opts.username || is_empty u.opts.password || has_proxy_auth orig.headers
    then (false, u)
    else process_challenge resp.proxy_challenges cseq eh u

abbrev pub is_invite : Method → Bool
is_invite invite = true
is_invite _ = false

-- the answer to a challenge, if the response is one that is to be answered
unfoldable pub try_challenge : Response → CSeq → Option OutRequest → ClientTr → Ua → Bool × Ua
unfolding process_www_challenge process_proxy_challenge
try_challenge resp cseq none tr u = (false, u)
try_challenge resp cseq (some orig) tr u =
    if is_invite cseq.method && not u.opts.pass_auth
    then (if resp.scode == 401
        then process_www_challenge resp cseq.num orig tr.req_extra_headers u
        else if resp.scode == 407
        then process_proxy_challenge resp cseq.num orig tr.req_extra_headers u
        else (false, u))
    else (false, u)

abbrev pub forget : Response → ℕ → Option OutRequest → Ua → Ua
forget resp cseq none u = u
forget resp cseq (some orig) u =
    if leb 200 resp.scode
    then record u { dialog = record (u.dialog) { reqs = remove_req cseq u.dialog.reqs } }
    else u

abbrev pub respond_in : UaState → Response → CSeq → ClientTr → Bool × Ua → Ua
respond_in s resp cseq tr (true, u) = u
respond_in s resp cseq tr (false, u) =
    settle (state_response s resp tr (forget resp cseq.num (find_req cseq.num u.dialog.reqs) u))

abbrev pub parsed_response : UaState → Response → Option CSeq → ClientTr → Ua → Ua
parsed_response s resp none tr u = log "UA::RecvResponse: cannot parse CSeq" u
parsed_response s resp (some cseq) tr u =
    let v : Ua = record u { remote_ua = agent_of resp.user_agent resp.server u.remote_ua } in
    respond_in s resp cseq tr (try_challenge resp cseq (find_req cseq.num v.dialog.reqs) tr v)

abbrev pub response_in : Option UaState → Response → ClientTr → Ua → Ua
response_in none resp tr u = u
response_in (some s) resp tr u = parsed_response s resp resp.cseq tr u

-- `RecvResponse`
unfoldable pub recv_response : Response → ClientTr → Ua → Ua
unfolding state_response try_challenge settle log
recv_response resp tr u = response_in u.state resp tr u

-- `Ua_context`: a response for the transaction to send, or the callbacks that it is to call; the
-- cancel callback is the method of the state at that time. nil is none.
pub data Context : Type 0 where
  reject : ℕ → String → List Header → Context
  callbacks : Option UaState → Bool → Context

abbrev pub is_replayed : Option ℕ → ℕ → Bool
is_replayed none n = false
is_replayed (some last) n = leb n last

abbrev changed : Outcome (Unit {0}) → Bool
changed r = is_some (returned r).newstate

abbrev pub contextual : Request → Outcome (Unit {0}) × Ua → Ua × Option Context
contextual req (r, u) =
    let v = settle (r, u) in
    (v, if changed r && is_invite req.method then some (callbacks v.state v.pr_rel) else none)

-- a request that opens a dialog
abbrev pub open_with : Request → Ua → Ua × Option Context
open_with req u =
    if not (is_invite req.method)
    then (u, none)
    else if not (is_some req.body) && req.require_100rel
    then (u, some (reject 420 "Bad Extension" (unsupported_hf "100rel" ∷ [])))
    else contextual req (
        state_request uas_idle req (
          change_state uas_idle none (record u { pr_rel = is_some req.body && req.offers_100rel })))

abbrev pub request_in : Option UaState → Request → Ua → Ua × Option Context
request_in none req u = open_with req u
request_in (some s) req u = contextual req (state_request s req u)

abbrev pub in_order : Option CSeq → Request → Ua → Ua × Option Context
in_order none req u = (u, some (reject 500 "Server Internal Error" []))
in_order (some cseq) req u =
    if is_replayed u.dialog.r_cseq cseq.num
    then (u, some (reject 500 "Server Internal Error" []))
    else request_in u.state req
        (record u { dialog = record (u.dialog) { r_cseq = some (cseq.num) } })

-- `RecvRequest`
unfoldable pub recv_request : Request → Ua → Ua × Option Context
unfolding state_request settle change_state
recv_request req u = in_order req.cseq req (
    if is_empty u.remote_ua
    then record u { remote_ua = agent_of req.user_agent req.server u.remote_ua }
    else u)

-- `IsConnected`
abbrev pub is_connected : Option UaState → Bool
is_connected (some (connected ka)) = true
is_connected (some (uas_pre_connect confirm pending)) = true
is_connected (some uac_updating) = true
is_connected (some uas_updating) = true
is_connected _ = false

-- the body of the ACK: the user agent, and whether the event still goes to the controller
abbrev pub take_ack_body : Option Body → CcEvent → Ua → Bool × Ua
take_ack_body none event u = (true, set_r_sdp none u)
take_ack_body (some b) event u =
    if u.media.on_remote
    then (false, emit (remote_sdp_change b event) u)
    else (true, set_r_sdp (some b) u)

abbrev pub ack_event : Ua → ℕ → Option Body → CcEvent
ack_event u rtime body = new_event u.next_seq rtime u.origin (connect_ev 0 "ACK" body)

abbrev pub to_connected : Option Callback → Ua → Ua
to_connected cb u = change_state (connected (leb 1 u.opts.ka_interval)) cb (clear_branch u)

-- the call is confirmed by this ACK
unfoldable pub confirm_call : ℕ → Option Body → Ua → Ua
unfolding cancel_expire_timer cancel_credit_timer start_credit_timer set_connect_ts run_listener
confirm_call rtime body u =
    let event = ack_event u rtime body in
    let timed : Ua = set_connect_ts rtime (
      start_credit_timer rtime
        (cancel_credit_timer (cancel_expire_timer (record u { next_seq = u.next_seq + 1 })))) in
    let (send, v) = take_ack_body body event (run_listener (conn_cb rtime u.origin) timed) in
    let w : Ua = to_connected (some (conn_cb rtime u.origin)) v in
    if send then emit_event event w else w

abbrev pub resume : Option CcEvent → Ua → Ua
resume none u = u
resume (some e) u = recv_event e u

-- `RecvACK` of the pre-connect state
unfoldable pub pre_connect_ack : Bool → Option CcEvent → Request → Ua → Ua
unfolding confirm_call
pre_connect_ack confirm pending req u =
    resume pending (if confirm then confirm_call req.rtime req.body u else to_connected none u)

abbrev pub ack_in : Option UaState → Request → Ua → Ua
ack_in (some (uas_pre_connect confirm pending)) req u = pre_connect_ack confirm pending req u
ack_in _ req u = u

-- `RecvACK`
unfoldable pub recv_ack : Request → Ua → Ua
unfolding pre_connect_ack emit_pending_events
recv_ack req u = if is_connected u.state then emit_pending_events (ack_in u.state req u) else u

abbrev pub reset_pending : Option UaState → Ua → Ua
reset_pending (some (uas_ringing_rel r)) u = record u {
  state = some (
      uas_ringing_rel
        (record r { pending_ev_ring = none; pending_ev_connect = none; pending_ev_update = none }));
}
reset_pending _ u = u

abbrev pub first_pending : RelState → Option CcEvent
first_pending r = elim r.pending_ev_connect [ none ↦ r.pending_ev_ring | some e ↦ some e ]

abbrev pub enter_rel : Outcome (Unit {0}) × Ua → Ua
enter_rel (r, u) = elim (returned r).newstate [
  | none ↦ u
  | some s ↦ change_state s (returned r).cb u
]

abbrev pub replay : RelState → Option CcEvent → Ua → Ua
replay r none u = u
replay r (some e) u = enter_rel (UasRinging.rel_recv_event r e u)

abbrev pub store_prack_body : Option Body → Ua → Ua
store_prack_body none u = u
store_prack_body (some b) u = set_r_sdp (some b) u

-- `RecvPRACK` of the reliable ringing state: the event that waited is handled now
unfoldable pub rel_prack : RelState → Request → Ua → Ua
unfolding set_r_sdp
rel_prack r req u =
    let acked = record r { prack_received = true } in
    let v : Ua =
      replay acked (first_pending r) (record u { state = some (uas_ringing_rel acked) }) in
    let w : Ua = resume r.pending_ev_update v in store_prack_body req.body (reset_pending w.state w)

abbrev pub prack_in : Option UaState → Request → Ua → Ua
prack_in (some (uas_ringing_rel r)) req u = rel_prack r req u
prack_in _ req u = u

-- `RecvPRACK`
unfoldable pub recv_prack : Request → Ua → Ua
unfolding rel_prack
recv_prack req u = prack_in u.state req u

abbrev pub reason_of : Option Request → Option String
reason_of none = none
reason_of (some req) = req.reason

-- `RecvCancel` of the trying and ringing states
unfoldable pub cancel_early : ℕ → Option Request → Ua → Ua
unfolding set_disconnect_ts reset_sdp_hooks new_event
cancel_early rtime req u =
    let event = new_event u.next_seq rtime u.origin (disconnect_ev none) in
    emit_event (record event { sip_reason = reason_of req })
      (change_state disconnected (some (disc_cb rtime u.origin 0 req))
        (reset_sdp_hooks (set_disconnect_ts rtime (record u { next_seq = u.next_seq + 1 }))))

abbrev pub cancel_with : ℕ → Option Request → Option OutRequest × Ua → Ua
cancel_with rtime req (none, u) = log "UasStateUpdating::Cancel: #1" u
cancel_with rtime req (some q, u) =
    let v : Ua =
      change_state disconnected (some (disc_cb rtime u.origin 0 req))
        (reset_sdp_hooks (set_disconnect_ts rtime (cancel_credit_timer (begin_new q u)))) in
    let event = new_event v.next_seq rtime v.origin (disconnect_ev none) in
    emit_event (record event { sip_reason = reason_of req })
      (record v { next_seq = v.next_seq + 1 })

-- `RecvCancel` of the server's updating state
unfoldable pub cancel_update : ℕ → Option Request → Ua → Ua
unfolding cancel_credit_timer set_disconnect_ts reset_sdp_hooks new_event begin_new log gen_request
cancel_update rtime req u = cancel_with rtime req (gen_request bye none none [] u)

-- `RecvCancel` of the state that was current when the transaction got its callback
unfoldable pub recv_cancel : Option UaState → ℕ → Option Request → Ua → Ua
unfolding cancel_early cancel_update
recv_cancel (some uas_trying) rtime req u = cancel_early rtime req u
recv_cancel (some uas_ringing) rtime req u = cancel_early rtime req u
recv_cancel (some (uas_ringing_rel r)) rtime req u = cancel_early rtime req u
recv_cancel (some uas_updating) rtime req u = cancel_update rtime req u
recv_cancel _ rtime req u = u
