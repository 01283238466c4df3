-- ===== src/Tests/Transactions.antt =====
-- Concrete transactions: an INVITE that comes in and is answered, cancelled and acknowledged, an
-- INVITE that goes out, and a manager with both.
use mathlib.Core.Logic.{◌↔◌, ◌≢◌}
use native.Mathlib.Decide.{ℕ_discrete}
use go_b2bua.Prelude.{
  ◌+◌, ◌≤◌, true, false, none, some, List, [], ◌∷◌, ◌++◌, length, ◌≡◌, refl, arith, String,
  if◌then◌else◌, leb, find, string_discrete,
}
use go_b2bua.Sip.{HostPort, reason_hf}
use go_b2bua.Transaction.Message.{
  Via, Msg, Tid, Rtid, TrRequest, TrResponse, gen_response, get_tid, branch_of, request_rtid,
  response_rtid,
}
use go_b2bua.Transaction.Cache.{silent, no_entries, rcache_get}
use go_b2bua.Transaction.CacheLaws.{
  purge, put, performed, performed_aged, entry_of, rcache_get-Refines, rcache_get-window,
}
use go_b2bua.Transaction.Base.{completed, Base, base_cleanup, timer_a}
use go_b2bua.Transaction.Server.{Server, new_server, timer_d, start_timers, fresh_server, cleanup}
use go_b2bua.Transaction.Server.Steps as ServerSteps
use go_b2bua.Transaction.Server.Life.{life-Over}
use go_b2bua.Transaction.Server.Cancelling.{codes, incoming_cancel-answered}
use go_b2bua.Transaction.Server.Retransmission.{prov_timers, prov_timers-gives_up, elapsed-bound}
use go_b2bua.Transaction.Server.Sending.{send_response}
use go_b2bua.Transaction.Server.Handlers.{incoming_request}
use go_b2bua.Transaction.Client.{Client, fresh_client, new_client, timer_b}
use go_b2bua.Transaction.Client.Handlers as ClientSteps
use go_b2bua.Transaction.Client.Timeout.{heard, timeout-heard_once}
use go_b2bua.Transaction.Client.Cancelling.{cancels, cancel-either_order}
use go_b2bua.Transaction.Client.Reliable.{reliable-heard_once}
use go_b2bua.Transaction.Manager.{
  Manager, Sent, save_server, run_server, reg_consumer, unreg_consumer,
}
use go_b2bua.Transaction.Manager.Nat.{Ipv4, is_private, is_private-Range, IsPrivateRange}
use go_b2bua.Transaction.Manager.Outgoing.{create_client}
use go_b2bua.Transaction.Manager.Env.{Env, Datagram, good}
use go_b2bua.Transaction.Manager.Requests.{request_in, tid_of}
use go_b2bua.Transaction.Manager.Incoming.{handle_incoming, process_response}
use go_b2bua.Transaction.Manager.Known.Requests.{KeepsKnown}
use go_b2bua.Transaction.Manager.Known.Handling.{
  Traffic, arrives, server_runs, pass_all, sent_also, handle_incoming-Once,
}
use go_b2bua.Transaction.Manager.Stuck.{IsStuck, handle_all, prack-IsStuck}
use go_b2bua.Transaction.Manager.Creating.{heard_by, response-heard}
use go_b2bua.Transaction.Manager.Consumers.{consumers_of, unreg_consumer-reg_consumer}
use go_b2bua.Transaction.Manager.Matching.{ack-Matches}

abbrev peer : HostPort
peer = record { host = "10.0.0.2"; port = "5060" }

abbrev via : Via
via = record {
  host = "10.0.0.2";
  port = none;
  received = none;
  rport = none;
  branch = some (some "z1");
}

abbrev msg : Msg
msg = record {
  call_id = "c1";
  cseq = some record { cseq = 7; method = "INVITE" };
  from_tag = some "f1";
  to_tag = some "";
  via0 = some via;
  more_vias = [];
  rseq = none;
  rack = none;
  contacts = [];
  asterisk = false;
  record_routes = [];
  source = none;
}

abbrev invite : TrRequest
invite = record {
  method = "INVITE";
  msg = msg;
  expires = none;
  rtime = 0;
  requires_100rel = false;
  supports_100rel = false;
  ruri = none;
  routes = [];
  headers = [];
  nated = false;
}

abbrev cancel : TrRequest
cancel = record invite { method = "CANCEL" }

abbrev ack : TrRequest
ack = record invite { method = "ACK"; msg = record msg { to_tag = some "t1" } }

abbrev busy : TrResponse
busy = record { scode = 486; reason = "Busy Here"; msg = record msg { to_tag = some "t1" } }

abbrev invite_tid : Tid
invite_tid = record {
  call_id = "c1";
  cseq = 7;
  cseq_method = "";
  from_tag = "f1";
  to_tag = "";
  branch = "z1";
}

abbrev terminated : TrResponse
terminated = record { scode = 487; reason = "Request Terminated"; msg = msg }

abbrev server : Server
server = fresh_server invite "sum1" invite_tid 1 true (some terminated) 300000

rcache_get-Refines_example :
    rcache_get "a" (performed (purge ∷ put "a" (silent "c") ∷ []))
    ≡ entry_of (performed_aged (purge ∷ put "a" (silent "c") ∷ []) "a")
rcache_get-Refines_example = rcache_get-Refines (purge ∷ put "a" (silent "c") ∷ []) "a"

rcache_get-window_example :
    rcache_get "a" (performed ((purge ∷ []) ++ put "a" (silent "c") ∷ []))
    ≡ (if leb 1 1 then some (silent "c") else none)
rcache_get-window_example = rcache_get-window (purge ∷ []) [] "a" (silent "c") (tt, tt)

new_server-invite : new_server invite "sum1" invite_tid 1 ≡ some server
unfolding new_server gen_response
new_server-invite = refl

-- a reliable ringing is sent, then the call is busy, and no ACK comes
abbrev reliable_life : List ServerSteps.Input
reliable_life =
    ServerSteps.fire_d
    ∷ ServerSteps.send "t1" false true 0 busy
    ∷ ServerSteps.send "t1" false true 0 (record busy { scode = 180; reason = "Ringing" })
    ∷ ServerSteps.prack_cbs true true
    ∷ ServerSteps.setup (record invite { supports_100rel = true })
    ∷ []

abbrev over : Server
over = ServerSteps.steps "5060" reliable_life (start_timers server)

-- the timer of the reliable response still runs
abbrev later : List ServerSteps.Input
later = ServerSteps.receive "t2" invite "sum2" ∷ ServerSteps.fire_prov ∷ []

over_linked : over.base.linked ≡ false
unfolding send_response get_tid response_rtid timer_d cleanup base_cleanup
over_linked = refl

life-Over_example :
    ((ServerSteps.steps "5060" later over).base.linked ≡ false)
    × ((ServerSteps.steps "5060" later over).base.acts ≡ over.base.acts)
life-Over_example =
    life-Over "5060" invite "sum1" invite_tid 1 reliable_life later server over new_server-invite
      refl over_linked

incoming_cancel-answered_example :
    (codes (incoming_request "5060" "t1" cancel "sum2" server).base.acts ≡ 487 ∷ 200 ∷ [])
    × ((incoming_request "5060" "t1" cancel "sum2" server).base.state ≡ completed)
incoming_cancel-answered_example =
    incoming_cancel-answered "5060" "t1" cancel "sum2" "" server refl refl refl refl refl
      (refl, refl, refl)

abbrev key : Rtid
key = record { call_id = "c1"; from_tag = "f1"; rseq = 1; cseq = 7; method = "INVITE" }

abbrev waiting : Server
waiting = record server {
  prov_inflight = some record { last_timeout = 500; lossemul = 0; rtid = key };
}

prov_timers-gives_up_example : (prov_timers 15 waiting).prov_inflight ≡ none
prov_timers-gives_up_example =
    prov_timers-gives_up waiting (record { last_timeout = 500; lossemul = 0; rtid = key }) refl
      (omega arith)

abbrev answered_base : Base
answered_base = record (server.base) { te_a = some 500 }

elapsed-bound_example : 6 ≤ 6
unfolding timer_a
elapsed-bound_example = elapsed-bound 6 answered_base refl refl refl (omega arith)

abbrev client : Client
unfolding fresh_client
client = fresh_client invite invite_tid 1 true (some peer) false none none 300000

timeout-heard_once_example :
    heard (ClientSteps.steps "5060" (ClientSteps.fire_c ∷ []) (timer_b client)).base.acts ≡ 1 + 0
unfolding client
timeout-heard_once_example = timeout-heard_once "5060" (ClientSteps.fire_c ∷ []) client refl

abbrev progress : TrResponse
progress = record { scode = 183; reason = "Progress"; msg = msg }

cancel-either_order_example :
    (cancels
        (ClientSteps.incoming_response "5060" "z2" false "sum2" progress
          (ClientSteps.cancel_by (reason_hf "gone" ∷ []) client)).base.acts
      ≡ client.cancel ∷ [])
    × (cancels
          (ClientSteps.cancel_by
            (reason_hf "gone" ∷ [])
            (ClientSteps.incoming_response "5060" "z2" false "sum2" progress client)).base.acts
        ≡ ClientSteps.with_headers (reason_hf "gone" ∷ []) client.cancel ∷ [])
unfolding client
cancel-either_order_example =
    cancel-either_order "5060" "z2" "sum2" false progress (reason_hf "gone" ∷ []) client refl refl
      refl refl refl

abbrev reliable : TrResponse
reliable = record progress { msg = record msg { rseq = some (some 1) } }

reliable-heard_once_example :
    heard
      (ClientSteps.incoming_response "5060" "z3" false "sum3" reliable (
        ClientSteps.steps "5060" []
          (ClientSteps.incoming_response "5060" "z2" false "sum2" reliable client))).base.acts
    ≡ heard
        (ClientSteps.steps "5060" []
          (ClientSteps.incoming_response "5060" "z2" false "sum2" reliable client)).base.acts
unfolding client response_rtid
reliable-heard_once_example =
    reliable-heard_once "5060" "z2" "z3" false false "sum2" "sum3" reliable reliable key [] client
      refl refl refl refl refl refl

abbrev private_ip : Ipv4
private_ip = record { a = 172; b = 31; c = 0; d = 1 }

is_private-Range_example : (is_private (some private_ip) ≡ true) ↔ IsPrivateRange private_ip
is_private-Range_example =
    is_private-Range private_ip
      (record { a_lt = omega arith; b_lt = omega arith; c_lt = omega arith; d_lt = omega arith })

abbrev manager : Manager
manager = record {
  cache = no_entries;
  tclient = [];
  tserver = (invite_tid, 0) ∷ [];
  rtid2tid = [];
  clients = [];
  servers = (0, server) ∷ [];
  next_ref = 1;
  consumers = [];
  nat_traversal = false;
  tserver_locked = false;
  sent = [];
  calls = [];
}

abbrev quiet : Env
quiet = record {
  default_port = "5060";
  sip_port = "5060";
  parse_ip = λ host. none;
  is_wildcard = λ userv. false;
  server_for = λ address local. some 1;
  fresh_tag = "t1";
  fresh_branch = "z2";
  set_uack = false;
  has_call_map = true;
  is_yours = λ ua req. false;
  recv_request = λ ua req ref m. (none, m);
  on_new_dialog = λ req ref m. (record { receives = false; response = none }, m);
  recv_new_dialog = λ req ref m. (none, m);
}

abbrev quiet-KeepsKnown : KeepsKnown quiet
quiet-KeepsKnown = record {
  by_ua = λ q ua req ref m h. h;
  by_map = λ q req ref m h. h;
  by_receiver = λ q req ref m h. h;
}

abbrev invite_datagram : Datagram
invite_datagram = record {
  size = 400;
  checksum = "sum9";
  is_response = false;
  response = none;
  request = good invite;
}

abbrev meanwhile : List Traffic
meanwhile =
    server_runs 1 timer_d ∷ arrives (record invite_datagram { checksum = "other" }) peer 1 ∷ []

handle_incoming-Once_example :
    (extra : List Sent) × (length extra ≤ 1)
    × (handle_incoming quiet invite_datagram peer 1
          (pass_all quiet meanwhile (handle_incoming quiet invite_datagram peer 1 manager))
        ≡ sent_also extra
            (pass_all quiet meanwhile (handle_incoming quiet invite_datagram peer 1 manager)))
handle_incoming-Once_example =
    handle_incoming-Once quiet quiet-KeepsKnown invite_datagram peer peer 1 1 meanwhile manager refl

abbrev prack : TrRequest
prack = record invite {
  method = "PRACK";
  msg = record msg { rack = some (some record { rseq = 1; cseq = 7; method = "INVITE" }) };
}

-- the TID of the PRACK is on record, and its transaction is gone
abbrev stale : Manager
stale = record manager { rtid2tid = (key, invite_tid) ∷ []; tserver = []; servers = [] }

prack-IsStuck_example :
    IsStuck stale (
      handle_all quiet ((invite_datagram, peer, 1) ∷ []) (request_in quiet prack "sum8" [] 1 stale))
unfolding tid_of request_rtid find string_discrete ℕ_discrete
prack-IsStuck_example =
    prack-IsStuck quiet prack "sum8" [] 1 invite_tid ((invite_datagram, peer, 1) ∷ []) stale refl
      refl refl refl refl refl (refl, tt)

abbrev client_tid : Tid
client_tid = record invite_tid { cseq_method = "INVITE" }

response-heard_example :
    process_response quiet peer 1 "sum7"
      (some busy)
      (create_client quiet.server_for invite peer true none none false manager).1
    ≡ heard_by quiet peer 1 "sum7" busy 1
        (create_client quiet.server_for invite peer true none none false manager).1
unfolding create_client get_tid new_client find
response-heard_example =
    response-heard quiet invite peer true none none false peer 1 "sum7" busy manager 1 refl refl
      refl refl

unreg_consumer-reg_consumer_example :
    (consumers_of "c1" (unreg_consumer 5 "c1" (reg_consumer 5 "c1" manager)) ≡ [])
    × ((q : String)
        → "c1" ≢ q
        → consumers_of q (unreg_consumer 5 "c1" (reg_consumer 5 "c1" manager))
          ≡ consumers_of q manager)
unfolding find
unreg_consumer-reg_consumer_example = unreg_consumer-reg_consumer 5 "c1" manager tt

ack-Matches_example :
    request_in quiet ack "sum6" [] 1
      (save_server 0 (send_response "5060" "t1" false true 0 busy server) manager)
    ≡ run_server 0
        (incoming_request "5060" "t1" ack "sum6")
        (save_server 0 (send_response "5060" "t1" false true 0 busy server) manager)
unfolding get_tid branch_of
ack-Matches_example =
    ack-Matches quiet 0 0 true busy "t1" server invite ack "sum6" [] 1 manager refl refl refl refl
      refl refl refl refl refl
      (record { same_call = refl; same_from = refl; same_cseq = refl; has_tag = refl }) refl
