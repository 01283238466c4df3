-- ===== src/Tests.antt =====
-- Concrete calls: a client call that is tried, answered and ended, a call that ends before it
-- starts, and single handlers.
pub mod Transactions
pub mod Calls
use mathlib.Core.Path.{subst}
use go_b2bua.Prelude.{
  inr, pos, minus, sym, ℕ, true, false, Option, none, some, List, [], ◌∷◌, ◌≡◌, ◌≤◌, refl, suc, ◌+◌,
  arith, ◌==◌,
}
use go_b2bua.Sip.{
  Address, HostPort, Url, Body, Header, CSeq, Challenge, Request, Response, OutRequest, invite, bye,
  get_addr,
}
use go_b2bua.Event.{
  CcEvent, Kind, try_ev, disconnect_ev, fail_ev, new_event, redirect_url, get_extra_headers,
}
use go_b2bua.Ua.State.{
  Ua, World, ua_state_dead, ua_state_disconnected, state_id, connected, uac_trying, failed,
  disconnected, fail_cb, disc_cb, begin_transaction,
}
use go_b2bua.Ua.Timers.{get_acct, start_credit_timer}
use go_b2bua.Ua.Routing.{gen_request, find_req, update_routing, answer, new_request}
use go_b2bua.Ua.Exec.{exit}
use go_b2bua.Ua.Steps.{ClientTr}
use go_b2bua.Ua.Uac.Trying as UacTrying
use go_b2bua.Ua.Uac.Idle.{set_deadlines}
use go_b2bua.Ua.Uas.PreConnect.{end_call}
use go_b2bua.Ua.Connected
use go_b2bua.Ua.Graph.{◌⟶◌, ◌⟶*◌, bury_disconnected}
use go_b2bua.Ua.Frame.{delivered, Ordered}
use go_b2bua.Ua.Reach.{Increasing}
use go_b2bua.Ua.Core.State.{emit_pending_events}
use go_b2bua.Ua.Core.Events.{recv_event}
use go_b2bua.Ua.Core.Messages.{choose, confirm_call, recv_request, recv_response, reject}
use go_b2bua.Ua.Trace.{event, response, go_dead, run, Trace, start, call, IsFresh, phase}
use go_b2bua.Ua.Trace.Laws.{trace-path, trace-phase, trace-dead, trace-Increasing, trace-Ordered}
use go_b2bua.Ua.Laws.Requests.{
  gen_request-recorded, update_routing-Passes, Passes, recv_request-refused, choose-IsAnswerable,
  IsAmong, IsAnswerable,
}
use go_b2bua.Ua.Laws.Timing.{get_acct-exact, set_deadlines-Before, Before}
use go_b2bua.Ua.Laws.Emitting.{emit_pending_events-delivers}
use go_b2bua.Ua.Laws.Answers.{confirm_call-twice, conn_calls}
use go_b2bua.Ua.Laws.Ending.{requests, failures, answers}
use go_b2bua.Ua.Laws.Hangup.{recv_request-Disconnected, also_parses}
use go_b2bua.Ua.Laws.Tagless.{recv_response-tagless_fails}
use go_b2bua.Ua.Keepalive as Keepalives
use go_b2bua.Ua.Keepalive.OneByOne.{under_way, keepalive-AtMostOne}
use go_b2bua.Utils.UrlEncode.{contains, escape, unescape, decode_hex, decode_nibble}
use go_b2bua.Utils.UrlEncode.RoundTrip.{unescape-escape, unescape_error_lost}

abbrev peer : HostPort
peer = record { host = "10.0.0.2"; port = "5060" }

abbrev peer_url : Url
peer_url = record { username = "bob"; host = "10.0.0.2"; port = none; lr = false }

abbrev proxy : Address
proxy = record {
  name = "";
  url = record { username = ""; host = "10.0.0.9"; port = none; lr = false };
  tag = "";
}

abbrev tagged : Address
tagged = record { name = ""; url = peer_url; tag = "t1" }

abbrev clock : ℕ → World
clock t = record {
  now = t;
  first_cseq = 7;
  fresh_call_id = "c1";
  tm_refuses = false;
  local_sdp_err = none;
  remote_sdp_err = none;
}

abbrev fresh_ua : Ua
fresh_ua = record {
  state = none;
  equeue = [];
  elast_seq = none;
  next_seq = 1;
  origin = "";
  stamps = record {
    setup_ts = none;
    connect_ts = none;
    disconnect_ts = none;
    p100_ts = none;
    p1xx_ts = none;
    np_mtime = none;
    nr_mtime = none;
    ex_mtime = none;
  };
  timers = record { expire = none; no_progress = none; no_reply = none; credit = none };
  dialog = record {
    call_id = none;
    r_target = none;
    r_addr0 = some peer;
    r_addr = some peer;
    r_uri = none;
    l_uri = none;
    l_tag = "l1";
    l_cseq = 0;
    r_cseq = none;
    l_contact = none;
    routes = [];
    branch = "";
    reqs = [];
  };
  media = record {
    l_sdp = none;
    r_sdp = none;
    late_media = false;
    on_local = false;
    on_remote = false;
  };
  listeners = record {
    has_ring = true;
    has_conn = true;
    has_disc = true;
    has_fail = true;
    has_dead = true;
  };
  opts = record {
    expire_time = 100;
    no_progress_time = 50;
    no_reply_time = 20;
    expire_starts_on_setup = true;
    ka_interval = 0;
    godead_timeout = 32;
    use_refer = false;
    pass_auth = false;
    username = "";
    password = "";
    auth_enalgs = none;
    outbound_proxy = none;
    source_address = none;
    my_address = record { host = "10.0.0.1"; port = "5060" };
    default_port = "5060";
    extra_headers = [];
    dlg_headers = [];
    uas_lossemul = 0;
    has_setup_complete = false;
  };
  world = clock 0;
  has_tm = true;
  has_controller = true;
  pending_tr = false;
  uas_resp = none;
  last_scode = 400;
  credit_time = none;
  credit_times = [];
  pr_rel = false;
  remote_ua = "";
  out = [];
}

fresh_ua-IsFresh : IsFresh fresh_ua
fresh_ua-IsFresh = record {
  no_state = refl;
  no_seq = refl;
  no_out = refl;
  alive = refl;
  no_disconnect = refl;
}

abbrev dial_out : CcEvent
dial_out = record {
  seq = 0;
  rtime = 10;
  origin = "caller";
  extra_headers = [];
  sip_reason = none;
  max_forwards = none;
  kind =
      try_ev none "alice" "bob" "Alice" none (some (record { text = "v=0"; needs_update = false }))
        [];
}

abbrev hang_up_now : CcEvent
hang_up_now = record {
  seq = 9;
  rtime = 95;
  origin = "caller";
  extra_headers = [];
  sip_reason = none;
  max_forwards = none;
  kind = disconnect_ev none;
}

abbrev reply : ℕ → Address → Response
reply code to = record {
  scode = code;
  reason_phrase = "R";
  rtime = 40;
  cseq = some (record { num = 7; method = invite });
  body = some (record { text = "v=0"; needs_update = false });
  reason = none;
  rseq = none;
  to_body = some to;
  contacts = some tagged ∷ [];
  record_routes = [];
  www_challenges = [];
  proxy_challenges = [];
  www_texts = [];
  proxy_texts = [];
  user_agent = none;
  server = none;
}

abbrev client : ClientTr
client = record { last_rseq = 0; req_extra_headers = [] }

-- dialled, answered, ended
abbrev tried : Ua
tried = run (clock 10) (event dial_out) fresh_ua

abbrev answered : Ua
answered = run (clock 40) (response (reply 200 tagged) client) tried

abbrev ended : Ua
ended = run (clock 95) (event hang_up_now) answered

to_answered : Trace fresh_ua answered
to_answered =
    call (call start (clock 10) (event dial_out) tt) (clock 40) (response (reply 200 tagged) client)
      tt

to_ended : Trace answered ended
to_ended = call start (clock 95) (event hang_up_now) tt

life : Trace fresh_ua ended
life = call to_answered (clock 95) (event hang_up_now) tt

ended_stamps : (ended.stamps.connect_ts ≡ some 40) × (ended.stamps.disconnect_ts ≡ some 95)
unfolding run go_b2bua.Ua.Exec.◌>>=◌ go_b2bua.Ua.Exec.modify go_b2bua.Ua.Exec.gets
    go_b2bua.Ua.Exec.ret go_b2bua.Ua.Exec.parse go_b2bua.Ua.Exec.make_event go_b2bua.Ua.Exec.enqueue
    go_b2bua.Ua.Exec.request go_b2bua.Ua.Exec.begin_new go_b2bua.Ua.Exec.begin_client
    go_b2bua.Ua.Exec.prep_tr go_b2bua.Ua.Uac.Idle.open_dialog go_b2bua.Ua.Uac.Idle.register
    go_b2bua.Ua.Uac.Idle.set_deadlines go_b2bua.Ua.Uac.Idle.start_first_timer
    go_b2bua.Ua.Uac.Idle.pass_authorization go_b2bua.Ua.Uac.Idle.take_offer
    go_b2bua.Ua.Uac.Idle.note_setup go_b2bua.Ua.Uac.Idle.call_setup_complete
    go_b2bua.Ua.Uac.Idle.try_call go_b2bua.Ua.Uac.Idle.dispatch go_b2bua.Ua.Uac.Idle.recv_event
    go_b2bua.Ua.Uac.Trying.after_no_reply go_b2bua.Ua.Uac.Trying.after_no_progress
    go_b2bua.Ua.Uac.Trying.connect_event go_b2bua.Ua.Uac.Trying.accepted
    go_b2bua.Ua.Uac.Trying.final go_b2bua.Ua.Uac.Trying.recv_response go_b2bua.Ua.Steps.set_l_sdp
    go_b2bua.Ua.Steps.set_r_sdp go_b2bua.Ua.Steps.set_late_media go_b2bua.Ua.Steps.set_last_scode
    go_b2bua.Ua.Steps.reset_sdp_hooks go_b2bua.Ua.Steps.clear_branch go_b2bua.Ua.Steps.set_r_tag
    go_b2bua.Ua.Steps.new_connected go_b2bua.Ua.Steps.take_remote_body
    go_b2bua.Ua.Steps.hold_local_body go_b2bua.Ua.Steps.ending_request
    go_b2bua.Ua.Steps.run_listener go_b2bua.Ua.Steps.send_prack
    go_b2bua.Ua.Timers.cancel_expire_timer go_b2bua.Ua.Timers.cancel_credit_timer
    go_b2bua.Ua.Timers.start_credit_timer go_b2bua.Ua.Timers.set_connect_ts
    go_b2bua.Ua.Timers.set_disconnect_ts go_b2bua.Ua.Timers.earliest go_b2bua.Ua.Routing.emit
    go_b2bua.Ua.Routing.gen_request go_b2bua.Ua.Routing.find_req go_b2bua.Ua.Routing.remove_req
    go_b2bua.Ua.Routing.update_routing go_b2bua.Ua.Uas.PreConnect.end_call
    go_b2bua.Ua.Connected.recv_event go_b2bua.Ua.Connected.dispatch go_b2bua.Event.new_event
    go_b2bua.Event.redirect_url go_b2bua.Sip.get_addr
ended_stamps = (refl, refl)

trace-path_example : state_id answered.state ⟶* state_id ended.state
trace-path_example = trace-path fresh_ua answered ended fresh_ua-IsFresh to_answered to_ended

get_acct-exact_example :
    ((get_acct (some 70) ended).is_connected ≡ true)
    × ((d : ℕ)
        → ended.stamps.disconnect_ts ≡ some d
        → ((get_acct (some 70) ended).is_disconnected ≡ true)
          × (n : ℕ) × ((get_acct (some 70) ended).duration ≡ pos n)
          × (40 + n ≡ d))
    × ((t : ℕ)
        → ended.stamps.disconnect_ts ≡ none
        → some 70 ≡ some t
        → ((get_acct (some 70) ended).is_disconnected ≡ false)
          × ((get_acct (some 70) ended).duration ≡ minus t 40))
get_acct-exact_example =
    get_acct-exact fresh_ua ended fresh_ua-IsFresh life (some 70) 40 ended_stamps.0

trace-phase_example : phase (state_id answered.state) ≤ phase (state_id ended.state)
trace-phase_example = trace-phase fresh_ua answered ended fresh_ua-IsFresh to_answered to_ended

trace-Increasing_example : Increasing (delivered ended.out)
trace-Increasing_example = trace-Increasing fresh_ua ended fresh_ua-IsFresh life

trace-Ordered_example : Ordered ended.stamps.connect_ts ended.stamps.disconnect_ts
trace-Ordered_example = trace-Ordered fresh_ua ended fresh_ua-IsFresh life

-- hung up before it was dialled, then buried, then dialled
abbrev dropped : Ua
dropped = run (clock 5) (event hang_up_now) fresh_ua

abbrev buried : Ua
buried = run (clock 50) go_dead dropped

abbrev disturbed : Ua
disturbed = run (clock 60) (event dial_out) buried

dropped_state : state_id dropped.state ≡ ua_state_disconnected
unfolding run go_b2bua.Ua.Exec.◌>>=◌ go_b2bua.Ua.Exec.modify go_b2bua.Ua.Exec.gets
    go_b2bua.Ua.Exec.ret go_b2bua.Ua.Uac.Idle.recv_event go_b2bua.Ua.Uac.Idle.dispatch
    go_b2bua.Ua.Uac.Idle.give_up go_b2bua.Ua.Timers.stamp_disconnect
dropped_state = refl

buried_state : state_id buried.state ≡ ua_state_dead
unfolding run go_b2bua.Ua.Exec.◌>>=◌ go_b2bua.Ua.Exec.modify go_b2bua.Ua.Exec.gets
    go_b2bua.Ua.Exec.ret go_b2bua.Ua.Uac.Idle.recv_event go_b2bua.Ua.Uac.Idle.dispatch
    go_b2bua.Ua.Uac.Idle.give_up go_b2bua.Ua.Timers.stamp_disconnect
buried_state = refl

to_buried : Trace fresh_ua buried
to_buried =
    call (call start (clock 5) (event hang_up_now) tt) (clock 50) go_dead
      (subst (λ i. i ⟶ ua_state_dead) (sym dropped_state) bury_disconnected)

trace-dead_example :
    (state_id disturbed.state ≡ ua_state_dead) × (delivered disturbed.out ≡ delivered buried.out)
trace-dead_example =
    trace-dead fresh_ua buried disturbed fresh_ua-IsFresh to_buried
      (call start (clock 60) (event dial_out) tt) buried_state

-- an established dialog
abbrev dialog_ua : Ua
dialog_ua = record fresh_ua {
  dialog = record (fresh_ua.dialog) { r_target = some peer_url };
  timers = record (fresh_ua.timers) { expire = some 100; credit = some 300 };
  state = some (connected false);
}

update_routing-Passes_example :
    Passes proxy
      (some proxy ∷ some tagged ∷ [])
      peer_url
      "5060"
      (update_routing [] (some proxy ∷ some tagged ∷ []) false false dialog_ua).dialog
update_routing-Passes_example =
    update_routing-Passes [] (some proxy ∷ some tagged ∷ []) false dialog_ua proxy
      (some tagged ∷ []) peer_url refl refl refl

gen_request-recorded_example :
    ((new_request bye none none [] dialog_ua.dialog dialog_ua.opts).cseq ≡ 0)
    × ((gen_request bye none none [] dialog_ua).1.dialog.l_cseq ≡ 0 + 1)
    × (find_req 0 (gen_request bye none none [] dialog_ua).1.dialog.reqs
        ≡ some (new_request bye none none [] dialog_ua.dialog dialog_ua.opts))
    × ((n : ℕ)
        → (0 == n) ≡ false
        → find_req n (gen_request bye none none [] dialog_ua).1.dialog.reqs ≡ find_req n [])
unfolding gen_request
gen_request-recorded_example =
    gen_request-recorded bye none none [] dialog_ua
      (new_request bye none none [] dialog_ua.dialog dialog_ua.opts) refl

abbrev request_of : Option CSeq → Request
request_of c = record {
  method = bye;
  rtime = 70;
  cseq = c;
  body = none;
  reason = none;
  max_forwards = none;
  contacts = [];
  record_routes = [];
  via_branch = none;
  from_body = none;
  to_body = none;
  call_id = "c1";
  ruri_username = "";
  also = [];
  refer_to = none;
  auth_hdr = none;
  require_100rel = false;
  offers_100rel = false;
  user_agent = none;
  server = none;
}

abbrev bye_request : Request
bye_request = request_of (some (record { num = 3; method = bye }))

recv_request-Disconnected_example :
    (also_parses [] ≡ true
      → ((recv_request bye_request dialog_ua).0.state ≡ some disconnected)
        × ((recv_request bye_request dialog_ua).0.timers.credit ≡ none)
        × (answers (recv_request bye_request dialog_ua).0.out
            ≡ (some (record { num = 3; method = bye }), 200) ∷ []))
    × ((rest : List (Option Address))
        → [] ≡ none ∷ rest
        → ((recv_request bye_request dialog_ua).0.state ≡ some (connected false))
          × ((recv_request bye_request dialog_ua).0.timers ≡ dialog_ua.timers)
          × (answers (recv_request bye_request dialog_ua).0.out
              ≡ (some (record { num = 3; method = bye }), 200) ∷ []))
recv_request-Disconnected_example =
    recv_request-Disconnected bye_request (record { num = 3; method = bye }) false dialog_ua refl
      refl refl refl

-- tried, with a fail listener
abbrev trying_ua : Ua
trying_ua = record dialog_ua {
  state = some uac_trying;
  listeners = record (dialog_ua.listeners) { has_fail = true };
}

abbrev proxied_ua : Ua
proxied_ua = record trying_ua { opts = record (trying_ua.opts) { outbound_proxy = some peer } }

recv_response-tagless_fails_example :
    ((recv_response (reply 200 proxy) client proxied_ua).state ≡ some failed)
    × (failures (recv_response (reply 200 proxy) client proxied_ua).out ≡ 200 ∷ [])
    × (q : OutRequest) × (q.method ≡ bye)
    × (requests (recv_response (reply 200 proxy) client proxied_ua).out ≡ q ∷ [])
recv_response-tagless_fails_example =
    recv_response-tagless_fails (reply 200 proxy) (record { num = 7; method = invite }) client proxy
      peer proxied_ua refl refl (omega arith) (omega arith) refl refl refl refl refl refl

abbrev queued : Ua
queued = record fresh_ua { equeue = dial_out ∷ hang_up_now ∷ [] }

emit_pending_events-delivers_example :
    (delivered (emit_pending_events queued).out ≡ hang_up_now ∷ dial_out ∷ [])
    × ((emit_pending_events queued).equeue ≡ [])
emit_pending_events-delivers_example = emit_pending_events-delivers queued refl (refl, (refl, tt))

abbrev later_ua : Ua
later_ua = record dialog_ua { dialog = record (dialog_ua.dialog) { r_cseq = some 3 } }

recv_request-refused_example :
    ((recv_request bye_request later_ua).1 ≡ some (reject 500 "Server Internal Error" []))
    × ((recv_request bye_request later_ua).0.state ≡ some (connected false))
    × ((recv_request bye_request later_ua).0.dialog ≡ later_ua.dialog)
    × ((recv_request bye_request later_ua).0.out ≡ [])
    × ((recv_request bye_request later_ua).0.equeue ≡ [])
recv_request-refused_example = recv_request-refused bye_request later_ua refl

abbrev md5 : Challenge
md5 = record { algorithm = some "MD5"; supported = some true; auth = none }

abbrev unknown : Challenge
unknown = record { algorithm = some "X"; supported = some false; auth = none }

choose-IsAnswerable_example : IsAmong md5 (unknown ∷ md5 ∷ []) × IsAnswerable none md5
unfolding choose
choose-IsAnswerable_example = choose-IsAnswerable none (unknown ∷ md5 ∷ []) md5 refl

set_deadlines-Before_example :
    Before (set_deadlines 10 fresh_ua).stamps.nr_mtime (set_deadlines 10 fresh_ua).stamps.np_mtime
    × Before (set_deadlines 10 fresh_ua).stamps.nr_mtime (set_deadlines 10 fresh_ua).stamps.ex_mtime
    × Before (set_deadlines 10 fresh_ua).stamps.np_mtime (set_deadlines 10 fresh_ua).stamps.ex_mtime
set_deadlines-Before_example = set_deadlines-Before 10 fresh_ua refl refl refl

abbrev limited_ua : Ua
limited_ua = record dialog_ua { credit_time = some 30; credit_times = (1, 60) ∷ (2, 50) ∷ [] }

confirm_call-twice_example : conn_calls (confirm_call 40 none dialog_ua).out ≡ suc (suc 0)
confirm_call-twice_example = confirm_call-twice 40 none dialog_ua refl

-- a connected call with a keepalive every minute
abbrev kept : Keepalives.Keepalive
kept = record {
  ua = record dialog_ua { opts = record (dialog_ua.opts) { ka_interval = 60000000000 } };
  triedauth = false;
  has_ka_tr = false;
  keepalives = 0;
  pending = [];
}

keepalive-AtMostOne_example :
    under_way (
      Keepalives.ka_steps
        (Keepalives.response 200 [] [] ∷ Keepalives.timeout ∷ [])
        (Keepalives.start kept))
    ≤ 1
unfolding go_b2bua.Ua.Keepalive.new_keepalive
keepalive-AtMostOne_example =
    keepalive-AtMostOne kept.ua kept (Keepalives.response 200 [] [] ∷ Keepalives.timeout ∷ []) refl

unescape-escape_example : unescape (escape [] (37 ∷ 200 ∷ [])) ≡ (37 ∷ 200 ∷ [], false)
unfolding contains
unescape-escape_example = unescape-escape [] (37 ∷ 200 ∷ []) refl (omega arith, (omega arith, tt))

unescape_error_lost_example :
    unescape (37 ∷ 52 ∷ 71 ∷ 37 ∷ 52 ∷ 49 ∷ 33 ∷ [])
    ≡ (46 ∷ (decode_hex 52 49).0 ∷ (unescape (33 ∷ [])).0, (unescape (33 ∷ [])).1)
unfolding decode_nibble
unescape_error_lost_example = unescape_error_lost 52 71 52 49 (33 ∷ []) (inr refl) refl refl
