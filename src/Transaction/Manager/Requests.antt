-- ===== src/Transaction/Manager/Requests.antt =====
-- How a request finds its transaction, or gets a new one (`incomingRequest` and
-- `new_server_transaction` of sippy/sip_transaction_manager.go).
use native.Mathlib.Decide.{ℕ_discrete}
use text.Mathlib.Text.{◌==◌ as str_eq}
use go_b2bua.Prelude.{
  ℕ, suc, true, false, String, Option, none, some, List, [], ◌∷◌, find, store, is_some,
  string_discrete, if◌then◌else◌,
}
use go_b2bua.Sip.{HostPort}
use go_b2bua.Transaction.Message.{
  Via, t_addr, Tid, Tid-discrete, Rtid, Rtid-discrete, get_tid, request_rtid, gen_response,
  TrRequest, TrResponse,
}
use go_b2bua.Transaction.Cache.{response_out, silent, rcache_put, rcache_set_call_id}
use go_b2bua.Transaction.Base.{tserver_del}
use go_b2bua.Transaction.Server.{Server, new_server, start_timers, cleanup, act}
use go_b2bua.Transaction.Server.Sending.{send_response}
use go_b2bua.Transaction.Server.Handlers.{timers_are_active, incoming_request}
use go_b2bua.Transaction.Manager.{Manager, on_cache, transmit_data, run_server}
use go_b2bua.Transaction.Manager.Outgoing.{log, locking}
use go_b2bua.Transaction.Manager.Env.{Env, Context, Dialog}

-- `transmitMsg` of a response to the address of its first Via, if that parses
abbrev pub reply : String → ℕ → TrResponse → String → String → Option Via → Manager → Manager
reply default_port server resp checksum call_id none m = log "Cannot parse Via: " m
reply default_port server resp checksum call_id (some via) m =
    transmit_data (some server) (some (response_out resp)) (some (t_addr default_port via)) checksum
      call_id 0 m

-- `rcache_set_call_id` and `rcache_put` with an entry that sends nothing
abbrev pub name_call : String → String → Manager → Manager
name_call checksum call_id m = on_cache (rcache_set_call_id checksum call_id) m

abbrev pub silence : String → Manager → Manager
silence checksum m = on_cache (rcache_put checksum (silent "")) m

module _ (env : Env) where
  -- the transport of a new transaction: one that is more specific than a wildcard
  abbrev specific : ℕ → Option HostPort → Option ℕ
  specific server none = none
  specific server (some source) = env.server_for source false

  abbrev specific_or : ℕ → Option ℕ → ℕ
  specific_or server none = server
  specific_or server (some u) = u

  abbrev pub transport_of : ℕ → TrRequest → ℕ
  transport_of server req =
      if env.is_wildcard server then specific_or server (specific server req.msg.source) else server

  -- the first consumer that takes the request
  abbrev pub taker : List ℕ → TrRequest → Option ℕ
  taker [] req = none
  taker (c ∷ cs) req = if env.is_yours c req then some c else taker cs req

  abbrev pub taker_in : Option (List ℕ) → TrRequest → Option ℕ
  taker_in none req = none
  taker_in (some cs) req = taker cs req

  -- With no timer left the transaction goes; `tserver_del` gets the TID that it has by then.
  abbrev pub drop_idle : Server → Server
  drop_idle s = if timers_are_active s then s else cleanup (act (tserver_del s.base.tid) s)

  abbrev pub send_plain : TrResponse → Server → Server
  send_plain resp s = send_response env.default_port env.fresh_tag false false 0 resp s

  abbrev pub answer_with : Option TrResponse → Server → Server
  answer_with none s = s
  answer_with (some resp) s = send_plain resp s

  -- what is done with the result of `RecvRequest`
  unfoldable pub conclude : ℕ → Option Context × Manager → Manager
  conclude ref (none, m) = run_server ref drop_idle m
  conclude ref (some ctx, m) =
      run_server ref
        (λ s.
          answer_with ctx.response
            (record s { has_cancel_cb = ctx.has_cancel_cb; has_noack_cb = ctx.has_noack_cb }))
        m

  unfoldable pub open_dialog : TrRequest → ℕ → Dialog × Manager → Manager
  unfolding conclude
  open_dialog req ref (dialog, m) = elim dialog.response [
    | some resp ↦ run_server ref (send_plain resp) m
    | none ↦ conclude ref (if dialog.receives then env.recv_new_dialog req ref m else (none, m))
  ]

  unfoldable pub offer : TrRequest → String → ℕ → Option ℕ → Manager → Manager
  unfolding open_dialog
  offer req checksum ref (some ua) m = conclude ref (env.recv_request ua req ref m)
  offer req checksum ref none m =
      if env.has_call_map
      then open_dialog req ref (env.on_new_dialog req ref m)
      else silence checksum m

  abbrev pub add_server : Tid → Server → Manager → Manager
  add_server tid s m = record m {
    tserver = store Tid-discrete tid m.next_ref m.tserver;
    servers = store ℕ_discrete m.next_ref (start_timers s) m.servers;
    next_ref = suc m.next_ref;
  }

  -- The function returns with the lock held if the transaction cannot be made.
  unfoldable pub start_server : TrRequest → String → Tid → Option Server → Manager → Manager
  unfolding offer
  start_server req checksum tid none m =
      log "cannot create server transaction: " (record m { tserver_locked = true })
  start_server req checksum tid (some s) m =
      offer req checksum m.next_ref (taker_in (find string_discrete tid.call_id m.consumers) req)
        (add_server tid s m)

  -- `new_server_transaction`
  unfoldable pub new_server_transaction : TrRequest → String → Tid → ℕ → Manager → Manager
  unfolding start_server
  new_server_transaction req checksum tid server m =
      start_server req checksum tid (new_server req checksum tid (transport_of server req)) m

  -- A request that belongs to no transaction. The branch for PRACK returns with the lock held.
  unfoldable pub unmatched : TrRequest → String → Tid → ℕ → Manager → Manager
  unfolding new_server_transaction
  unmatched req checksum tid server m =
      if str_eq req.method "ACK"
      then name_call checksum tid.call_id m
      else (if str_eq req.method "PRACK"
          then reply env.default_port server (gen_response 481 "Huh?" req) checksum tid.call_id
              req.msg.via0 (record m { tserver_locked = true })
          else (if str_eq req.method "CANCEL"
              then reply env.default_port server
                  (gen_response 481 "Call Leg/Transaction Does Not Exist" req) checksum tid.call_id
                  req.msg.via0 m
              else new_server_transaction req checksum tid server m))

  unfoldable pub dispatch : TrRequest → String → Tid → ℕ → Option ℕ → Manager → Manager
  unfolding unmatched
  dispatch req checksum tid server (some ref) m =
      run_server ref (incoming_request env.default_port env.fresh_tag req checksum) m
  dispatch req checksum tid server none m = unmatched req checksum tid server m

  unfoldable pub match_server : TrRequest → String → ℕ → Option Tid → Manager → Manager
  unfolding dispatch
  match_server req checksum server none m = log "cannot get transaction ID: " m
  match_server req checksum server (some tid) m =
      locking m (dispatch req checksum tid server (find Tid-discrete tid m.tserver) m)

  abbrev by_rtid : Option Rtid → Manager → Option Tid
  by_rtid none m = none
  by_rtid (some key) m = find Rtid-discrete key m.rtid2tid

  -- the TID that the request asks for
  unfoldable pub tid_of : TrRequest → Manager → Option Tid
  tid_of req m =
      if str_eq req.method "ACK"
      then get_tid false false true req.msg
      else (if str_eq req.method "PRACK"
          then by_rtid (request_rtid req.msg) m
          else get_tid false true false req.msg)

  -- the first of the TIDs that is one of ours
  abbrev pub looping : List Tid → Manager → Option Tid
  looping [] m = none
  looping (tid ∷ tids) m =
      if is_some (find Tid-discrete tid m.tclient) then some tid else looping tids m

  unfoldable pub unless_looping : TrRequest → String → ℕ → Option Tid → Manager → Manager
  unfolding match_server tid_of
  unless_looping req checksum server (some tid) m =
      reply env.default_port server (gen_response 482 "Loop Detected" req) checksum tid.call_id
        req.msg.via0 m
  unless_looping req checksum server none m = match_server req checksum server (tid_of req m) m

  -- `incomingRequest`
  unfoldable pub request_in : TrRequest → String → List Tid → ℕ → Manager → Manager
  unfolding unless_looping
  request_in req checksum tids server m = unless_looping req checksum server (looping tids m) m
