-- ===== src/Transaction/Manager/Known/Requests.antt =====
-- What the cache knows stays known while a request is handled (`process_request` and
-- `incomingRequest` of sippy/sip_transaction_manager.go).
use text.Mathlib.Text.{◌==◌ as str_eq}
use go_b2bua.Prelude.{
  ℕ, Bool, true, false, String, Option, none, some, List, if_lem, if◌then◌else◌, find, ◌||◌,
}
use go_b2bua.Sip.{HostPort}
use go_b2bua.Transaction.Message.{
  Via, t_addr, Msg, Tid, Tid-discrete, get_tids, TrRequest, TrResponse,
}
use go_b2bua.Transaction.Cache.{silent, response_out}
use go_b2bua.Transaction.Server.{Server, new_server}
use go_b2bua.Transaction.Manager.{Manager}
use go_b2bua.Transaction.Manager.Env.{Env, Context, ParsedRequest, good, answered, unreadable}
use go_b2bua.Transaction.Manager.Requests.{
  reply, conclude, open_dialog, offer, start_server, unmatched, dispatch, match_server,
  unless_looping, looping, request_in, transport_of, tid_of,
}
use go_b2bua.Transaction.Manager.Incoming.{take, request_from, request_by, process_request}
use go_b2bua.Transaction.Manager.Known.{
  Known, transmit_data-Known, rcache_put-IsKept, rcache_set_call_id-IsKept, run_server-Known,
}

-- What user agents and the map of calls do with a new request takes nothing out of the cache.
pub record KeepsKnown (env : Env) : Type 0 where
  pub by_ua :
      (q : String) (ua : ℕ) (req : TrRequest) (ref : ℕ) (m : Manager)
      → Known q m
      → Known q (env.recv_request ua req ref m).1
  pub by_map :
      (q : String) (req : TrRequest) (ref : ℕ) (m : Manager)
      → Known q m
      → Known q (env.on_new_dialog req ref m).1
  pub by_receiver :
      (q : String) (req : TrRequest) (ref : ℕ) (m : Manager)
      → Known q m
      → Known q (env.recv_new_dialog req ref m).1

module _ (env : Env) (keeps : KeepsKnown env) (q : String) where
  reply-Known :
      (server : ℕ) (resp : TrResponse) (sum call_id : String) (via : Option Via) (m : Manager)
      → Known q m
      → Known q (reply env.default_port server resp sum call_id via m)
  reply-Known server resp sum call_id none m h = h
  reply-Known server resp sum call_id (some via) m h =
      transmit_data-Known q (some server) (some (response_out resp))
        (some (t_addr env.default_port via)) sum call_id 0 m h

  conclude-Known :
      (ref : ℕ) (c : Option Context) (m : Manager) → Known q m → Known q (conclude env ref (c, m))
  unfolding conclude
  conclude-Known ref none m h = run_server-Known q ref _ m h
  conclude-Known ref (some ctx) m h = run_server-Known q ref _ m h

  receive-Known :
      (req : TrRequest) (ref : ℕ) (b : Bool) (m : Manager)
      → Known q m
      → Known q (conclude env ref (if b then env.recv_new_dialog req ref m else (none, m)))
  receive-Known req ref true m h =
      conclude-Known ref (env.recv_new_dialog req ref m).0 _ (keeps.by_receiver q req ref m h)
  receive-Known req ref false m h = conclude-Known ref none m h

  open_dialog-Known :
      (req : TrRequest) (ref : ℕ) (b : Bool) (resp : Option TrResponse) (m : Manager)
      → Known q m
      → Known q (open_dialog env req ref (record { receives = b; response = resp }, m))
  unfolding open_dialog
  open_dialog-Known req ref b none m h = receive-Known req ref b m h
  open_dialog-Known req ref b (some resp) m h = run_server-Known q ref _ m h

  offer-Known :
      (req : TrRequest) (sum : String) (ref : ℕ) (ua : Option ℕ) (m : Manager)
      → Known q m
      → Known q (offer env req sum ref ua m)
  unfolding offer
  offer-Known req sum ref (some ua) m h =
      conclude-Known ref (env.recv_request ua req ref m).0 _ (keeps.by_ua q ua req ref m h)
  offer-Known req sum ref none m h =
      let d = (env.on_new_dialog req ref m).0 in
      if_lem (Known q) env.has_call_map
        (λ _. open_dialog-Known req ref d.receives d.response _ (keeps.by_map q req ref m h))
        (λ _. rcache_put-IsKept q sum (silent "") m.cache h)

  start_server-Known :
      (req : TrRequest) (sum : String) (tid : Tid) (s : Option Server) (m : Manager)
      → Known q m
      → Known q (start_server env req sum tid s m)
  unfolding start_server
  start_server-Known req sum tid none m h = h
  start_server-Known req sum tid (some s) m h = offer-Known req sum m.next_ref _ _ h

  unmatched-Known :
      (req : TrRequest) (sum : String) (tid : Tid) (server : ℕ) (m : Manager)
      → Known q m
      → Known q (unmatched env req sum tid server m)
  unfolding unmatched
  unmatched-Known req sum tid server m h =
      if_lem (Known q) (str_eq req.method "ACK")
        (λ _. rcache_set_call_id-IsKept q sum tid.call_id m.cache h)
        (λ _.
          if_lem (Known q) (str_eq req.method "PRACK")
            (λ _. reply-Known server _ sum tid.call_id req.msg.via0 _ h)
            (λ _.
              if_lem (Known q) (str_eq req.method "CANCEL")
                (λ _. reply-Known server _ sum tid.call_id req.msg.via0 m h)
                (λ _.
                  start_server-Known req sum tid
                    (new_server req sum tid (transport_of env server req)) m h)))

  dispatch-Known :
      (req : TrRequest) (sum : String) (tid : Tid) (server : ℕ) (ref : Option ℕ) (m : Manager)
      → Known q m
      → Known q (dispatch env req sum tid server ref m)
  unfolding dispatch
  dispatch-Known req sum tid server (some ref) m h = run_server-Known q ref _ m h
  dispatch-Known req sum tid server none m h = unmatched-Known req sum tid server m h

  match_server-Known :
      (req : TrRequest) (sum : String) (server : ℕ) (tid : Option Tid) (m : Manager)
      → Known q m
      → Known q (match_server env req sum server tid m)
  unfolding match_server
  match_server-Known req sum server none m h = h
  match_server-Known req sum server (some tid) m h =
      if_lem (Known q) m.tserver_locked (λ _. h)
        (λ _. dispatch-Known req sum tid server (find Tid-discrete tid m.tserver) m h)

  unless_looping-Known :
      (req : TrRequest) (sum : String) (server : ℕ) (tid : Option Tid) (m : Manager)
      → Known q m
      → Known q (unless_looping env req sum server tid m)
  unfolding unless_looping
  unless_looping-Known req sum server (some tid) m h =
      reply-Known server _ sum tid.call_id req.msg.via0 m h
  unless_looping-Known req sum server none m h =
      match_server-Known req sum server (tid_of env req m) m h

  take-Known :
      (address : HostPort) (server : ℕ) (sum : String) (tids : List Tid) (req : TrRequest)
      (nated : Bool) (msg : Option (Msg × Bool)) (m : Manager)
      → Known q m
      → Known q (take env address server sum tids req nated msg m)
  unfolding request_in
  take-Known address server sum tids req nated none m h = h
  take-Known address server sum tids req nated (some (msg, fixed)) m h =
      let taken = record req {
        msg = record msg { source = some address };
        nated = nated || fixed;
      } in
      unless_looping-Known taken sum server (looping env tids m) m h

  request_from-Known :
      (address : HostPort) (server : ℕ) (sum : String) (req : TrRequest) (tids : List Tid)
      (via : Option Via) (m : Manager)
      → Known q m
      → Known q (request_from env address server sum req tids via m)
  unfolding request_from
  request_from-Known address server sum req tids none m h = h
  request_from-Known address server sum req tids (some via) m h =
      take-Known address server sum tids req _ _ m h

  request_by-Known :
      (address : HostPort) (server : ℕ) (sum : String) (req : TrRequest) (tids : Option (List Tid))
      (m : Manager)
      → Known q m
      → Known q (request_by env address server sum req tids m)
  unfolding request_by
  request_by-Known address server sum req none m h = h
  request_by-Known address server sum req (some tids) m h =
      request_from-Known address server sum req tids req.msg.via0 m h

  pub process_request-Known :
      (address : HostPort) (server : ℕ) (sum : String) (r : ParsedRequest) (m : Manager)
      → Known q m
      → Known q (process_request env address server sum r m)
  unfolding process_request
  process_request-Known address server sum unreadable m h = h
  process_request-Known address server sum (answered resp) m h =
      transmit_data-Known q (some server) (some (response_out resp)) (some address) sum
        resp.msg.call_id 0 m h
  process_request-Known address server sum (good req) m h =
      request_by-Known address server sum req (get_tids req.msg) m h
