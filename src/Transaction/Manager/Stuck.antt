-- ===== src/Transaction/Manager/Stuck.antt =====
-- The lock that an unmatched PRACK leaves held (`incomingRequest` of
-- sippy/sip_transaction_manager.go), and what that does to the requests that follow.
use text.Mathlib.Text.{◌==◌ as str_eq}
use go_b2bua.Prelude.{
  ℕ, Bool, true, false, ◌≡◌, refl, String, Option, none, some, List, [], ◌∷◌, ◌||◌, ◌==◌, if_lem,
  is_some, is_empty, ltb, find,
}
use go_b2bua.Sip.{HostPort}
use go_b2bua.Transaction.Message.{
  Via, t_addr, Msg, Tid, Tid-discrete, get_tids, TrRequest, TrResponse,
}
use go_b2bua.Transaction.Cache.{Entry, Packet, response_out}
use go_b2bua.Transaction.Manager.{Manager, transmit_data}
use go_b2bua.Transaction.Manager.Env.{Env, Datagram, ParsedRequest, good, answered, unreadable}
use go_b2bua.Transaction.Manager.Requests.{
  reply, dispatch, unmatched, match_server, unless_looping, looping, request_in, tid_of,
}
use go_b2bua.Transaction.Manager.Incoming.{
  take, request_from, request_by, process_request, known_or, handle_incoming,
}

-- The lock is held, and the server transactions are those of `m0`.
abbrev pub IsStuck : Manager → Manager → Type 0
IsStuck m0 m = (m.tserver_locked ≡ true) × (m.servers ≡ m0.servers) × (m.tserver ≡ m0.tserver)

abbrev pub Arrival : Type 0
Arrival = Datagram × HostPort × ℕ

abbrev pub AreRequests : List Arrival → Type 0
AreRequests [] = Unit
AreRequests (a ∷ rest) = (a.0.is_response ≡ false) × AreRequests rest

-- the latest arrival comes first
abbrev pub handle_all : Env → List Arrival → Manager → Manager
handle_all env [] m = m
handle_all env (a ∷ rest) m = handle_incoming env a.0 a.1 a.2 (handle_all env rest m)

module _ (env : Env) (m0 : Manager) where
  transmit_data-IsStuck :
      (userv : Option ℕ) (packet : Option Packet) (address : Option HostPort) (sum call_id : String)
      (n : ℕ) (m : Manager)
      → IsStuck m0 m
      → IsStuck m0 (transmit_data userv packet address sum call_id n m)
  unfolding transmit_data
  transmit_data-IsStuck userv packet address sum call_id n m h =
      if_lem (IsStuck m0) (is_empty sum) (λ _. if_lem (IsStuck m0) (n == 0) (λ _. h) (λ _. h))
        (λ _.
          if_lem
            (λ (x : Manager).
              (x.tserver_locked ≡ true) × (x.servers ≡ m0.servers) × (x.tserver ≡ m0.tserver))
            (n == 0) (λ _. h) (λ _. h))

  reply-IsStuck :
      (server : ℕ) (resp : TrResponse) (sum call_id : String) (via : Option Via) (m : Manager)
      → IsStuck m0 m
      → IsStuck m0 (reply env.default_port server resp sum call_id via m)
  reply-IsStuck server resp sum call_id none m h = h
  reply-IsStuck server resp sum call_id (some via) m h =
      transmit_data-IsStuck (some server) (some (response_out resp))
        (some (t_addr env.default_port via)) sum call_id 0 m h

  match_server-IsStuck :
      (req : TrRequest) (sum : String) (server : ℕ) (tid : Option Tid) (m : Manager)
      → IsStuck m0 m
      → IsStuck m0 (match_server env req sum server tid m)
  unfolding match_server
  match_server-IsStuck req sum server none m h = h
  match_server-IsStuck req sum server (some tid) m h =
      if_lem (IsStuck m0) m.tserver_locked (λ _. h) (λ f. cc (h.0))

  unless_looping-IsStuck :
      (req : TrRequest) (sum : String) (server : ℕ) (tid : Option Tid) (m : Manager)
      → IsStuck m0 m
      → IsStuck m0 (unless_looping env req sum server tid m)
  unfolding unless_looping
  unless_looping-IsStuck req sum server (some tid) m h =
      reply-IsStuck server _ sum tid.call_id req.msg.via0 m h
  unless_looping-IsStuck req sum server none m h =
      match_server-IsStuck req sum server (tid_of env req m) m h

  take-IsStuck :
      (address : HostPort) (server : ℕ) (sum : String) (tids : List Tid) (req : TrRequest)
      (nated : Bool) (msg : Option (Msg × Bool)) (m : Manager)
      → IsStuck m0 m
      → IsStuck m0 (take env address server sum tids req nated msg m)
  unfolding request_in
  take-IsStuck address server sum tids req nated none m h = h
  take-IsStuck address server sum tids req nated (some (msg, fixed)) m h =
      let taken = record req {
        msg = record msg { source = some address };
        nated = nated || fixed;
      } in
      unless_looping-IsStuck taken sum server (looping env tids m) m h

  request_from-IsStuck :
      (address : HostPort) (server : ℕ) (sum : String) (req : TrRequest) (tids : List Tid)
      (via : Option Via) (m : Manager)
      → IsStuck m0 m
      → IsStuck m0 (request_from env address server sum req tids via m)
  unfolding request_from
  request_from-IsStuck address server sum req tids none m h = h
  request_from-IsStuck address server sum req tids (some via) m h =
      take-IsStuck address server sum tids req _ _ m h

  request_by-IsStuck :
      (address : HostPort) (server : ℕ) (sum : String) (req : TrRequest) (tids : Option (List Tid))
      (m : Manager)
      → IsStuck m0 m
      → IsStuck m0 (request_by env address server sum req tids m)
  unfolding request_by
  request_by-IsStuck address server sum req none m h = h
  request_by-IsStuck address server sum req (some tids) m h =
      request_from-IsStuck address server sum req tids req.msg.via0 m h

  process_request-IsStuck :
      (address : HostPort) (server : ℕ) (sum : String) (r : ParsedRequest) (m : Manager)
      → IsStuck m0 m
      → IsStuck m0 (process_request env address server sum r m)
  unfolding process_request
  process_request-IsStuck address server sum unreadable m h = h
  process_request-IsStuck address server sum (answered resp) m h =
      transmit_data-IsStuck (some server) (some (response_out resp)) (some address) sum
        resp.msg.call_id 0 m h
  process_request-IsStuck address server sum (good req) m h =
      request_by-IsStuck address server sum req (get_tids req.msg) m h

  known_or-IsStuck :
      (a : Arrival) (found : Option Entry) (m : Manager)
      → a.0.is_response ≡ false
      → IsStuck m0 m
      → IsStuck m0 (known_or env a.0 a.1 a.2 found m)
  unfolding known_or
  known_or-IsStuck a none m r h =
      rw r (process_request-IsStuck a.1 a.2 a.0.checksum a.0.request _ h)
  known_or-IsStuck a (some e) m r h =
      if_lem (IsStuck m0) (is_some e.data_out)
        (λ _. transmit_data-IsStuck e.userv e.data_out e.address "" e.call_id 0 m h) (λ _. h)

  handle_incoming-IsStuck :
      (a : Arrival) (m : Manager)
      → a.0.is_response ≡ false
      → IsStuck m0 m
      → IsStuck m0 (handle_incoming env a.0 a.1 a.2 m)
  unfolding handle_incoming
  handle_incoming-IsStuck a m r h =
      if_lem (IsStuck m0) (ltb a.0.size 32) (λ _. h) (λ _. known_or-IsStuck a _ m r h)

  handle_all-IsStuck :
      (arrivals : List Arrival) (m : Manager)
      → AreRequests arrivals
      → IsStuck m0 m
      → IsStuck m0 (handle_all env arrivals m)
  handle_all-IsStuck [] m r h = h
  handle_all-IsStuck (a ∷ rest) m r h =
      handle_incoming-IsStuck a (handle_all env rest m) r.0 (handle_all-IsStuck rest m r.1 h)

-- A PRACK that is no loop, and whose TID is on record while its transaction is gone, leaves the lock
-- of the server transactions held: however many requests come after it, none of them makes a
-- server transaction or changes one.
pub prack-IsStuck :
    (env : Env) (req : TrRequest) (sum : String) (tids : List Tid) (server : ℕ) (tid : Tid)
    (arrivals : List Arrival) (m : Manager)
    → str_eq req.method "ACK" ≡ false
    → str_eq req.method "PRACK" ≡ true
    → looping env tids m ≡ none
    → tid_of env req m ≡ some tid
    → m.tserver_locked ≡ false
    → find Tid-discrete tid m.tserver ≡ none
    → AreRequests arrivals
    → IsStuck m (handle_all env arrivals (request_in env req sum tids server m))
unfolding request_in match_server dispatch unmatched unless_looping
prack-IsStuck env req sum tids server tid arrivals m a p l t k f r =
    handle_all-IsStuck env m arrivals _ r (
      rw (l, t, k, f, a, p)
        (reply-IsStuck env m server _ sum tid.call_id req.msg.via0 _ (refl, refl, refl)))
