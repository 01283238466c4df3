-- ===== src/Transaction/Manager/Known/Handling.antt =====
-- Every datagram that is handled leaves the cache with an entry for it, so that the same bytes are
-- not handled again (`handleIncoming` of sippy/sip_transaction_manager.go).
use go_b2bua.Prelude.{
  String, ℕ, ◌≤◌, true, false, ◌≡◌, refl, arith, Option, none, some, List, [], ◌∷◌, ◌++◌, length,
  is_some, if_lem, if◌then◌else◌, ltb, ap, ◌∙◌,
}
use go_b2bua.Sip.{HostPort}
use go_b2bua.Transaction.Cache.{Entry, silent, rcache_get}
use go_b2bua.Transaction.Server.{Server}
use go_b2bua.Transaction.Client.{Client}
use go_b2bua.Transaction.Manager.{Manager, Sent, transmit_data, run_server, run_client}
use go_b2bua.Transaction.Manager.Env.{Env, Datagram}
use go_b2bua.Transaction.Manager.Incoming.{resend, first_time, known_or, handle_incoming}
use go_b2bua.Transaction.Manager.Known.{
  Known, rcache_put-IsKept, rcache_put-IsKept_self, run_server-Known, run_client-Known,
}
use go_b2bua.Transaction.Manager.Known.Requests.{KeepsKnown, process_request-Known}
use go_b2bua.Transaction.Manager.Known.Responses.{process_response-Known}

-- The manager after a message more was sent, if there is one.
abbrev pub sent_also : List Sent → Manager → Manager
sent_also extra m = record m { sent = extra ++ m.sent }

-- What passes between two purges: a datagram arrives, or a handler of a server or of a client
-- transaction runs, whatever it does to its transaction and asks of the manager.
pub data Traffic : Type 0 where
  arrives : Datagram → HostPort → ℕ → Traffic
  server_runs : ℕ → (Server → Server) → Traffic
  client_runs : ℕ → (Client → Client) → Traffic

abbrev pub pass : Env → Traffic → Manager → Manager
pass env (arrives d address server) m = handle_incoming env d address server m
pass env (server_runs ref f) m = run_server ref f m
pass env (client_runs ref f) m = run_client ref f m

-- the latest comes first
abbrev pub pass_all : Env → List Traffic → Manager → Manager
pass_all env [] m = m
pass_all env (t ∷ ts) m = pass env t (pass_all env ts m)

module _ (env : Env) (keeps : KeepsKnown env) where
  first_time-Known :
      (d : Datagram) (address : HostPort) (server : ℕ) (m : Manager)
      → Known d.checksum (first_time env d address server m)
  unfolding first_time
  first_time-Known d address server m =
      let known = rcache_put-IsKept_self d.checksum (silent "") m.cache in
      if_lem (Known d.checksum) d.is_response
        (λ _. process_response-Known env d.checksum address server d.checksum d.response _ known)
        (λ _.
          process_request-Known env keeps d.checksum address server d.checksum d.request _ known)

  resend-cache : (e : Entry) (m : Manager) → (resend env e m).cache ≡ m.cache
  unfolding transmit_data
  resend-cache e m = ground arith

  known_or-Known :
      (d : Datagram) (address : HostPort) (server : ℕ) (found : Option Entry) (m : Manager)
      → rcache_get d.checksum m.cache ≡ found
      → Known d.checksum (known_or env d address server found m)
  unfolding known_or
  known_or-Known d address server none m e = first_time-Known d address server m
  known_or-Known d address server (some x) m e =
      ap is_some (ap (rcache_get d.checksum) (resend-cache x m) ∙ e)

  -- what is sent again for an entry
  abbrev again : Entry → List Sent
  again e =
      if is_some e.data_out
      then record { userv = e.userv; packet = e.data_out; address = e.address } ∷ []
      else []

  resend-sent : (e : Entry) (m : Manager) → resend env e m ≡ sent_also (again e) m
  unfolding transmit_data
  resend-sent e m = ground arith

  again-length : (e : Entry) → length (again e) ≤ 1
  again-length e = ground arith

  known-resent :
      (d : Datagram) (address : HostPort) (server : ℕ) (found : Option Entry) (m : Manager)
      → is_some found ≡ true
      → (extra : List Sent) × (length extra ≤ 1)
        × (known_or env d address server found m ≡ sent_also extra m)
  unfolding known_or
  known-resent d address server none m h = cc
  known-resent d address server (some e) m h = (again e, again-length e, resend-sent e m)

  -- what the cache knew stays known
  first_time-Kept :
      (q : String) (d : Datagram) (address : HostPort) (server : ℕ) (m : Manager)
      → Known q m
      → Known q (first_time env d address server m)
  unfolding first_time
  first_time-Kept q d address server m h =
      let known = rcache_put-IsKept q d.checksum (silent "") m.cache h in
      if_lem (Known q) d.is_response
        (λ _. process_response-Known env q address server d.checksum d.response _ known)
        (λ _. process_request-Known env keeps q address server d.checksum d.request _ known)

  known_or-Kept :
      (q : String) (d : Datagram) (address : HostPort) (server : ℕ) (found : Option Entry)
      (m : Manager)
      → Known q m
      → Known q (known_or env d address server found m)
  unfolding known_or
  known_or-Kept q d address server none m h = first_time-Kept q d address server m h
  known_or-Kept q d address server (some x) m h =
      ap is_some (ap (rcache_get q) (resend-cache x m)) ∙ h

  pass-Kept : (q : String) (t : Traffic) (m : Manager) → Known q m → Known q (pass env t m)
  unfolding handle_incoming
  pass-Kept q (arrives d address server) m h =
      if_lem (Known q) (ltb d.size 32) (λ _. h)
        (λ _. known_or-Kept q d address server (rcache_get d.checksum m.cache) m h)
  pass-Kept q (server_runs ref f) m h = run_server-Known q ref f m h
  pass-Kept q (client_runs ref f) m h = run_client-Known q ref f m h

  pass_all-Kept :
      (q : String) (ts : List Traffic) (m : Manager) → Known q m → Known q (pass_all env ts m)
  pass_all-Kept q [] m h = h
  pass_all-Kept q (t ∷ ts) m h = pass-Kept q t (pass_all env ts m) (pass_all-Kept q ts m h)

  handle_incoming-Known :
      (d : Datagram) (address : HostPort) (server : ℕ) (m : Manager)
      → ltb d.size 32 ≡ false
      → Known d.checksum (handle_incoming env d address server m)
  unfolding handle_incoming
  handle_incoming-Known d address server m h = rw h (known_or-Known d address server _ m refl)

  handle_incoming-resent :
      (d : Datagram) (address : HostPort) (server : ℕ) (m : Manager)
      → ltb d.size 32 ≡ false
      → Known d.checksum m
      → (extra : List Sent) × (length extra ≤ 1)
        × (handle_incoming env d address server m ≡ sent_also extra m)
  unfolding handle_incoming
  handle_incoming-resent d address server m h k =
      rw h (known-resent d address server (rcache_get d.checksum m.cache) m k)

  -- When a datagram of at least 32 bytes was handled, then after any traffic without a purge (other
  -- datagrams, and handlers of transactions, timers included) the same bytes that come again, from
  -- any address and on any socket, change nothing and reach no transaction and no user agent: at
  -- most one message goes out, that from the cache. User agents and the map of calls are taken to
  -- remove nothing from the cache.
  pub handle_incoming-Once :
      (d : Datagram) (address address' : HostPort) (server server' : ℕ) (between : List Traffic)
      (m : Manager)
      → ltb d.size 32 ≡ false
      → (extra : List Sent) × (length extra ≤ 1)
        × (handle_incoming env d address' server'
              (pass_all env between (handle_incoming env d address server m))
            ≡ sent_also extra (pass_all env between (handle_incoming env d address server m)))
  handle_incoming-Once d address address' server server' between m h =
      handle_incoming-resent d address' server' _ h (
        pass_all-Kept d.checksum between (handle_incoming env d address server m)
          (handle_incoming-Known d address server m h))
