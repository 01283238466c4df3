-- ===== src/Transaction/Manager.antt =====
-- The transaction manager's state, what a transaction asks of it, and the consumers of requests
-- (sippy/sip_transaction_manager.go).
pub mod Nat
pub mod Outgoing
pub mod Env
pub mod Requests
pub mod Incoming
pub mod Known
pub mod Stuck
pub mod Creating
pub mod Consumers
pub mod Matching
use native.Mathlib.Decide.{ℕ_discrete}
use mathlib.Core.List.{reverse}
use go_b2bua.Prelude.{
  ℕ, suc, ◌-◌, Bool, true, false, String, Option, none, some, List, [], ◌∷◌, ◌++◌, ◌==◌, is_empty,
  length, ltb, find, delete, store, string_discrete, if◌then◌else◌,
}
use go_b2bua.Sip.{HostPort}
use go_b2bua.Transaction.Message.{Tid, Tid-discrete, Rtid, Rtid-discrete, TrRequest, TrResponse}
use go_b2bua.Transaction.Cache.{Packet, Entry, Cache, rcache_put, rcache_set_call_id}
use go_b2bua.Transaction.Base.{
  Act, transmit, cache_put, cache_call_id, tclient_del, tserver_del, tserver_replace, rtid_put,
  rtid_replace, rtid_del,
}
use go_b2bua.Transaction.Server.{Server}
use go_b2bua.Transaction.Client.{Client}

-- A message that goes to the network through a transport.
pub record Sent : Type 0 where
  pub userv : Option ℕ
  pub packet : Option Packet
  pub address : Option HostPort

-- `sipTransactionManager`. The transactions stand in a store; the maps hold their references.
-- `tserver_locked` says whether `tserver_lock` is held when no function of the manager runs. The
-- latest of `sent`, the messages that went out, and of `calls`, the calls of callbacks, comes first.
pub record Manager : Type 0 where
  pub cache : Cache
  pub tclient : List (Tid × ℕ)
  pub tserver : List (Tid × ℕ)
  pub rtid2tid : List (Rtid × Tid)
  pub clients : List (ℕ × Client)
  pub servers : List (ℕ × Server)
  pub next_ref : ℕ
  pub consumers : List (String × List ℕ)
  pub nat_traversal : Bool
  pub tserver_locked : Bool
  pub sent : List Sent
  pub calls : List Act

abbrev pub on_cache : (Cache → Cache) → Manager → Manager
on_cache f m = record m { cache = f m.cache }

-- `transmitDataWithCb`
abbrev send_unless_lost : ℕ → Option ℕ → Option Packet → Option HostPort → Manager → Manager
send_unless_lost lossemul userv packet address m =
    if lossemul == 0
    then record m { sent = record { userv = userv; packet = packet; address = address } ∷ m.sent }
    else m

unfoldable pub transmit_data :
    Option ℕ → Option Packet → Option HostPort → String → String → ℕ → Manager → Manager
transmit_data userv packet address cachesum call_id lossemul m =
    let out = send_unless_lost lossemul userv packet address m in
    if is_empty cachesum
    then out
    else on_cache
        (rcache_put cachesum (record {
          userv = userv;
          data_out = packet;
          address = address;
          call_id = call_id;
          lossemul = lossemul - 1;
        }))
        out

-- `tserver_del`, `tserver_replace`, `tclient_del`, `rtid_put` and `rtid_del`
abbrev pub forget_server : Tid → Manager → Manager
forget_server tid m = record m { tserver = delete Tid-discrete tid m.tserver }

abbrev pub replace_server : Tid → Tid → ℕ → Manager → Manager
replace_server old new ref m = record m {
  tserver = store Tid-discrete new ref (delete Tid-discrete old m.tserver);
}

abbrev pub forget_client : Tid → Manager → Manager
forget_client tid m = record m { tclient = delete Tid-discrete tid m.tclient }

abbrev pub put_rtid : Rtid → Tid → Manager → Manager
put_rtid key tid m = record m { rtid2tid = store Rtid-discrete key tid m.rtid2tid }

abbrev pub forget_rtid : Rtid → Manager → Manager
forget_rtid key m = record m { rtid2tid = delete Rtid-discrete key m.rtid2tid }

-- `rtid_replace`
abbrev swap_tid : Option Tid → Rtid → Tid → Tid → Manager → Manager
swap_tid none key old new m = m
swap_tid (some saved) key old new m = elim (Tid-discrete saved old) [
  | yes e ↦ put_rtid key new m
  | no n ↦ m
]

unfoldable pub replace_rtid : Rtid → Tid → Tid → Manager → Manager
replace_rtid key old new m = swap_tid (find Rtid-discrete key m.rtid2tid) key old new m

-- what the transaction with this reference asks for
unfoldable pub apply_act : ℕ → Act → Manager → Manager
apply_act ref (transmit userv packet address sum call_id lossemul) m =
    transmit_data (some userv) packet address sum call_id lossemul m
apply_act ref (cache_put sum e) m = on_cache (rcache_put sum e) m
apply_act ref (cache_call_id sum call_id) m = on_cache (rcache_set_call_id sum call_id) m
apply_act ref (tclient_del tid) m = forget_client tid m
apply_act ref (tserver_del tid) m = forget_server tid m
apply_act ref (tserver_replace old new) m = replace_server old new ref m
apply_act ref (rtid_put key tid) m = put_rtid key tid m
apply_act ref (rtid_replace key old new) m = replace_rtid key old new m
apply_act ref (rtid_del key) m = forget_rtid key m
apply_act ref a m = record m { calls = a ∷ m.calls }

-- the first of the list is asked for last
unfoldable pub apply_acts : ℕ → List Act → Manager → Manager
unfolding apply_act
apply_acts ref [] m = m
apply_acts ref (a ∷ acts) m = apply_act ref a (apply_acts ref acts m)

-- A handler of a server transaction runs, and the manager does what it asks for.
unfoldable pub save_server : ℕ → Server → Manager → Manager
unfolding apply_acts
save_server ref s m = apply_acts ref s.base.acts (record m {
  servers = store ℕ_discrete ref (record s { base = record (s.base) { acts = [] } }) m.servers;
})

unfoldable pub save_client : ℕ → Client → Manager → Manager
unfolding apply_acts
save_client ref t m = apply_acts ref t.base.acts (record m {
  clients = store ℕ_discrete ref (record t { base = record (t.base) { acts = [] } }) m.clients;
})

abbrev run_server_on : ℕ → (Server → Server) → Option Server → Manager → Manager
unfolding save_server
run_server_on ref f none m = m
run_server_on ref f (some s) m = save_server ref (f s) m

unfoldable pub run_server : ℕ → (Server → Server) → Manager → Manager
unfolding run_server_on
run_server ref f m = run_server_on ref f (find ℕ_discrete ref m.servers) m

abbrev run_client_on : ℕ → (Client → Client) → Option Client → Manager → Manager
unfolding save_client
run_client_on ref f none m = m
run_client_on ref f (some t) m = save_client ref (f t) m

unfoldable pub run_client : ℕ → (Client → Client) → Manager → Manager
unfolding run_client_on
run_client ref f m = run_client_on ref f (find ℕ_discrete ref m.clients) m

abbrev pub or_no_one : Option (List ℕ) → List ℕ
or_no_one none = []
or_no_one (some cs) = cs

-- `RegConsumer`; a user agent is named by its number
unfoldable pub reg_consumer : ℕ → String → Manager → Manager
reg_consumer ua call_id m = record m {
  consumers =
      store string_discrete call_id
        (or_no_one (find string_discrete call_id m.consumers) ++ ua ∷ []) m.consumers;
}

-- the list without the first `ua`
abbrev pub without_first : ℕ → List ℕ → List ℕ
without_first ua [] = []
without_first ua (c ∷ cs) = if c == ua then cs else c ∷ without_first ua cs

abbrev remove_consumer : ℕ → String → Option (List ℕ) → Manager → Manager
remove_consumer ua call_id none m = m
remove_consumer ua call_id (some cs) m =
    let removed = record m { consumers = delete string_discrete call_id m.consumers } in
    if ltb 1 (length cs)
    then record removed {
      consumers =
          store string_discrete call_id (without_first ua cs)
            (delete string_discrete call_id m.consumers);
    }
    else removed

-- `UnregConsumer`, after `OnUnregister`
unfoldable pub unreg_consumer : ℕ → String → Manager → Manager
unreg_consumer ua call_id m =
    remove_consumer ua call_id (find string_discrete call_id m.consumers) m
