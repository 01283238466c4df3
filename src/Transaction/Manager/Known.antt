-- ===== src/Transaction/Manager/Known.antt =====
-- What the cache knows stays known while the manager works (sippy/sip_transaction_manager.go): no
-- step but the purge takes an entry away.
pub mod Requests
pub mod Responses
pub mod Handling
use go_b2bua.Prelude.{
  ℕ, true, ◌≡◌, refl, sym, arith, String, Option, none, some, List, [], ◌∷◌, is_some, if_lem, find,
  store, string_discrete, find-store, find-store_ne, is_empty, ◌-◌, ◌==◌, ap, ◌∙◌,
}
use go_b2bua.Sip.{HostPort}
use go_b2bua.Transaction.Message.{Tid, Rtid}
use go_b2bua.Transaction.Cache.{
  Packet, Entry, Cache, silent, first_of, rcache_put, rcache_get, rcache_set_call_id, set_found,
  with_call_id, EntryMap,
}
use go_b2bua.Transaction.Base.{Act, transmit, cache_put, cache_call_id, rtid_replace}
use go_b2bua.Transaction.Server.{Server}
use go_b2bua.Transaction.Client.{Client}
use go_b2bua.Transaction.Manager.{
  Manager, transmit_data, apply_act, apply_acts, save_server, run_server, save_client, run_client,
  replace_rtid, send_unless_lost, run_server_on, run_client_on,
}

abbrev pub IsKept : String → Cache → Type 0
IsKept sum c = is_some (rcache_get sum c) ≡ true

-- The cache has an entry for this checksum.
abbrev pub Known : String → Manager → Type 0
Known sum m = IsKept sum m.cache

store_known :
    (q k : String) (e : Entry) (l : EntryMap)
    → is_some (find string_discrete q l) ≡ true
    → is_some (find string_discrete q (store string_discrete k e l)) ≡ true
store_known q k e l h = by (string_discrete k q)
  where
    by : Dec (k ≡ q) → is_some (find string_discrete q (store string_discrete k e l)) ≡ true
    by (yes p) = ap is_some (
        ap (λ x. find string_discrete x (store string_discrete k e l)) (sym p)
        ∙ find-store string_discrete k e l)
    by (no n) = ap is_some (find-store_ne string_discrete k q e l n) ∙ h

first_of-some : (a b : Option Entry) → (is_some a ≡ true) → is_some (first_of a b) ≡ true
first_of-some (some e) b h = refl
first_of-some none b h = cc

second_of-some : (a b : Option Entry) → (is_some b ≡ true) → is_some (first_of a b) ≡ true
second_of-some (some e) b h = refl
second_of-some none b h = h

-- More entries in the maps are more that is kept.
kept_more :
    (a b a' b' : Option Entry)
    → (is_some a ≡ true → is_some a' ≡ true)
    → (is_some b ≡ true → is_some b' ≡ true)
    → is_some (first_of a b) ≡ true
    → is_some (first_of a' b') ≡ true
kept_more (some e) b a' b' f g h = first_of-some a' b' (f refl)
kept_more none b a' b' f g h = second_of-some a' b' (g h)

pub rcache_put-IsKept :
    (q k : String) (e : Entry) (c : Cache) → IsKept q c → IsKept q (rcache_put k e c)
unfolding rcache_get rcache_put
rcache_put-IsKept q k e c h =
    kept_more (find string_discrete q c.l1) (find string_discrete q c.l2) _ _
      (store_known q k e c.l1) (λ h. h) h

pub rcache_put-IsKept_self : (k : String) (e : Entry) (c : Cache) → IsKept k (rcache_put k e c)
unfolding rcache_get rcache_put
rcache_put-IsKept_self k e c = first_of-some _ _ (ap is_some (find-store string_discrete k e c.l1))

set_found-IsKept :
    (q k call_id : String) (a b : Option Entry) (c : Cache)
    → IsKept q c
    → IsKept q (set_found k call_id a b c)
unfolding rcache_get set_found
set_found-IsKept q k call_id (some e) b c h =
    kept_more (find string_discrete q c.l1) (find string_discrete q c.l2) _ _
      (store_known q k (with_call_id call_id e) c.l1) (λ h. h) h
set_found-IsKept q k call_id none (some e) c h =
    kept_more (find string_discrete q c.l1) (find string_discrete q c.l2) _ _ (λ h. h)
      (store_known q k (with_call_id call_id e) c.l2) h
set_found-IsKept q k call_id none none c h = rcache_put-IsKept q k (silent call_id) c h

pub rcache_set_call_id-IsKept :
    (q k call_id : String) (c : Cache) → IsKept q c → IsKept q (rcache_set_call_id k call_id c)
unfolding rcache_set_call_id
rcache_set_call_id-IsKept q k call_id c h = set_found-IsKept q k call_id _ _ c h

module _ (q : String) where
  send-Known :
      (userv : Option ℕ) (packet : Option Packet) (address : Option HostPort) (n : ℕ) (m : Manager)
      → Known q m
      → Known q (send_unless_lost n userv packet address m)
  send-Known userv packet address n m h = if_lem (Known q) (n == 0) (λ _. h) (λ _. h)

  pub transmit_data-Known :
      (userv : Option ℕ) (packet : Option Packet) (address : Option HostPort) (sum call_id : String)
      (n : ℕ) (m : Manager)
      → Known q m
      → Known q (transmit_data userv packet address sum call_id n m)
  unfolding transmit_data
  transmit_data-Known userv packet address sum call_id n m h =
      let e : Entry = record {
        userv = userv;
        data_out = packet;
        address = address;
        call_id = call_id;
        lossemul = n - 1;
      } in
      if_lem (Known q) (is_empty sum) (λ _. send-Known userv packet address n m h)
        (λ _. rcache_put-IsKept q sum e _ (send-Known userv packet address n m h))

  replace_rtid-Known :
      (key : Rtid) (old new : Tid) (m : Manager) → Known q m → Known q (replace_rtid key old new m)
  unfolding replace_rtid
  replace_rtid-Known key old new m h = ground arith

  pub apply_act-Known : (ref : ℕ) (a : Act) (m : Manager) → Known q m → Known q (apply_act ref a m)
  unfolding apply_act
  apply_act-Known ref (transmit userv packet address sum call_id n) m h =
      transmit_data-Known (some userv) packet address sum call_id n m h
  apply_act-Known ref (cache_put sum e) m h = rcache_put-IsKept q sum e m.cache h
  apply_act-Known ref (cache_call_id sum call_id) m h =
      rcache_set_call_id-IsKept q sum call_id m.cache h
  apply_act-Known ref (rtid_replace key old new) m h = replace_rtid-Known key old new m h
  apply_act-Known ref a m h = h

  pub apply_acts-Known :
      (ref : ℕ) (acts : List Act) (m : Manager) → Known q m → Known q (apply_acts ref acts m)
  unfolding apply_acts
  apply_acts-Known ref [] m h = h
  apply_acts-Known ref (a ∷ acts) m h =
      apply_act-Known ref a (apply_acts ref acts m) (apply_acts-Known ref acts m h)

  run_server_on-Known :
      (ref : ℕ) (f : Server → Server) (s : Option Server) (m : Manager)
      → Known q m
      → Known q (run_server_on ref f s m)
  unfolding save_server
  run_server_on-Known ref f none m h = h
  run_server_on-Known ref f (some s) m h = apply_acts-Known ref (f s).base.acts _ h

  pub run_server-Known :
      (ref : ℕ) (f : Server → Server) (m : Manager) → Known q m → Known q (run_server ref f m)
  unfolding run_server
  run_server-Known ref f m h = run_server_on-Known ref f _ m h

  run_client_on-Known :
      (ref : ℕ) (f : Client → Client) (s : Option Client) (m : Manager)
      → Known q m
      → Known q (run_client_on ref f s m)
  unfolding save_client
  run_client_on-Known ref f none m h = h
  run_client_on-Known ref f (some s) m h = apply_acts-Known ref (f s).base.acts _ h

  pub run_client-Known :
      (ref : ℕ) (f : Client → Client) (m : Manager) → Known q m → Known q (run_client ref f m)
  unfolding run_client
  run_client-Known ref f m h = run_client_on-Known ref f _ m h
