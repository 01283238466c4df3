-- ===== src/Transaction/Cache.antt =====
-- The retransmission cache of sippy/sip_transaction_manager.go: two maps from the checksum of a
-- message that came in to what was sent in reply, and the purge that runs every 32 seconds.
use go_b2bua.Prelude.{ℕ, String, Option, none, some, List, [], string_discrete, find, store}
use go_b2bua.Sip.{HostPort}
use go_b2bua.Transaction.Message.{TrRequest, TrResponse}

-- what goes on the wire
pub data Packet : Type 0 where
  request_out : TrRequest → Packet
  response_out : TrResponse → Packet

-- `sipTMRetransmitO`; a transport is named by its number
pub record Entry : Type 0 where
  pub userv : Option ℕ
  pub data_out : Option Packet
  pub address : Option HostPort
  pub call_id : String
  pub lossemul : ℕ

-- `&sipTMRetransmitO{ userv : nil, data : nil, address : nil }`, with a Call-ID or without
abbrev pub silent : String → Entry
silent call_id = record {
  userv = none;
  data_out = none;
  address = none;
  call_id = call_id;
  lossemul = 0;
}

abbrev pub EntryMap : Type 0
EntryMap = List (String × Entry)

pub record Cache : Type 0 where
  pub l1 : EntryMap
  pub l2 : EntryMap

abbrev pub no_entries : Cache
no_entries = record { l1 = []; l2 = [] }

-- `rCachePurge`
unfoldable pub rcache_purge : Cache → Cache
rcache_purge c = record { l1 = []; l2 = c.l1 }

-- `rcache_put_no_lock`
unfoldable pub rcache_put : String → Entry → Cache → Cache
rcache_put sum e c = record c { l1 = store string_discrete sum e c.l1 }

abbrev pub first_of : Option Entry → Option Entry → Option Entry
first_of (some e) old = some e
first_of none old = old

-- `rcache_get_no_lock`
unfoldable pub rcache_get : String → Cache → Option Entry
rcache_get sum c = first_of (find string_discrete sum c.l1) (find string_discrete sum c.l2)

abbrev pub with_call_id : String → Entry → Entry
with_call_id call_id e = record e { call_id = call_id }

-- the entry that was found in one of the maps is changed where it stands
unfoldable pub set_found : String → String → Option Entry → Option Entry → Cache → Cache
unfolding rcache_put
set_found sum call_id (some e) old c = record c {
  l1 = store string_discrete sum (with_call_id call_id e) c.l1;
}
set_found sum call_id none (some e) c = record c {
  l2 = store string_discrete sum (with_call_id call_id e) c.l2;
}
set_found sum call_id none none c = rcache_put sum (silent call_id) c

-- `rcache_set_call_id`
unfoldable pub rcache_set_call_id : String → String → Cache → Cache
unfolding set_found
rcache_set_call_id sum call_id c =
    set_found sum call_id (find string_discrete sum c.l1) (find string_discrete sum c.l2) c
