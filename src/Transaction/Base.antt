-- ===== src/Transaction/Base.antt =====
-- What the client and the server transactions share (sippy/base_transaction.go), and what a
-- transaction asks of the transaction manager and of the code above it.
use go_b2bua.Prelude.{
  ℕ, ◌*◌, Bool, true, false, String, Option, none, some, List, ◌∷◌, if◌then◌else◌,
}
use go_b2bua.Sip.{HostPort}
use go_b2bua.Transaction.Message.{Tid, Rtid, TrRequest, TrResponse}
use go_b2bua.Transaction.Cache.{Packet, Entry}

-- `sip_transaction_state`
pub data TrState : Type 0 where
  trying ringing completed confirmed terminated uack : TrState

-- A call of the transaction manager or of a callback, with its arguments. What a callback changes
-- in the message that it gets is not modelled.
pub data Act : Type 0 where
  transmit : ℕ → Option Packet → Option HostPort → String → String → ℕ → Act
  cache_put : String → Entry → Act
  cache_call_id : String → String → Act
  tclient_del tserver_del : Tid → Act
  tserver_replace : Tid → Tid → Act
  rtid_put : Rtid → Tid → Act
  rtid_replace : Rtid → Tid → Tid → Act
  rtid_del : Rtid → Act
  begin_cancel : Option TrRequest → Act
  before_response own_before_response : TrResponse → Act
  before_request : Option TrRequest → Act
  cancel_cb : Option TrRequest → Act
  ack_cb : TrRequest → Act
  noack_cb noprack_cb : Act
  prack_cb : TrRequest → TrResponse → Act
  recv_response : Option TrResponse → Act
  log_error : String → Act

-- `baseTransaction`. `linked` says whether `sip_tm`, `userv` and `tid` are set, which `cleanup`
-- resets together. A timer is its delay, in milliseconds, while it runs. The latest of `acts`, what
-- the transaction did so far, comes first.
pub record Base : Type 0 where
  pub linked : Bool
  pub userv : ℕ
  pub state : TrState
  pub tid : Tid
  pub te_a : Option ℕ
  pub address : Option HostPort
  pub needack : Bool
  pub tout : ℕ
  pub packet : Option Packet
  pub acts : List Act

-- `newBaseTransaction`
abbrev pub new_base : Tid → ℕ → Option HostPort → Option Packet → Bool → List Act → Base
new_base tid userv address packet needack acts = record {
  linked = true;
  userv = userv;
  state = trying;
  tid = tid;
  te_a = none;
  address = address;
  needack = needack;
  tout = 500;
  packet = packet;
  acts = acts;
}

abbrev pub base_act : Act → Base → Base
base_act a b = record b { acts = a ∷ b.acts }

abbrev pub enter : TrState → Base → Base
enter st b = record b { state = st }

-- `cleanup`
unfoldable pub base_cleanup : Base → Base
base_cleanup b = record b { linked = false; address = none; te_a = none }

-- `cancelTeA`
abbrev pub cancel_te_a : Base → Base
cancel_te_a b = record b { te_a = none }

-- `startTeA`
abbrev pub start_te_a : Base → Base
start_te_a b = record b { te_a = some b.tout }

-- `timerA`
unfoldable pub timer_a : Base → Base
timer_a b =
    if b.linked
    then record b {
      tout = b.tout * 2;
      te_a = some (b.tout * 2);
      acts = transmit b.userv b.packet b.address "" b.tid.call_id 0 ∷ b.acts;
    }
    else b
