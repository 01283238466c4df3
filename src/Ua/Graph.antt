-- ===== src/Ua/Graph.antt =====
-- The states of a user agent and the ways between them: the diagram that `ChangeState` follows.
use go_b2bua.Prelude.{Option, none, some}
use go_b2bua.Ua.State.{
  UaStateId, ua_state_none, uas_state_idle, uas_state_trying, uas_state_ringing, uas_state_updating,
  uas_state_pre_connect, uac_state_idle, uac_state_trying, uac_state_ringing, uac_state_updating,
  uac_state_cancelling, ua_state_connected, ua_state_disconnected, ua_state_failed, ua_state_dead,
  UaState, id_of,
}
use go_b2bua.Ua.Exec.{Ret}

-- The states with an established dialog.
pub data IsTalking : UaStateId → Type 0 where
  talk_connected : IsTalking ua_state_connected
  talk_pre_connect : IsTalking uas_state_pre_connect
  talk_uac_updating : IsTalking uac_state_updating
  talk_uas_updating : IsTalking uas_state_updating

-- The states of a server call before its final response.
pub data IsEarly : UaStateId → Type 0 where
  early_trying : IsEarly uas_state_trying
  early_ringing : IsEarly uas_state_ringing

infix 40 ◌⟶◌ ◌⟶*◌
pub data ◌⟶◌ : UaStateId → UaStateId → Type 0 where
  open_uac : ua_state_none ⟶ uac_state_idle
  open_uas : ua_state_none ⟶ uas_state_idle
  dial : uac_state_idle ⟶ uac_state_trying
  drop_idle : uac_state_idle ⟶ ua_state_disconnected
  uac_ring : uac_state_trying ⟶ uac_state_ringing
  uac_answer : uac_state_trying ⟶ ua_state_connected
  uac_fail : uac_state_trying ⟶ ua_state_failed
  uac_cancel : uac_state_trying ⟶ uac_state_cancelling
  ringing_answer : uac_state_ringing ⟶ ua_state_connected
  ringing_fail : uac_state_ringing ⟶ ua_state_failed
  ringing_cancel : uac_state_ringing ⟶ uac_state_cancelling
  cancel_late : uac_state_cancelling ⟶ ua_state_disconnected
  cancel_done : uac_state_cancelling ⟶ ua_state_dead
  take_call : uas_state_idle ⟶ uas_state_trying
  uas_ring : uas_state_trying ⟶ uas_state_ringing
  pick_up : {s : UaStateId} → IsEarly s → s ⟶ uas_state_pre_connect
  uas_refuse : {s : UaStateId} → IsEarly s → s ⟶ ua_state_failed
  uas_drop : {s : UaStateId} → IsEarly s → s ⟶ ua_state_disconnected
  confirm : uas_state_pre_connect ⟶ ua_state_connected
  reinvite_in : ua_state_connected ⟶ uas_state_updating
  reinvite_out : ua_state_connected ⟶ uac_state_updating
  update_in_done : uas_state_updating ⟶ uas_state_pre_connect
  update_out_done : uac_state_updating ⟶ ua_state_connected
  hang_up : {s : UaStateId} → IsTalking s → s ⟶ ua_state_disconnected
  bury_failed : ua_state_failed ⟶ ua_state_dead
  bury_disconnected : ua_state_disconnected ⟶ ua_state_dead

pub data ◌⟶*◌ : UaStateId → UaStateId → Type 0 where
  here : {s : UaStateId} → s ⟶* s
  step : {s t r : UaStateId} → s ⟶* t → t ⟶ r → s ⟶* r

pub ⟶*_trans : {s t r : UaStateId} → s ⟶* t → t ⟶* r → s ⟶* r
⟶*_trans p here = p
⟶*_trans p (step q e) = step (⟶*_trans p q) e

pub ruleset edges = (
  dial, drop_idle, uac_ring, uac_answer, uac_fail, uac_cancel, ringing_answer, ringing_fail,
  ringing_cancel, cancel_late, cancel_done, take_call, uas_ring, pick_up, uas_refuse, uas_drop,
  confirm, reinvite_in, reinvite_out, update_in_done, update_out_done, hang_up, early_trying,
  early_ringing, talk_connected, talk_pre_connect, talk_uac_updating, talk_uas_updating,
)

-- A handler of state `s` returns no state, or one that the diagram has an edge to.
abbrev pub GoesTo : UaStateId → Option UaState → Type 0
GoesTo s none = Unit
GoesTo s (some n) = s ⟶ id_of n

abbrev pub Goes : UaStateId → Ret → Type 0
Goes s r = GoesTo s r.newstate
