-- ===== src/Ua/State.antt =====
-- The user agent: `Ua` of sippy/ua.go, its states, and what it does to its surroundings.
use go_b2bua.Prelude.{ℕ, Bool, String, Option, none, some, List}
use go_b2bua.Sip.{HostPort, Url, Address, Body, Header, CSeq, Request, OutRequest, Reply}
use go_b2bua.Event.{CcEvent}

-- `UasStateRingingRel`, beside the `UasStateRinging` that it embeds
pub record RelState : Type 0 where
  pub prack_received : Bool
  pub prack_wait : Bool
  pub pending_ev_ring : Option CcEvent
  pub pending_ev_connect : Option CcEvent
  pub pending_ev_update : Option CcEvent

-- The structs that implement `UaState`, with their own fields: `te` of the cancelling state (is
-- the timer running), `ka_controller` of the connected state (is it set), `confirm_connect` and
-- `pending_ev_update` of the pre-connect state.
pub data UaState : Type 0 where
  uac_idle uac_trying uac_ringing uac_updating : UaState
  uac_cancelling : Bool → UaState
  uas_idle uas_trying uas_ringing uas_updating : UaState
  uas_ringing_rel : RelState → UaState
  uas_pre_connect : Bool → Option CcEvent → UaState
  connected : Bool → UaState
  disconnected failed dead : UaState

-- `UaStateID` (sippy/types/enums.go); the reliable ringing state has the ID of the one it embeds
pub data UaStateId : Type 0 where
  ua_state_none : UaStateId
  uas_state_idle uas_state_trying uas_state_ringing uas_state_updating : UaStateId
  uas_state_pre_connect : UaStateId
  uac_state_idle uac_state_trying uac_state_ringing uac_state_updating : UaStateId
  uac_state_cancelling : UaStateId
  ua_state_connected ua_state_disconnected ua_state_failed ua_state_dead : UaStateId

abbrev pub id_of : UaState → UaStateId
id_of uac_idle = uac_state_idle
id_of uac_trying = uac_state_trying
id_of uac_ringing = uac_state_ringing
id_of uac_updating = uac_state_updating
id_of (uac_cancelling te) = uac_state_cancelling
id_of uas_idle = uas_state_idle
id_of uas_trying = uas_state_trying
id_of uas_ringing = uas_state_ringing
id_of uas_updating = uas_state_updating
id_of (uas_ringing_rel r) = uas_state_ringing
id_of (uas_pre_connect confirm pending) = uas_state_pre_connect
id_of (connected ka) = ua_state_connected
id_of disconnected = ua_state_disconnected
id_of failed = ua_state_failed
id_of dead = ua_state_dead

-- `GetState`
abbrev pub state_id : Option UaState → UaStateId
state_id none = ua_state_none
state_id (some s) = id_of s

-- A call of one of the listeners, with the arguments that it gets.
pub data Callback : Type 0 where
  ring_cb : ℕ → String → ℕ → Callback
  conn_cb : ℕ → String → Callback
  disc_cb : ℕ → String → ℕ → Option Request → Callback
  fail_cb : ℕ → String → ℕ → Callback

-- What the user agent does to its surroundings.
pub data Effect : Type 0 where
  respond : Reply → Effect
  begin_transaction : OutRequest → Effect
  begin_refer_transaction : OutRequest → Effect
  begin_client_transaction : OutRequest → Effect
  cancel_transaction : List Header → Effect
  accept_rseq : ℕ → Effect
  set_uack : Effect
  send_ack : Option (Option Body) → Effect
  listener : Callback → Effect
  dead_cb : Effect
  controller : CcEvent → Effect
  local_sdp_change : Body → CcEvent → Effect
  remote_sdp_change : Body → CcEvent → Effect
  start_timeout : ℕ → Effect
  cancel_timeout : Effect
  start_keepalive stop_keepalive : Effect
  reg_consumer unreg_consumer : Option String → Effect
  reinvite_hook : CcEvent → Effect
  setup_complete : Effect
  log_error : String → Effect

pub record Stamps : Type 0 where
  pub setup_ts : Option ℕ
  pub connect_ts : Option ℕ
  pub disconnect_ts : Option ℕ
  pub p100_ts : Option ℕ
  pub p1xx_ts : Option ℕ
  pub np_mtime : Option ℕ
  pub nr_mtime : Option ℕ
  pub ex_mtime : Option ℕ

-- A running timer, with the time that it was started for; `none` is nil.
pub record Timers : Type 0 where
  pub expire : Option ℕ
  pub no_progress : Option ℕ
  pub no_reply : Option ℕ
  pub credit : Option ℕ

pub record Dialog : Type 0 where
  pub call_id : Option String
  pub r_target : Option Url
  pub r_addr0 : Option HostPort
  pub r_addr : Option HostPort
  pub r_uri : Option Address
  pub l_uri : Option Address
  pub l_tag : String
  pub l_cseq : ℕ
  pub r_cseq : Option ℕ
  pub l_contact : Option Address
  pub routes : List (Option Address)
  pub branch : String
  -- `reqs`: the requests by CSeq
  pub reqs : List (ℕ × OutRequest)

pub record Media : Type 0 where
  pub l_sdp : Option Body
  pub r_sdp : Option Body
  pub late_media : Bool
  pub on_local : Bool
  pub on_remote : Bool

-- Is a listener set?
pub record Listeners : Type 0 where
  pub has_ring : Bool
  pub has_conn : Bool
  pub has_disc : Bool
  pub has_fail : Bool
  pub has_dead : Bool

-- What is set before the call and read by it. Durations are not negative here; the code treats a
-- negative one as 0.
pub record Options : Type 0 where
  pub expire_time : ℕ
  pub no_progress_time : ℕ
  pub no_reply_time : ℕ
  pub expire_starts_on_setup : Bool
  pub ka_interval : ℕ
  pub godead_timeout : ℕ
  pub use_refer : Bool
  pub pass_auth : Bool
  pub username : String
  pub password : String
  pub auth_enalgs : Option (List String)
  pub outbound_proxy : Option HostPort
  pub source_address : Option HostPort
  pub my_address : HostPort
  pub default_port : String
  pub extra_headers : List Header
  pub dlg_headers : List Header
  pub uas_lossemul : ℕ
  pub has_setup_complete : Bool

-- What the surroundings answer during one call of a method: the clock, the random first CSeq and
-- call id, whether `CreateClientTransaction` fails, and the errors of the two SDP callbacks.
pub record World : Type 0 where
  pub now : ℕ
  pub first_cseq : ℕ
  pub fresh_call_id : String
  pub tm_refuses : Bool
  pub local_sdp_err : Option String
  pub remote_sdp_err : Option String

pub record Ua : Type 0 where
  pub state : Option UaState
  pub equeue : List CcEvent
  -- `none` is the -1 of the source
  pub elast_seq : Option ℕ
  -- `global_event_seq`
  pub next_seq : ℕ
  pub origin : String
  pub stamps : Stamps
  pub timers : Timers
  pub dialog : Dialog
  pub media : Media
  pub listeners : Listeners
  pub opts : Options
  pub world : World
  -- `sip_tm != nil` and `call_controller != nil`
  pub has_tm : Bool
  pub has_controller : Bool
  pub pending_tr : Bool
  -- the CSeq of the request that `uasResp` answers
  pub uas_resp : Option CSeq
  pub last_scode : ℕ
  pub credit_time : Option ℕ
  pub credit_times : List (ℕ × ℕ)
  pub pr_rel : Bool
  pub remote_ua : String
  -- what was done so far, the latest first
  pub out : List Effect
