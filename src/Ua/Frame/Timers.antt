-- ===== src/Ua/Frame/Timers.antt =====
-- The timers and time stamps keep the frame.
use go_b2bua.Prelude.{ℕ, arith, is_some, if◌then◌else◌}
use go_b2bua.Ua.State.{Ua}
use go_b2bua.Ua.Timers.{
  cancel_expire_timer, cancel_no_progress_timer, cancel_no_reply_timer, cancel_credit_timer,
  start_no_reply_timer, start_no_progress_timer, start_expire_timer, set_setup_ts,
  set_disconnect_ts, set_connect_ts, set_p100_ts, set_p1xx_ts, set_ex_mtime, set_np_mtime,
  set_nr_mtime, stamp_disconnect, start_credit_timer,
}
use go_b2bua.Ua.Uac.Trying.{after_no_reply, after_no_progress}
use go_b2bua.Ua.Uac.Idle as UacIdle
use go_b2bua.Ua.Uas.Idle as UasIdle
use go_b2bua.Ua.Uas.Trying.{progress, first_p1xx}
use go_b2bua.Sip.{Response}
use go_b2bua.Ua.Frame.{Frame}

module _ (v : Ua) where
  pub cancel_expire_timer-Frame : (u : Ua) → Frame v u → Frame v (cancel_expire_timer u)
  unfolding cancel_expire_timer
  cancel_expire_timer-Frame u h = ground arith

  pub cancel_no_progress_timer-Frame : (u : Ua) → Frame v u → Frame v (cancel_no_progress_timer u)
  unfolding cancel_no_progress_timer
  cancel_no_progress_timer-Frame u h = ground arith

  pub cancel_no_reply_timer-Frame : (u : Ua) → Frame v u → Frame v (cancel_no_reply_timer u)
  unfolding cancel_no_reply_timer
  cancel_no_reply_timer-Frame u h = ground arith

  pub cancel_credit_timer-Frame : (u : Ua) → Frame v u → Frame v (cancel_credit_timer u)
  unfolding cancel_credit_timer
  cancel_credit_timer-Frame u h = ground arith

  pub start_no_reply_timer-Frame : (u : Ua) → Frame v u → Frame v (start_no_reply_timer u)
  unfolding start_no_reply_timer
  start_no_reply_timer-Frame u h = ground arith

  pub start_no_progress_timer-Frame : (u : Ua) → Frame v u → Frame v (start_no_progress_timer u)
  unfolding start_no_progress_timer
  start_no_progress_timer-Frame u h = ground arith

  pub start_expire_timer-Frame : (t : ℕ) (u : Ua) → Frame v u → Frame v (start_expire_timer t u)
  unfolding start_expire_timer
  start_expire_timer-Frame t u h = ground arith

  pub set_setup_ts-Frame : (t : ℕ) (u : Ua) → Frame v u → Frame v (set_setup_ts t u)
  unfolding set_setup_ts
  set_setup_ts-Frame t u h = ground arith

  pub set_disconnect_ts-Frame : (t : ℕ) (u : Ua) → Frame v u → Frame v (set_disconnect_ts t u)
  unfolding set_disconnect_ts
  set_disconnect_ts-Frame t u h = ground arith

  pub set_connect_ts-Frame : (t : ℕ) (u : Ua) → Frame v u → Frame v (set_connect_ts t u)
  unfolding set_connect_ts
  set_connect_ts-Frame t u h = ground arith

  pub set_p100_ts-Frame : (t : ℕ) (u : Ua) → Frame v u → Frame v (set_p100_ts t u)
  unfolding set_p100_ts
  set_p100_ts-Frame t u h = ground arith

  pub set_p1xx_ts-Frame : (t : ℕ) (u : Ua) → Frame v u → Frame v (set_p1xx_ts t u)
  unfolding set_p1xx_ts
  set_p1xx_ts-Frame t u h = ground arith

  pub set_ex_mtime-Frame : (t : ℕ) (u : Ua) → Frame v u → Frame v (set_ex_mtime t u)
  unfolding set_ex_mtime
  set_ex_mtime-Frame t u h = ground arith

  pub set_np_mtime-Frame : (t : ℕ) (u : Ua) → Frame v u → Frame v (set_np_mtime t u)
  unfolding set_np_mtime
  set_np_mtime-Frame t u h = ground arith

  pub set_nr_mtime-Frame : (t : ℕ) (u : Ua) → Frame v u → Frame v (set_nr_mtime t u)
  unfolding set_nr_mtime
  set_nr_mtime-Frame t u h = ground arith

  pub stamp_disconnect-Frame : (t : ℕ) (u : Ua) → Frame v u → Frame v (stamp_disconnect t u)
  unfolding stamp_disconnect
  stamp_disconnect-Frame t u h = ground arith

  pub start_credit_timer-Frame : (t : ℕ) (u : Ua) → Frame v u → Frame v (start_credit_timer t u)
  unfolding start_credit_timer
  start_credit_timer-Frame t u h = ground arith

  pub after_no_reply-Frame :
      (resp : Response) (u : Ua) → Frame v u → Frame v (after_no_reply resp u)
  unfolding after_no_reply
  after_no_reply-Frame resp u h = ground arith

  pub after_no_progress-Frame :
      (resp : Response) (u : Ua) → Frame v u → Frame v (after_no_progress resp u)
  unfolding after_no_progress
  after_no_progress-Frame resp u h = ground arith

  pub uac_set_deadlines-Frame : (t : ℕ) (u : Ua) → Frame v u → Frame v (UacIdle.set_deadlines t u)
  unfolding UacIdle.set_deadlines
  uac_set_deadlines-Frame t u h = ground arith

  pub uac_start_first_timer-Frame :
      (t : ℕ) (u : Ua) → Frame v u → Frame v (UacIdle.start_first_timer t u)
  unfolding UacIdle.start_first_timer
  uac_start_first_timer-Frame t u h = ground arith

  pub uas_set_deadlines-Frame : (t : ℕ) (u : Ua) → Frame v u → Frame v (UasIdle.set_deadlines t u)
  unfolding UasIdle.set_deadlines
  uas_set_deadlines-Frame t u h = ground arith

  pub uas_start_first_timer-Frame :
      (t : ℕ) (u : Ua) → Frame v u → Frame v (UasIdle.start_first_timer t u)
  unfolding UasIdle.start_first_timer
  uas_start_first_timer-Frame t u h = ground arith

  pub note_setup-Frame : (t : ℕ) (u : Ua) → Frame v u → Frame v (UacIdle.note_setup t u)
  unfolding UacIdle.note_setup
  note_setup-Frame t u h = ground arith

  pub progress-Frame : (t : ℕ) (u : Ua) → Frame v u → Frame v (progress t u)
  unfolding progress
  progress-Frame t u h = ground arith

  pub first_p1xx-Frame : (t : ℕ) (u : Ua) → Frame v u → Frame v (first_p1xx t u)
  unfolding first_p1xx
  first_p1xx-Frame t u h = ground arith

  pub set_p1xx_once-Frame :
      (t : ℕ) (u : Ua)
      → Frame v u
      → Frame v (if is_some u.stamps.p1xx_ts then u else set_p1xx_ts t u)
  unfolding set_p1xx_ts
  set_p1xx_once-Frame t u h = ground arith

pub ruleset timer_frames = (
  set_p1xx_once-Frame, cancel_expire_timer-Frame, cancel_no_progress_timer-Frame,
  cancel_no_reply_timer-Frame, cancel_credit_timer-Frame, start_no_reply_timer-Frame,
  start_no_progress_timer-Frame, start_expire_timer-Frame, set_setup_ts-Frame,
  set_disconnect_ts-Frame, set_connect_ts-Frame, set_p100_ts-Frame, set_p1xx_ts-Frame,
  set_ex_mtime-Frame, set_np_mtime-Frame, set_nr_mtime-Frame, stamp_disconnect-Frame,
  start_credit_timer-Frame, after_no_reply-Frame, after_no_progress-Frame, uac_set_deadlines-Frame,
  uac_start_first_timer-Frame, uas_set_deadlines-Frame, uas_start_first_timer-Frame,
  note_setup-Frame, progress-Frame, first_p1xx-Frame,
)
