-- ===== src/Ua/Frame/Statements.antt =====
-- The statements that may return keep the frame, and what they return leaves the state.
use go_b2bua.Prelude.{ℕ, Bool, String, Option, none, some, List, arith, Bool-cases, inl, inr}
use go_b2bua.Sip.{Address, Body, Header, Method, Response}
use go_b2bua.Event.{CcEvent, Kind}
use go_b2bua.Ua.State.{
  UaState, UaStateId, uas_pre_connect, uas_ringing, uas_ringing_rel, connected, RelState, Ua,
}
use go_b2bua.Ua.Exec.{
  Exec, ◌>>=◌, modify, gets, parse, make_event, request, prep_tr, with_error, no_change,
}
use go_b2bua.Ua.Exec.Keeps.{Keeps, Keeps-bind, Keeps-gets, Keeps-if, keeps_rules}
use go_b2bua.Ua.Steps.{
  ClientTr, parse_or_error, new_connected, new_pre_connect, new_ringing_rel, take_remote_body,
  hold_local_body, send_prack, ending_request,
}
use go_b2bua.Ua.Uas.Trying.{ringing_state}
use go_b2bua.Ua.Graph.{Goes}
use go_b2bua.Ua.Frame.{Frame}
use go_b2bua.Ua.Frame.Timers.{timer_frames}
use go_b2bua.Ua.Frame.Effects.{effect_frames, clear_branch-Frame, log-Frame}

ruleset base = (keeps_rules, timer_frames, effect_frames, tt)

module _ (v : Ua) (s : UaStateId) where
  pub make_event-Frame :
      (t : ℕ) (o : String) (k : Kind) → Keeps (Frame v) (Goes s) (make_event t o k)
  unfolding make_event
  make_event-Frame t o k = record { at = λ u h. (ground arith, tt) }

  -- the two ways in which the callers of `GenRequest` leave
  pub request_error-Frame :
      (w : String) (m : Method) (b : Option Body) (eh : List Header)
      → Keeps (Frame v) (Goes s) (request with_error w m b eh)
  unfolding request
  request_error-Frame w m b eh = record { at = λ u h. ground arith }

  pub request_stay-Frame :
      (w : String) (m : Method) (b : Option Body) (eh : List Header)
      → Keeps (Frame v) (Goes s) (request no_change w m b eh)
  unfolding request
  request_stay-Frame w m b eh = record { at = λ u h. ground (arith, log-Frame v w u h) }

  pub prep_tr-Frame : Keeps (Frame v) (Goes s) (prep_tr with_error)
  unfolding prep_tr
  prep_tr-Frame = record { at = λ u h. ground arith }

  pub parse-Frame : {A : Type 0} (w : String) (o : Option A) → Keeps (Frame v) (Goes s) (parse w o)
  unfolding parse
  parse-Frame w none = search base depth 12
  parse-Frame w (some a) = search base

  pub parse_or_error-Frame :
      {A : Type 0} (o : Option A) → Keeps (Frame v) (Goes s) (parse_or_error o)
  unfolding parse_or_error
  parse_or_error-Frame none = search base
  parse_or_error-Frame (some a) = search base

  ruleset parts = (
    base, make_event-Frame, request_error-Frame, request_stay-Frame, prep_tr-Frame, parse-Frame,
    parse_or_error-Frame,
  )

  pub new_connected-Frame :
      {A : Type 0} (f : UaState → Exec A)
      → ((ka : Bool) → Keeps (Frame v) (Goes s) (f (connected ka)))
      → Keeps (Frame v) (Goes s) (new_connected >>= f)
  unfolding new_connected ◌>>=◌ modify gets
  new_connected-Frame f k = record { at = λ u h. (k _).at _ (clear_branch-Frame v u h) }

  pub new_pre_connect-Frame :
      {A : Type 0} (c : Bool) (f : UaState → Exec A)
      → ((c' : Bool) → Keeps (Frame v) (Goes s) (f (uas_pre_connect c' none)))
      → Keeps (Frame v) (Goes s) (new_pre_connect c >>= f)
  unfolding new_pre_connect ◌>>=◌ modify gets
  new_pre_connect-Frame c f k = record { at = λ u h. (k c).at _ (clear_branch-Frame v u h) }

  pub ringing_state-Frame :
      {A : Type 0} (f : UaState → Exec A)
      → Keeps (Frame v) (Goes s) (f uas_ringing)
      → ((r : RelState) → Keeps (Frame v) (Goes s) (f (uas_ringing_rel r)))
      → Keeps (Frame v) (Goes s) (ringing_state >>= f)
  unfolding ringing_state new_ringing_rel ◌>>=◌ gets
  ringing_state-Frame f k l = record {
    at = λ u h. elim (Bool-cases u.pr_rel) [
      | inl e ↦ simp e ((l _).at u h)
      | inr e ↦ simp e (k.at u h)
    ];
  }

  pub take_remote_body-Frame :
      (b : Option Body) (e : CcEvent) (m : Exec (Unit {0}))
      → Keeps (Frame v) (Goes s) m
      → Keeps (Frame v) (Goes s) (take_remote_body b e m)
  unfolding take_remote_body
  take_remote_body-Frame none e m k = search parts depth 12
  take_remote_body-Frame (some b) e m k =
      Keeps-bind _ _ (Keeps-gets _)
        λ armed. Keeps-if armed _ _ (Keeps-bind _ _ (search parts) λ _. k) (search parts)

  pub hold_local_body-Frame :
      (b : Option Body) (e : CcEvent) → Keeps (Frame v) (Goes s) (hold_local_body b e)
  unfolding hold_local_body
  hold_local_body-Frame none e = search parts depth 12
  hold_local_body-Frame (some b) e = search parts depth 12

  pub send_prack-Frame :
      (w : String) (tr : ClientTr) (resp : Response) (n : Option ℕ)
      → Keeps (Frame v) (Goes s) (send_prack w tr resp n)
  unfolding send_prack
  send_prack-Frame w tr resp none = search parts depth 12
  send_prack-Frame w tr resp (some n) = search parts depth 20

  pub ending_request-Frame :
      (r : Option Address) (eh : List Header) → Keeps (Frame v) (Goes s) (ending_request r eh)
  unfolding ending_request
  ending_request-Frame none eh = search parts depth 12
  ending_request-Frame (some r) eh = search parts depth 20

pub ruleset frames = (
  keeps_rules, timer_frames, effect_frames, make_event-Frame, request_error-Frame,
  request_stay-Frame, prep_tr-Frame, parse-Frame, parse_or_error-Frame, new_connected-Frame,
  new_pre_connect-Frame, ringing_state-Frame, take_remote_body-Frame, hold_local_body-Frame,
  send_prack-Frame, ending_request-Frame, tt,
)
