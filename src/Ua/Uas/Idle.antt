-- ===== src/Ua/Uas/Idle.antt =====
-- `UasStateIdle` of sippy/uas_state_idle.go.
use go_b2bua.Prelude.{
  ℕ, ◌+◌, false, ◌&&◌, ◌||◌, String, Option, none, some, List, [], ◌∷◌, ltb, leb, is_some,
  if◌then◌else◌,
}
use go_b2bua.Sip.{Url, Address, Method, invite, Request}
use go_b2bua.Event.{try_ev}
use go_b2bua.Ua.State.{uas_trying, Ua}
use go_b2bua.Ua.Timers.{
  start_no_progress_timer, start_expire_timer, set_setup_ts, set_ex_mtime, set_np_mtime,
}
use go_b2bua.Ua.Routing.{update_routing, answer}
use go_b2bua.Ua.Exec.{Exec, ◌>>=◌, ◌>>◌, modify, gets, stay, go_to, parse, make_event, enqueue}
use go_b2bua.Ua.Steps.{take_remote_body}
use go_b2bua.Ua.Uac.Idle.{local_contact, register}

-- the first contact, whose absence is a fault that ends the handler
unfoldable pub first_of : List (Option Address) → Exec (Option Address)
first_of [] = stay
first_of (c ∷ cs) = gets (λ u. c)

-- `NewCCEventTry` fails when the authorization header cannot be parsed
abbrev auth_of : Option (Option String) → Option (Option String)
auth_of none = some none
auth_of (some none) = none
auth_of (some (some a)) = some (some a)

-- `SetRAddr0(GetRAddr())`, `SetLCSeq` and `SetLContact`
unfoldable pub answer_call : Request → Ua → Ua
answer_call req u = record u {
  origin = "caller";
  uas_resp = req.cseq;
  dialog = record (u.dialog) {
    l_cseq = u.world.first_cseq;
    l_contact = some (local_contact u.dialog.l_contact u.opts.source_address u.opts.my_address);
  };
}

unfoldable pub set_target : Url → Ua → Ua
set_target url u = record u { dialog = record (u.dialog) { r_target = some url } }

unfoldable pub fix_next_hop : Ua → Ua
fix_next_hop u = record u { dialog = record (u.dialog) { r_addr0 = u.dialog.r_addr } }

-- `SetLUri`, `SetRUri` and `SetCallId`
unfoldable pub open_dialog : Request → Address → Address → Ua → Ua
open_dialog req to_body from_body u = record u {
  dialog = record (u.dialog) {
    l_uri = some (record to_body { tag = u.dialog.l_tag });
    r_uri = some from_body;
    call_id = some (req.call_id);
  };
}

unfoldable pub set_branch : String → Ua → Ua
set_branch b u = record u { dialog = record (u.dialog) { branch = b } }

unfoldable pub set_deadlines : ℕ → Ua → Ua
unfolding set_ex_mtime set_np_mtime
set_deadlines rtime u =
    let ex = u.opts.expire_time in
    let np = u.opts.no_progress_time in
    let u1 : Ua = if ltb 0 ex then set_ex_mtime (rtime + ex) u else u in
    if ltb 0 np && (leb ex 0 || ltb np ex) then set_np_mtime (rtime + np) u1 else u1

unfoldable pub start_first_timer : ℕ → Ua → Ua
unfolding start_no_progress_timer start_expire_timer
start_first_timer rtime u =
    if is_some u.stamps.np_mtime
    then start_no_progress_timer u
    else if is_some u.stamps.ex_mtime
    then start_expire_timer rtime u
    else u

-- The case of INVITE. The response that `GenResponse` makes of a request has no contacts, so
-- `UpdateRouting` gets none; it has copies of the To and From of the request.
unfoldable pub recv_invite : Request → Exec (Unit {0})
recv_invite req = do
  modify (answer_call req)
  c ← first_of req.contacts
  contact ← parse "UasStateIdle::RecvRequest: #1" c
  modify (set_target contact.url)
  modify (update_routing [] req.record_routes false false)
  modify fix_next_hop
  modify (answer req.cseq 100 "Trying" 0 [])
  to_body ← parse "UasStateIdle::RecvRequest: #2" req.to_body
  from_body ← parse "UasStateIdle::RecvRequest: #3" req.from_body
  modify (open_dialog req to_body from_body)
  modify register
  branch ← parse "UasStateIdle::RecvRequest: #4" req.via_branch
  modify (set_branch branch)
  auth ← parse "UasStateIdle::RecvRequest: #5" (auth_of req.auth_hdr)
  origin ← gets (λ u. u.origin)
  made ← make_event req.rtime origin (
      try_ev (some (req.call_id)) from_body.url.username req.ruri_username from_body.name auth
        req.body [])
  let event = record made { sip_reason = req.reason; max_forwards = req.max_forwards }
  modify (set_deadlines event.rtime)
  modify (start_first_timer req.rtime)
  take_remote_body req.body event (modify (set_setup_ts req.rtime) >> go_to uas_trying)
  modify (enqueue event)
  modify (set_setup_ts req.rtime)
  go_to uas_trying

unfoldable pub dispatch : Method → Request → Exec (Unit {0})
dispatch invite req = recv_invite req
dispatch _ req = stay

-- `RecvRequest`
unfoldable pub recv_request : Request → Exec (Unit {0})
recv_request req = dispatch req.method req
