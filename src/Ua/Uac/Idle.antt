-- ===== src/Ua/Uac/Idle.antt =====
-- `UacStateIdle` of sippy/uac_state_idle.go.
use go_b2bua.Prelude.{
  ℕ, ◌+◌, true, false, ◌&&◌, ◌||◌, String, Option, none, some, List, [], ◌∷◌, ◌++◌, ltb, leb, ◌==◌,
  is_some, if◌then◌else◌,
}
use go_b2bua.Sip.{
  HostPort, Url, Address, invite, Body, Header, max_forwards_hf, other_hf, OutRequest,
}
use go_b2bua.Event.{CcEvent, Kind, fail_ev, redirect_ev, disconnect_ev, try_ev, get_extra_headers}
use go_b2bua.Ua.State.{uac_trying, disc_cb, setup_complete, reg_consumer, Ua}
use go_b2bua.Ua.Timers.{
  start_no_progress_timer, start_no_reply_timer, start_expire_timer, set_setup_ts, set_ex_mtime,
  set_np_mtime, set_nr_mtime, stamp_disconnect,
}
use go_b2bua.Ua.Routing.{emit}
use go_b2bua.Ua.Exec.{
  Exec, ◌>>=◌, ◌>>◌, modify, with_error, stay, go_to, request, begin_client, prep_tr, append_header,
}
use go_b2bua.Ua.Steps.{set_late_media, set_l_sdp, to_disconnected, hold_local_body}

-- `NewSipContactFromHostPort` and `NewSipContact`
abbrev pub contact_at : HostPort → Address
contact_at p = record {
  name = "Anonymous";
  url = record { username = ""; host = p.host; port = some p.port; lr = false };
  tag = "";
}

abbrev pub local_contact : Option Address → Option HostPort → HostPort → Address
local_contact (some c) src own = c
local_contact none (some src) own = contact_at src
local_contact none none own = contact_at own

abbrev call_id_of : Option String → String → String
call_id_of none fresh = fresh
call_id_of (some c) fresh = c

-- `NewSipURL(cld, rAddr0.Host, rAddr0.Port, false)`; with no next hop address the code panics
abbrev target_url : String → Option HostPort → Option Url
target_url cld none = none
target_url cld (some p) =
    some (record { username = cld; host = p.host; port = some p.port; lr = false })

abbrev uri_of : Option Url → Option Address
uri_of none = none
uri_of (some url) = some (record { name = ""; url = record url { port = none }; tag = "" })

-- The dialog of a new outgoing call.
unfoldable pub open_dialog :
    Option String → String → String → String → List (Option Address) → Ua → Ua
open_dialog call_id cli cld caller routes u = record u {
  dialog = record (u.dialog) {
    call_id = some (call_id_of call_id u.world.fresh_call_id);
    r_target = target_url cld u.dialog.r_addr0;
    r_uri = uri_of (target_url cld u.dialog.r_addr0);
    l_uri = some (record {
      name = caller;
      url = record { username = cli; host = u.opts.my_address.host; port = none; lr = false };
      tag = u.dialog.l_tag;
    });
    l_cseq = u.world.first_cseq;
    l_contact = some (
        let c = local_contact u.dialog.l_contact u.opts.source_address u.opts.my_address in
        record c { url = record (c.url) { username = cli } });
    routes = routes;
  };
}

-- `RegConsumer`: nothing when the user agent is dead
unfoldable pub register : Ua → Ua
unfolding emit
register u = if u.has_tm then emit (reg_consumer u.dialog.call_id) u else u

-- The three deadlines of a call that starts at `rtime`.
unfoldable pub set_deadlines : ℕ → Ua → Ua
unfolding set_ex_mtime set_np_mtime set_nr_mtime
set_deadlines rtime u =
    let ex = u.opts.expire_time in
    let np = u.opts.no_progress_time in
    let nr = u.opts.no_reply_time in
    let u1 : Ua = if ltb 0 ex then set_ex_mtime (rtime + ex) u else u in
    let u2 : Ua =
      if ltb 0 np && (leb ex 0 || ltb np ex) then set_np_mtime (rtime + np) u1 else u1 in
    if (ltb 0 nr && ltb nr 32_000_000_000) && (leb ex 0 || ltb nr ex) && (leb np 0 || ltb nr np)
    then set_nr_mtime (rtime + nr) u2
    else u2

-- Only the first timer of a call is started; the others follow when it is cancelled.
unfoldable pub start_first_timer : ℕ → Ua → Ua
unfolding start_no_reply_timer start_no_progress_timer start_expire_timer
start_first_timer rtime u =
    if is_some u.stamps.nr_mtime
    then start_no_reply_timer u
    else if is_some u.stamps.np_mtime
    then start_no_progress_timer u
    else if is_some u.stamps.ex_mtime
    then start_expire_timer rtime u
    else u

-- `eh`, with the event's Max-Forwards behind it
abbrev forwarded_headers : CcEvent → List Header
forwarded_headers event =
    get_extra_headers event
    ++ elim event.max_forwards [ none ↦ [] | some n ↦ max_forwards_hf n ∷ [] ]

-- `self.ua.PassAuth() && event.GetSipAuthorizationHF() != nil`: the header goes on the request
-- after `BeginClientTransaction`, so it is on the copy that `reqs` keeps alone.
abbrev add_to_req : ℕ → Header → List (ℕ × OutRequest) → List (ℕ × OutRequest)
add_to_req k h [] = []
add_to_req k h ((j, r) ∷ m) =
    if j == k then (j, append_header h r) ∷ m else (j, r) ∷ add_to_req k h m

unfoldable pub pass_authorization : Option String → OutRequest → Ua → Ua
pass_authorization none req u = u
pass_authorization (some text) req u =
    if u.opts.pass_auth
    then record u {
      dialog = record (u.dialog) {
        reqs = add_to_req req.cseq (other_hf "Authorization" text) u.dialog.reqs;
      };
    }
    else u

-- the body: hand it to the local SDP hook, or note that media comes late
unfoldable pub take_offer : Option Body → CcEvent → Exec (Unit {0})
take_offer none event = modify (set_late_media true)
take_offer (some b) event = hold_local_body (some b) event

unfoldable pub note_setup : ℕ → Ua → Ua
unfolding set_setup_ts
note_setup t u = if is_some u.stamps.setup_ts then u else set_setup_ts t u

unfoldable pub call_setup_complete : Ua → Ua
unfolding emit
call_setup_complete u = if u.opts.has_setup_complete then emit setup_complete u else u

-- the case of `CCEventTry`
unfoldable pub try_call :
    CcEvent
    → Option String
    → String
    → String
    → String
    → Option String
    → Option Body
    → List (Option Address)
    → Exec (Unit {0})
try_call event call_id cli cld caller auth body routes = do
  modify (note_setup event.rtime)
  modify (λ u. record u { origin = "callee" })
  take_offer body event
  modify (open_dialog call_id cli cld caller routes)
  modify register
  modify (set_l_sdp body)
  modify call_setup_complete
  req ← request with_error "" invite body (forwarded_headers event)
  prep_tr with_error
  modify (begin_client req)
  modify (pass_authorization auth req)
  modify (set_deadlines event.rtime)
  modify (start_first_timer event.rtime)
  go_to uac_trying

-- the cases of fail, redirect and disconnect
unfoldable pub give_up : CcEvent → Exec (Unit {0})
give_up event = do
  modify (stamp_disconnect event.rtime)
  to_disconnected (disc_cb event.rtime event.origin 0 none)

unfoldable pub dispatch : Kind → CcEvent → Exec (Unit {0})
dispatch (try_ev call_id cli cld caller auth body routes) event =
    try_call event call_id cli cld caller auth body routes
dispatch (fail_ev code reason challenges warning) event = give_up event
dispatch (redirect_ev code reason body addrs) event = give_up event
dispatch (disconnect_ev also) event = give_up event
dispatch _ event = stay

-- `RecvEvent`
unfoldable pub recv_event : CcEvent → Exec (Unit {0})
recv_event event = dispatch event.kind event
