-- ===== src/Ua/Steps.antt =====
-- Statements that several states share: the fields that a handler sets, the constructors of the
-- state structs, PRACK, and the treatment of a body.
use go_b2bua.Prelude.{
  ℕ, ◌+◌, Bool, false, not, ◌&&◌, String, Option, none, some, List, [], ◌∷◌, ltb, ◌==◌, is_some,
  if◌then◌else◌,
}
use go_b2bua.Sip.{
  Address, prack, bye, refer, Body, Header, rack_hf, refer_to_hf, referred_by_hf, also_hf, Response,
}
use go_b2bua.Event.{CcEvent}
use go_b2bua.Ua.State.{
  UaState, uac_cancelling, uas_pre_connect, uas_ringing_rel, connected, disconnected, failed,
  Callback, ring_cb, conn_cb, disc_cb, fail_cb, listener, Listeners, accept_rseq, local_sdp_change,
  remote_sdp_change, Ua,
}
use go_b2bua.Ua.Routing.{emit}
use go_b2bua.Ua.Exec.{
  Exec, ◌>>=◌, ◌>>◌, modify, gets, ret, no_change, with_error, stay, go_to_with, skip, when, parse,
  request, begin_new, begin_new_refer, append_header,
}

-- What a handler reads of the client transaction that a response came on.
pub record ClientTr : Type 0 where
  pub last_rseq : ℕ
  pub req_extra_headers : List Header

-- `CheckRSeq`; the number that passes becomes the last one
unfoldable pub check_rseq : ClientTr → ℕ → Bool
check_rseq tr n = not (not (tr.last_rseq == 0) && not (tr.last_rseq + 1 == n))

unfoldable pub set_l_sdp : Option Body → Ua → Ua
set_l_sdp b u = record u { media = record (u.media) { l_sdp = b } }

unfoldable pub set_r_sdp : Option Body → Ua → Ua
set_r_sdp b u = record u { media = record (u.media) { r_sdp = b } }

unfoldable pub set_late_media : Bool → Ua → Ua
set_late_media b u = record u { media = record (u.media) { late_media = b } }

unfoldable pub set_pending_tr : Bool → Ua → Ua
set_pending_tr b u = record u { pending_tr = b }

unfoldable pub set_last_scode : ℕ → Ua → Ua
set_last_scode n u = record u { last_scode = n }

unfoldable pub reset_sdp_hooks : Ua → Ua
reset_sdp_hooks u = record u { media = record (u.media) { on_local = false; on_remote = false } }

unfoldable pub clear_branch : Ua → Ua
clear_branch u = record u { dialog = record (u.dialog) { branch = "" } }

-- `rUri.SetTag(tag)`
abbrev retag : String → Option Address → Option Address
retag tag none = none
retag tag (some a) = some (record a { tag = tag })

unfoldable pub set_r_tag : String → Ua → Ua
set_r_tag tag u = record u { dialog = record (u.dialog) { r_uri = retag tag u.dialog.r_uri } }

-- The states whose constructors touch the user agent.
abbrev pub to_failed : Callback → Exec (Unit {0})
to_failed cb = modify reset_sdp_hooks >> go_to_with failed cb

abbrev pub to_disconnected : Callback → Exec (Unit {0})
to_disconnected cb = modify reset_sdp_hooks >> go_to_with disconnected cb

abbrev pub to_cancelling : Callback → Exec (Unit {0})
to_cancelling cb = modify reset_sdp_hooks >> go_to_with (uac_cancelling false) cb

-- `newKeepaliveController` is nil when the interval is 0
unfoldable pub new_connected : Exec UaState
new_connected = do modify clear_branch; gets (λ u. connected (ltb 0 u.opts.ka_interval))

unfoldable pub new_pre_connect : Bool → Exec UaState
new_pre_connect confirm = do modify clear_branch; gets (λ u. uas_pre_connect confirm none)

unfoldable pub new_ringing_rel : Exec UaState
new_ringing_rel = gets (λ u. uas_ringing_rel (record {
  prack_received = false;
  prack_wait = is_some u.media.l_sdp;
  pending_ev_ring = none;
  pending_ev_connect = none;
  pending_ev_update = none;
}))

-- What the client states do with a body that comes from the remote side: hand it to the hook and
-- go on with `hooked`, or store it. The callback of the hook is `DelayedRemoteSdpUpdate`.
unfoldable pub take_remote_body : Option Body → CcEvent → Exec (Unit {0}) → Exec (Unit {0})
take_remote_body none event hooked = modify (set_r_sdp none)
take_remote_body (some b) event hooked = do
  armed ← gets (λ u. u.media.on_remote)
  if armed
      then (modify (emit (remote_sdp_change b event)) >> hooked)
      else modify (set_r_sdp (some b))

-- `if body != nil && HasOnLocalSdpChange() && body.NeedsUpdate() { OnLocalSdpChange(…); return }`
unfoldable pub hold_local_body : Option Body → CcEvent → Exec (Unit {0})
hold_local_body none event = skip
hold_local_body (some b) event = do
  armed ← gets (λ u. u.media.on_local)
  when (armed && b.needs_update) (modify (emit (local_sdp_change b event)) >> stay)

-- The acknowledgement of a reliable provisional response: nothing when it has no RSeq.
unfoldable pub send_prack : String → ClientTr → Response → Option ℕ → Exec (Unit {0})
unfolding check_rseq
send_prack where_at tr resp none = skip
send_prack where_at tr resp (some n) = do
  when (not (check_rseq tr n)) stay
  modify (emit (accept_rseq n))
  to_body ← parse where_at resp.to_body
  r_uri ← gets (λ u. u.dialog.r_uri)
  _ ← parse where_at r_uri
  modify (set_r_tag to_body.tag)
  cseq ← parse where_at resp.cseq
  req ← request no_change where_at prack none []
  modify (begin_new (append_header (rack_hf n cseq.num cseq.method) req))

-- `RingCb`, `ConnCb`, `DiscCb`, `FailCb`: nothing when the listener is not set
abbrev is_set : Callback → Listeners → Bool
is_set (ring_cb rtime origin scode) l = l.has_ring
is_set (conn_cb rtime origin) l = l.has_conn
is_set (disc_cb rtime origin scode inreq) l = l.has_disc
is_set (fail_cb rtime origin scode) l = l.has_fail

unfoldable pub run_listener : Callback → Ua → Ua
unfolding emit
run_listener cb u = if is_set cb u.listeners then emit (listener cb) u else u

-- `x, err := e.GetBody(); if err != nil { return nil, nil, err }`
unfoldable pub parse_or_error : {A : Type 0} → Option A → Exec A
parse_or_error none = ret with_error
parse_or_error (some a) = gets λ u. a

-- How a connected call is ended with an event that may name another target: by REFER, or by BYE.
unfoldable pub ending_request : Option Address → List Header → Exec (Unit {0})
ending_request none eh = do req ← request with_error "" bye none eh; modify (begin_new req)
ending_request (some redirect) eh = do
  use_refer ← gets (λ u. u.opts.use_refer)
  if use_refer
      then (do
        req ← request with_error "" refer none eh
        l_uri ← gets (λ u. u.dialog.l_uri)
        own ← parse_or_error l_uri
        modify (
            begin_new_refer
              (append_header (referred_by_hf own.url) (append_header (refer_to_hf redirect) req))))
      else (do
        req ← request with_error "" bye none eh
        modify (begin_new (append_header (also_hf redirect) req)))

-- `for _, contact := range contacts`: all bodies, or none when one cannot be parsed
unfoldable pub parse_all : List (Option Address) → Option (List Address)
parse_all [] = some []
parse_all (none ∷ cs) = none
parse_all (some c ∷ cs) = elim (parse_all cs) [ none ↦ none | some rest ↦ some (c ∷ rest) ]
