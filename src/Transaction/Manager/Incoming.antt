-- ===== src/Transaction/Manager/Incoming.antt =====
-- How the transaction manager takes a datagram (`handleIncoming`, `process_response` and
-- `process_request` of sippy/sip_transaction_manager.go). The string forms of addresses are the
-- addresses.
use text.Mathlib.Text.{◌==◌ as str_eq}
use go_b2bua.Prelude.{
  ℕ, Bool, true, false, not, ◌&&◌, ◌||◌, String, Option, none, some, List, [], ◌∷◌, find, ltb,
  is_some, if◌then◌else◌,
}
use native.Mathlib.Decide.{ℕ_discrete}
use go_b2bua.Sip.{HostPort, Url, Address}
use go_b2bua.Transaction.Message.{
  Via, t_addr, via_port, Tid, Tid-discrete, Msg, get_tid, get_tids, TrRequest, TrResponse,
}
use go_b2bua.Transaction.Cache.{Entry, response_out, rcache_get}
use go_b2bua.Transaction.Client.{Client}
use go_b2bua.Transaction.Client.Handlers.{incoming_response}
use go_b2bua.Transaction.Manager.{Manager, transmit_data, run_client}
use go_b2bua.Transaction.Manager.Nat.{check1918, check7118}
use go_b2bua.Transaction.Manager.Outgoing.{log}
use go_b2bua.Transaction.Manager.Env.{Env, Datagram, ParsedRequest, good, answered, unreadable}
use go_b2bua.Transaction.Manager.Requests.{name_call, silence, request_in}

abbrev url_to : HostPort → Url → Url
url_to a u = record u { host = a.host; port = some a.port }

-- The first Contact points to the address.
abbrev pub move_contact : HostPort → Address → List (Option Address) → Msg → Msg
move_contact a c rest msg = record msg {
  contacts = some (record c { url = url_to a c.url }) ∷ rest;
}

abbrev pub is_none {ℓ} : {A : Type ℓ} → List A → Bool
is_none [] = true
is_none (a ∷ rest) = false

module _ (env : Env) where
  -- `check1918`
  abbrev pub is_local : String → Bool
  is_local host = check1918 env.parse_ip host

  -- A response that belongs to no transaction and has passed here goes on to the next Via. The
  -- Contact is changed if it is private or has another port than the sender's; a Contact without a
  -- port that is not private ends the handler with a nil dereference.
  abbrev relayed_port :
      HostPort → HostPort → Address → List (Option Address) → Option String → Msg → Option Msg
  relayed_port address taddr c rest none msg = none
  relayed_port address taddr c rest (some port) msg =
      some (if str_eq port address.port then msg else move_contact taddr c rest msg)

  unfoldable pub relayed : HostPort → HostPort → Bool → List (Option Address) → Msg → Option Msg
  relayed address taddr asterisk [] msg = none
  relayed address taddr true (c ∷ rest) msg = some msg
  relayed address taddr false (none ∷ rest) msg = none
  relayed address taddr false (some c ∷ rest) msg =
      if is_local c.url.host
      then some (move_contact taddr c rest msg)
      else relayed_port address taddr c rest c.url.port msg

  abbrev pub forward : ℕ → String → HostPort → TrResponse → Tid → Option Msg → Manager → Manager
  forward server checksum taddr resp tid none m = log "" m
  forward server checksum taddr resp tid (some msg) m = name_call checksum tid.call_id (
      transmit_data (some server) (some (response_out (record resp { msg = msg }))) (some taddr)
        checksum msg.call_id 0 m)

  unfoldable pub relay_by :
      HostPort → ℕ → String → TrResponse → Tid → Option Via → Manager → Manager
  unfolding relayed
  relay_by address server checksum resp tid none m = log "" m
  relay_by address server checksum resp tid (some via) m =
      let taddr = t_addr env.default_port via in
      if str_eq taddr.port env.sip_port
      then name_call checksum tid.call_id m
      else forward server checksum taddr resp tid
          (relayed address taddr resp.msg.asterisk resp.msg.contacts resp.msg) m

  unfoldable pub relay : HostPort → ℕ → String → TrResponse → Tid → Manager → Manager
  unfolding relay_by
  relay address server checksum resp tid m =
      if is_none resp.msg.more_vias
      then name_call checksum tid.call_id m
      else relay_by address server checksum resp tid resp.msg.via0 m

  -- A private Contact that came through a NAT is replaced by where it came from; none on a parse
  -- error.
  unfoldable pub unnat : HostPort → List (Option Address) → Msg → Option (Msg × Bool)
  unnat address [] msg = some (msg, false)
  unnat address (none ∷ rest) msg = none
  unnat address (some c ∷ rest) msg =
      some (if is_local c.url.host then (move_contact address c rest msg, true) else (msg, false))

  abbrev pub hear : ℕ → HostPort → String → TrResponse → Option (Msg × Bool) → Manager → Manager
  hear ref address checksum resp none m = log "" m
  hear ref address checksum resp (some (msg, fixed)) m =
      run_client ref
        (incoming_response env.default_port env.fresh_branch env.set_uack checksum
          (record resp { msg = record msg { source = some address } }))
        m

  abbrev peer_is_local : Client → Option Bool
  peer_is_local t = elim t.base.address [ none ↦ none | some a ↦ some (is_local a.host) ]

  -- whether the Contact is looked at; none if the address of the transaction is nil
  abbrev pub looks_at : Bool → Msg → Client → Option Bool
  looks_at nat_traversal msg t =
      if nat_traversal && (not (is_none msg.contacts) && not msg.asterisk)
      then elim (peer_is_local t) [ none ↦ none | some b ↦ some (not b) ]
      else some false

  unfoldable pub deliver_if : ℕ → HostPort → String → TrResponse → Option Bool → Manager → Manager
  unfolding unnat
  deliver_if ref address checksum resp none m = m
  deliver_if ref address checksum resp (some looks) m =
      hear ref address checksum resp
        (if looks then unnat address resp.msg.contacts resp.msg else some (resp.msg, false)) m

  unfoldable pub deliver_to : ℕ → HostPort → String → TrResponse → Option Client → Manager → Manager
  unfolding deliver_if
  deliver_to ref address checksum resp none m = m
  deliver_to ref address checksum resp (some t) m =
      deliver_if ref address checksum resp (looks_at m.nat_traversal resp.msg t) m

  unfoldable pub deliver : HostPort → ℕ → String → TrResponse → Tid → Option ℕ → Manager → Manager
  unfolding deliver_to relay
  deliver address server checksum resp tid none m = relay address server checksum resp tid m
  deliver address server checksum resp tid (some ref) m =
      deliver_to ref address checksum resp (find ℕ_discrete ref m.clients) m

  unfoldable pub response_by : HostPort → ℕ → String → TrResponse → Option Tid → Manager → Manager
  unfolding deliver
  response_by address server checksum resp none m = log "can't parse SIP response from " m
  response_by address server checksum resp (some tid) m =
      if ltb resp.scode 100 || ltb 999 resp.scode
      then name_call checksum tid.call_id (log "invalid status code in SIP response" m)
      else deliver address server checksum resp tid (find Tid-discrete tid m.tclient) m

  -- `process_response`
  unfoldable pub process_response : HostPort → ℕ → String → Option TrResponse → Manager → Manager
  unfolding response_by
  process_response address server checksum none m = log "can't parse SIP response from " m
  process_response address server checksum (some resp) m =
      response_by address server checksum resp (get_tid true true false resp.msg) m

  -- the Via gets the address that the request came from
  abbrev pub seen_from : HostPort → Bool → Via → Via
  seen_from address nated via =
      let received =
        if str_eq via.host address.host
        then via
        else record via { received = some (some address.host) } in
      if is_some via.rport || nated
      then record received { rport = some (some address.port) }
      else received

  abbrev is_nated : Bool → HostPort → Via → Bool
  is_nated nat_traversal address via =
      nat_traversal
      && (not (str_eq address.port (via_port env.default_port via))
          && (is_local via.host || check7118 via.host))

  abbrev looks_at_request : Bool → Msg → Bool
  looks_at_request nat_traversal msg =
      nat_traversal && (not (is_none msg.contacts) && (not msg.asterisk && is_none msg.more_vias))

  abbrev pub take :
      HostPort → ℕ → String → List Tid → TrRequest → Bool → Option (Msg × Bool) → Manager → Manager
  take address server checksum tids req nated none m = log "Bad Contact: " m
  take address server checksum tids req nated (some (msg, fixed)) m =
      request_in env
        (record req { msg = record msg { source = some address }; nated = nated || fixed }) checksum
        tids server m

  unfoldable pub request_from :
      HostPort → ℕ → String → TrRequest → List Tid → Option Via → Manager → Manager
  unfolding unnat
  request_from address server checksum req tids none m = log "" m
  request_from address server checksum req tids (some via) m =
      let nated = is_nated m.nat_traversal address via in
      let msg = record (req.msg) { via0 = some (seen_from address nated via) } in
      take address server checksum tids req nated
        (if looks_at_request m.nat_traversal msg
          then unnat address msg.contacts msg
          else some (msg, false))
        m

  unfoldable pub request_by :
      HostPort → ℕ → String → TrRequest → Option (List Tid) → Manager → Manager
  unfolding request_from
  request_by address server checksum req none m = log "" m
  request_by address server checksum req (some tids) m =
      request_from address server checksum req tids req.msg.via0 m

  -- `process_request`
  unfoldable pub process_request : HostPort → ℕ → String → ParsedRequest → Manager → Manager
  unfolding request_by
  process_request address server checksum unreadable m = log "can't parse SIP request from " m
  process_request address server checksum (answered resp) m = log "can't parse SIP request from " (
      transmit_data (some server) (some (response_out resp)) (some address) checksum
        resp.msg.call_id 0 m)
  process_request address server checksum (good req) m =
      request_by address server checksum req (get_tids req.msg) m

  -- A datagram that came before is answered from the cache.
  abbrev pub resend : Entry → Manager → Manager
  resend e m =
      if is_some e.data_out then transmit_data e.userv e.data_out e.address "" e.call_id 0 m else m

  unfoldable pub first_time : Datagram → HostPort → ℕ → Manager → Manager
  unfolding process_response process_request
  first_time d address server m =
      if d.is_response
      then process_response address server d.checksum d.response (silence d.checksum m)
      else process_request address server d.checksum d.request (silence d.checksum m)

  unfoldable pub known_or : Datagram → HostPort → ℕ → Option Entry → Manager → Manager
  unfolding first_time
  known_or d address server (some e) m = resend e m
  known_or d address server none m = first_time d address server m

  -- `handleIncoming`
  unfoldable pub handle_incoming : Datagram → HostPort → ℕ → Manager → Manager
  unfolding known_or
  handle_incoming d address server m =
      if ltb d.size 32 then m else known_or d address server (rcache_get d.checksum m.cache) m
