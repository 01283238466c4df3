-- ===== src/Transaction/Server/Sound/Handlers.antt =====
-- The timers while a server transaction handles a request or a timer
-- (sippy/server_transaction.go).
use text.Mathlib.Text.{◌==◌ as str_eq}
use go_b2bua.Prelude.{Bool, true, false, String, Option, none, some, ◌≡◌, refl, is_some, if_lem}
use go_b2bua.Transaction.Message.{
  Via, Rtid, TrRequest, TrResponse, t_addr, request_rtid, gen_response,
}
use go_b2bua.Transaction.Cache.{response_out}
use go_b2bua.Transaction.Base.{
  Base, timer_a, transmit, cancel_cb, ack_cb, prack_cb, rtid_del, confirmed, enter, cancel_te_a,
}
use go_b2bua.Transaction.Server.{
  Server, is_completed, cancel_te_e, act, call_if, on_base, timer_d, is_open,
}
use go_b2bua.Transaction.Server.Handlers.{
  send_487, reply_to, or_same, cancel_open, confirm, accept_prack, expired, prack_by, is_in_flight,
  do_cancel, incoming_again, incoming_cancel, incoming_ack, incoming_prack, incoming_request,
  timer_e,
}
use go_b2bua.Transaction.Server.Sound.{
  IsSound, cleanup-IsSound, same-IsSound, true-not-false, linked-IsSound, call-IsSound, act-IsSound,
}
use go_b2bua.Transaction.Server.Sound.Sending.{send_response-IsSound}

pub timer_a-IsSound :
    (s : Server) → is_some s.base.te_a ≡ true → IsSound s → IsSound (on_base timer_a s)
unfolding timer_a
timer_a-IsSound s e h =
    if_lem (λ (b : Base). IsSound (record s { base = b })) s.base.linked
      (λ l. linked-IsSound _ l (λ _. h.bounded e) h.invites) (λ _. h)

pub timer_d-IsSound : (s : Server) → IsSound s → IsSound (timer_d s)
unfolding timer_d
timer_d-IsSound s h = if_lem IsSound s.base.linked (λ _. cleanup-IsSound _) (λ _. h)

module _ (default_port fresh : String) where
  send_487-IsSound :
      (resp : Option TrResponse) (s : Server)
      → IsSound s
      → IsSound (send_487 default_port fresh resp s)
  send_487-IsSound none s h = h
  send_487-IsSound (some resp) s h = send_response-IsSound default_port fresh true false 0 resp s h

  do_cancel-IsSound :
      (req : Option TrRequest) (s : Server)
      → IsSound s
      → IsSound (do_cancel default_port fresh req s)
  unfolding do_cancel
  do_cancel-IsSound req s h =
      let sent = send_487 default_port fresh s.r487 s in
      call-IsSound sent.has_cancel_cb (cancel_cb req) sent (send_487-IsSound s.r487 s h)

  incoming_again-IsSound :
      (checksum : String) (s : Server)
      → IsSound s
      → IsSound (incoming_again default_port fresh checksum s)
  unfolding incoming_again
  incoming_again-IsSound checksum s h =
      if_lem IsSound (is_some s.base.packet) (λ _. act-IsSound _ s h) (λ _. h)

  reply_to-IsSound :
      (req : TrRequest) (checksum : String) (resp : TrResponse) (via : Option Via) (s : Server)
      → IsSound s
      → IsSound (or_same default_port fresh s (reply_to default_port fresh req checksum resp via s))
  reply_to-IsSound req checksum resp none s h = h
  reply_to-IsSound req checksum resp (some via) s h = act-IsSound _ s h

  cancel_open-IsSound :
      (req : TrRequest) (checksum : String) (resp : TrResponse) (via : Option Via) (s : Server)
      → IsSound s
      → IsSound (
          cancel_open default_port fresh req s
            (reply_to default_port fresh req checksum resp via s))
  unfolding cancel_open
  cancel_open-IsSound req checksum resp none s h = h
  cancel_open-IsSound req checksum resp (some via) s h =
      let replied =
        act-IsSound
          (transmit s.base.userv (some (response_out resp)) (some (t_addr default_port via))
            checksum s.base.tid.call_id 0)
          s h in
      if_lem IsSound (is_open s.base.state) (λ _. do_cancel-IsSound (some req) _ replied)
        (λ _. replied)

  confirm-IsSound :
      (b : Bool) (req : TrRequest) (checksum : String) (s : Server)
      → IsSound s
      → IsSound (confirm default_port fresh b req checksum s)
  confirm-IsSound true req checksum s h =
      act-IsSound _ (call_if s.has_ack_cb (ack_cb req) s)
        (call-IsSound s.has_ack_cb (ack_cb req) s h)
  confirm-IsSound false req checksum s h = cleanup-IsSound _

  confirming-IsSound :
      (s : Server) → IsSound s → IsSound (on_base (λ b. cancel_te_a (enter confirmed b)) s)
  confirming-IsSound s h = record {
    bounded = λ f. absurd (true-not-false f refl);
    invites = h.invites;
    quiet_a = λ _. refl;
    quiet_d = h.quiet_d;
    quiet_e = h.quiet_e;
    uncalled = h.uncalled;
  }

  incoming_ack-IsSound :
      (req : TrRequest) (checksum : String) (s : Server)
      → IsSound s
      → IsSound (incoming_ack default_port fresh req checksum s)
  unfolding incoming_ack
  incoming_ack-IsSound req checksum s h =
      if_lem IsSound (is_completed s.base.state)
        (λ _. confirm-IsSound (is_some s.prov_inflight) req checksum _ (confirming-IsSound s h))
        (λ _. h)

  accept_prack-IsSound :
      (req : TrRequest) (checksum : String) (key : Rtid) (s : Server)
      → IsSound s
      → IsSound (accept_prack default_port fresh req checksum key s)
  accept_prack-IsSound req checksum key s h =
      let resp = gen_response 200 "OK" req in
      let freed =
        same-IsSound s (act (rtid_del key) (record s { prov_inflight = none }))
          (refl, refl, refl, refl, refl, refl) h in
      reply_to-IsSound req checksum resp req.msg.via0 _
        (call-IsSound s.has_prack_cb (prack_cb req resp) _ freed)

  prack_by-IsSound :
      (req : TrRequest) (checksum : String) (key : Option Rtid) (s : Server)
      → IsSound s
      → IsSound (prack_by default_port fresh req checksum key s)
  prack_by-IsSound req checksum none s h = h
  prack_by-IsSound req checksum (some key) s h =
      if_lem IsSound (is_in_flight default_port fresh key s.prov_inflight)
        (λ _. accept_prack-IsSound req checksum key s h)
        (λ _. reply_to-IsSound req checksum (gen_response 481 "Huh?" req) req.msg.via0 s h)

  pub incoming_request-IsSound :
      (req : TrRequest) (checksum : String) (s : Server)
      → IsSound s
      → IsSound (incoming_request default_port fresh req checksum s)
  unfolding incoming_request
  incoming_request-IsSound req checksum s h =
      if_lem IsSound s.base.linked
        (λ _.
          if_lem IsSound (str_eq req.method s.method) (λ _. incoming_again-IsSound checksum s h)
            (λ _.
              if_lem IsSound (str_eq req.method "CANCEL")
                (λ _.
                  unfold incoming_cancel in
                  cancel_open-IsSound req checksum (gen_response 200 "OK" req) req.msg.via0 s h)
                (λ _.
                  if_lem IsSound (str_eq req.method "ACK")
                    (λ _. incoming_ack-IsSound req checksum s h)
                    (λ _.
                      if_lem IsSound (str_eq req.method "PRACK")
                        (λ _.
                          unfold incoming_prack in
                          prack_by-IsSound req checksum (request_rtid req.msg) s h)
                        (λ _. h)))))
        (λ _. h)

  stopped-IsSound :
      (s : Server) (resp : Option TrResponse)
      → IsSound s
      → IsSound (record (cancel_te_e s) { r487 = resp })
  stopped-IsSound s resp h = record {
    bounded = h.bounded;
    invites = h.invites;
    quiet_a = h.quiet_a;
    quiet_d = h.quiet_d;
    quiet_e = λ _. refl;
    uncalled = h.uncalled;
  }

  pub timer_e-IsSound : (s : Server) → IsSound s → IsSound (timer_e default_port fresh s)
  unfolding timer_e
  timer_e-IsSound s h =
      if_lem IsSound s.base.linked
        (λ _.
          if_lem IsSound (is_open s.base.state)
            (λ _.
              do_cancel-IsSound none _ (stopped-IsSound s (expired default_port fresh s.r487) h))
            (λ _. stopped-IsSound s s.r487 h))
        (λ _. h)
