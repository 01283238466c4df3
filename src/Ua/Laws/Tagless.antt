-- ===== src/Ua/Laws/Tagless.antt =====
-- A 2xx that opens no dialog, through the whole `RecvResponse` of `Ua` (sippy/ua.go,
-- sippy/uac_state_trying.go).
use go_b2bua.Prelude.{
  ap, ◌∙◌, if◌then◌else◌, ◌≤◌, true, false, none, some, [], ◌∷◌, ◌≡◌, refl, arith, is_empty, leb,
  ltb, ◌&&◌,
}
use go_b2bua.Sip.{Address, bye, CSeq, HostPort, OutRequest, Response}
use go_b2bua.Ua.State.{Ua, uac_trying, failed, fail_cb, begin_transaction}
use go_b2bua.Ua.Timers.{cancel_expire_timer, stamp_disconnect}
use go_b2bua.Ua.Routing.{gen_request, new_request, update_routing}
use go_b2bua.Ua.Exec.{
  exit, ret, modify, gets, ◌>>=◌, make_event, enqueue, request, begin_new, parse,
}
use go_b2bua.Ua.Steps.{ClientTr, set_last_scode, reset_sdp_hooks, send_prack}
use go_b2bua.Ua.Uac.Trying as UacTrying
use go_b2bua.Ua.Core.State.{settle}
use go_b2bua.Ua.Core.Messages.{recv_response}
use go_b2bua.Ua.Laws.Ending.{requests, failures}
use go_b2bua.Ua.Laws.Failing.{waited, heard, recv_response-heard, settle-Fails, same_calls}

-- the user agent after the timers and the routing of the response
abbrev routed : Response → Ua → Ua
routed resp u = update_routing resp.contacts resp.record_routes true true (waited resp u)

trying-final :
    (resp : Response) (tr : ClientTr) (u : Ua)
    → 200 ≤ resp.scode
    → resp.rseq ≡ none
    → resp.scode ≤ 299
    → UacTrying.recv_response resp tr u ≡ UacTrying.final resp (routed resp u)
unfolding UacTrying.recv_response ◌>>=◌ modify gets ret send_prack
trying-final resp tr u h r k = ground (arith, h, r, k)

final-tagless :
    (resp : Response) (t : Address) (u : Ua)
    → 200 ≤ resp.scode
    → resp.scode ≤ 299
    → resp.to_body ≡ some t
    → is_empty t.tag ≡ true
    → UacTrying.final resp u ≡ UacTrying.tagless resp (cancel_expire_timer u)
unfolding UacTrying.final ◌>>=◌ modify gets ret parse
final-tagless resp t u h k e f =
    let b : (leb 200 resp.scode && ltb resp.scode 300) ≡ true = ground (arith, h, k) in
    rw (b, e) rw f refl

-- what a request needs, and what the failure shows
abbrev Same : Ua → Ua → Type 0
Same u v =
    (requests v.out ≡ requests u.out)
    × (failures v.out ≡ failures u.out)
    × (v.listeners ≡ u.listeners)
    × (v.opts ≡ u.opts)
    × (v.has_tm ≡ u.has_tm)
    × (v.world ≡ u.world)

waited-Same : (resp : Response) (u : Ua) → Same u (waited resp u)
unfolding set_last_scode UacTrying.after_no_reply UacTrying.after_no_progress
waited-Same resp u = ground arith

routing-Same :
    (resp : Response) (u : Ua)
    → Same u (update_routing resp.contacts resp.record_routes true true u)
unfolding update_routing
routing-Same resp u = ground arith

heard-Same : (resp : Response) (c : CSeq) (u : Ua) → Same u (heard resp c u)
heard-Same resp c u = ground arith

tagless-Failed :
    (resp : Response) (p : HostPort) (u : Ua)
    → u.opts.outbound_proxy ≡ some p
    → u.has_tm ≡ true
    → u.world.tm_refuses ≡ false
    → ((UacTrying.tagless resp u).0
        ≡ exit (record {
          newstate = some failed;
          cb = some (fail_cb resp.rtime u.origin resp.scode);
          failed = false;
        }))
      × ((UacTrying.tagless resp u).1.out
          ≡ begin_transaction (new_request bye none none [] u.dialog u.opts) ∷ u.out)
      × ((UacTrying.tagless resp u).1.listeners ≡ u.listeners)
unfolding UacTrying.tagless ◌>>=◌ modify gets ret make_event enqueue request begin_new gen_request
    stamp_disconnect reset_sdp_hooks
tagless-Failed resp p u q a b = simp (q, a, b) (ground arith)

expire-Same : (u : Ua) → Same u (cancel_expire_timer u)
unfolding cancel_expire_timer
expire-Same u = ground arith

Same-trans : (u v w : Ua) → Same u v → Same v w → Same u w
Same-trans u v w a b = (b.0 ∙ a.0, b.1 ∙ a.1, b.2 ∙ a.2, b.3 ∙ a.3, b.4 ∙ a.4, b.5 ∙ a.5)

-- the user agent in which a 2xx without a To tag is handled
abbrev handled : Response → CSeq → Ua → Ua
handled resp c u = cancel_expire_timer (routed resp (heard resp c u))

handled-Same : (resp : Response) (c : CSeq) (u : Ua) → Same u (handled resp c u)
handled-Same resp c u =
    let w = heard resp c u in
    Same-trans u w (handled resp c u) (heard-Same resp c u) (
      Same-trans w (waited resp w) (handled resp c u) (waited-Same resp w) (
        Same-trans (waited resp w) (routed resp w) (handled resp c u)
          (routing-Same resp (waited resp w)) (expire-Same (routed resp w))))

recv_response-tagless :
    (resp : Response) (c : CSeq) (tr : ClientTr) (t : Address) (u : Ua)
    → u.state ≡ some uac_trying
    → resp.cseq ≡ some c
    → 200 ≤ resp.scode
    → resp.scode ≤ 299
    → resp.to_body ≡ some t
    → is_empty t.tag ≡ true
    → resp.rseq ≡ none
    → recv_response resp tr u ≡ settle (UacTrying.tagless resp (handled resp c u))
recv_response-tagless resp c tr t u st e h k to empty r =
    let w = heard resp c u in
    recv_response-heard resp c tr u st e (ground (arith, k)) (ground (arith, k))
    ∙ ap settle (trying-final resp tr w h r k ∙ final-tagless resp t (routed resp w) h k to empty)

-- A 2xx whose To has no tag, and that names no RSeq, comes to a user agent that tries a call through
-- an outbound proxy, with a transaction manager that takes requests: one BYE goes out, the call fails,
-- and the fail listener, if it is set, gets the code of the 2xx once.
pub recv_response-tagless_fails :
    (resp : Response) (c : CSeq) (tr : ClientTr) (t : Address) (p : HostPort) (u : Ua)
    → u.state ≡ some uac_trying
    → resp.cseq ≡ some c
    → 200 ≤ resp.scode
    → resp.scode ≤ 299
    → resp.to_body ≡ some t
    → is_empty t.tag ≡ true
    → resp.rseq ≡ none
    → u.opts.outbound_proxy ≡ some p
    → u.has_tm ≡ true
    → u.world.tm_refuses ≡ false
    → ((recv_response resp tr u).state ≡ some failed)
      × (failures (recv_response resp tr u).out
          ≡ (if u.listeners.has_fail then resp.scode ∷ failures u.out else failures u.out))
      × (q : OutRequest) × (q.method ≡ bye)
      × (requests (recv_response resp tr u).out ≡ q ∷ requests u.out)
unfolding new_request
recv_response-tagless_fails resp c tr t p u st e h k to empty r proxy tm refuses =
    let x = handled resp c u in
    let s = handled-Same resp c u in
    let g =
      tagless-Failed resp p x (ap (λ o. o.outbound_proxy) s.3 ∙ proxy) (s.4 ∙ tm)
        (ap (λ o. o.tm_refuses) s.5 ∙ refuses) in
    let d =
      settle-Fails resp.scode (UacTrying.tagless resp x).0 (UacTrying.tagless resp x).1
        (resp.rtime, x.origin, g.0) in
    let y = recv_response-tagless resp c tr t u st e h k to empty r in
    (
      ap (λ v. v.state) y ∙ d.0,
      ap (λ v. failures v.out) y
          ∙ d.1
          ∙ same_calls resp.scode (ap failures g.1 ∙ s.1) (ap (λ l. l.has_fail) (g.2 ∙ s.2)),
      new_request bye none none [] x.dialog x.opts,
      refl,
      ap (λ v. requests v.out) y
          ∙ d.2
          ∙ ap requests g.1
          ∙ ap (λ l. new_request bye none none [] x.dialog x.opts ∷ l) s.0,
    )
