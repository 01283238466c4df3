-- ===== src/Ua/Laws/Hangup.antt =====
-- A BYE that comes in a connected call, through the whole `RecvRequest` of `Ua` (sippy/ua.go,
-- sippy/ua_state_connected.go).
use go_b2bua.Prelude.{
  ap, ◌∙◌, if◌then◌else◌, ℕ, Bool, true, false, Option, none, some, List, [], ◌∷◌, ◌≡◌, refl, arith,
  is_some, is_empty,
}
use go_b2bua.Sip.{Address, bye, CSeq, Request}
use go_b2bua.Event.{new_event, CcEvent}
use go_b2bua.Ua.State.{Ua, connected, disconnected}
use go_b2bua.Ua.Timers.{cancel_credit_timer, set_disconnect_ts}
use go_b2bua.Ua.Routing.{answer, log}
use go_b2bua.Ua.Exec.{
  Outcome, exit, ret, modify, gets, ◌>>=◌, make_event, enqueue, parse, no_change,
}
use go_b2bua.Ua.Steps.{reset_sdp_hooks}
use go_b2bua.Ua.Connected
use go_b2bua.Ua.Core.State.{settle}
use go_b2bua.Ua.Core.Events.{recv_event}
use go_b2bua.Ua.Uas.Ringing.{also_of}
use go_b2bua.Ua.Core.Messages.{
  recv_request, is_replayed, in_order, request_in, state_request, agent_of, reject,
}
use go_b2bua.Ua.Laws.Ending.{answers, Disconnects, settle-Disconnects, emit_pending_events-Settled}

-- the first Also header, if there is one, can be parsed
abbrev pub also_parses : List (Option Address) → Bool
also_parses [] = true
also_parses (a ∷ rest) = is_some a

bye-Disconnects :
    (f : CcEvent → Ua → Ua) (req : Request) (also : List (Option Address)) (u : Ua)
    → req.also ≡ also
    → also_parses also ≡ true
    → Disconnects (Connected.recv_bye f req u).0
      × ((Connected.recv_bye f req u).1.timers.credit ≡ none)
      × (answers (Connected.recv_bye f req u).1.out ≡ (req.cseq, 200) ∷ answers u.out)
unfolding Connected.recv_bye also_of ◌>>=◌ modify gets ret make_event enqueue cancel_credit_timer
    set_disconnect_ts reset_sdp_hooks new_event answer parse
bye-Disconnects f req [] u e h = simp e ((req.rtime, u.origin, 0, some req, refl), refl, refl)
bye-Disconnects f req (some a ∷ rest) u e h =
    simp e ((req.rtime, u.origin, 0, some req, refl), refl, refl)
bye-Disconnects f req (none ∷ rest) u e h = cc h

bye-Stays :
    (f : CcEvent → Ua → Ua) (req : Request) (rest : List (Option Address)) (u : Ua)
    → req.also ≡ none ∷ rest
    → ((Connected.recv_bye f req u).0 ≡ exit no_change)
      × ((Connected.recv_bye f req u).1.timers ≡ u.timers)
      × ((Connected.recv_bye f req u).1.state ≡ u.state)
      × (answers (Connected.recv_bye f req u).1.out ≡ (req.cseq, 200) ∷ answers u.out)
unfolding Connected.recv_bye also_of ◌>>=◌ modify gets ret make_event enqueue cancel_credit_timer
    set_disconnect_ts reset_sdp_hooks new_event answer parse log
bye-Stays f req rest u e = simp e (refl, refl, refl, refl)

stay-Settled :
    (r : Outcome (Unit {0})) (u : Ua)
    → r ≡ exit no_change
    → ((settle (r, u)).state ≡ u.state)
      × ((settle (r, u)).timers ≡ u.timers)
      × (answers (settle (r, u)).out ≡ answers u.out)
unfolding settle
stay-Settled r u e = let s = emit_pending_events-Settled u in rw e (s.0, s.1, s.4)

-- the user agent as the handler of a request sees it
abbrev with_agent : Request → Ua → Ua
with_agent req u =
    if is_empty u.remote_ua
    then record u { remote_ua = agent_of req.user_agent req.server u.remote_ua }
    else u

abbrev seen : Request → ℕ → Ua → Ua
seen req n u =
    let v = with_agent req u in record v { dialog = record (v.dialog) { r_cseq = some n } }

seen-same :
    (req : Request) (n : ℕ) (u : Ua)
    → ((seen req n u).state ≡ u.state)
      × ((seen req n u).timers ≡ u.timers)
      × ((seen req n u).out ≡ u.out)
seen-same req n u = ground arith

bye_in :
    (req : Request) (c : CSeq) (ka : Bool) (v : Ua)
    → v.state ≡ some (connected ka)
    → req.method ≡ bye
    → is_replayed v.dialog.r_cseq c.num ≡ false
    → (in_order (some c) req v).0
      ≡ settle (
          Connected.recv_bye recv_event req
            (record v { dialog = record (v.dialog) { r_cseq = some c.num } }))
unfolding state_request Connected.recv_request Connected.dispatch_request
bye_in req c ka v st m n =
    let w : Ua = record v { dialog = record (v.dialog) { r_cseq = some c.num } } in
    ap
      (λ b.
        (if b
          then (v, some (reject 500 "Server Internal Error" []))
          else request_in v.state req w).0)
      n
    ∙ ap (λ o. (request_in o req w).0) st
    ∙ ap (λ k. settle (Connected.dispatch_request recv_event k req w)) m

recv_request-bye :
    (req : Request) (c : CSeq) (ka : Bool) (u : Ua)
    → u.state ≡ some (connected ka)
    → req.method ≡ bye
    → req.cseq ≡ some c
    → is_replayed u.dialog.r_cseq c.num ≡ false
    → (recv_request req u).0 ≡ settle (Connected.recv_bye recv_event req (seen req c.num u))
unfolding recv_request
recv_request-bye req c ka u st m e n =
    ap (λ o. (in_order o req (with_agent req u)).0) e
    ∙ bye_in req c ka (with_agent req u) (ground (arith, st)) m (ground (arith, n))

answered_bye :
    (req : Request) (c : CSeq) (u : Ua) {v w : Ua}
    → req.cseq ≡ some c
    → v ≡ w
    → answers w.out ≡ (req.cseq, 200) ∷ answers (seen req c.num u).out
    → answers v.out ≡ (some c, 200) ∷ answers u.out
answered_bye req c u e p a =
    ap (λ x. answers x.out) p
    ∙ a
    ∙ ap (λ o. (o, 200) ∷ answers (seen req c.num u).out) e
    ∙ ap (λ o. (some c, 200) ∷ answers o) (seen-same req c.num u).2

-- A BYE in a connected call whose CSeq number is new gets one response, 200. Without an Also header,
-- or with a first one that can be parsed, it disconnects the call, and the credit timer does not run;
-- with a first one that cannot be parsed the call stays connected, and its timers run on.
pub recv_request-Disconnected :
    (req : Request) (c : CSeq) (ka : Bool) (u : Ua)
    → u.state ≡ some (connected ka)
    → req.method ≡ bye
    → req.cseq ≡ some c
    → is_replayed u.dialog.r_cseq c.num ≡ false
    → (also_parses req.also ≡ true
        → ((recv_request req u).0.state ≡ some disconnected)
          × ((recv_request req u).0.timers.credit ≡ none)
          × (answers (recv_request req u).0.out ≡ (some c, 200) ∷ answers u.out))
      × ((rest : List (Option Address))
          → req.also ≡ none ∷ rest
          → ((recv_request req u).0.state ≡ some (connected ka))
            × ((recv_request req u).0.timers ≡ u.timers)
            × (answers (recv_request req u).0.out ≡ (some c, 200) ∷ answers u.out))
recv_request-Disconnected req c ka u st m e n =
    let w = seen req c.num u in
    let s = seen-same req c.num u in
    let q = recv_request-bye req c ka u st m e n in
    (
      λ p.
          let b = bye-Disconnects recv_event req req.also w refl p in
          let d = settle-Disconnects (Connected.recv_bye recv_event req w).0 _ b.0 in
          (
            ap (λ x. x.state) q ∙ d.0,
            ap (λ x. x.timers.credit) q ∙ d.1 ∙ b.1,
            answered_bye req c u e q (d.3 ∙ b.2),
          ),
      λ rest a.
          let b = bye-Stays recv_event req rest w a in
          let d = stay-Settled (Connected.recv_bye recv_event req w).0 _ b.0 in
          (
            ap (λ x. x.state) q ∙ d.0 ∙ b.2 ∙ s.0 ∙ st,
            ap (λ x. x.timers) q ∙ d.1 ∙ b.1 ∙ s.1,
            answered_bye req c u e q (d.2 ∙ b.3),
          ),
    )
