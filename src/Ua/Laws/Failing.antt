-- ===== src/Ua/Laws/Failing.antt =====
-- A call that is tried and rejected, through the whole `RecvResponse` of `Ua` (sippy/ua.go,
-- sippy/uac_state_trying.go).
use go_b2bua.Prelude.{
  ap, ◌∙◌, if◌then◌else◌, ℕ, Bool, false, Option, none, some, List, ◌∷◌, ◌≡◌, refl, arith, is_some,
  ◌==◌, String,
}
use go_b2bua.Sip.{CSeq, Response, OutRequest}
use go_b2bua.Ua.Routing.{find_req}
use go_b2bua.Ua.State.{Ua, uac_trying, failed, fail_cb}
use go_b2bua.Ua.Exec.{Outcome, exit}
use go_b2bua.Ua.Steps.{ClientTr, run_listener, set_last_scode}
use go_b2bua.Ua.Uac.Trying as UacTrying
use go_b2bua.Ua.Core.State.{change_state, settle}
use go_b2bua.Ua.Core.Messages.{
  recv_response, state_response, try_challenge, forget, respond_in, parsed_response, response_in,
  agent_of,
}
use go_b2bua.Ua.Laws.Ending.{requests, failures, emit_pending_events-Settled}

-- the user agent after the timers of the response, before the test for a final one
abbrev pub waited : Response → Ua → Ua
waited resp u =
    let a = set_last_scode resp.scode u in
    let b = if is_some a.timers.no_reply then UacTrying.after_no_reply resp a else a in
    if is_some b.timers.no_progress then UacTrying.after_no_progress resp b else b

failed_change :
    (t : ℕ) (o : String) (code : ℕ) (u : Ua)
    → let v = change_state failed (some (fail_cb t o code)) u in
      (v.state ≡ some failed)
      × (failures v.out ≡ (if u.listeners.has_fail then code ∷ failures u.out else failures u.out))
      × (requests v.out ≡ requests u.out)
unfolding change_state run_listener
failed_change t o code u = ground arith

-- the handler ended in the failed state
abbrev pub Fails : ℕ → Outcome (Unit {0}) → Type 0
Fails code r =
    (t : ℕ) × (o : String) × (r
      ≡ exit (record { newstate = some failed; cb = some (fail_cb t o code); failed = false }))

-- the call failed, the fail listener, if it is set, got the code, and no request went out
abbrev pub Failed : ℕ → Ua → Ua → Type 0
Failed code u v =
    (v.state ≡ some failed)
    × (failures v.out ≡ (if u.listeners.has_fail then code ∷ failures u.out else failures u.out))
    × (requests v.out ≡ requests u.out)

pub settle-Fails :
    (code : ℕ) (r : Outcome (Unit {0})) (u : Ua) → Fails code r → Failed code u (settle (r, u))
unfolding settle
settle-Fails code r u (t, o, e) =
    let c = failed_change t o code u in
    let s = emit_pending_events-Settled (change_state failed (some (fail_cb t o code)) u) in
    rw e (s.0 ∙ c.0, s.3 ∙ c.1, s.2 ∙ c.2)

pub same_calls :
    (code : ℕ) {o p : List ℕ} {a b : Bool}
    → o ≡ p
    → a ≡ b
    → (if a then code ∷ o else o) ≡ (if b then code ∷ p else p)
same_calls code e f = rw (e, f) refl

-- `Failed` reads the output and the listeners of what was before
pub Failed-same :
    (code : ℕ) (u w v : Ua)
    → w.out ≡ u.out
    → w.listeners ≡ u.listeners
    → Failed code w v
    → Failed code u v
Failed-same code u w v o l f =
    (f.0, f.1 ∙ same_calls code (ap failures o) (ap (λ x. x.has_fail) l), f.2 ∙ ap requests o)

unchallenged :
    (resp : Response) (c : CSeq) (o : Option OutRequest) (tr : ClientTr) (u : Ua)
    → (resp.scode == 401) ≡ false
    → (resp.scode == 407) ≡ false
    → try_challenge resp c o tr u ≡ (false, u)
unfolding try_challenge
unchallenged resp c none tr u a b = refl
unchallenged resp c (some q) tr u a b = ground (arith, a, b)

-- the user agent that the handler of a tried call sees
abbrev pub heard : Response → CSeq → Ua → Ua
heard resp c u =
    let v : Ua = record u { remote_ua = agent_of resp.user_agent resp.server u.remote_ua } in
    forget resp c.num (find_req c.num v.dialog.reqs) v

pub recv_response-heard :
    (resp : Response) (c : CSeq) (tr : ClientTr) (u : Ua)
    → u.state ≡ some uac_trying
    → resp.cseq ≡ some c
    → (resp.scode == 401) ≡ false
    → (resp.scode == 407) ≡ false
    → recv_response resp tr u ≡ settle (UacTrying.recv_response resp tr (heard resp c u))
unfolding recv_response state_response
recv_response-heard resp c tr u st e a b =
    let v : Ua = record u { remote_ua = agent_of resp.user_agent resp.server u.remote_ua } in
    let q : response_in u.state resp tr u
        ≡ settle (UacTrying.recv_response resp tr (heard resp c u)) =
      ap (λ s. response_in s resp tr u) st
      ∙ ap (λ k. parsed_response uac_trying resp k tr u) e
      ∙ ap (respond_in uac_trying resp c tr)
          (unchallenged resp c (find_req c.num v.dialog.reqs) tr v a b) in
    q
