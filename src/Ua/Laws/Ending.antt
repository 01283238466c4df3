-- ===== src/Ua/Laws/Ending.antt =====
-- Events that end an answered call, through the whole `RecvEvent` of `Ua` (sippy/ua.go,
-- sippy/ua_state_connected.go): the handler of the state, `ChangeState` and the emission of events.
use go_b2bua.Prelude.{
  ap, ◌∙◌, if_lem, ℕ, Bool, true, false, Option, none, some, List, [], String, ◌∷◌, ◌≡◌, refl,
  arith,
}
use go_b2bua.Sip.{CSeq, Address, Header, also_hf, bye, Request, OutRequest}
use go_b2bua.Event.{
  CcEvent, Kind, disconnect_ev, fail_ev, redirect_ev, redirect_url, get_extra_headers,
}
use go_b2bua.Ua.State.{
  Ua, UaState, uas_pre_connect, connected, disconnected, fail_cb, disc_cb, Effect, listener,
  respond, begin_transaction,
}
use go_b2bua.Ua.Routing.{new_request, gen_request}
use go_b2bua.Ua.Exec.{Outcome, exit, append_header}
use go_b2bua.Ua.Steps.{run_listener}
use go_b2bua.Ua.Uas.PreConnect as UasPreConnect
use go_b2bua.Ua.Connected
use go_b2bua.Ua.Core.State.{change_state, emit_event, emit_all, emit_pending_events, settle}

-- the requests that transactions were begun for, and the codes that the fail listener got
abbrev pub requests : List Effect → List OutRequest
requests [] = []
requests (begin_transaction q ∷ out) = q ∷ requests out
requests (e ∷ out) = requests out

abbrev pub failures : List Effect → List ℕ
failures [] = []
failures (listener (fail_cb t o code) ∷ out) = code ∷ failures out
failures (e ∷ out) = failures out

-- the responses that went out, with their CSeq
abbrev pub answers : List Effect → List (Option CSeq × ℕ)
answers [] = []
answers (respond q ∷ out) = (q.cseq, q.scode) ∷ answers out
answers (e ∷ out) = answers out

-- what the emission of events leaves alone
abbrev Settled : Ua → Ua → Type 0
Settled u v =
    (v.state ≡ u.state)
    × (v.timers ≡ u.timers)
    × (requests v.out ≡ requests u.out)
    × (failures v.out ≡ failures u.out)
    × (answers v.out ≡ answers u.out)

emit_event-Settled : (e : CcEvent) (u : Ua) → Settled u (emit_event e u)
unfolding emit_event
emit_event-Settled e u = ground arith

emit_all-Settled : (q : List CcEvent) (u : Ua) → Settled u (emit_all q u)
unfolding emit_all
emit_all-Settled [] u = (refl, refl, refl, refl, refl)
emit_all-Settled (e ∷ q) u =
    let a = emit_event-Settled e u in
    let b = emit_all-Settled q (emit_event e u) in
    (b.0 ∙ a.0, b.1 ∙ a.1, b.2 ∙ a.2, b.3 ∙ a.3, b.4 ∙ a.4)

pub emit_pending_events-Settled : (u : Ua) → Settled u (emit_pending_events u)
unfolding emit_pending_events
emit_pending_events-Settled u =
    if_lem (Settled u) u.has_controller (λ _. emit_all-Settled u.equeue (record u { equeue = [] }))
      (λ _. (refl, refl, refl, refl, refl))

disconnected_change :
    (t : ℕ) (o : String) (code : ℕ) (req : Option Request) (u : Ua)
    → let v = change_state disconnected (some (disc_cb t o code req)) u in
      (v.state ≡ some disconnected)
      × (v.timers.credit ≡ u.timers.credit)
      × (requests v.out ≡ requests u.out)
      × (answers v.out ≡ answers u.out)
unfolding change_state run_listener
disconnected_change t o code req u = ground arith

-- the handler ended in the disconnected state
abbrev pub Disconnects : Outcome (Unit {0}) → Type 0
Disconnects r =
    (t : ℕ) × (o : String) × (code : ℕ) × (req : Option Request) × (r
      ≡ exit (record {
        newstate = some disconnected;
        cb = some (disc_cb t o code req);
        failed = false;
      }))

pub settle-Disconnects :
    (r : Outcome (Unit {0})) (u : Ua)
    → Disconnects r
    → ((settle (r, u)).state ≡ some disconnected)
      × ((settle (r, u)).timers.credit ≡ u.timers.credit)
      × (requests (settle (r, u)).out ≡ requests u.out)
      × (answers (settle (r, u)).out ≡ answers u.out)
unfolding settle
settle-Disconnects r u (t, o, code, req, e) =
    let c = disconnected_change t o code req u in
    let w = change_state disconnected (some (disc_cb t o code req)) u in
    let s = emit_pending_events-Settled w in
    rw e (s.0 ∙ c.0, ap (λ x. x.credit) s.1 ∙ c.1, s.2 ∙ c.2, s.4 ∙ c.3)

-- the BYE that ends a call, with the target that the event names
abbrev pub with_target : Option Address → OutRequest → OutRequest
with_target none q = q
with_target (some a) q = append_header (also_hf a) q

abbrev pub ending_bye : CcEvent → Ua → OutRequest
ending_bye event u =
    with_target (redirect_url event.kind)
      (new_request bye none none (get_extra_headers event) u.dialog u.opts)

-- a disconnect, a failure, or a redirect with an address
abbrev pub ends : Kind → Bool
ends (disconnect_ev also) = true
ends (fail_ev code reason challenges warning) = true
ends (redirect_ev code reason body (a ∷ addrs)) = true
ends _ = false

-- the user agent that has made the BYE and begun its transaction
abbrev sent_bye : Option Address → List Header → Ua → Ua
sent_bye r eh u =
    let made = (gen_request bye none none eh u).1 in
    record made {
      out =
          begin_transaction (with_target r (new_request bye none none eh u.dialog u.opts)) ∷ u.out;
    }

-- the states of a call that the other side has answered
abbrev pub talks : UaState → Bool
talks (connected ka) = true
talks (uas_pre_connect confirm pending) = true
talks _ = false
