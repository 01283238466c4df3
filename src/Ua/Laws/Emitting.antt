-- ===== src/Ua/Laws/Emitting.antt =====
-- The delivery of queued events (sippy/ua.go).
use go_b2bua.Prelude.{ℕ, true, false, Option, some, List, [], ◌∷◌, ◌≡◌, refl, ap, ◌∙◌, arith}
use go_b2bua.Event.{CcEvent}
use go_b2bua.Ua.State.{Ua, controller}
use go_b2bua.Ua.Frame.{delivered}
use go_b2bua.Ua.Core.State.{emit_event, emit_all, emit_pending_events, is_stale}

-- numbers that go up, all above `last`
abbrev pub Ascending : Option ℕ → List CcEvent → Type 0
Ascending last [] = Unit
Ascending last (e ∷ q) = (is_stale last e.seq ≡ false) × Ascending (some e.seq) q

abbrev pub behind : List CcEvent → List CcEvent → List CcEvent
behind [] sent = sent
behind (e ∷ q) sent = behind q (e ∷ sent)

emit_fresh :
    (e : CcEvent) (u : Ua)
    → u.has_controller ≡ true
    → is_stale u.elast_seq e.seq ≡ false
    → emit_event e u ≡ record u { elast_seq = some e.seq; out = controller e ∷ u.out }
unfolding emit_event
emit_fresh e u c h = ground arith

emit_all-behind :
    (q : List CcEvent) (u : Ua)
    → u.has_controller ≡ true
    → Ascending u.elast_seq q
    → delivered (emit_all q u).out ≡ behind q (delivered u.out)
unfolding emit_all
emit_all-behind [] u c h = refl
emit_all-behind (e ∷ q) u c h =
    ap (λ w. delivered (emit_all q w).out) (emit_fresh e u c h.0)
    ∙ emit_all-behind q (record u { elast_seq = some e.seq; out = controller e ∷ u.out }) c h.1

emit_all-equeue : (q : List CcEvent) (u : Ua) → (emit_all q u).equeue ≡ u.equeue
unfolding emit_all emit_event
emit_all-equeue [] u = refl
emit_all-equeue (e ∷ q) u = ground (arith, emit_all-equeue q (emit_event e u))

-- With a call controller, and a queue whose numbers go up from the last one delivered, the whole
-- queue is delivered, in its order, and it is empty then.
pub emit_pending_events-delivers :
    (u : Ua)
    → u.has_controller ≡ true
    → Ascending u.elast_seq u.equeue
    → (delivered (emit_pending_events u).out ≡ behind u.equeue (delivered u.out))
      × ((emit_pending_events u).equeue ≡ [])
unfolding emit_pending_events
emit_pending_events-delivers u c h =
    let a = emit_all-behind u.equeue (record u { equeue = [] }) c h in
    let b = emit_all-equeue u.equeue (record u { equeue = [] }) in ground (arith, a, b)
