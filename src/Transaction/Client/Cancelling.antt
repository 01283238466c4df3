-- ===== src/Transaction/Client/Cancelling.antt =====
-- A CANCEL before and after the first provisional response (sippy/client_transaction.go).
use mathlib.Core.Path.{subst}
use go_b2bua.Prelude.{
  sym, ap, if◌then◌else◌, ◌≡◌, refl, Bool, true, false, String, Option, some, List, [], ◌∷◌, ◌++◌,
  ltb, if_lem,
}
use go_b2bua.Sip.{Header}
use go_b2bua.Transaction.Message.{TrRequest, TrResponse}
use go_b2bua.Transaction.Base.{
  Act, begin_cancel, recv_response, trying, ringing, enter, cancel_te_a,
}
use go_b2bua.Transaction.Client.{Client, act, on_base, cancel_te_b}
use go_b2bua.Transaction.Client.Final.{told}
use go_b2bua.Transaction.Client.Handlers.{
  cancel_pending_now, stop_te_a, is_trying, is_ringing, is_terminated, process_provisional, process,
  incoming_response, cancel_by, with_headers, is_reliable,
}

-- the CANCEL requests that went out, the latest first
abbrev pub cancels : List Act → List (Option TrRequest)
cancels [] = []
cancels (begin_cancel req ∷ acts) = req ∷ cancels acts
cancels (a ∷ acts) = cancels acts

plain-process :
    (default_port branch checksum : String) (b : Bool) (resp : TrResponse) (t : Client)
    → t.base.linked ≡ true
    → is_terminated t.base.state ≡ false
    → ltb resp.scode 200 ≡ true
    → is_reliable resp ≡ false
    → incoming_response default_port branch b checksum resp t
      ≡ process_provisional b checksum resp (cancel_te_b (stop_te_a t))
unfolding incoming_response process
plain-process default_port branch checksum b resp t l n c r =
    let P = λ (u : Client). u ≡ process_provisional b checksum resp (cancel_te_b (stop_te_a t)) in
    if_lem P t.base.linked
      (λ _.
        if_lem P (is_terminated t.base.state) (λ f. absurd (cc (n, f)))
          (λ _.
            if_lem P (is_reliable resp) (λ f. absurd (cc (r, f)))
              (λ _. if_lem P (ltb resp.scode 200) (λ _. refl) (λ f. absurd (cc (c, f))))))
      (λ f. absurd (cc (l, f)))

-- rings, with this CANCEL, these header fields for it and these CANCEL requests sent
abbrev Rings : Option TrRequest → List Header → List (Option TrRequest) → Client → Type 0
Rings req hdrs sent t =
    (t.base.linked ≡ true)
    × (is_ringing t.base.state ≡ true)
    × (t.cancel ≡ req)
    × (t.txn_headers ≡ hdrs)
    × (cancels t.base.acts ≡ sent)

told-Rings :
    (req : Option TrRequest) (hdrs : List Header) (sent : List (Option TrRequest)) (b : Bool)
    (resp : TrResponse) (t : Client)
    → Rings req hdrs sent t
    → Rings req hdrs sent (told b resp t)
told-Rings req hdrs sent b resp t h =
    if_lem (Rings req hdrs sent) t.has_receiver
      (λ _.
        if_lem (λ (u : Client). Rings req hdrs sent (act (recv_response (some resp)) u)) b (λ _. h)
          (λ _. h))
      (λ _. h)

-- the CANCEL requests that the first provisional response leaves sent
abbrev sent_on_ringing : Client → List (Option TrRequest)
sent_on_ringing t = if t.cancel_pending then t.cancel ∷ cancels t.base.acts else cancels t.base.acts

first-Rings :
    (t : Client)
    → t.base.linked ≡ true
    → Rings t.cancel t.txn_headers
        (sent_on_ringing t)
        (cancel_pending_now (on_base (enter ringing) t))
first-Rings t l = elim_pending t.cancel_pending
  where
    elim_pending :
        (b : Bool)
        → Rings t.cancel t.txn_headers
            (if b then t.cancel ∷ cancels t.base.acts else cancels t.base.acts)
            (if b
              then act
                  (begin_cancel t.cancel)
                  (record (on_base (enter ringing) t) { cancel_pending = false })
              else on_base (enter ringing) t)
    elim_pending true = (l, refl, refl, refl, refl)
    elim_pending false = (l, refl, refl, refl, refl)

provisional-Rings :
    (b : Bool) (checksum : String) (resp : TrResponse) (t : Client)
    → t.base.linked ≡ true
    → is_trying t.base.state ≡ true
    → Rings t.cancel t.txn_headers (sent_on_ringing t) (process_provisional b checksum resp t)
unfolding process_provisional
provisional-Rings b checksum resp t l y =
    told-Rings t.cancel t.txn_headers (sent_on_ringing t) b resp _ (
      if_lem (Rings t.cancel t.txn_headers (sent_on_ringing t)) (is_trying t.base.state)
        (λ _. first-Rings t l) (λ f. absurd (cc (y, f))))

stopped-Rings :
    (b : Bool) (checksum : String) (resp : TrResponse) (t : Client)
    → t.base.linked ≡ true
    → is_trying t.base.state ≡ true
    → Rings t.cancel t.txn_headers
        (sent_on_ringing t)
        (process_provisional b checksum resp (cancel_te_b (stop_te_a t)))
stopped-Rings b checksum resp t l y =
    if_lem
      (λ (u : Client).
        Rings t.cancel t.txn_headers (sent_on_ringing t)
          (process_provisional b checksum resp (cancel_te_b u)))
      (is_trying t.base.state)
      (λ _. provisional-Rings b checksum resp (cancel_te_b (on_base cancel_te_a t)) l y)
      (λ _. provisional-Rings b checksum resp (cancel_te_b t) l y)

received-Rings :
    (default_port branch checksum : String) (b : Bool) (resp : TrResponse) (t : Client)
    → t.base.linked ≡ true
    → t.base.state ≡ trying
    → ltb resp.scode 200 ≡ true
    → is_reliable resp ≡ false
    → Rings t.cancel t.txn_headers
        (sent_on_ringing t)
        (incoming_response default_port branch b checksum resp t)
received-Rings default_port branch checksum b resp t l s c r =
    subst (Rings t.cancel t.txn_headers (sent_on_ringing t))
      (sym (plain-process default_port branch checksum b resp t l (ap is_terminated s) c r))
      (stopped-Rings b checksum resp t l (ap is_trying s))

cancel_by-deferred :
    (extra : List Header) (t : Client)
    → t.base.linked ≡ true
    → is_ringing t.base.state ≡ false
    → cancel_by extra t ≡ record t { cancel_pending = true }
unfolding cancel_by
cancel_by-deferred extra t l n =
    let P = λ (u : Client). u ≡ record t { cancel_pending = true } in
    if_lem P t.base.linked
      (λ _. if_lem P (is_ringing t.base.state) (λ f. absurd (cc (n, f))) (λ _. refl))
      (λ f. absurd (cc (l, f)))

cancel_by-sent :
    (extra : List Header) (req : Option TrRequest) (hdrs : List Header)
    (sent : List (Option TrRequest)) (t : Client)
    → Rings req hdrs sent t
    → cancels (cancel_by extra t).base.acts ≡ with_headers (extra ++ hdrs) req ∷ sent
unfolding cancel_by
cancel_by-sent extra req hdrs sent t (l, n, e, h, o) =
    let P = λ (u : Client). cancels u.base.acts ≡ with_headers (extra ++ hdrs) req ∷ sent in
    if_lem P t.base.linked
      (λ _. if_lem P (is_ringing t.base.state) (λ _. rw (e, h, o) refl) (λ f. absurd (cc (n, f))))
      (λ f. absurd (cc (l, f)))

-- A transaction that was not answered yet and is cancelled sends one CANCEL, whether the first
-- provisional response comes before the cancellation or after it, when that response is not a
-- reliable one (one above 100 with an RSeq). A CANCEL that waited for the response goes out as it
-- was generated, without the header fields that are added to one that goes out at once.
pub cancel-either_order :
    (default_port branch checksum : String) (set_uack : Bool) (resp : TrResponse)
    (extra : List Header) (t : Client)
    → t.base.linked ≡ true
    → t.base.state ≡ trying
    → t.cancel_pending ≡ false
    → ltb resp.scode 200 ≡ true
    → is_reliable resp ≡ false
    → (cancels
          (incoming_response default_port branch set_uack checksum resp
            (cancel_by extra t)).base.acts
        ≡ t.cancel ∷ cancels t.base.acts)
      × (cancels
            (cancel_by extra
              (incoming_response default_port branch set_uack checksum resp t)).base.acts
          ≡ with_headers (extra ++ t.txn_headers) t.cancel ∷ cancels t.base.acts)
cancel-either_order default_port branch checksum set_uack resp extra t l s p c r = (
  subst
      (λ u.
        cancels (incoming_response default_port branch set_uack checksum resp u).base.acts
        ≡ t.cancel ∷ cancels t.base.acts)
      (sym (cancel_by-deferred extra t l (ap is_ringing s)))
      (received-Rings default_port branch checksum set_uack resp
        (record t { cancel_pending = true }) l s c r).4,
  cancel_by-sent extra t.cancel t.txn_headers (cancels t.base.acts) _ (
      subst
        (λ sent.
          Rings t.cancel t.txn_headers sent
            (incoming_response default_port branch set_uack checksum resp t))
        (ap (λ b. if b then t.cancel ∷ cancels t.base.acts else cancels t.base.acts) p)
        (received-Rings default_port branch checksum set_uack resp t l s c r)),
)
