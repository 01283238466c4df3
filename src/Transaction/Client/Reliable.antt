-- ===== src/Transaction/Client/Reliable.antt =====
-- A reliable provisional response and its retransmissions (sippy/client_transaction.go).
use mathlib.Core.Path.{subst}
use go_b2bua.Prelude.{
  ◌≡◌, ◌∙◌, refl, ap, sym, Bool, true, false, String, Option, none, some, List, [], ◌∷◌, is_some,
  leb, ltb, ◌&&◌, find, find-store, find-store_ne, if_lem,
}
use go_b2bua.Sip.{HostPort}
use go_b2bua.Transaction.Message.{Rtid, Rtid-discrete, TrRequest, TrResponse, response_rtid}
use go_b2bua.Transaction.Base.{recv_response, timer_a, cancel_te_a, before_request}
use go_b2bua.Transaction.Client.{
  Client, act, act_if, on_base, cleanup, timer_b, timer_c, timer_g, cancel_te_b, is_uack,
}
use go_b2bua.Transaction.Client.Final.{
  Routing, told, acknowledge, acknowledge_branched, acknowledge_2xx, acknowledge_tagged,
  process_final,
}
use go_b2bua.Transaction.Client.Handlers.{
  process_provisional, process, process_once, stop_te_a, is_trying, see, is_seen, is_reliable,
  incoming_response, cancel_by, send_ack, is_terminated, is_ringing, Input, receive, cancelled,
  acked, fire_a, fire_b, fire_c, fire_g, step, steps,
}
use go_b2bua.Transaction.Client.Timeout.{heard}

abbrev RseqMap : Type 0
RseqMap = List (Rtid × Bool)

-- what leaves the record of the responses that were seen alone
abbrev Holds : RseqMap → Client → Type 0
Holds l t = t.seen_rseqs ≡ l

told-Holds :
    (l : RseqMap) (b : Bool) (resp : TrResponse) (t : Client) → Holds l t → Holds l (told b resp t)
told-Holds l b resp t h =
    if_lem (Holds l) t.has_receiver
      (λ _.
        if_lem (λ (u : Client). Holds l (act (recv_response (some resp)) u)) b (λ _. h) (λ _. h))
      (λ _. h)

provisional-Holds :
    (l : RseqMap) (b : Bool) (checksum : String) (resp : TrResponse) (t : Client)
    → Holds l t
    → Holds l (process_provisional b checksum resp t)
unfolding process_provisional
provisional-Holds l b checksum resp t h = told-Holds l b resp _ (
    if_lem (Holds l) (is_trying t.base.state)
      (λ _. if_lem (Holds l) t.cancel_pending (λ _. h) (λ _. h)) (λ _. h))

module _ (default_port : String) where
  acknowledge-Holds :
      (l : RseqMap) (checksum : String) (hop : Option HostPort) (ack : TrRequest) (t : Client)
      → Holds l t
      → Holds l (acknowledge default_port checksum hop ack t)
  unfolding acknowledge cleanup
  acknowledge-Holds l checksum hop ack t h =
      if_lem (Holds l) t.wants_uack (λ _. h)
        (λ _. if_lem (Holds l) t.has_before_request (λ _. h) (λ _. h))

  branched-Holds :
      (l : RseqMap) (checksum : String) (hop : Option HostPort) (ack : TrRequest)
      (done : Option TrRequest) (t : Client)
      → Holds l t
      → Holds l (acknowledge_branched default_port checksum hop ack done t)
  unfolding acknowledge_branched
  branched-Holds l checksum hop ack none t h = h
  branched-Holds l checksum hop ack (some done) t h = acknowledge-Holds l checksum hop done t h

  acknowledge_2xx-Holds :
      (l : RseqMap) (branch checksum : String) (ack : TrRequest) (r : Option Routing) (t : Client)
      → Holds l t
      → Holds l (acknowledge_2xx default_port branch checksum ack r t)
  unfolding acknowledge_2xx
  acknowledge_2xx-Holds l branch checksum ack none t h = h
  acknowledge_2xx-Holds l branch checksum ack (some r) t h = branched-Holds l checksum r.hop _ _ t h

  tagged-Holds :
      (l : RseqMap) (branch checksum : String) (resp : TrResponse) (ack : Option TrRequest)
      (t : Client)
      → Holds l t
      → Holds l (acknowledge_tagged default_port branch checksum resp ack t)
  unfolding acknowledge_tagged
  tagged-Holds l branch checksum resp none t h = h
  tagged-Holds l branch checksum resp (some ack) t h =
      if_lem (Holds l) (leb 200 resp.scode && ltb resp.scode 300)
        (λ _. acknowledge_2xx-Holds l branch checksum ack _ t h)
        (λ _. acknowledge-Holds l checksum none ack t h)

  final-Holds :
      (l : RseqMap) (branch : String) (b : Bool) (checksum : String) (resp : TrResponse)
      (t : Client)
      → Holds l t
      → Holds l (process_final default_port branch b checksum resp t)
  unfolding process_final cleanup
  final-Holds l branch b checksum resp t h =
      let after = told-Holds l b resp t h in
      if_lem (Holds l) (told b resp t).base.needack
        (λ _. tagged-Holds l branch checksum resp _ _ after) (λ _. after)

  process-Holds :
      (l : RseqMap) (branch : String) (b : Bool) (checksum : String) (resp : TrResponse)
      (t : Client)
      → Holds l t
      → Holds l (process default_port branch b checksum resp t)
  unfolding process
  process-Holds l branch b checksum resp t h =
      let stopped =
        if_lem (Holds l) (is_trying t.base.state) {x = on_base cancel_te_a t} {y = t} (λ _. h)
          (λ _. h) in
      if_lem (Holds l) (ltb resp.scode 200)
        (λ _. provisional-Holds l b checksum resp (cancel_te_b (stop_te_a t)) stopped)
        (λ _. final-Holds l branch b checksum resp (cancel_te_b (stop_te_a t)) stopped)

-- the response with this key was passed on
abbrev Seen : Rtid → Client → Type 0
Seen key t = is_seen key t ≡ true

same-Seen : (key : Rtid) (t u : Client) → Seen key t → Holds t.seen_rseqs u → Seen key u
same-Seen key t u s h = ap (λ l. is_some (find Rtid-discrete key l)) h ∙ s

see-Seen : (key : Rtid) (t : Client) → Seen key (see key t)
see-Seen key t = ap is_some (find-store Rtid-discrete key true t.seen_rseqs)

see_other-Seen : (key other : Rtid) (t : Client) → Seen key t → Seen key (see other t)
see_other-Seen key other t s = elim (Rtid-discrete other key) [
  | yes p ↦ subst (λ k. Seen key (see k t)) (sym p) (see-Seen key t)
  | no n ↦ ap is_some (find-store_ne Rtid-discrete other key true t.seen_rseqs n) ∙ s
]

module _ (default_port : String) where
  process-Seen :
      (key : Rtid) (branch : String) (b : Bool) (checksum : String) (resp : TrResponse) (t : Client)
      → Seen key t
      → Seen key (process default_port branch b checksum resp t)
  process-Seen key branch b checksum resp t s =
      same-Seen key t (process default_port branch b checksum resp t) s
        (process-Holds default_port t.seen_rseqs branch b checksum resp t refl)

  once-Seen :
      (key : Rtid) (branch : String) (b : Bool) (checksum : String) (resp : TrResponse)
      (k : Option Rtid) (t : Client)
      → Seen key t
      → Seen key (process_once default_port branch b checksum resp k t)
  unfolding process_once
  once-Seen key branch b checksum resp none t s = s
  once-Seen key branch b checksum resp (some k) t s =
      if_lem (Seen key) (is_seen k t) (λ _. s)
        (λ _. process-Seen key branch b checksum resp (see k t) (see_other-Seen key k t s))

  receive-Seen :
      (key : Rtid) (branch : String) (b : Bool) (checksum : String) (resp : TrResponse) (t : Client)
      → Seen key t
      → Seen key (incoming_response default_port branch b checksum resp t)
  unfolding incoming_response
  receive-Seen key branch b checksum resp t s =
      if_lem (Seen key) t.base.linked
        (λ _.
          if_lem (Seen key) (is_terminated t.base.state) (λ _. s)
            (λ _.
              if_lem (Seen key) (is_reliable resp)
                (λ _. once-Seen key branch b checksum resp (response_rtid resp.msg) t s)
                (λ _. process-Seen key branch b checksum resp t s)))
        (λ _. s)

  step-Seen : (key : Rtid) (i : Input) (t : Client) → Seen key t → Seen key (step default_port i t)
  unfolding cancel_by send_ack timer_a timer_b timer_c timer_g cleanup
  step-Seen key (receive branch b checksum resp) t s = receive-Seen key branch b checksum resp t s
  step-Seen key (cancelled extra) t s =
      if_lem (Seen key) t.base.linked
        (λ _. if_lem (Seen key) (is_ringing t.base.state) (λ _. s) (λ _. s)) (λ _. s)
  step-Seen key acked t s =
      if_lem (λ (u : Client). Seen key (cleanup u))
        (act_if t.has_before_request (before_request t.ack) (record t { te_g = none })).base.linked
        (λ _. if_lem (Seen key) t.has_before_request (λ _. s) (λ _. s))
        (λ _. if_lem (Seen key) t.has_before_request (λ _. s) (λ _. s))
  step-Seen key fire_a t s = if_lem (Seen key) (is_some t.base.te_a) (λ _. s) (λ _. s)
  step-Seen key fire_b t s =
      if_lem (Seen key) (is_some t.te_b)
        (λ _.
          if_lem (Seen key) t.base.linked (λ _. if_lem (Seen key) t.has_receiver (λ _. s) (λ _. s))
            (λ _. s))
        (λ _. s)
  step-Seen key fire_c t s =
      if_lem (Seen key) (is_some t.te_c) (λ _. if_lem (Seen key) t.base.linked (λ _. s) (λ _. s))
        (λ _. s)
  step-Seen key fire_g t s =
      if_lem (Seen key) (is_some t.te_g)
        (λ _.
          if_lem (Seen key) t.base.linked
            (λ _. if_lem (Seen key) (is_uack t.base.state) (λ _. s) (λ _. s)) (λ _. s))
        (λ _. s)

  steps-Seen :
      (key : Rtid) (is : List Input) (t : Client) → Seen key t → Seen key (steps default_port is t)
  steps-Seen key [] t s = s
  steps-Seen key (i ∷ is) t s = step-Seen key i (steps default_port is t) (steps-Seen key is t s)

  passed-Seen :
      (key : Rtid) (branch : String) (b : Bool) (checksum : String) (resp : TrResponse) (t : Client)
      → Seen key (process_once default_port branch b checksum resp (some key) t)
  unfolding process_once
  passed-Seen key branch b checksum resp t =
      if_lem (Seen key) (is_seen key t) (λ s. s)
        (λ _. process-Seen key branch b checksum resp (see key t) (see-Seen key t))

  first-Seen :
      (key : Rtid) (branch : String) (b : Bool) (checksum : String) (resp : TrResponse) (t : Client)
      → t.base.linked ≡ true
      → is_terminated t.base.state ≡ false
      → is_reliable resp ≡ true
      → response_rtid resp.msg ≡ some key
      → Seen key (incoming_response default_port branch b checksum resp t)
  unfolding incoming_response
  first-Seen key branch b checksum resp t l n r k =
      if_lem (Seen key) t.base.linked
        (λ _.
          if_lem (Seen key) (is_terminated t.base.state) (λ f. absurd (cc (n, f)))
            (λ _.
              if_lem (Seen key) (is_reliable resp)
                (λ _.
                  subst (λ o. Seen key (process_once default_port branch b checksum resp o t))
                    (sym k) (passed-Seen key branch b checksum resp t))
                (λ f. absurd (cc (r, f)))))
        (λ f. absurd (cc (l, f)))

  again-heard :
      (key : Rtid) (branch : String) (b : Bool) (checksum : String) (resp : TrResponse) (t : Client)
      → Seen key t
      → heard (process_once default_port branch b checksum resp (some key) t).base.acts
        ≡ heard t.base.acts
  unfolding process_once
  again-heard key branch b checksum resp t s =
      if_lem (λ (u : Client). heard u.base.acts ≡ heard t.base.acts) (is_seen key t) (λ _. refl)
        (λ f. absurd (cc (s, f)))

  Seen-heard :
      (key : Rtid) (branch : String) (b : Bool) (checksum : String) (resp : TrResponse) (t : Client)
      → Seen key t
      → is_reliable resp ≡ true
      → response_rtid resp.msg ≡ some key
      → heard (incoming_response default_port branch b checksum resp t).base.acts
        ≡ heard t.base.acts
  unfolding incoming_response
  Seen-heard key branch b checksum resp t s r k =
      let P = λ (u : Client). heard u.base.acts ≡ heard t.base.acts in
      if_lem P t.base.linked
        (λ _.
          if_lem P (is_terminated t.base.state) (λ _. refl)
            (λ _.
              if_lem P (is_reliable resp)
                (λ _.
                  subst (λ o. P (process_once default_port branch b checksum resp o t)) (sym k)
                    (again-heard key branch b checksum resp t s))
                (λ f. absurd (cc (r, f)))))
        (λ _. refl)

  -- A reliable provisional response that was passed on is not passed on again, whatever happens in
  -- between: a later response with the same Call-ID, From tag, CSeq, method and RSeq tells the
  -- receiver nothing.
  pub reliable-heard_once :
      (branch1 branch2 : String) (b1 b2 : Bool) (sum1 sum2 : String) (resp1 resp2 : TrResponse)
      (key : Rtid) (is : List Input) (t : Client)
      → t.base.linked ≡ true
      → is_terminated t.base.state ≡ false
      → is_reliable resp1 ≡ true
      → response_rtid resp1.msg ≡ some key
      → is_reliable resp2 ≡ true
      → response_rtid resp2.msg ≡ some key
      → heard
          (incoming_response default_port branch2 b2 sum2 resp2 (
            steps default_port is
              (incoming_response default_port branch1 b1 sum1 resp1 t))).base.acts
        ≡ heard
            (steps default_port is
              (incoming_response default_port branch1 b1 sum1 resp1 t)).base.acts
  reliable-heard_once branch1 branch2 b1 b2 sum1 sum2 resp1 resp2 key is t l n r1 k1 r2 k2 =
      let first = first-Seen key branch1 b1 sum1 resp1 t l n r1 k1 in
      Seen-heard key branch2 b2 sum2 resp2 _
        (steps-Seen key is (incoming_response default_port branch1 b1 sum1 resp1 t) first) r2 k2
