-- ===== src/Transaction/Server/Cancelling.antt =====
-- How a server transaction answers a CANCEL (`IncomingRequest` and `doCancel` of
-- sippy/server_transaction.go).
use mathlib.Core.Path.{subst, sym, ap₂}
use text.Mathlib.Text.{◌==◌ as str_eq}
use go_b2bua.Prelude.{
  ℕ, Bool, true, false, not, ◌&&◌, ◌≡◌, refl, arith, String, Option, none, some, List, [], ◌∷◌, ltb,
  is_some, if_lem, ap, ◌∙◌,
}
use go_b2bua.Transaction.Message.{Via, t_addr, TrRequest, TrResponse, gen_response}
use go_b2bua.Transaction.Cache.{response_out}
use go_b2bua.Transaction.Base.{Act, transmit, completed, before_response, base_cleanup, cancel_cb}
use go_b2bua.Transaction.Server.{Server, is_open, cleanup, call_if}
use go_b2bua.Transaction.Server.Sending.{
  send_response, send_tagged, prepare, deliver, emit, conclude, send_now, tagged, with_to_tag,
  tag_or_fresh, ends_here,
}
use go_b2bua.Transaction.Server.Handlers.{
  incoming_request, incoming_cancel, cancel_open, do_cancel, send_487, reply_to,
}

-- the status codes that were sent, the latest first
abbrev pub codes : List Act → List ℕ
codes [] = []
codes (transmit userv (some (response_out resp)) address sum call_id n ∷ acts) =
    resp.scode ∷ codes acts
codes (a ∷ acts) = codes acts

-- The response was sent last, after `old`, and it was final.
abbrev Answered : ℕ → List ℕ → Server → Type 0
Answered code old s = (codes s.base.acts ≡ code ∷ old) × (s.base.state ≡ completed)

conclude-Answered :
    (has_ack : Bool) (resp : TrResponse) (s : Server)
    → ltb resp.scode 200 ≡ false
    → (codes (conclude has_ack resp s).base.acts ≡ codes s.base.acts)
      × ((conclude has_ack resp s).base.state ≡ completed)
      × ((conclude has_ack resp s).base.packet ≡ s.base.packet)
unfolding conclude
conclude-Answered has_ack resp s final = ground arith

send_now-Answered :
    (n : ℕ) (resp : TrResponse) (old : List ℕ) (s : Server)
    → s.base.packet ≡ some (response_out resp)
    → codes s.base.acts ≡ old
    → s.base.state ≡ completed
    → Answered resp.scode old (send_now n resp s)
unfolding send_now
send_now-Answered n resp old s p c st = ground arith

cleanup-Answered :
    (code : ℕ) (old : List ℕ) (s : Server) → Answered code old s → Answered code old (cleanup s)
unfolding cleanup base_cleanup
cleanup-Answered code old s h = h

module _ (default_port : String) (has_ack : Bool) (n : ℕ) (resp : TrResponse) where
  emit-Answered :
      (via : Via) (s : Server)
      → s.base.packet ≡ some (response_out resp)
      → ltb resp.scode 200 ≡ false
      → Answered resp.scode (codes s.base.acts) (emit default_port has_ack n resp (some via) s)
  unfolding emit
  emit-Answered via s p final =
      if_lem (Answered resp.scode (codes s.base.acts)) (ends_here resp s)
        (λ _. cleanup-Answered resp.scode (codes s.base.acts) _ sent) (λ _. sent)
    where
      s' : Server
      s' = record s { base = record (s.base) { address = some (t_addr default_port via) } }

      done :
          (codes (conclude has_ack resp s').base.acts ≡ codes s'.base.acts)
          × ((conclude has_ack resp s').base.state ≡ completed)
          × ((conclude has_ack resp s').base.packet ≡ s'.base.packet)
      done = conclude-Answered has_ack resp s' final

      sent : Answered resp.scode (codes s.base.acts) (send_now n resp (conclude has_ack resp s'))
      sent =
          send_now-Answered n resp (codes s.base.acts) (conclude has_ack resp s') (done.2 ∙ p)
            done.0 done.1

  deliver-Answered :
      (s : Server)
      → is_some resp.msg.via0 ≡ true
      → ltb resp.scode 200 ≡ false
      → Answered resp.scode (codes s.base.acts) (deliver default_port has_ack (some (resp, n), s))
  unfolding deliver
  deliver-Answered s at final = by resp.msg.via0 at
    where
      s' : Server
      s' = record s {
        base = record (s.base) {
          packet = some (response_out resp);
          acts = before_response resp ∷ s.base.acts;
        };
      }

      by :
          (via : Option Via)
          → is_some via ≡ true
          → Answered resp.scode (codes s.base.acts) (emit default_port has_ack n resp via s')
      by none e = cc
      by (some via) e = emit-Answered via s' refl final

  prepare-final : (s : Server) → ltb resp.scode 200 ≡ false → prepare n resp s ≡ (some (resp, n), s)
  unfolding prepare
  prepare-final s final = ground arith

tagged-final :
    (fresh : String) (resp : TrResponse) (tag : String)
    → ltb resp.scode 200 ≡ false
    → resp.msg.to_tag ≡ some tag
    → tagged fresh resp ≡ some (with_to_tag (tag_or_fresh fresh tag) resp)
tagged-final fresh resp tag final has = ground arith

send_response-Answered :
    (default_port fresh : String) (retrans has_ack : Bool) (n : ℕ) (resp : TrResponse)
    (tag : String) (s : Server)
    → s.base.linked ≡ true
    → ltb resp.scode 200 ≡ false
    → resp.msg.to_tag ≡ some tag
    → is_some resp.msg.via0 ≡ true
    → Answered resp.scode
        (codes s.base.acts)
        (send_response default_port fresh retrans has_ack n resp s)
unfolding send_response send_tagged
send_response-Answered default_port fresh retrans has_ack n resp tag s linked final has at =
    if_lem (Answered resp.scode (codes s.base.acts)) s.base.linked
      (λ _. rw (tagged-final fresh resp tag final has) (
        if_lem
          (λ x.
            Answered resp.scode (codes s.base.acts)
              (deliver default_port has_ack (prepare n out x)))
          (not (is_open s.base.state) && not retrans) (λ _. sent _) (λ _. sent s)))
      (λ f. cc linked)
  where
    out : TrResponse
    out = with_to_tag (tag_or_fresh fresh tag) resp

    sent :
        (x : Server)
        → Answered resp.scode (codes x.base.acts) (deliver default_port has_ack (prepare n out x))
    sent x =
        rw (prepare-final default_port has_ack n out x final)
          (deliver-Answered default_port has_ack n out x at final)

-- A 487 whose To, with this tag, and whose Via can be parsed.
abbrev pub Is487 : String → Option TrResponse → Type 0
Is487 tag none = ⊥
Is487 tag (some resp) =
    (resp.scode ≡ 487) × (resp.msg.to_tag ≡ some tag) × (is_some resp.msg.via0 ≡ true)

module _ (default_port fresh : String) where
  send_487-Answered :
      (tag : String) (resp : Option TrResponse) (s : Server)
      → s.base.linked ≡ true
      → Is487 tag resp
      → Answered 487 (codes s.base.acts) (send_487 default_port fresh resp s)
  send_487-Answered tag none s linked h = absurd h
  send_487-Answered tag (some resp) s linked h =
      subst
        (λ c. Answered c (codes s.base.acts) (send_response default_port fresh true false 0 resp s))
        h.0
        (send_response-Answered default_port fresh true false 0 resp tag s linked
          (ap (λ (c : ℕ). ltb c 200) h.0) h.1 h.2)

  call_cancel-Answered :
      (b : Bool) (req : Option TrRequest) (old : List ℕ) (s : Server)
      → Answered 487 old s
      → Answered 487 old (call_if b (cancel_cb req) s)
  call_cancel-Answered true req old s h = h
  call_cancel-Answered false req old s h = h

  do_cancel-Answered :
      (tag : String) (req : Option TrRequest) (s : Server)
      → s.base.linked ≡ true
      → Is487 tag s.r487
      → Answered 487 (codes s.base.acts) (do_cancel default_port fresh req s)
  unfolding do_cancel
  do_cancel-Answered tag req s linked h =
      call_cancel-Answered _ req (codes s.base.acts) (send_487 default_port fresh s.r487 s)
        (send_487-Answered tag s.r487 s linked h)

  cancel_open-Answered :
      (tag sum : String) (req : TrRequest) (resp : TrResponse) (via : Option Via) (s : Server)
      → s.base.linked ≡ true
      → is_open s.base.state ≡ true
      → is_some via ≡ true
      → Is487 tag s.r487
      → Answered 487
          (resp.scode ∷ codes s.base.acts)
          (cancel_open default_port fresh req s (reply_to default_port fresh req sum resp via s))
  unfolding cancel_open
  cancel_open-Answered tag sum req resp none s linked opened at h = cc
  cancel_open-Answered tag sum req resp (some via) s linked opened at h =
      if_lem (Answered 487 (resp.scode ∷ codes s.base.acts)) (is_open s.base.state)
        (λ _. do_cancel-Answered tag (some req) _ linked h) (λ f. cc opened)

-- A CANCEL and the INVITE that it ends, while no final response was sent: the CANCEL gets 200 and
-- then the INVITE 487, in this order and nothing else, and the transaction is completed. The Via of
-- the CANCEL, the Via and the To of the 487 can be parsed.
pub incoming_cancel-answered :
    (default_port fresh : String) (req : TrRequest) (sum tag : String) (s : Server)
    → s.base.linked ≡ true
    → is_open s.base.state ≡ true
    → s.method ≡ "INVITE"
    → req.method ≡ "CANCEL"
    → is_some req.msg.via0 ≡ true
    → Is487 tag s.r487
    → (codes (incoming_request default_port fresh req sum s).base.acts
        ≡ 487 ∷ 200 ∷ codes s.base.acts)
      × ((incoming_request default_port fresh req sum s).base.state ≡ completed)
unfolding incoming_request incoming_cancel gen_response
incoming_cancel-answered default_port fresh req sum tag s linked opened inv can via h =
    if_lem (Answered 487 (200 ∷ codes s.base.acts)) s.base.linked
      (λ _.
        if_lem (Answered 487 (200 ∷ codes s.base.acts)) (str_eq req.method s.method)
          (λ e. absurd (differ e))
          (λ _.
            if_lem (Answered 487 (200 ∷ codes s.base.acts)) (str_eq req.method "CANCEL")
              (λ _.
                cancel_open-Answered default_port fresh tag sum req (gen_response 200 "OK" req)
                  req.msg.via0 s linked opened via h)
              (λ f. absurd (same f))))
      (λ f. cc linked)
  where
    differ : str_eq req.method s.method ≡ true → ⊥
    differ e = cc (sym (ap₂ str_eq can inv) ∙ e)

    same : str_eq req.method "CANCEL" ≡ false → ⊥
    same f = cc (sym (ap (λ (x : String). str_eq x "CANCEL") can) ∙ f)
