-- ===== src/Ua/Reach/Requests.antt =====
-- `RecvRequest` (sippy/ua.go).
use go_b2bua.Prelude.{
  [], ℕ, Bool, true, false, String, Option, none, some, List, ◌≡◌, refl, sym, if◌then◌else◌, ◌&&◌,
  not, is_some, is_empty,
}
use mathlib.Core.Path.{subst}
use go_b2bua.Sip.{Address, Request, CSeq, Header, Method, invite, bye, refer, info, options, update}
use go_b2bua.Event.{CcEvent, Kind}
use go_b2bua.Ua.State.{
  UaState, uac_updating, uas_idle, uas_ringing, uas_updating, uas_ringing_rel, uas_pre_connect,
  connected, disconnected, ua_state_none, state_id, id_of, Ua, Callback, ua_state_connected,
}
use go_b2bua.Ua.Exec.{
  modify, ◌>>◌, next, exit, Outcome, Exec, stay, no_change, Ret, parse, make_event, enqueue,
}
use go_b2bua.Ua.Exec.Keeps.{Keeps, Keeps-ret, Exits, keeps_rules}
use go_b2bua.Ua.Routing.{answer, log}
use go_b2bua.Ua.Connected
use go_b2bua.Ua.Graph.{Goes, ◌⟶◌, open_uas, talk_pre_connect, talk_uas_updating}
use go_b2bua.Ua.Frame.{Frame}
use go_b2bua.Ua.Frame.Effects.{log-Frame, enqueue-Frame, answer-Frame}
use go_b2bua.Ua.Frame.UacDialog as UacDialog
use go_b2bua.Ua.Frame.Uas as Uas
use go_b2bua.Ua.Frame.UasRinging as UasRinging
use go_b2bua.Ua.Frame.Dialog as Dialog
use go_b2bua.Ua.Frame.Connected as ConnectedFrame
use go_b2bua.Ua.Core.State.{enter, change_state, returned, settle}
use go_b2bua.Ua.Core.Messages.{
  Context, state_request, contextual, request_in, in_order, recv_request, is_replayed, is_invite,
  agent_of,
}
use go_b2bua.Ua.Core.Events.{recv_event}
use go_b2bua.Ua.Reach.{Sound, Reaches, Reaches_refl, Reaches_trans, Frame-Reaches, then_Frame}
use go_b2bua.Ua.Reach.Emission.{
  change_state-id, change_state-Reaches, settle_in, emit_pending_events-Reaches,
}
use go_b2bua.Ua.Reach.Events.{recv_event-Reaches, stay-Frame}
use go_b2bua.Ua.Reach.Messages.{remote_ua-Frame}

-- what a REFER does, step by step: the event that it raises may take the user agent anywhere
Silent : Ret → Type 0
Silent r = r.newstate ≡ none

module _ (v : Ua) where
  refer_answer :
      (q : Option CSeq) (c : ℕ) (r : String) (l : ℕ) (hs : List Header) (u : Ua)
      → Reaches v u
      → Reaches v (answer q c r l hs u)
  refer_answer q c r l hs u k = then_Frame v u (answer q c r l hs) (answer-Frame u q c r l hs u) k

  refer_log : (w : String) (u : Ua) → Reaches v u → Reaches v (log w u)
  refer_log w u k = then_Frame v u (log w) (log-Frame u w u) k

  refer_enqueue : (e : CcEvent) (u : Ua) → Reaches v u → Reaches v (enqueue e u)
  refer_enqueue e u k = then_Frame v u (enqueue e) (enqueue-Frame u e u) k

  refer_raise : (e : CcEvent) (u : Ua) → Reaches v u → Reaches v (recv_event e u)
  refer_raise e u k = Reaches_trans v u _ k (recv_event-Reaches e u k.sound)

  next_seq-Reaches : (n : ℕ) (u : Ua) → Reaches v u → Reaches v (record u { next_seq = n })
  next_seq-Reaches n u k =
      then_Frame v u (λ w. record w { next_seq = n })
        (λ f. record {
          id_same = f.id_same;
          elast_same = f.elast_same;
          sent_same = f.sent_same;
          tm_same = f.tm_same;
          controller_same = f.controller_same;
          ordered = f.ordered;
        })
        k

  refer_event : (t : ℕ) (o : String) (k : Kind) → Keeps (Reaches v) Silent (make_event t o k)
  unfolding make_event
  refer_event t o k = record { at = λ u h. (next_seq-Reaches _ u h, tt) }

  refer_stay : Keeps {A = Unit {0}} (Reaches v) Silent stay
  unfolding Silent
  refer_stay = Keeps-ret no_change refl

  refer_parse : {A : Type 0} (w : String) (o : Option A) → Keeps (Reaches v) Silent (parse w o)
  unfolding parse Silent
  refer_parse w none = search (keeps_rules, refer_log, refl) depth 12
  refer_parse w (some a) = search keeps_rules depth 12

  refer-Reaches :
      (req : Request) (h : Option (Option Address))
      → Keeps (Reaches v) Silent (Connected.recv_refer recv_event req h)
  unfolding Connected.recv_refer
  refer-Reaches req none = search (keeps_rules, refer_answer, refer_stay) depth 12
  refer-Reaches req (some header) =
      search
        (
          keeps_rules, refer_answer, refer_enqueue, refer_raise, refer_event, refer_parse,
          refer_stay,
        )
        depth 30

enter_none :
    (n : Option UaState) (cb : Option Callback) (v u : Ua)
    → n ≡ none
    → Reaches v u
    → Reaches v (enter n cb u)
enter_none n cb v u q r = subst (λ o. Reaches v (enter o cb u)) (sym q) r

Silent-exit : (r : Outcome (Unit {0})) → Exits Silent r → (returned r).newstate ≡ none
unfolding Silent
Silent-exit (next a) e = refl
Silent-exit (exit r) e = e

silent_settle :
    (m : Exec (Unit {0})) (v : Ua) → Sound v → Keeps (Reaches v) Silent m → Reaches v (settle (m v))
unfolding settle
silent_settle m v h k =
    let p = k.at v (Reaches_refl v h) in
    let e =
      enter_none (returned (m v).0).newstate (returned (m v).0).cb v (m v).1
        (Silent-exit (m v).0 p.1) p.0 in
    Reaches_trans v _ _ e (emit_pending_events-Reaches _ e.sound)

answered :
    (v : Ua) (req : Request)
    → Keeps {A = Unit {0}}
        (Frame v)
        (Goes ua_state_connected)
        (modify (answer req.cseq 200 "OK" 0 []) >> stay)
answered v req = search (keeps_rules, answer-Frame, tt)

connected-Reaches :
    (m : Method) (req : Request) (v : Ua)
    → Sound v
    → state_id v.state ≡ ua_state_connected
    → Reaches v (settle (Connected.dispatch_request recv_event m req v))
unfolding Connected.dispatch_request
connected-Reaches refer req v h q =
    silent_settle (Connected.recv_refer recv_event req req.refer_to) v h
      (refer-Reaches v req req.refer_to)
connected-Reaches invite req v h q =
    settle_in (connected true) (Connected.recv_invite recv_event req) v h q
      (ConnectedFrame.recv_invite-Frame v recv_event req)
connected-Reaches bye req v h q =
    settle_in (connected true) (Connected.recv_bye recv_event req) v h q
      (ConnectedFrame.recv_bye-Frame v recv_event req)
connected-Reaches info req v h q =
    settle_in (connected true) (Connected.recv_info recv_event req) v h q
      (ConnectedFrame.recv_info-Frame v recv_event req)
connected-Reaches options req v h q = settle_in (connected true) _ v h q (answered v req)
connected-Reaches update req v h q = settle_in (connected true) _ v h q (answered v req)
connected-Reaches _ req v h q = settle_in (connected true) stay v h q (stay-Frame v _)

state_request-Reaches :
    (s : UaState) (req : Request) (v : Ua)
    → Sound v
    → state_id v.state ≡ id_of s
    → Reaches v (settle (state_request s req v))
unfolding state_request Connected.recv_request
state_request-Reaches uas_idle req v h q = settle_in uas_idle _ v h q (Uas.idle_request-Frame v req)
state_request-Reaches uas_ringing req v h q =
    settle_in uas_ringing _ v h q (UasRinging.ringing_request-Frame v req)
state_request-Reaches (uas_ringing_rel r) req v h q =
    settle_in (uas_ringing_rel r) _ v h q (UasRinging.ringing_request-Frame v req)
state_request-Reaches (uas_pre_connect c p) req v h q =
    settle_in (uas_pre_connect c p) _ v h q
      (Dialog.pre_connect_request-Frame v talk_pre_connect req)
state_request-Reaches uas_updating req v h q =
    settle_in uas_updating _ v h q (Dialog.updating_request-Frame v talk_uas_updating req)
state_request-Reaches uac_updating req v h q =
    settle_in uac_updating _ v h q (UacDialog.updating_request-Frame v req)
state_request-Reaches (connected ka) req v h q = connected-Reaches req.method req v h q
state_request-Reaches disconnected req v h q =
    settle_in disconnected _ v h q (ConnectedFrame.disconnected_request-Frame v req)
state_request-Reaches s req v h q = settle_in s stay v h q (stay-Frame v _)

fst-if :
    (v : Ua) (x y : Ua × Option Context) (b : Bool)
    → Reaches v x.0
    → Reaches v y.0
    → Reaches v (if b then x else y).0
fst-if v x y true p q = p
fst-if v x y false p q = q

-- fields that the frame does not hold
pr_rel-Reaches : (v : Ua) (b : Bool) → Sound v → Reaches v (record v { pr_rel = b })
pr_rel-Reaches v b h = Frame-Reaches v _ h (record {
  id_same = refl;
  elast_same = refl;
  sent_same = refl;
  tm_same = refl;
  controller_same = refl;
  ordered = h.ordered;
})

r_cseq-Reaches :
    (v : Ua) (n : ℕ)
    → Sound v
    → Reaches v (record v { dialog = record (v.dialog) { r_cseq = some n } })
r_cseq-Reaches v n h = Frame-Reaches v _ h (record {
  id_same = refl;
  elast_same = refl;
  sent_same = refl;
  tm_same = refl;
  controller_same = refl;
  ordered = h.ordered;
})

-- a call that an INVITE opens
opened :
    (req : Request) (b : Bool) (v : Ua)
    → Sound v
    → state_id v.state ≡ ua_state_none
    → Reaches v
        (settle (state_request uas_idle req (change_state uas_idle none (record v { pr_rel = b }))))
opened req b v h q =
    let r = pr_rel-Reaches v b h in
    let c =
      change_state-Reaches uas_idle none (record v { pr_rel = b }) r.sound
        (subst (λ t. t ⟶ id_of uas_idle) (sym q) open_uas) in
    Reaches_trans v _ _ r (
      Reaches_trans _ _ _ c (
        state_request-Reaches uas_idle req (change_state uas_idle none (record v { pr_rel = b }))
          c.sound (change_state-id uas_idle none (record v { pr_rel = b }))))

-- the three ways of a request that finds no state
cases_of :
    (o p : Option Context) (x : Ua × Option Context) (b c : Bool) (v : Ua)
    → Reaches v v
    → Reaches v x.0
    → Reaches v (if b then (v, o) else if c then (v, p) else x).0
cases_of o p x true c v a d = a
cases_of o p x false true v a d = a
cases_of o p x false false v a d = d

request_in-Reaches :
    (o : Option UaState) (req : Request) (v : Ua)
    → Sound v
    → state_id v.state ≡ state_id o
    → Reaches v (request_in o req v).0
request_in-Reaches (some s) req v h q = state_request-Reaches s req v h q
request_in-Reaches none req v h q =
    let a = Reaches_refl v h in
    let b = opened req (is_some req.body && req.offers_100rel) v h q in
    cases_of none _
      (contextual req (
        state_request uas_idle req (
          change_state uas_idle none
            (record v { pr_rel = is_some req.body && req.offers_100rel }))))
      (not (is_invite req.method)) (not (is_some req.body) && req.require_100rel) v a b

in_order-Reaches :
    (c : Option CSeq) (req : Request) (v : Ua) → Sound v → Reaches v (in_order c req v).0
in_order-Reaches none req v h = Reaches_refl v h
in_order-Reaches (some c) req v h =
    let r = r_cseq-Reaches v c.num h in
    fst-if v _ (request_in v.state req _) (is_replayed v.dialog.r_cseq c.num) (Reaches_refl v h) (
      Reaches_trans v _ _ r (
        request_in-Reaches v.state req
          (record v { dialog = record (v.dialog) { r_cseq = some c.num } }) r.sound refl))

agent-Reaches :
    (v : Ua) (a : String) (b : Bool)
    → Sound v
    → Reaches v (if b then record v { remote_ua = a } else v)
agent-Reaches v a true h = Frame-Reaches v _ h (remote_ua-Frame v a h)
agent-Reaches v a false h = Reaches_refl v h

pub recv_request-Reaches : (req : Request) (v : Ua) → Sound v → Reaches v (recv_request req v).0
unfolding recv_request
recv_request-Reaches req v h =
    let r =
      agent-Reaches v (agent_of req.user_agent req.server v.remote_ua) (is_empty v.remote_ua) h in
    Reaches_trans v _ _ r (in_order-Reaches req.cseq req _ r.sound)
