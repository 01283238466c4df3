-- ===== src/Ua/Reach/Messages.antt =====
-- `RecvResponse` and `RecvRequest` (sippy/ua.go).
use go_b2bua.Prelude.{
  ◌∙◌, ℕ, Bool, true, false, String, Option, none, some, List, ◌≡◌, refl, if◌then◌else◌, arith,
}
use go_b2bua.Sip.{Body, Response, CSeq, Challenge, OutRequest, Header, Method, invite}
use go_b2bua.Ua.State.{
  UaState, uac_trying, uac_ringing, uac_updating, uac_cancelling, state_id, id_of, Ua,
}
use go_b2bua.Ua.Exec.{begin_client}
use go_b2bua.Ua.Exec.Keeps.{Keeps}
use go_b2bua.Ua.Steps.{ClientTr}
use go_b2bua.Ua.Routing.{gen_request, log, find_req}
use go_b2bua.Ua.Graph.{Goes}
use go_b2bua.Ua.Frame.{Frame}
use go_b2bua.Ua.Frame.Effects.{log-Frame}
use go_b2bua.Ua.Frame.Uac.{trying_response-Frame}
use go_b2bua.Ua.Frame.UacDialog as UacDialog
use go_b2bua.Ua.Core.Messages.{
  state_response, choose, retry, retry_with, process_challenge, process_www_challenge,
  process_proxy_challenge, try_challenge, forget, respond_in, parsed_response, response_in,
  recv_response, agent_of,
}
use go_b2bua.Ua.Reach.{Sound, Reaches, Reaches_refl, Reaches_trans, Frame_refl, Frame-Reaches}
use go_b2bua.Ua.Reach.Emission.{settle_in}
use go_b2bua.Ua.Reach.Events.{stay-Frame}

state_response-Frame :
    (s : UaState) (resp : Response) (tr : ClientTr) (v : Ua)
    → state_id v.state ≡ id_of s
    → Keeps (Frame v) (Goes (id_of s)) (state_response s resp tr)
unfolding state_response
state_response-Frame uac_trying resp tr v q = trying_response-Frame v resp tr
state_response-Frame uac_ringing resp tr v q = UacDialog.ringing_response-Frame v resp tr
state_response-Frame (uac_cancelling te) resp tr v q =
    UacDialog.cancelling_response-Frame v q te resp tr
state_response-Frame uac_updating resp tr v q = UacDialog.updating_response-Frame v resp tr
state_response-Frame _ resp tr v q = stay-Frame v _

module _ (v : Ua) where
  pub gen_request-Frame :
      (m : Method) (b : Option Body) (c : Option Header) (eh : List Header) (u : Ua)
      → Frame v u
      → Frame v (gen_request m b c eh u).1
  unfolding gen_request
  gen_request-Frame m b c eh u h = ground arith

  retry-Frame : (n : ℕ) (o : Option OutRequest) (u : Ua) → Frame v u → Frame v (retry n (o, u)).1
  unfolding log begin_client
  retry-Frame n o u h = ground arith

  process_challenge-Frame :
      (cs : List Challenge) (n : ℕ) (eh : List Header) (u : Ua)
      → Frame v u
      → Frame v (process_challenge cs n eh u).1
  unfolding process_challenge
  process_challenge-Frame cs n eh u h =
      elim (choose u.opts.auth_enalgs cs) as (λ c. Frame v (retry_with n eh c u).1) [
        | none ↦ h
        | some c ↦ retry-Frame n _ _ (gen_request-Frame invite u.media.l_sdp c.auth eh u h)
      ]

  frame-if :
      (b : Bool) (x y : Bool × Ua) → Frame v x.1 → Frame v y.1 → Frame v (if b then x else y).1
  frame-if true x y h k = h
  frame-if false x y h k = k

  process_www-Frame :
      (resp : Response) (n : ℕ) (o : OutRequest) (eh : List Header) (u : Ua)
      → Frame v u
      → Frame v (process_www_challenge resp n o eh u).1
  unfolding process_www_challenge
  process_www-Frame resp n o eh u h = frame-if _ _ _ h (process_challenge-Frame _ n eh u h)

  process_proxy-Frame :
      (resp : Response) (n : ℕ) (o : OutRequest) (eh : List Header) (u : Ua)
      → Frame v u
      → Frame v (process_proxy_challenge resp n o eh u).1
  unfolding process_proxy_challenge
  process_proxy-Frame resp n o eh u h = frame-if _ _ _ h (process_challenge-Frame _ n eh u h)

  try_challenge-Frame :
      (resp : Response) (c : CSeq) (o : Option OutRequest) (t : ClientTr) (u : Ua)
      → Frame v u
      → Frame v (try_challenge resp c o t u).1
  unfolding try_challenge
  try_challenge-Frame resp c none t u h = h
  try_challenge-Frame resp c (some o) t u h =
      let a = process_www-Frame resp c.num o t.req_extra_headers u h in
      let b = process_proxy-Frame resp c.num o t.req_extra_headers u h in ground (arith, a, b)

forget-Frame :
    (v : Ua) (resp : Response) (n : ℕ) (o : Option OutRequest) (u : Ua)
    → Frame v u
    → Frame v (forget resp n o u)
forget-Frame v resp n o u h = ground arith

pub remote_ua-Frame : (v : Ua) (a : String) → Sound v → Frame v (record v { remote_ua = a })
remote_ua-Frame v a h = record {
  id_same = refl;
  elast_same = refl;
  sent_same = refl;
  tm_same = refl;
  controller_same = refl;
  ordered = h.ordered;
}

respond_in-Reaches :
    (s : UaState) (resp : Response) (c : CSeq) (t : ClientTr) (v : Ua) (x : Bool × Ua)
    → Sound v
    → state_id v.state ≡ id_of s
    → Frame v x.1
    → Reaches v (respond_in s resp c t x)
respond_in-Reaches s resp c t v (true, u) h q k = Frame-Reaches v u h k
respond_in-Reaches s resp c t v (false, u) h q k =
    let w = forget resp c.num (find_req c.num u.dialog.reqs) u in
    let g = forget-Frame v resp c.num (find_req c.num u.dialog.reqs) u k in
    let r = Frame-Reaches v w h g in
    Reaches_trans v w _ r (
      settle_in s (state_response s resp t) w r.sound (g.id_same ∙ q)
        (state_response-Frame s resp t w (g.id_same ∙ q)))

parsed_response-Reaches :
    (s : UaState) (resp : Response) (c : Option CSeq) (t : ClientTr) (v : Ua)
    → Sound v
    → state_id v.state ≡ id_of s
    → Reaches v (parsed_response s resp c t v)
parsed_response-Reaches s resp none t v h q = Frame-Reaches v _ h (log-Frame v _ v (Frame_refl v h))
parsed_response-Reaches s resp (some c) t v h q =
    let a = agent_of resp.user_agent resp.server v.remote_ua in
    let u : Ua = record v { remote_ua = a } in
    respond_in-Reaches s resp c t v _ h q
      (try_challenge-Frame v resp c _ t u (remote_ua-Frame v a h))

response_in-Reaches :
    (o : Option UaState) (resp : Response) (t : ClientTr) (v : Ua)
    → Sound v
    → state_id v.state ≡ state_id o
    → Reaches v (response_in o resp t v)
response_in-Reaches none resp t v h q = Reaches_refl v h
response_in-Reaches (some s) resp t v h q = parsed_response-Reaches s resp resp.cseq t v h q

pub recv_response-Reaches :
    (resp : Response) (t : ClientTr) (v : Ua) → Sound v → Reaches v (recv_response resp t v)
unfolding recv_response
recv_response-Reaches resp t v h = response_in-Reaches v.state resp t v h refl
