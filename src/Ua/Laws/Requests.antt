-- ===== src/Ua/Laws/Requests.antt =====
-- `GenRequest`, `UpdateRouting`, the choice of a challenge and the CSeq test of `RecvRequest`
-- (sippy/ua.go).
use go_b2bua.Prelude.{
  is_empty, ℕ, ◌+◌, Bool, true, false, String, Option, none, some, List, [], ◌∷◌, ◌++◌, ◌≡◌, refl,
  sym, ap, arith, ◌==◌, if◌then◌else◌, ◌⊎◌, inl, inr, Bool-cases,
}
use go_b2bua.Sip.{
  Address, HostPort, Url, Body, Header, Method, OutRequest, Challenge, CSeq, Request, get_addr,
}
use mathlib.Core.Path.{subst}
use mathlib.Core.List.{reverse}
use go_b2bua.Ua.State.{Ua, Dialog}
use go_b2bua.Ua.Routing.{gen_request, find_req, remove_req, update_routing, route_by, with_proxy}
use go_b2bua.Ua.Core.Messages.{
  choose, recv_request, in_order, agent_of, reject, is_enabled, is_replayed,
}

find-remove :
    (k n : ℕ) (m : List (ℕ × OutRequest))
    → (k == n) ≡ false
    → find_req n (remove_req k m) ≡ find_req n m
unfolding find_req remove_req
find-remove k n [] e = refl
find-remove k n ((j, r) ∷ m) e = ground (arith, find-remove k n m e)

-- When `GenRequest` makes a request, the request has the CSeq that the user agent had, the user
-- agent has the next one, the request is on record under its CSeq, and every other request is on
-- record as before.
pub gen_request-recorded :
    (m : Method) (b : Option Body) (a : Option Header) (eh : List Header) (u : Ua) (q : OutRequest)
    → (gen_request m b a eh u).0 ≡ some q
    → (q.cseq ≡ u.dialog.l_cseq)
      × ((gen_request m b a eh u).1.dialog.l_cseq ≡ u.dialog.l_cseq + 1)
      × (find_req u.dialog.l_cseq (gen_request m b a eh u).1.dialog.reqs ≡ some q)
      × ((n : ℕ)
          → (u.dialog.l_cseq == n) ≡ false
          → find_req n (gen_request m b a eh u).1.dialog.reqs ≡ find_req n u.dialog.reqs)
unfolding gen_request find_req
gen_request-recorded m b a eh u q e = (
  ground arith,
  ground arith,
  ground arith,
  λ n k. ground (arith, find-remove u.dialog.l_cseq n u.dialog.reqs k),
)

-- the URIs that a request passes: the routes, then the target of the dialog
abbrev pub hops : List (Option Address) → List (Option Url)
hops [] = []
hops (none ∷ rs) = none ∷ hops rs
hops (some a ∷ rs) = some a.url ∷ hops rs

hops-append : (rs ss : List (Option Address)) → hops (rs ++ ss) ≡ hops rs ++ hops ss
hops-append [] ss = refl
hops-append (none ∷ rs) ss = ap (λ l. none ∷ l) (hops-append rs ss)
hops-append (some a ∷ rs) ss = ap (λ l. some a.url ∷ l) (hops-append rs ss)

-- is the challenge one that the user agent may answer?
abbrev pub IsAnswerable : Option (List String) → Challenge → Type 0
IsAnswerable enalgs c = elim c.algorithm [
  | none ↦ ⊥
  | some a ↦ (is_enabled enalgs a ≡ true) × (c.supported ≡ some true)
]

abbrev pub IsAmong : Challenge → List Challenge → Type 0
IsAmong c [] = ⊥
IsAmong c (d ∷ ds) = (c ≡ d) ⊎ IsAmong c ds

-- The challenge that is answered is one of those that came, its algorithm is enabled, and it is
-- supported.
pub choose-IsAnswerable :
    (enalgs : Option (List String)) (cs : List Challenge) (c : Challenge)
    → choose enalgs cs ≡ some c
    → IsAmong c cs × IsAnswerable enalgs c
unfolding choose
choose-IsAnswerable enalgs [] c e = ground arith
choose-IsAnswerable enalgs (d ∷ ds) c e = ground (arith, choose-IsAnswerable enalgs ds c)

-- the routes that `UpdateRouting` takes from a message
abbrev pub taken : Bool → List (Option Address) → List (Option Address)
taken back rs = if back then reverse rs else rs

-- A request of the dialog goes to `r0`. With a loose `r0` it passes the routes and then the target;
-- with a strict one its own URI comes first. The hops are those of `routes`, and `url` last.
abbrev pub Passes : Address → List (Option Address) → Url → String → Dialog → Type 0
Passes r0 routes url port d =
    (d.r_addr ≡ some (get_addr port r0.url))
    × ((if r0.url.lr then hops d.routes ++ (d.r_target ∷ []) else d.r_target ∷ hops d.routes)
        ≡ hops routes ++ (some url ∷ []))

strict_hops :
    (r0 : Address) (rest : List (Option Address)) (url : Url)
    → some r0.url ∷ hops (rest ++ (some (record { name = ""; url = url; tag = "" }) ∷ []))
      ≡ hops (some r0 ∷ rest) ++ (some url ∷ [])
strict_hops r0 rest url = ap (λ l. some r0.url ∷ l) (hops-append rest _)

route_by-Passes :
    (b : Bool) (r0 : Address) (rest : List (Option Address)) (url : Url) (d : Dialog)
    (port : String) (u : Ua)
    → r0.url.lr ≡ b
    → d.r_target ≡ some url
    → Passes r0 (some r0 ∷ rest) url port (route_by (some r0 ∷ rest) d port u).dialog
unfolding get_addr
route_by-Passes true r0 rest url d port u l q = simp (l, q) (refl, refl)
route_by-Passes false r0 rest url d port u l q = simp (l, q) (refl, strict_hops r0 rest url)

proxy_none :
    (p : Option HostPort) (rs : List (Option Address)) (r0 : Address) (rest : List (Option Address))
    → p ≡ none
    → rs ≡ some r0 ∷ rest
    → with_proxy p rs ≡ some r0 ∷ rest
proxy_none none rs r0 rest q e = e
proxy_none (some x) rs r0 rest q e = ground arith

-- When no outbound proxy is set, the target of the dialog is known and is not taken anew from the
-- contacts, and the first route can be read, `UpdateRouting` directs the requests to the first
-- route, and they pass all routes in order and then the target, whether the first route is a loose
-- or a strict router.
pub update_routing-Passes :
    (contacts rs : List (Option Address)) (back : Bool) (u : Ua) (r0 : Address)
    (rest : List (Option Address)) (url : Url)
    → u.opts.outbound_proxy ≡ none
    → u.dialog.r_target ≡ some url
    → taken back rs ≡ some r0 ∷ rest
    → Passes r0
        (taken back rs)
        url
        u.opts.default_port
        (update_routing contacts rs false back u).dialog
unfolding update_routing
update_routing-Passes contacts rs back u r0 rest url p q e = rw e (
    subst
      (λ l.
        Passes r0 (some r0 ∷ rest) url u.opts.default_port
          (route_by l u.dialog u.opts.default_port u).dialog)
      (sym (proxy_none u.opts.outbound_proxy (some r0 ∷ rest) r0 rest p refl))
      (route_by-Passes r0.url.lr r0 rest url u.dialog u.opts.default_port u refl q))

abbrev pub IsOld : Option ℕ → Option CSeq → Type 0
IsOld last none = Unit
IsOld last (some c) = is_replayed last c.num ≡ true

in_order_refused :
    (c : Option CSeq) (req : Request) (u : Ua)
    → IsOld u.dialog.r_cseq c
    → in_order c req u ≡ (u, some (reject 500 "Server Internal Error" []))
in_order_refused none req u h = refl
in_order_refused (some c) req u h = simp h refl

-- A request whose CSeq is not above the last one that was accepted is refused with 500, and so is
-- a request whose CSeq cannot be parsed: the state, the dialog, the queue and what was sent stay
-- the same.
pub recv_request-refused :
    (req : Request) (u : Ua)
    → IsOld u.dialog.r_cseq req.cseq
    → ((recv_request req u).1 ≡ some (reject 500 "Server Internal Error" []))
      × ((recv_request req u).0.state ≡ u.state)
      × ((recv_request req u).0.dialog ≡ u.dialog)
      × ((recv_request req u).0.out ≡ u.out)
      × ((recv_request req u).0.equeue ≡ u.equeue)
unfolding recv_request
recv_request-refused req u h = elim (Bool-cases (is_empty u.remote_ua)) [
  | inl e ↦
      simp
        (
          e,
          in_order_refused req.cseq req
              (record u { remote_ua = agent_of req.user_agent req.server u.remote_ua }) h,
        )
        (refl, refl, refl, refl, refl)
  | inr e ↦ simp (e, in_order_refused req.cseq req u h) (refl, refl, refl, refl, refl)
]
