-- ===== src/Ua/Routing.antt =====
-- Requests, responses and the route set of `Ua` (sippy/ua.go), with the part of `NewSipRequest`
-- (sippy/sip_request.go) that can fail.
use go_b2bua.Prelude.{
  ℕ, ◌+◌, Bool, true, false, String, Option, none, some, List, [], ◌∷◌, ◌++◌, ◌==◌, if◌then◌else◌,
}
use mathlib.Core.List.{reverse}
use mathlib.Core.Option
use go_b2bua.Sip.{HostPort, Url, Address, get_addr, Method, Body, Header, CSeq, OutRequest}
use go_b2bua.Ua.State.{Effect, respond, log_error, Dialog, Options, Ua}

unfoldable pub emit : Effect → Ua → Ua
emit e u = record u { out = e ∷ u.out }

unfoldable pub log : String → Ua → Ua
unfolding emit
log s = emit (log_error s)

abbrev pub route_of : HostPort → Option Address
route_of p = some (record {
  name = "";
  url = record { username = ""; host = p.host; port = some p.port; lr = true };
  tag = "";
})

abbrev pub with_proxy : Option HostPort → List (Option Address) → List (Option Address)
with_proxy none routes = routes
with_proxy (some p) routes = route_of p ∷ routes

-- the route of the strict router's last hop
abbrev target_route : Option Url → List (Option Address)
target_route none = []
target_route (some url) = some (record { name = ""; url = url; tag = "" }) ∷ []

-- the rest of `UpdateRouting`, on the new route set
abbrev pub route_by : List (Option Address) → Dialog → String → Ua → Ua
route_by [] d port u = record u {
  dialog = record d { routes = []; r_addr = Option.map (get_addr port) d.r_target };
}
route_by (none ∷ routes) d port u = record u {
  dialog = record d { routes = none ∷ routes };
  out = log_error "UA::UpdateRouting: error #2" ∷ u.out;
}
route_by (some r0 ∷ routes) d port u = record u {
  dialog =
      if r0.url.lr
      then record d { routes = some r0 ∷ routes; r_addr = some (get_addr port r0.url) }
      else record d {
        routes = routes ++ target_route d.r_target;
        r_target = some r0.url;
        r_addr = some (get_addr port r0.url);
      };
}

-- the new remote target, `none` for a contact that cannot be parsed
abbrev new_target : Bool → List (Option Address) → Option Url → Option (Option Url)
new_target true (none ∷ contacts) old = none
new_target true (some c ∷ contacts) old = some (some c.url)
new_target _ _ old = some old

abbrev update_routing_to : Option (Option Url) → List (Option Address) → Ua → Ua
update_routing_to none routes u = record u { out = log_error "UA::UpdateRouting: error #1" ∷ u.out }
update_routing_to (some target) routes u =
    route_by (with_proxy u.opts.outbound_proxy routes) (record (u.dialog) { r_target = target })
      u.opts.default_port u

-- `UpdateRouting`, given the contacts and the record routes of the message
unfoldable pub update_routing :
    List (Option Address) → List (Option Address) → Bool → Bool → Ua → Ua
unfolding get_addr
update_routing contacts record_routes update_rtarget reverse_routes u =
    update_routing_to (new_target update_rtarget contacts u.dialog.r_target)
      (if reverse_routes then reverse record_routes else record_routes) u

-- the failure of `NewSipRequest`: no target is known and the first route cannot be parsed
abbrev pub target_fails : Option HostPort → List (Option Address) → Bool
target_fails none (none ∷ routes) = true
target_fails _ _ = false

abbrev target_of : Option HostPort → List (Option Address) → Option Url → String → Option HostPort
target_of (some p) routes ruri port = some p
target_of none [] ruri port = Option.map (get_addr port) ruri
target_of none (none ∷ routes) ruri port = none
target_of none (some r0 ∷ routes) ruri port = some (get_addr port r0.url)

abbrev pub next_hop : Option HostPort → Option HostPort → Option HostPort
next_hop none addr = addr
next_hop (some p) addr = some p

abbrev option_to_list : Option Header → List Header
option_to_list none = []
option_to_list (some h) = h ∷ []

unfoldable pub new_request :
    Method → Option Body → Option Header → List Header → Dialog → Options → OutRequest
unfolding get_addr
new_request method body auth eh d o = record {
  method = method;
  ruri = d.r_target;
  cseq = d.l_cseq;
  to_uri = d.r_uri;
  from_uri = d.l_uri;
  routes = d.routes;
  target = target_of (next_hop o.outbound_proxy d.r_addr) d.routes d.r_target o.default_port;
  body = body;
  headers = option_to_list auth ++ (o.extra_headers ++ (eh ++ o.dlg_headers));
}

-- `self.reqs[cseq] = req`, `delete(self.reqs, cseq)` and `self.reqs[cseq]`
unfoldable pub remove_req : ℕ → List (ℕ × OutRequest) → List (ℕ × OutRequest)
remove_req k [] = []
remove_req k ((j, r) ∷ m) = let rest = remove_req k m in if j == k then rest else (j, r) ∷ rest

unfoldable pub find_req : ℕ → List (ℕ × OutRequest) → Option OutRequest
find_req k [] = none
find_req k ((j, r) ∷ m) = if j == k then some r else find_req k m

-- `GenRequest`; `auth` is the header made from the challenge, if there is one
unfoldable pub gen_request :
    Method → Option Body → Option Header → List Header → Ua → Option OutRequest × Ua
unfolding new_request
gen_request method body auth eh u =
    if target_fails (next_hop u.opts.outbound_proxy u.dialog.r_addr) u.dialog.routes
    then (none, u)
    else (
      some (new_request method body auth eh u.dialog u.opts),
      record u {
        dialog = record (u.dialog) {
          l_cseq = u.dialog.l_cseq + 1;
          reqs =
              (u.dialog.l_cseq, new_request method body auth eh u.dialog u.opts)
              ∷ remove_req u.dialog.l_cseq u.dialog.reqs;
        };
      },
    )

-- `GetLContacts`
unfoldable pub get_l_contacts : Ua → List (Option Address)
get_l_contacts u = elim u.dialog.l_contact [ none ↦ [] | some c ↦ some c ∷ [] ]

-- `SendUasResponse`. Without a transaction (`direct` is false) the transaction manager looks it
-- up, unless the user agent is dead.
unfoldable pub send_uas_response :
    Bool → ℕ → String → Option Body → List (Option Address) → Bool → List Header → Ua → Ua
unfolding emit
send_uas_response direct scode reason body contacts ack_wait eh u =
    let sent : Ua =
      emit
        (respond (record {
          scode = scode;
          reason_phrase = reason;
          cseq = u.uas_resp;
          body = body;
          contacts = contacts;
          headers = eh;
          ack_wait = ack_wait;
          lossemul = u.opts.uas_lossemul;
          direct = direct;
        }))
        u in
    if direct then sent else if u.has_tm then sent else u

-- `t.SendResponse(req.GenResponse(…))`, with the loss emulation that the caller gives
unfoldable pub answer : Option CSeq → ℕ → String → ℕ → List Header → Ua → Ua
unfolding emit
answer cseq scode reason lossemul headers u =
    emit
      (respond (record {
        scode = scode;
        reason_phrase = reason;
        cseq = cseq;
        body = none;
        contacts = [];
        headers = headers;
        ack_wait = false;
        lossemul = lossemul;
        direct = true;
      }))
      u
