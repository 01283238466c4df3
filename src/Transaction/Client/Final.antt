-- ===== src/Transaction/Client/Final.antt =====
-- How a client transaction takes a final response and routes the ACK (`process_final_response` of
-- sippy/client_transaction.go).
use mathlib.Core.List.{reverse}
use go_b2bua.Prelude.{
  ◌*◌, ◌&&◌, Bool, true, String, Option, none, some, List, [], ◌∷◌, ◌++◌, ltb, leb, is_empty,
  if◌then◌else◌,
}
use go_b2bua.Sip.{HostPort, Url, Address, get_addr}
use go_b2bua.Transaction.Message.{Via, TrRequest, TrResponse}
use go_b2bua.Transaction.Cache.{request_out}
use go_b2bua.Transaction.Base.{
  uack, recv_response, transmit, cache_call_id, tclient_del, before_request,
}
use go_b2bua.Transaction.Client.{AckParams, Client, act, act_if, cleanup}

-- `RecvResponse`; `set_uack` says whether it calls `SetUAck(true)`
abbrev pub told : Bool → TrResponse → Client → Client
told set_uack resp t =
    if t.has_receiver
    then act (recv_response (some resp)) (if set_uack then record t { wants_uack = true } else t)
    else t

-- where an ACK goes: its next hop, if one was found, its request URI, if it changes, and its routes
pub record Routing : Type 0 where
  pub hop : Option HostPort
  pub ruri : Option Url
  pub routes : List (Option Address)

module _ (default_port : String) where
  -- the Contact of the response; none on a parse error
  abbrev pub contact_of : List (Option Address) → Option (Option Url)
  contact_of [] = some none
  contact_of (none ∷ cs) = none
  contact_of (some c ∷ cs) = some (some c.url)

  -- the outbound proxy goes before the routes
  abbrev pub with_proxy : Option HostPort → List (Option Address) → List (Option Address)
  with_proxy none routes = routes
  with_proxy (some p) routes =
      some (record {
        name = "";
        url = record { username = ""; host = p.host; port = some p.port; lr = true };
        tag = "";
      })
      ∷ routes

  abbrev pub target_route : Option Url → List (Option Address)
  target_route none = []
  target_route (some u) = some (record { name = ""; url = u; tag = "" }) ∷ []

  -- A strict router takes the place of the target, which goes to the end of the routes.
  abbrev pub route_ack : Option Url → List (Option Address) → Option Routing
  unfolding get_addr
  route_ack none [] = some record { hop = none; ruri = none; routes = [] }
  route_ack (some u) [] =
      some record { hop = some (get_addr default_port u); ruri = some u; routes = [] }
  route_ack target (none ∷ rest) = none
  route_ack target (some r0 ∷ rest) = some (
      if r0.url.lr
      then record {
        hop = some (get_addr default_port r0.url);
        ruri = target;
        routes = some r0 ∷ rest;
      }
      else record {
        hop = some (get_addr default_port r0.url);
        ruri = some r0.url;
        routes = rest ++ target_route target;
      })

  abbrev routing_to : Option HostPort → List (Option Address) → Option (Option Url) → Option Routing
  routing_to proxy rrs none = none
  routing_to proxy rrs (some target) = route_ack target (with_proxy proxy (reverse rrs))

  abbrev given_or : Option AckParams → Option (Option Url) → Option Routing → Option Routing
  given_or p none found = none
  given_or none (some target) found = found
  given_or (some p) (some target) found =
      some record { hop = p.address; ruri = none; routes = p.routes }

  -- the routing of the ACK for a response below 300; none on a parse error
  unfoldable pub ack_routing : Client → TrResponse → Option Routing
  ack_routing t resp =
      let target = contact_of resp.msg.contacts in
      given_or t.ack_params target (routing_to t.outbound_proxy resp.msg.record_routes target)

  abbrev or_ruri : Option Url → Option Url → Option Url
  or_ruri none old = old
  or_ruri (some u) old = some u

  abbrev pub routed : Routing → Client → TrRequest → TrRequest
  routed r t ack = record ack {
    ruri = or_ruri r.ruri ack.ruri;
    headers = ack.headers ++ t.txn_headers;
    routes = r.routes;
  }

  -- a branch of its own for the ACK; none if its Via does not parse
  abbrev pub branched : String → TrRequest → Option Via → Option TrRequest
  branched branch ack none = none
  branched branch ack (some via) = some (record ack {
    msg = record (ack.msg) { via0 = some (record via { branch = some (some branch) }) };
  })

  abbrev hop_of : Option HostPort → Client → Option HostPort
  hop_of none t = t.base.address
  hop_of (some h) t = some h

  abbrev pub finish : Client → Client
  finish t = cleanup (act (tclient_del t.base.tid) t)

  -- The ACK is sent, or waits for the code above to send it.
  unfoldable pub acknowledge : String → Option HostPort → TrRequest → Client → Client
  acknowledge checksum hop ack t =
      if t.wants_uack
      then record t {
        ack = some ack;
        ack_addr = hop_of hop t;
        ack_checksum = checksum;
        te_g = some (64 * 1000);
        base = record (t.base) {
          state = uack;
          acts = cache_call_id checksum t.base.tid.call_id ∷ t.base.acts;
        };
      }
      else finish (
          act
            (transmit t.base.userv (some (request_out ack)) (hop_of hop t) checksum
              t.base.tid.call_id 0)
            (act_if t.has_before_request (before_request (some ack)) (record t { ack = some ack })))

  unfoldable pub acknowledge_branched :
      String → Option HostPort → TrRequest → Option TrRequest → Client → Client
  unfolding acknowledge
  acknowledge_branched checksum hop ack none t = record t { ack = some ack }
  acknowledge_branched checksum hop ack (some done) t = acknowledge checksum hop done t

  unfoldable pub acknowledge_2xx : String → String → TrRequest → Option Routing → Client → Client
  unfolding acknowledge_branched
  acknowledge_2xx branch checksum ack none t = record t { ack = some ack }
  acknowledge_2xx branch checksum ack (some r) t =
      acknowledge_branched checksum r.hop (routed r t ack)
        (branched branch (routed r t ack) ack.msg.via0) t

  -- the To tag of the response goes to the ACK; none on a parse error of either
  abbrev pub tag_ack : Option String → Option TrRequest → Option TrRequest
  tag_ack none ack = none
  tag_ack (some tag) none = none
  tag_ack (some tag) (some ack) = if is_empty tag then some ack else elim ack.msg.to_tag [
    | none ↦ none
    | some old ↦ some (record ack { msg = record (ack.msg) { to_tag = some tag } })
  ]

  unfoldable pub acknowledge_tagged :
      String → String → TrResponse → Option TrRequest → Client → Client
  unfolding acknowledge acknowledge_2xx ack_routing
  acknowledge_tagged branch checksum resp none t = t
  acknowledge_tagged branch checksum resp (some ack) t =
      if leb 200 resp.scode && ltb resp.scode 300
      then acknowledge_2xx branch checksum ack (ack_routing t resp) t
      else acknowledge checksum none ack t

  -- `process_final_response`; `branch` is what `GenBranch` makes
  unfoldable pub process_final : String → Bool → String → TrResponse → Client → Client
  unfolding acknowledge_tagged
  process_final branch set_uack checksum resp t =
      let heard = told set_uack resp t in
      if heard.base.needack
      then acknowledge_tagged branch checksum resp (tag_ack resp.msg.to_tag heard.ack) heard
      else finish (act (cache_call_id checksum heard.base.tid.call_id) heard)
