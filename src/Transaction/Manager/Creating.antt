-- ===== src/Transaction/Manager/Creating.antt =====
-- What holds of a client transaction that the manager makes (`CreateClientTransaction` and
-- `process_response` of sippy/sip_transaction_manager.go).
use mathlib.Core.Path.{subst}
use native.Mathlib.Decide.{ℕ_discrete}
use go_b2bua.Prelude.{
  ℕ, Bool, true, false, ◌≡◌, ◌≢◌, refl, String, Option, none, some, ◌||◌, is_some, if_lem, ltb,
  find, store, find-store, find-store_ne, ap, ◌∙◌,
}
use go_b2bua.Sip.{HostPort}
use go_b2bua.Transaction.Message.{Tid, Tid-discrete, get_tid, TrRequest, TrResponse}
use go_b2bua.Transaction.Client.{Client, new_client}
use go_b2bua.Transaction.Client.Handlers.{incoming_response}
use go_b2bua.Transaction.Manager.{Manager, run_client}
use go_b2bua.Transaction.Manager.Outgoing.{
  Created, created, create_client, create_with, register, transport_for,
}
use go_b2bua.Transaction.Manager.Env.{Env}
use go_b2bua.Transaction.Manager.Incoming.{
  process_response, response_by, deliver, deliver_to, deliver_if,
}

-- The client transaction is new under its TID, and every other TID is mapped as before.
abbrev pub IsFresh : Tid → ℕ → Manager → Manager → Type 0
IsFresh tid ref m m' =
    (find Tid-discrete tid m.tclient ≡ none)
    × (find Tid-discrete tid m'.tclient ≡ some ref)
    × ((q : Tid) → tid ≢ q → find Tid-discrete q m'.tclient ≡ find Tid-discrete q m.tclient)

none-of : {A : Type 0} (x : Option A) → is_some x ≡ false → x ≡ none
none-of none h = refl
none-of (some a) h = cc

register-IsFresh :
    (tid : Tid) (t : Option Client) (m : Manager) (ref : ℕ)
    → find Tid-discrete tid m.tclient ≡ none
    → (register tid t m).0 ≡ created ref
    → IsFresh tid ref m (register tid t m).1
register-IsFresh tid none m ref n e = cc
register-IsFresh tid (some t) m ref n e = (
  n,
  find-store Tid-discrete tid m.next_ref m.tclient ∙ cc,
  λ q d. find-store_ne Tid-discrete tid q m.next_ref m.tclient d,
)

create_with-IsFresh :
    (req : TrRequest) (target : HostPort) (b out_cb : Bool) (u : Option ℕ) (tid : Option Tid)
    (m : Manager) (ref : ℕ)
    → (create_with req target b out_cb u tid m).0 ≡ created ref
    → (t : Tid) × (tid ≡ some t) × IsFresh t ref m (create_with req target b out_cb u tid m).1
create_with-IsFresh req target b out_cb none tid m ref e = cc
create_with-IsFresh req target b out_cb (some u) none m ref e = cc
create_with-IsFresh req target b out_cb (some u) (some t) m ref e =
    if_lem
      (λ (r : Created × Manager).
        r.0 ≡ created ref → (t' : Tid) × (some t ≡ some t') × IsFresh t' ref m r.1)
      (is_some (find Tid-discrete t m.tclient)) (λ _ f. cc)
      (λ n f. (
        t,
        refl,
        register-IsFresh t (new_client req t u b (some target) out_cb) m ref (none-of _ n) f,
      ))
      e

-- The transaction map has the TID of the request now, under the new reference, and had nothing
-- under it; every other TID is mapped as before.
pub create_client-IsFresh :
    (server_for : HostPort → Bool → Option ℕ) (req : TrRequest) (target : HostPort)
    (has_receiver : Bool) (laddress : Option HostPort) (userv : Option ℕ) (out_cb : Bool)
    (m : Manager) (ref : ℕ)
    → (create_client server_for req target has_receiver laddress userv out_cb m).0 ≡ created ref
    → (t : Tid) × (get_tid true true false req.msg ≡ some t)
      × IsFresh t ref m (create_client server_for req target has_receiver laddress userv out_cb m).1
unfolding create_client
create_client-IsFresh server_for req target has_receiver laddress userv out_cb m ref e =
    create_with-IsFresh req target has_receiver out_cb
      (transport_for server_for userv laddress target) (get_tid true true false req.msg) m ref e

-- A manager with the client transaction in its store and its map, and no NAT traversal.
abbrev Holds : Tid → ℕ → Manager → Type 0
Holds tid ref m =
    (find Tid-discrete tid m.tclient ≡ some ref)
    × (is_some (find ℕ_discrete ref m.clients) ≡ true)
    × (m.nat_traversal ≡ false)

register-Holds :
    (tid : Tid) (t : Option Client) (m : Manager) (ref : ℕ)
    → m.nat_traversal ≡ false
    → (register tid t m).0 ≡ created ref
    → Holds tid ref (register tid t m).1
register-Holds tid none m ref n e = cc
register-Holds tid (some t) m ref n e = (
  find-store Tid-discrete tid m.next_ref m.tclient ∙ cc,
  subst (λ r. is_some (find ℕ_discrete r (store ℕ_discrete m.next_ref t m.clients)) ≡ true) (cc)
      (ap is_some (find-store ℕ_discrete m.next_ref t m.clients)),
  n,
)

create_with-Holds :
    (req : TrRequest) (target : HostPort) (b out_cb : Bool) (u : Option ℕ) (tid : Option Tid)
    (m : Manager) (ref : ℕ)
    → m.nat_traversal ≡ false
    → (create_with req target b out_cb u tid m).0 ≡ created ref
    → (t : Tid) × (tid ≡ some t) × Holds t ref (create_with req target b out_cb u tid m).1
create_with-Holds req target b out_cb none tid m ref h e = cc
create_with-Holds req target b out_cb (some u) none m ref h e = cc
create_with-Holds req target b out_cb (some u) (some t) m ref h e =
    if_lem
      (λ (r : Created × Manager).
        r.0 ≡ created ref → (t' : Tid) × (some t ≡ some t') × Holds t' ref r.1)
      (is_some (find Tid-discrete t m.tclient)) (λ _ f. cc)
      (λ n f. (t, refl, register-Holds t (new_client req t u b (some target) out_cb) m ref h f)) e

module _ (env : Env) (address : HostPort) (server : ℕ) (sum : String) (resp : TrResponse) where
  abbrev pub heard_by : ℕ → Manager → Manager
  heard_by ref m =
      run_client ref
        (incoming_response env.default_port env.fresh_branch env.set_uack sum
          (record resp { msg = record (resp.msg) { source = some address } }))
        m

  deliver_to-heard :
      (ref : ℕ) (t : Option Client) (m : Manager)
      → is_some t ≡ true
      → m.nat_traversal ≡ false
      → deliver_to env ref address sum resp t m ≡ heard_by ref m
  unfolding deliver_to deliver_if
  deliver_to-heard ref none m s n = cc
  deliver_to-heard ref (some t) m s n = rw n

  process_response-heard :
      (tid : Tid) (ref : ℕ) (m : Manager)
      → get_tid true true false resp.msg ≡ some tid
      → (ltb resp.scode 100 || ltb 999 resp.scode) ≡ false
      → Holds tid ref m
      → process_response env address server sum (some resp) m ≡ heard_by ref m
  unfolding process_response response_by deliver
  process_response-heard tid ref m g c h =
      rw (g, c, h.0) (deliver_to-heard ref (find ℕ_discrete ref m.clients) m h.1 h.2)

-- Where no NAT is traversed, a response to a request for which a client transaction was made gets
-- to that transaction, if it has a status code from 100 to 999
-- and the Call-ID, the CSeq, the From tag and the branch of the request; nothing else happens.
pub response-heard :
    (env : Env) (req : TrRequest) (target : HostPort) (has_receiver : Bool)
    (laddress : Option HostPort) (userv : Option ℕ) (out_cb : Bool) (address : HostPort)
    (server : ℕ) (sum : String) (resp : TrResponse) (m : Manager) (ref : ℕ)
    → m.nat_traversal ≡ false
    → (create_client env.server_for req target has_receiver laddress userv out_cb m).0 ≡ created ref
    → get_tid true true false resp.msg ≡ get_tid true true false req.msg
    → (ltb resp.scode 100 || ltb 999 resp.scode) ≡ false
    → process_response env address server sum
        (some resp)
        (create_client env.server_for req target has_receiver laddress userv out_cb m).1
      ≡ heard_by env address server sum resp ref
          (create_client env.server_for req target has_receiver laddress userv out_cb m).1
unfolding create_client
response-heard env req target has_receiver laddress userv out_cb address server sum resp m ref n e g
      c =
    let u = transport_for env.server_for userv laddress target in
    let (tid, same, holds) =
      create_with-Holds req target has_receiver out_cb u (get_tid true true false req.msg) m ref n
        e in
    process_response-heard env address server sum resp tid ref _ (g ∙ same) c holds
