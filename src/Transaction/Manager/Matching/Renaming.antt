-- ===== src/Transaction/Manager/Matching/Renaming.antt =====
-- What a final response of an INVITE leaves in the map of server transactions
-- (`SendResponseWithLossEmul` of sippy/server_transaction.go, `tserver_replace` of
-- sippy/sip_transaction_manager.go).
use go_b2bua.Prelude.{
  ℕ, Bool, true, false, not, ◌&&◌, ◌≡◌, refl, arith, String, Option, none, some, List, [], ◌∷◌,
  is_some, is_empty, ltb, if_lem, find, delete, store, find-store, ap, ◌∙◌,
}
use go_b2bua.Sip.{HostPort}
use go_b2bua.Transaction.Message.{Via, t_addr, Tid, Tid-discrete, Rtid, TrResponse}
use go_b2bua.Transaction.Cache.{Packet, response_out}
use go_b2bua.Transaction.Base.{
  Act, transmit, cache_put, tserver_del, tserver_replace, rtid_replace, before_response,
}
use go_b2bua.Transaction.Server.{Server, is_open}
use go_b2bua.Transaction.Server.Sending.{
  ends_here, send_response, send_tagged, prepare, deliver, emit, conclude, send_now, final_tid,
  tagged, with_to_tag,
}
use go_b2bua.Transaction.Manager.{
  Manager, transmit_data, apply_act, apply_acts, save_server, replace_rtid,
}

abbrev pub TidMap : Type 0
TidMap = List (Tid × ℕ)

-- what the acts of the transaction with this reference leave in the map of server transactions
abbrev pub tserver_after : ℕ → List Act → TidMap → TidMap
tserver_after ref [] l = l
tserver_after ref (tserver_del tid ∷ acts) l = delete Tid-discrete tid (tserver_after ref acts l)
tserver_after ref (tserver_replace old new ∷ acts) l =
    store Tid-discrete new ref (delete Tid-discrete old (tserver_after ref acts l))
tserver_after ref (a ∷ acts) l = tserver_after ref acts l

transmit_data-tserver :
    (userv : Option ℕ) (packet : Option Packet) (address : Option HostPort) (sum call_id : String)
    (n : ℕ) (m : Manager)
    → (transmit_data userv packet address sum call_id n m).tserver ≡ m.tserver
unfolding transmit_data
transmit_data-tserver userv packet address sum call_id n m = ground arith

replace_rtid-tserver :
    (key : Rtid) (old new : Tid) (m : Manager) → (replace_rtid key old new m).tserver ≡ m.tserver
unfolding replace_rtid
replace_rtid-tserver key old new m = ground arith

act-tserver :
    (ref : ℕ) (a : Act) (acts : List Act) (l : TidMap) (m : Manager)
    → m.tserver ≡ tserver_after ref acts l
    → (apply_act ref a m).tserver ≡ tserver_after ref (a ∷ acts) l
unfolding apply_act
act-tserver ref (transmit userv packet address sum call_id n) acts l m e =
    transmit_data-tserver (some userv) packet address sum call_id n m ∙ e
act-tserver ref (tserver_del tid) acts l m e = ap (delete Tid-discrete tid) e
act-tserver ref (tserver_replace old new) acts l m e =
    ap (λ x. store Tid-discrete new ref (delete Tid-discrete old x)) e
act-tserver ref (rtid_replace key old new) acts l m e = replace_rtid-tserver key old new m ∙ e
act-tserver ref (cache_put sum x) acts l m e = e
act-tserver ref a acts l m e = e

acts-tserver :
    (ref : ℕ) (acts : List Act) (m : Manager)
    → (apply_acts ref acts m).tserver ≡ tserver_after ref acts m.tserver
unfolding apply_acts
acts-tserver ref [] m = refl
acts-tserver ref (a ∷ acts) m =
    act-tserver ref a acts m.tserver (apply_acts ref acts m) (acts-tserver ref acts m)

-- The map has the transaction under the TID that it takes with its final response.
abbrev pub IsRenamed : ℕ → String → Tid → TidMap → Server → Type 0
IsRenamed ref tag tid l s =
    find Tid-discrete (final_tid tag tid) (tserver_after ref s.base.acts l) ≡ some ref

conclude-IsRenamed :
    (has_ack : Bool) (ref : ℕ) (resp : TrResponse) (tag : String) (s : Server) (l : TidMap)
    → s.base.needack ≡ true
    → ltb resp.scode 200 ≡ false
    → resp.msg.to_tag ≡ some tag
    → IsRenamed ref tag s.base.tid l (conclude has_ack resp s)
unfolding conclude
conclude-IsRenamed has_ack ref resp tag s l needs final tagged =
    rw (final, needs, tagged) (find-store Tid-discrete (final_tid tag s.base.tid) ref _)

send_now-IsRenamed :
    (n ref : ℕ) (resp : TrResponse) (tag : String) (tid : Tid) (s : Server) (l : TidMap)
    → IsRenamed ref tag tid l s
    → IsRenamed ref tag tid l (send_now n resp s)
unfolding send_now
send_now-IsRenamed n ref resp tag tid s l h =
    if_lem (IsRenamed ref tag tid l) s.has_before_response (λ _. h) (λ _. h)

module _ (default_port : String) (has_ack : Bool) (n ref : ℕ) (resp : TrResponse)
    (tag : String) where
  emit-IsRenamed :
      (via : Via) (s : Server) (l : TidMap)
      → s.base.needack ≡ true
      → ltb resp.scode 200 ≡ false
      → resp.msg.to_tag ≡ some tag
      → IsRenamed ref tag s.base.tid l (emit default_port has_ack n resp (some via) s)
  unfolding emit
  emit-IsRenamed via s l needs final tagged =
      let s' = record s { base = record (s.base) { address = some (t_addr default_port via) } } in
      if_lem (IsRenamed ref tag s.base.tid l) (ends_here resp s) (λ over. absurd (ended over))
        (λ _.
          send_now-IsRenamed n ref resp tag s.base.tid (conclude has_ack resp s') l
            (conclude-IsRenamed has_ack ref resp tag s' l needs final tagged))
    where
      ended : ends_here resp s ≡ true → ⊥
      ended over = ground arith

  deliver-IsRenamed :
      (s : Server) (l : TidMap)
      → is_some resp.msg.via0 ≡ true
      → s.base.needack ≡ true
      → ltb resp.scode 200 ≡ false
      → resp.msg.to_tag ≡ some tag
      → IsRenamed ref tag s.base.tid l (deliver default_port has_ack (some (resp, n), s))
  unfolding deliver
  deliver-IsRenamed s l has needs final tagged = by resp.msg.via0 has
    where
      s' : Server
      s' = record s {
        base = record (s.base) {
          packet = some (response_out resp);
          acts = before_response resp ∷ s.base.acts;
        };
      }

      by :
          (via : Option Via)
          → is_some via ≡ true
          → IsRenamed ref tag s.base.tid l (emit default_port has_ack n resp via s')
      by none e = cc
      by (some via) e = emit-IsRenamed via s' l needs final tagged

  prepare-final : (s : Server) → ltb resp.scode 200 ≡ false → prepare n resp s ≡ (some (resp, n), s)
  unfolding prepare
  prepare-final s final = ground arith

tagged-final :
    (fresh : String) (resp : TrResponse) (tag : String)
    → ltb resp.scode 200 ≡ false
    → resp.msg.to_tag ≡ some tag
    → is_empty tag ≡ false
    → tagged fresh resp ≡ some (with_to_tag tag resp)
tagged-final fresh resp tag final has filled = ground arith

pub send_response-IsRenamed :
    (default_port fresh : String) (has_ack : Bool) (n ref : ℕ) (resp : TrResponse) (tag : String)
    (s : Server) (l : TidMap)
    → s.base.linked ≡ true
    → s.base.needack ≡ true
    → ltb resp.scode 200 ≡ false
    → resp.msg.to_tag ≡ some tag
    → is_empty tag ≡ false
    → is_some resp.msg.via0 ≡ true
    → IsRenamed ref tag s.base.tid l (send_response default_port fresh false has_ack n resp s)
unfolding send_response send_tagged
send_response-IsRenamed default_port fresh has_ack n ref resp tag s l linked needs final has filled
      at =
    if_lem (IsRenamed ref tag s.base.tid l) s.base.linked
      (λ _. rw (tagged-final fresh resp tag final has filled) (
        if_lem
          (λ x.
            IsRenamed ref tag s.base.tid l
              (deliver default_port has_ack (prepare n (with_to_tag tag resp) x)))
          (not (is_open s.base.state) && not false) (λ _. sent _ needs) (λ _. sent s needs)))
      (λ f. cc linked)
  where
    sent :
        (x : Server)
        → x.base.needack ≡ true
        → IsRenamed ref tag x.base.tid l
            (deliver default_port has_ack (prepare n (with_to_tag tag resp) x))
    sent x e = rw (prepare-final default_port has_ack n ref (with_to_tag tag resp) tag x final) (
        deliver-IsRenamed default_port has_ack n ref (with_to_tag tag resp) tag x l at e final refl)

transmit_data-locked :
    (userv : Option ℕ) (packet : Option Packet) (address : Option HostPort) (sum call_id : String)
    (n : ℕ) (m : Manager)
    → (transmit_data userv packet address sum call_id n m).tserver_locked ≡ m.tserver_locked
unfolding transmit_data
transmit_data-locked userv packet address sum call_id n m = ground arith

replace_rtid-locked :
    (key : Rtid) (old new : Tid) (m : Manager)
    → (replace_rtid key old new m).tserver_locked ≡ m.tserver_locked
unfolding replace_rtid
replace_rtid-locked key old new m = ground arith

act-locked :
    (ref : ℕ) (a : Act) (m : Manager) → (apply_act ref a m).tserver_locked ≡ m.tserver_locked
unfolding apply_act
act-locked ref (transmit userv packet address sum call_id n) m =
    transmit_data-locked (some userv) packet address sum call_id n m
act-locked ref (rtid_replace key old new) m = replace_rtid-locked key old new m
act-locked ref a m = refl

acts-locked :
    (ref : ℕ) (acts : List Act) (m : Manager)
    → (apply_acts ref acts m).tserver_locked ≡ m.tserver_locked
unfolding apply_acts
acts-locked ref [] m = refl
acts-locked ref (a ∷ acts) m = act-locked ref a (apply_acts ref acts m) ∙ acts-locked ref acts m

pub save_server-tserver :
    (ref : ℕ) (s : Server) (m : Manager)
    → (save_server ref s m).tserver ≡ tserver_after ref s.base.acts m.tserver
unfolding save_server
save_server-tserver ref s m = acts-tserver ref s.base.acts _

pub save_server-locked :
    (ref : ℕ) (s : Server) (m : Manager) → (save_server ref s m).tserver_locked ≡ m.tserver_locked
unfolding save_server
save_server-locked ref s m = acts-locked ref s.base.acts _
