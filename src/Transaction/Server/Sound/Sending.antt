-- ===== src/Transaction/Server/Sound/Sending.antt =====
-- The timers while a server transaction sends a response (sippy/server_transaction.go).
use go_b2bua.Prelude.{
  ℕ, ◌-◌, Bool, true, false, not, ◌&&◌, String, Option, none, some, ◌≡◌, ◌∙◌, refl, arith, ltb, ◌*◌,
  ◌==◌, if_lem,
}
use go_b2bua.Transaction.Message.{Via, Rtid, Tid, TrResponse, t_addr, get_tid, response_rtid}
use go_b2bua.Transaction.Cache.{response_out}
use go_b2bua.Transaction.Base.{own_before_response, before_response, log_error, noprack_cb}
use go_b2bua.Transaction.Server.{Prov, Server, act, call_if, on_base, is_open, is_ringing}
use go_b2bua.Transaction.Server.Sending.{
  Prepared, prov_timer_of, rearm, free_prov, left_over, start_prov, register, numbered, conclude,
  emit, prepare, make_reliable, send_now, ends_here, deliver, send_tagged, tagged, send_response,
  retr_uas_response,
}
use go_b2bua.Transaction.Server.Sound.{
  IsSound, IsSameLife, cleanup_if-IsSound, same-IsSound, call_if-same, call-IsSound, act-IsSound,
}

conclude-IsSound :
    (has_ack : Bool) (resp : TrResponse) (s : Server)
    → s.base.linked ≡ true
    → IsSound s
    → IsSound (conclude has_ack resp s)
unfolding conclude
conclude-IsSound has_ack resp s l h = record {
  bounded = ground (arith, h.bounded);
  invites = ground (arith, h.invites);
  quiet_a = ground (arith, l);
  quiet_d = ground (arith, l);
  quiet_e = ground (arith, l);
  uncalled = ground (arith, l);
}

start_prov-same :
    (n : ℕ) (rtid : Rtid) (p : Option Prov) (s : Server) → IsSameLife s (start_prov n rtid p s)
unfolding start_prov
start_prov-same n rtid none s = (refl, refl, refl, refl, refl, refl)
start_prov-same n rtid (some p) s = (refl, refl, refl, refl, refl, refl)

register-same :
    (n : ℕ) (resp : TrResponse) (tid : Option Tid) (rtid : Option Rtid) (s : Server)
    → IsSameLife s (register n resp tid rtid s).1
unfolding register
register-same n resp (some tid) (some rtid) s = start_prov-same (n - 1) rtid s.prov_inflight s
register-same n resp (some tid) none s = (refl, refl, refl, refl, refl, refl)
register-same n resp none rtid s = (refl, refl, refl, refl, refl, refl)

prepare-same : (n : ℕ) (resp : TrResponse) (s : Server) → IsSameLife s (prepare n resp s).1
unfolding prepare make_reliable
prepare-same n resp s =
    if_lem (λ (r : Prepared). IsSameLife s r.1)
      (s.pr_rel && (ltb 100 resp.scode && ltb resp.scode 200))
      (λ _.
        register-same n (numbered s.rseq resp) (get_tid false true false (numbered s.rseq resp).msg)
          (response_rtid (numbered s.rseq resp).msg) (record s { rseq = ℕ.suc s.rseq }))
      (λ _. (refl, refl, refl, refl, refl, refl))

send_now-same : (n : ℕ) (resp : TrResponse) (s : Server) → IsSameLife s (send_now n resp s)
unfolding send_now
send_now-same n resp s = call_if-same s.has_before_response (own_before_response resp) s

emit-IsSound :
    (default_port : String) (has_ack : Bool) (n : ℕ) (resp : TrResponse) (via : Option Via)
    (s : Server)
    → s.base.linked ≡ true
    → IsSound s
    → IsSound (emit default_port has_ack n resp via s)
unfolding emit
emit-IsSound default_port has_ack n resp none s l h = h
emit-IsSound default_port has_ack n resp (some via) s l h =
    let addressed = on_base (λ b. record b { address = some (t_addr default_port via) }) s in
    let concluded = conclude has_ack resp addressed in
    cleanup_if-IsSound (ends_here resp s) (send_now n resp concluded) (
      same-IsSound concluded (send_now n resp concluded) (send_now-same n resp concluded) (
        conclude-IsSound has_ack resp addressed l
          (same-IsSound s addressed (refl, refl, refl, refl, refl, refl) h)))

deliver-IsSound :
    (default_port : String) (has_ack : Bool) (resp : Option (TrResponse × ℕ)) (s : Server)
    → s.base.linked ≡ true
    → IsSound s
    → IsSound (deliver default_port has_ack (resp, s))
unfolding deliver
deliver-IsSound default_port has_ack none s l h = h
deliver-IsSound default_port has_ack (some (resp, n)) s l h =
    emit-IsSound default_port has_ack n resp resp.msg.via0
      (on_base (λ b. record b { packet = some (response_out resp) }) (act (before_response resp) s))
      l
      (same-IsSound s
        (on_base (λ b. record b { packet = some (response_out resp) })
          (act (before_response resp) s))
        (refl, refl, refl, refl, refl, refl) h)

send_tagged-IsSound :
    (default_port : String) (has_ack : Bool) (n : ℕ) (resp : Option TrResponse) (s : Server)
    → s.base.linked ≡ true
    → IsSound s
    → IsSound (send_tagged default_port has_ack n resp s)
unfolding send_tagged
send_tagged-IsSound default_port has_ack n none s l h = h
send_tagged-IsSound default_port has_ack n (some resp) s l h =
    let same = prepare-same n resp s in
    deliver-IsSound default_port has_ack (prepare n resp s).0 (prepare n resp s).1 (same.0 ∙ l)
      (same-IsSound s (prepare n resp s).1 same h)

pub send_response-IsSound :
    (default_port fresh : String) (retrans has_ack : Bool) (n : ℕ) (resp : TrResponse) (s : Server)
    → IsSound s
    → IsSound (send_response default_port fresh retrans has_ack n resp s)
unfolding send_response
send_response-IsSound default_port fresh retrans has_ack n resp s h =
    let b = not (is_open s.base.state) && not retrans in
    let a = log_error "BUG: attempt to send reply on already finished transaction!!!" in
    let same = call_if-same b a s in
    if_lem IsSound s.base.linked
      (λ l.
        send_tagged-IsSound default_port has_ack n (tagged fresh resp) (call_if b a s) (same.0 ∙ l)
          (same-IsSound s (call_if b a s) same h))
      (λ _. h)

free_prov-same : (p : Option Prov) (s : Server) → IsSameLife s (free_prov p s)
free_prov-same none s = (refl, refl, refl, refl, refl, refl)
free_prov-same (some p) s =
    if_lem (IsSameLife s) s.base.linked (λ _. (refl, refl, refl, refl, refl, refl))
      (λ _. (refl, refl, refl, refl, refl, refl))

rearm-IsSound : (n m : ℕ) (p : Option Prov) (s : Server) → IsSound s → IsSound (rearm n m p s)
rearm-IsSound n m none s h = h
rearm-IsSound n m (some p) s h = same-IsSound s _ (refl, refl, refl, refl, refl, refl) h

retr_uas_response-IsSound : (n m : ℕ) (s : Server) → IsSound s → IsSound (retr_uas_response n m s)
unfolding retr_uas_response
retr_uas_response-IsSound n m s h =
    if_lem IsSound (ltb (16 * 1000) n)
      (λ _.
        call-IsSound (s.has_noprack_cb && is_ringing s.base.state) noprack_cb _
          (same-IsSound s _ (free_prov-same s.prov_inflight s) h))
      (λ _.
        rearm-IsSound (n * 2) (left_over s.base.linked m) s.prov_inflight _
          (if_lem IsSound (s.base.linked && m == 0) (λ _. act-IsSound _ s h) (λ _. h)))

pub prov_timer-IsSound : (p : Option Prov) (s : Server) → IsSound s → IsSound (prov_timer_of p s)
prov_timer-IsSound none s h = h
prov_timer-IsSound (some p) s h = retr_uas_response-IsSound p.last_timeout p.lossemul s h
