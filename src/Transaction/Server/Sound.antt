-- ===== src/Transaction/Server/Sound.antt =====
-- The timers of a server transaction (sippy/server_transaction.go): timer D bounds timer A, and
-- nothing runs once the transaction is over.
pub mod Sending
pub mod Handlers
pub mod Steps
use text.Mathlib.Text.{◌==◌ as str_eq}
use go_b2bua.Prelude.{
  ℕ, ◌-◌, Bool, true, false, not, ◌&&◌, String, Option, none, some, List, [], ◌∷◌, ◌≡◌, ◌∙◌, refl,
  inl, inr, arith, Bool-cases, ltb, is_some, ◌*◌, ◌==◌, if◌then◌else◌, if_lem,
}
use go_b2bua.Transaction.Message.{
  Via, Rtid, Tid, TrRequest, TrResponse, t_addr, get_tid, response_rtid, request_rtid, gen_response,
}
use go_b2bua.Transaction.Cache.{response_out}
use go_b2bua.Transaction.Base.{
  Act, Base, base_cleanup, timer_a, own_before_response, before_response, log_error, noack_cb,
  noprack_cb, tserver_del, transmit, cancel_cb, ack_cb, prack_cb, rtid_del, confirmed, enter,
  cancel_te_a,
}
use go_b2bua.Transaction.Server.{
  start_timers, fresh_server, Prov, Server, is_completed, cancel_te_e, act, call_if, cleanup,
  on_base, timer_d, is_open, is_ringing, is_confirmed,
}
use go_b2bua.Transaction.Server.Sending.{
  Prepared, prov_timer_of, rearm, free_prov, left_over, start_prov, register, numbered, conclude,
  emit, prepare, make_reliable, send_now, ends_here, deliver, send_tagged, tagged, send_response,
  retr_uas_response, prov_timer,
}
use go_b2bua.Transaction.Server.Handlers.{
  send_487, reply_to, or_same, cancel_open, confirm, accept_prack, expired, prack_by, is_in_flight,
  do_cancel, incoming_again, incoming_cancel, incoming_ack, incoming_prack, incoming_request,
  timer_e,
}
use go_b2bua.Transaction.Server.Steps.{
  Input, send, receive, fire_a, fire_d, fire_e, fire_prov, step, steps,
}

-- Timer A runs beside timer D only, timer D runs for a request that wants an ACK only, and a
-- transaction that is over has neither a timer of these nor a callback.
pub record IsSound (s : Server) : Type 0 where
  pub bounded : is_some s.base.te_a ≡ true → is_some s.te_d ≡ true
  pub invites : is_some s.te_d ≡ true → s.base.needack ≡ true
  pub quiet_a : s.base.linked ≡ false → is_some s.base.te_a ≡ false
  pub quiet_d : s.base.linked ≡ false → is_some s.te_d ≡ false
  pub quiet_e : s.base.linked ≡ false → is_some s.te_e ≡ false
  pub uncalled : s.base.linked ≡ false → s.has_noprack_cb ≡ false

cleanup-IsSound : (s : Server) → IsSound (cleanup s)
unfolding cleanup base_cleanup
cleanup-IsSound s = record {
  bounded = λ h. ground arith;
  invites = λ h. ground arith;
  quiet_a = λ h. refl;
  quiet_d = λ h. refl;
  quiet_e = λ h. refl;
  uncalled = λ h. refl;
}

cleanup_if-IsSound : (b : Bool) (s : Server) → IsSound s → IsSound (if b then cleanup s else s)
cleanup_if-IsSound true s h = cleanup-IsSound s
cleanup_if-IsSound false s h = h

-- what leaves the timers, the callback and the link alone
abbrev IsSameLife : Server → Server → Type 0
IsSameLife s t =
    (t.base.linked ≡ s.base.linked)
    × (t.base.needack ≡ s.base.needack)
    × (t.base.te_a ≡ s.base.te_a)
    × (t.te_d ≡ s.te_d)
    × (t.te_e ≡ s.te_e)
    × (t.has_noprack_cb ≡ s.has_noprack_cb)

same-IsSound : (s t : Server) → IsSameLife s t → IsSound s → IsSound t
same-IsSound s t (l, n, a, d, e, c) h = record {
  bounded = rw (a, d) h.bounded;
  invites = rw (n, d) h.invites;
  quiet_a = rw (l, a) h.quiet_a;
  quiet_d = rw (l, d) h.quiet_d;
  quiet_e = rw (l, e) h.quiet_e;
  uncalled = rw (l, c) h.uncalled;
}

call_if-same : (b : Bool) (a : Act) (s : Server) → IsSameLife s (call_if b a s)
call_if-same true a s = (refl, refl, refl, refl, refl, refl)
call_if-same false a s = (refl, refl, refl, refl, refl, refl)

true-not-false : {b : Bool} → b ≡ true → b ≡ false → ⊥
true-not-false p q = cc (p, q)

linked-IsSound :
    (s : Server)
    → s.base.linked ≡ true
    → (is_some s.base.te_a ≡ true → is_some s.te_d ≡ true)
    → (is_some s.te_d ≡ true → s.base.needack ≡ true)
    → IsSound s
linked-IsSound s l b n = record {
  bounded = b;
  invites = n;
  quiet_a = λ u. absurd (true-not-false l u);
  quiet_d = λ u. absurd (true-not-false l u);
  quiet_e = λ u. absurd (true-not-false l u);
  uncalled = λ u. absurd (true-not-false l u);
}

-- a call, of the manager or of a callback
call-IsSound : (b : Bool) (a : Act) (s : Server) → IsSound s → IsSound (call_if b a s)
call-IsSound b a s h = same-IsSound s (call_if b a s) (call_if-same b a s) h

act-IsSound : (a : Act) (s : Server) → IsSound s → IsSound (act a s)
act-IsSound a s h = same-IsSound s (act a s) (refl, refl, refl, refl, refl, refl) h
