-- ===== src/Transaction/Server/Steps.antt =====
-- The life of a server transaction as a sequence of what happens to it
-- (sippy/server_transaction.go).
use go_b2bua.Prelude.{ℕ, Bool, String, List, [], ◌∷◌, is_some, if◌then◌else◌}
use go_b2bua.Transaction.Message.{TrRequest, TrResponse}
use go_b2bua.Transaction.Base.{timer_a}
use go_b2bua.Transaction.Server.{Server, on_base, timer_d}
use go_b2bua.Transaction.Server.Sending.{send_response, prov_timer}
use go_b2bua.Transaction.Server.Handlers.{
  incoming_request, timer_e, setup_100rel, set_prack_cbs, set_cancel_cb, set_noack_cb,
  set_before_response,
}

-- A response that is sent comes with the tag that `GenTag` would make for it. A timer that does not
-- run does not run out. The code above sets callbacks and 100rel; those for a PRACK only on a
-- transaction that is not over, as `Ua.RecvRequest` does when it gets the INVITE.
pub data Input : Type 0 where
  send : String → Bool → Bool → ℕ → TrResponse → Input
  receive : String → TrRequest → String → Input
  fire_a fire_d fire_prov : Input
  fire_e : String → Input
  setup : TrRequest → Input
  prack_cbs : Bool → Bool → Input
  cancel_callback noack_callback response_callback : Bool → Input

module _ (default_port : String) where
  abbrev pub step : Input → Server → Server
  step (send fresh retrans has_ack lossemul resp) s =
      send_response default_port fresh retrans has_ack lossemul resp s
  step (receive fresh req checksum) s = incoming_request default_port fresh req checksum s
  step fire_a s = if is_some s.base.te_a then on_base timer_a s else s
  step fire_d s = if is_some s.te_d then timer_d s else s
  step fire_prov s = prov_timer s
  step (fire_e fresh) s = if is_some s.te_e then timer_e default_port fresh s else s
  step (setup req) s = setup_100rel req s
  step (prack_cbs prack noprack) s = if s.base.linked then set_prack_cbs prack noprack s else s
  step (cancel_callback set) s = set_cancel_cb set s
  step (noack_callback set) s = set_noack_cb set s
  step (response_callback set) s = set_before_response set s

  -- the latest input comes first
  abbrev pub steps : List Input → Server → Server
  steps [] s = s
  steps (i ∷ is) s = step i (steps is s)
