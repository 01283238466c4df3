-- ===== src/Ua/Keepalive.antt =====
-- One controller of the keepalives of a connected call (sippy/keepalive_controller.go). A user agent
-- that comes to the connected state again makes another one.
pub mod OneByOne
use go_b2bua.Prelude.{
  ℕ, suc, ◌+◌, ◌≤◌, Bool, true, false, not, ◌&&◌, ◌||◌, Option, none, some, List, [], ◌∷◌, ◌≡◌,
  refl, arith, ltb, ◌==◌, is_empty, length, if_lem, if◌then◌else◌,
}
use go_b2bua.Sip.{Challenge, Header, OutRequest, invite}
use go_b2bua.Ua.State.{Ua, UaStateId, state_id, ua_state_connected, cancel_transaction}
use go_b2bua.Ua.Routing.{emit, gen_request}
use go_b2bua.Ua.Exec.{begin_client}
use go_b2bua.Ua.Core.Events.{disconnect}

-- A timeout that runs, with its nanoseconds: the next keepalive, or the end of the call.
pub data KaTimeout : Type 0 where
  probe hang_up : ℕ → KaTimeout

-- one `keepaliveController`, with its timeouts
pub record Keepalive : Type 0 where
  pub ua : Ua
  pub triedauth : Bool
  pub has_ka_tr : Bool
  pub keepalives : ℕ
  pub pending : List KaTimeout

-- `newKeepaliveController`
unfoldable pub new_keepalive : Ua → Option Keepalive
new_keepalive u =
    if ltb 0 u.opts.ka_interval
    then some record { ua = u; triedauth = false; has_ka_tr = false; keepalives = 0; pending = [] }
    else none

-- `Start`
abbrev pub start : Keepalive → Keepalive
start k = record k { pending = probe k.ua.opts.ka_interval ∷ k.pending }

abbrev pub is_connected : UaStateId → Bool
is_connected ua_state_connected = true
is_connected _ = false

-- whether `PrepTr` makes a transaction
abbrev pub is_prepared : Ua → Bool
is_prepared u = u.has_tm && not u.world.tm_refuses

-- The request goes out if it was made; `again` says that it answers a challenge.
unfoldable pub send_probe : Bool → Option OutRequest × Ua → Keepalive → Keepalive
send_probe again (none, u) k = record k { ua = u }
send_probe again (some q, u) k =
    if is_prepared u
    then record k { ua = begin_client q u; has_ka_tr = true; triedauth = again }
    else record k { ua = u; has_ka_tr = false; triedauth = if again then k.triedauth else false }

-- `keepAlive`
unfoldable pub keep_alive : Keepalive → Keepalive
unfolding send_probe
keep_alive k =
    let sent = send_probe false (gen_request invite k.ua.media.l_sdp none [] k.ua) k in
    if is_connected (state_id k.ua.state) then sent else k

abbrev first_challenge : List Challenge → Option Challenge
first_challenge [] = none
first_challenge (c ∷ cs) = some c

-- the challenge that is answered
abbrev pub challenge_of : ℕ → List Challenge → List Challenge → Keepalive → Option Challenge
challenge_of code www proxy k =
    if not (is_empty k.ua.opts.username) && (not (is_empty k.ua.opts.password) && not k.triedauth)
    then (if code == 401
        then first_challenge www
        else (if code == 407 then first_challenge proxy else none))
    else none

-- The INVITE that answers a challenge, without a credential if none can be made for it.
abbrev pub answer_challenge : Option Header → Keepalive → Keepalive
answer_challenge auth k = send_probe true (gen_request invite k.ua.media.l_sdp auth [] k.ua) k

-- 408, 481 and 486
abbrev pub is_refusal : ℕ → Bool
is_refusal code = code == 408 || (code == 481 || code == 486)

abbrev pub drop_call : Keepalive → Keepalive
drop_call k = record k { ua = disconnect none "" k.ua }

-- the other side does not keep the call alive
abbrev pub refused : Keepalive → Keepalive
refused k =
    let ended = drop_call k in
    if k.keepalives == 1 then record k { pending = hang_up 600 ∷ k.pending } else ended

unfoldable pub take_response : ℕ → Option Challenge → Keepalive → Keepalive
take_response code (some c) k = answer_challenge c.auth k
take_response code none k =
    let final : Keepalive = record k { has_ka_tr = false; keepalives = suc k.keepalives } in
    let gave_up = refused final in
    if ltb code 200 then k else (if is_refusal code then gave_up else start final)

-- `RecvResponse`, with the challenges of a 401 and of a 407
unfoldable pub recv_response : ℕ → List Challenge → List Challenge → Keepalive → Keepalive
unfolding take_response
recv_response code www proxy k =
    let taken = take_response code (challenge_of code www proxy k) k in
    if is_connected (state_id k.ua.state) then taken else k

-- `Stop`
unfoldable pub stop : Keepalive → Keepalive
stop k =
    if k.has_ka_tr
    then record k { ua = emit (cancel_transaction []) k.ua; has_ka_tr = false }
    else k

-- a timeout runs out
unfoldable pub fire : List KaTimeout → Keepalive → Keepalive
unfolding keep_alive
fire [] k = k
fire (probe t ∷ ts) k = keep_alive (record k { pending = ts })
fire (hang_up t ∷ ts) k = drop_call (record k { pending = ts })

-- What happens to the controller until it is stopped: a response comes to the transaction that runs,
-- the latest timeout runs out, or the user agent changes. `Stop` leaves the timeouts running.
pub data KaInput : Type 0 where
  response : ℕ → List Challenge → List Challenge → KaInput
  timeout : KaInput
  ua_becomes : Ua → KaInput

unfoldable pub ka_step : KaInput → Keepalive → Keepalive
unfolding recv_response fire
ka_step (response code www proxy) k =
    let received = recv_response code www proxy k in if k.has_ka_tr then received else k
ka_step timeout k = fire k.pending k
ka_step (ua_becomes u) k = record k { ua = u }

-- the latest input comes first
unfoldable pub ka_steps : List KaInput → Keepalive → Keepalive
unfolding ka_step
ka_steps [] k = k
ka_steps (i ∷ is) k = ka_step i (ka_steps is k)
