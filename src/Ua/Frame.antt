-- ===== src/Ua/Frame.antt =====
-- What no handler of a state changes: the state but for its own fields, what the call controller
-- got, and the order of the time stamps.
pub mod Timers
pub mod Effects
pub mod Statements
pub mod Uac
pub mod UacDialog
pub mod Uas
pub mod UasRinging
pub mod Dialog
pub mod Connected
use go_b2bua.Prelude.{ℕ, ◌≤◌, Option, some, List, [], ◌∷◌, ◌≡◌, Bool}
use go_b2bua.Event.{CcEvent}
use go_b2bua.Ua.State.{UaStateId, state_id, Effect, controller, Ua}

-- the events that the call controller got, the latest first
abbrev pub delivered : List Effect → List CcEvent
delivered [] = []
delivered (controller e ∷ out) = e ∷ delivered out
delivered (x ∷ out) = delivered out

-- a call is not connected after its end
abbrev pub Ordered : Option ℕ → Option ℕ → Type 0
Ordered (some c) (some d) = c ≤ d
Ordered _ _ = Unit

pub record Frame (v u : Ua) : Type 0 where
  pub id_same : state_id u.state ≡ state_id v.state
  pub elast_same : u.elast_seq ≡ v.elast_seq
  pub sent_same : delivered u.out ≡ delivered v.out
  pub tm_same : u.has_tm ≡ v.has_tm
  pub controller_same : u.has_controller ≡ v.has_controller
  pub ordered : Ordered u.stamps.connect_ts u.stamps.disconnect_ts
