-- ===== src/Ua/Exec.antt =====
-- A handler of a state: statements over the user agent, ended by a `return`. What was written
-- before the `return` stays written.
pub mod Keeps
use go_b2bua.Prelude.{
  ℕ, ◌+◌, Bool, true, false, not, ◌&&◌, String, Option, none, some, List, [], ◌∷◌, ◌++◌,
  if◌then◌else◌,
}
use go_b2bua.Sip.{Method, Body, Header, OutRequest}
use go_b2bua.Event.{CcEvent, Kind, new_event}
use go_b2bua.Ua.State.{
  UaState, Callback, begin_transaction, begin_refer_transaction, begin_client_transaction, Ua,
}
use go_b2bua.Ua.Routing.{emit, log, gen_request}

-- The values of a `return`: the new state (nil: no change), the callback that `ChangeState` is to
-- run, and whether an error came with them.
pub record Ret : Type 0 where
  pub newstate : Option UaState
  pub cb : Option Callback
  pub failed : Bool

pub data Outcome (A : Type 0) : Type 0 where
  next : A → Outcome A
  exit : Ret → Outcome A

abbrev pub Exec : Type 0 → Type 0
Exec A = Ua → Outcome A × Ua

module _ {A B : Type 0} where
  abbrev pub continue : Outcome A → (A → Exec B) → Exec B
  continue (next a) f u = f a u
  continue (exit r) f u = (exit r, u)

  infixl 5 ◌>>=◌ ◌>>◌
  unfoldable pub ◌>>=◌ : Exec A → (A → Exec B) → Exec B
  ◌>>=◌ m f u = let (r, u') = m u in continue r f u'

  abbrev pub ◌>>◌ : Exec A → Exec B → Exec B
  m >> n = m >>= λ _. n

unfoldable pub modify : (Ua → Ua) → Exec (Unit {0})
modify f u = (next tt, f u)

unfoldable pub gets : {A : Type 0} → (Ua → A) → Exec A
gets f u = (next (f u), u)

unfoldable pub ret : {A : Type 0} → Ret → Exec A
ret r u = (exit r, u)

-- `return nil, nil`
abbrev pub no_change : Ret
no_change = record { newstate = none; cb = none; failed = false }

-- `return nil, nil, err`
abbrev pub with_error : Ret
with_error = record { newstate = none; cb = none; failed = true }

abbrev pub stay : {A : Type 0} → Exec A
stay = ret no_change

abbrev pub go_to : {A : Type 0} → UaState → Exec A
go_to s = ret (record { newstate = some s; cb = none; failed = false })

abbrev pub go_to_with : {A : Type 0} → UaState → Callback → Exec A
go_to_with s cb = ret (record { newstate = some s; cb = some cb; failed = false })

abbrev pub skip : Exec (Unit {0})
skip = modify λ u. u

-- `if c { … }`
abbrev pub when : Bool → Exec (Unit {0}) → Exec (Unit {0})
when c m = if c then m else skip

-- `x, err := e.GetBody(); if err != nil { log; return nil, nil }`
unfoldable pub parse : {A : Type 0} → String → Option A → Exec A
parse message none = modify (log message) >> stay
parse message (some a) = gets λ u. a

-- An event made here takes the next number of the global counter.
unfoldable pub make_event : ℕ → String → Kind → Exec CcEvent
make_event rtime origin kind u =
    (next (new_event u.next_seq rtime origin kind), record u { next_seq = u.next_seq + 1 })

-- `Enqueue`
unfoldable pub enqueue : CcEvent → Ua → Ua
enqueue e u = record u { equeue = u.equeue ++ (e ∷ []) }

-- `GenRequest`, where the caller logs the error and returns, or returns it
abbrev pub requested : Ret → String → Option OutRequest × Ua → Outcome OutRequest × Ua
requested r message (none, u) = (exit r, if r.failed then u else log message u)
requested r message (some q, u) = (next q, u)

unfoldable pub request : Ret → String → Method → Option Body → List Header → Exec OutRequest
unfolding gen_request
request r message method body eh u = requested r message (gen_request method body none eh u)

-- `BeginNewClientTransaction` and `BeginClientTransaction`: nothing when the user agent is dead;
-- the first one creates the transaction, and logs the refusal
unfoldable pub begin_new : OutRequest → Ua → Ua
unfolding emit log
begin_new q u =
    if not u.has_tm
    then u
    else if u.world.tm_refuses
    then log "CreateClientTransaction" u
    else emit (begin_transaction q) u

unfoldable pub begin_new_refer : OutRequest → Ua → Ua
unfolding emit log
begin_new_refer q u =
    if not u.has_tm
    then u
    else if u.world.tm_refuses
    then log "CreateClientTransaction" u
    else emit (begin_refer_transaction q) u

unfoldable pub begin_client : OutRequest → Ua → Ua
unfolding emit
begin_client q u = if u.has_tm then emit (begin_client_transaction q) u else u

-- `req.AppendHeader(h)`
abbrev pub append_header : Header → OutRequest → OutRequest
append_header h q = record q { headers = q.headers ++ (h ∷ []) }

-- `PrepTr`: an error when the user agent is dead or the transaction manager refuses
unfoldable pub prep_tr : Ret → Exec (Unit {0})
prep_tr r u = if u.has_tm && not u.world.tm_refuses then (next tt, u) else (exit r, u)
