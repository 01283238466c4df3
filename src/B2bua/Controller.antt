-- ===== src/B2bua/Controller.antt =====
-- The handlers of the call controller (cmd/b2bua_radius/call_controller.go): an event of either
-- user agent, the answer of the authorisation, the timer of a group of routes.
use go_b2bua.Prelude.{
  ℤ, pos, negsuc, ℕ, suc, Bool, true, false, not, ◌&&◌, ◌||◌, Option, none, some, List, [], ◌∷◌,
  ltb, ◌==◌, is_some, if◌then◌else◌,
}
use go_b2bua.Event.{Kind, CcEvent, fail_ev}
use go_b2bua.Ua.State.{UaStateId, uas_state_trying, uas_state_ringing}
use go_b2bua.B2bua.Route.{B2bRoute}
use go_b2bua.B2bua.State.{
  CcState, cc_idle, cc_ar_complete, cc_connected, cc_disconnecting, event_a, event_o, disconnect_a,
  disconnect_o, Cc, Reaction, react,
}
use go_b2bua.B2bua.Placing.{Host, tell}
use go_b2bua.B2bua.Authorising.{RadiusResult, place_next, auth_done}
use go_b2bua.B2bua.Beginning.{is_nil, begin}

-- TRYING or RINGING
abbrev pub is_waiting : UaStateId → Bool
is_waiting uas_state_trying = true
is_waiting uas_state_ringing = true
is_waiting _ = false

abbrev pub is_ar_complete : CcState → Bool
is_ar_complete cc_ar_complete = true
is_ar_complete _ = false

abbrev pub is_idle : CcState → Bool
is_idle cc_idle = true
is_idle _ = false

-- the states in which events of `uaA` go on to `uaO`
abbrev pub passes_on : CcState → Bool
passes_on cc_ar_complete = true
passes_on cc_connected = true
passes_on cc_disconnecting = true
passes_on _ = false

abbrev pub has_code : ℕ → List ℕ → Bool
has_code scode [] = false
has_code scode (c ∷ cs) = c == scode || has_code scode cs

abbrev pub is_fail : Kind → Bool
is_fail (fail_ev scode reason challenges warning) = true
is_fail _ = false

abbrev pub huntstop : Kind → List ℕ → Bool
huntstop (fail_ev scode reason challenges warning) scodes = has_code scode scodes
huntstop _ scodes = false

abbrev pub is_num : ℕ → ℤ → Bool
is_num n (pos k) = n == k
is_num n (negsuc k) = false

abbrev pub is_over : ℕ → ℤ → Bool
is_over n (pos k) = ltb k n
is_over n (negsuc k) = true

abbrev pub last_num : B2bRoute → List B2bRoute → ℕ
last_num r [] = r.rnum
last_num r (s ∷ rs) = last_num s rs

-- whether a failure of `uaO` makes the controller try the next route
abbrev pub hunts : CcEvent → Cc → Bool
hunts e c =
    is_fail e.kind
    && (is_ar_complete c.state
        && (is_waiting c.a_state
            && (not (is_nil c.routes) && not (huntstop e.kind c.huntstop_scodes))))

-- the routes from the one with this number on; none is an index out of range
unfoldable pub skip_to : ℤ → List B2bRoute → Option (List B2bRoute)
skip_to skipto [] = none
skip_to skipto (r ∷ rs) =
    let rest = skip_to skipto rs in if is_num r.rnum skipto then some (r ∷ rs) else rest

module _ (host : Host) where
  -- `RecvEvent` of an event of `uaA`
  unfoldable pub recv_event_a : CcEvent → Cc → Cc
  unfolding begin
  recv_event_a e c =
      let begun = begin host e e.kind c in
      let passed = tell host (event_o e) c in
      if is_idle c.state
      then begun
      else (if passes_on c.state && is_some c.o_state then passed else c)

  -- `RecvEvent` of an event of `uaO`
  unfoldable pub recv_event_o : CcEvent → Cc → Cc
  unfolding place_next
  recv_event_o e c =
      let next = place_next host c.routes c in
      let told = tell host (event_a (host.fixup_version e)) c in if hunts e c then next else told

  abbrev pub skipped : Option (List B2bRoute) → Cc → Cc
  skipped none c = record c { routes = [] }
  skipped (some rs) c = tell host disconnect_o (record c { routes = rs })

  abbrev pub expire_group : ℤ → List B2bRoute → Cc → Cc
  expire_group skipto [] c = c
  expire_group skipto (r ∷ rs) c =
      let past = skipped (skip_to skipto (r ∷ rs)) c in
      if is_over r.rnum skipto
      then c
      else (if is_num (suc (last_num r rs)) skipto then record c { routes = [] } else past)

  -- `group_expires`
  unfoldable pub group_expires : ℤ → Cc → Cc
  unfolding skip_to
  group_expires skipto c =
      let expired = expire_group skipto c.routes c in
      if is_ar_complete c.state && is_waiting c.a_state then expired else c

  -- `disconnect`
  abbrev pub disconnect : Cc → Cc
  disconnect c = tell host disconnect_a c

-- what happens to a call
pub data Input : Type 0 where
  from_a from_o : CcEvent → Input
  authorised : Option RadiusResult → Input
  group_over : ℤ → Input
  hang_up : Input
  reacts : Reaction → Input

module _ (host : Host) where
  unfoldable pub step : Input → Cc → Cc
  unfolding recv_event_a recv_event_o auth_done group_expires
  step (from_a e) c = recv_event_a host e c
  step (from_o e) c = recv_event_o host e c
  step (authorised results) c = auth_done host results c
  step (group_over skipto) c = group_expires host skipto c
  step hang_up c = disconnect host c
  step (reacts r) c = react r c

  -- the latest input comes first
  unfoldable pub steps : List Input → Cc → Cc
  unfolding step
  steps [] c = c
  steps (i ∷ is) c = step i (steps is c)
