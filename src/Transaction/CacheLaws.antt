-- ===== src/Transaction/CacheLaws.antt =====
-- The two maps of the retransmission cache (sippy/sip_transaction_manager.go) hold the entries of
-- one map that knows how many purges an entry has seen.
use mathlib.Core.Path.{fun_ext}
use go_b2bua.Prelude.{
  ℕ, zero, suc, String, Option, none, some, List, [], ◌∷◌, ◌≡◌, ◌≢◌, refl, arith, string_discrete,
  find, ap, ◌∙◌, leb, if◌then◌else◌, ◌++◌, find-store, find-store_ne,
}
use go_b2bua.Transaction.Cache.{
  Entry, silent, Cache, no_entries, rcache_purge, rcache_put, rcache_get, with_call_id, first_of,
  set_found, rcache_set_call_id,
}

-- what happens to the cache
pub data CacheOp : Type 0 where
  purge : CacheOp
  put : String → Entry → CacheOp
  set_call_id : String → String → CacheOp

unfoldable pub perform : CacheOp → Cache → Cache
perform purge c = rcache_purge c
perform (put sum e) c = rcache_put sum e c
perform (set_call_id sum call_id) c = rcache_set_call_id sum call_id c

-- the latest operation comes first
unfoldable pub performed : List CacheOp → Cache
performed [] = no_entries
performed (op ∷ ops) = perform op (performed ops)

-- An entry with its age, the number of purges that it has seen.
abbrev pub Aged : Type 0
Aged = Option (Entry × ℕ)

-- One purge makes a fresh entry old, and drops an old one.
abbrev pub grow_old : Aged → Aged
grow_old none = none
grow_old (some (e, zero)) = some (e, 1)
grow_old (some (e, suc n)) = none

-- a new Call-ID leaves the age as it is; a missing entry comes to be
abbrev pub renamed : String → Aged → Aged
renamed call_id none = some (silent call_id, 0)
renamed call_id (some (e, n)) = some (with_call_id call_id e, n)

-- The abstract cache is a map of aged entries.
abbrev pub AgedMap : Type 0
AgedMap = String → Aged

abbrev pub changed_at : String → Aged → AgedMap → AgedMap
changed_at sum a m q = elim (string_discrete sum q) [ yes p ↦ a | no p ↦ m q ]

abbrev pub perform_aged : CacheOp → AgedMap → AgedMap
perform_aged purge m q = grow_old (m q)
perform_aged (put sum e) m q = changed_at sum (some (e, 0)) m q
perform_aged (set_call_id sum call_id) m q = changed_at sum (renamed call_id (m sum)) m q

abbrev pub performed_aged : List CacheOp → AgedMap
performed_aged [] q = none
performed_aged (op ∷ ops) q = perform_aged op (performed_aged ops) q

-- the aged entry that a pair of findings stands for
abbrev pub aged_of : Option Entry → Option Entry → Aged
aged_of (some e) old = some (e, 0)
aged_of none (some e) = some (e, 1)
aged_of none none = none

unfoldable pub view : Cache → AgedMap
view c q = aged_of (find string_discrete q c.l1) (find string_discrete q c.l2)

grow_old-aged_of : (a b : Option Entry) → aged_of none a ≡ grow_old (aged_of a b)
grow_old-aged_of (some e) b = refl
grow_old-aged_of none (some e) = refl
grow_old-aged_of none none = refl

view-rcache_purge : (c : Cache) (q : String) → view (rcache_purge c) q ≡ grow_old (view c q)
unfolding view rcache_purge find
view-rcache_purge c q = grow_old-aged_of (find string_discrete q c.l1) (find string_discrete q c.l2)

changed_at_same : (sum q : String) (a : Aged) (m : AgedMap) → sum ≡ q → changed_at sum a m q ≡ a
changed_at_same sum q a m p = ground arith

changed_at_other : (sum q : String) (a : Aged) (m : AgedMap) → sum ≢ q → changed_at sum a m q ≡ m q
changed_at_other sum q a m n = ground arith

view-rcache_put :
    (sum : String) (e : Entry) (c : Cache) (q : String)
    → view (rcache_put sum e c) q ≡ changed_at sum (some (e, 0)) (view c) q
unfolding view rcache_put
view-rcache_put sum e c q = elim (string_discrete sum q) [
  | yes p ↦
      rw
        (changed_at_same sum q (some (e, 0)) (view c) p, ← p, find-store string_discrete sum e c.l1)
        refl
  | no n ↦
      rw
        (
          changed_at_other sum q (some (e, 0)) (view c) n,
          find-store_ne string_discrete sum q e c.l1 n,
        )
        refl
]

view-set_found :
    (sum call_id : String) (a b : Option Entry) (c : Cache) (q : String)
    → find string_discrete sum c.l1 ≡ a
    → find string_discrete sum c.l2 ≡ b
    → view (set_found sum call_id a b c) q
      ≡ changed_at sum (renamed call_id (aged_of a b)) (view c) q
unfolding view set_found rcache_put
view-set_found sum call_id (some e) b c q h1 h2 = view-rcache_put sum (with_call_id call_id e) c q
view-set_found sum call_id none (some e) c q h1 h2 = elim (string_discrete sum q) [
  | yes p ↦
      rw
        (
          changed_at_same sum q (some (with_call_id call_id e, 1)) (view c) p,
          ← p,
          h1,
          find-store string_discrete sum (with_call_id call_id e) c.l2,
        )
        refl
  | no n ↦
      rw
        (
          changed_at_other sum q (some (with_call_id call_id e, 1)) (view c) n,
          find-store_ne string_discrete sum q (with_call_id call_id e) c.l2 n,
        )
        refl
]
view-set_found sum call_id none none c q h1 h2 = view-rcache_put sum (silent call_id) c q

-- Each operation does to the entries what it does to the aged entries.
view-perform :
    (op : CacheOp) (c : Cache) (q : String) → view (perform op c) q ≡ perform_aged op (view c) q
unfolding perform
view-perform purge c q = view-rcache_purge c q
view-perform (put sum e) c q = view-rcache_put sum e c q
view-perform (set_call_id sum call_id) c q =
    unfold rcache_set_call_id view in
    view-set_found sum call_id (find string_discrete sum c.l1) (find string_discrete sum c.l2) c q
      refl refl

perform_aged_cong :
    (op : CacheOp) {m n : AgedMap}
    → ((q : String) → m q ≡ n q)
    → (q : String) → perform_aged op m q ≡ perform_aged op n q
perform_aged_cong op h q = ap (λ f. perform_aged op f q) (fun_ext h)

view-performed : (ops : List CacheOp) (q : String) → view (performed ops) q ≡ performed_aged ops q
unfolding performed
view-performed [] q = unfold view find in refl
view-performed (op ∷ ops) q =
    view-perform op (performed ops) q ∙ perform_aged_cong op (view-performed ops) q

abbrev pub entry_of : Aged → Option Entry
entry_of none = none
entry_of (some (e, n)) = some e

entry_of-aged_of : (a b : Option Entry) → first_of a b ≡ entry_of (aged_of a b)
entry_of-aged_of (some e) b = refl
entry_of-aged_of none (some e) = refl
entry_of-aged_of none none = refl

-- After any sequence of purges, puts and changes of a Call-ID, a look-up in the two maps finds what
-- one map of aged entries holds in which a purge makes each entry a purge older and drops the
-- entries that it finds old already.
pub rcache_get-Refines :
    (ops : List CacheOp) (q : String)
    → rcache_get q (performed ops) ≡ entry_of (performed_aged ops q)
unfolding rcache_get
rcache_get-Refines ops q =
    entry_of-aged_of (find string_discrete q (performed ops).l1)
      (find string_discrete q (performed ops).l2)
    ∙ ap entry_of (unfold view in view-performed ops q)

-- the purges of a sequence that touches the entry of `sum` with none of its operations
abbrev pub Leaves : String → CacheOp → Type 0
Leaves sum purge = Unit
Leaves sum (put s e) = s ≢ sum
Leaves sum (set_call_id s call_id) = s ≢ sum

abbrev pub LeavesAll : String → List CacheOp → Type 0
LeavesAll sum [] = Unit
LeavesAll sum (op ∷ ops) = Leaves sum op × LeavesAll sum ops

abbrev pub purges : List CacheOp → ℕ
purges [] = 0
purges (purge ∷ ops) = suc (purges ops)
purges (put s e ∷ ops) = purges ops
purges (set_call_id s call_id ∷ ops) = purges ops

abbrev pub aged_by : ℕ → Entry → Aged
aged_by zero e = some (e, 0)
aged_by (suc zero) e = some (e, 1)
aged_by (suc (suc n)) e = none

grow_old-aged_by : (n : ℕ) (e : Entry) → grow_old (aged_by n e) ≡ aged_by (suc n) e
grow_old-aged_by zero e = refl
grow_old-aged_by (suc zero) e = refl
grow_old-aged_by (suc (suc n)) e = refl

within : (n : ℕ) (e : Entry) → entry_of (aged_by n e) ≡ (if leb n 1 then some e else none)
within zero e = refl
within (suc zero) e = refl
within (suc (suc n)) e = ground arith

aged-left :
    (ops before : List CacheOp) (sum : String) (e : Entry)
    → LeavesAll sum ops
    → performed_aged (ops ++ put sum e ∷ before) sum ≡ aged_by (purges ops) e
aged-left [] before sum e h = changed_at_same sum sum (some (e, 0)) (performed_aged before) refl
aged-left (purge ∷ ops) before sum e h =
    ap grow_old (aged-left ops before sum e h.1) ∙ grow_old-aged_by (purges ops) e
aged-left (put s f ∷ ops) before sum e h =
    changed_at_other s sum (some (f, 0)) (performed_aged (ops ++ put sum e ∷ before)) h.0
    ∙ aged-left ops before sum e h.1
aged-left (set_call_id s call_id ∷ ops) before sum e h =
    changed_at_other s sum (renamed call_id (performed_aged (ops ++ put sum e ∷ before) s))
      (performed_aged (ops ++ put sum e ∷ before)) h.0
    ∙ aged-left ops before sum e h.1

-- What was put in reply to a message is found again for as long as at most one purge has run since
-- and no later operation names that message, whatever came before; after the second purge nothing
-- is found.
pub rcache_get-window :
    (ops before : List CacheOp) (sum : String) (e : Entry)
    → LeavesAll sum ops
    → rcache_get sum (performed (ops ++ put sum e ∷ before))
      ≡ (if leb (purges ops) 1 then some e else none)
rcache_get-window ops before sum e h =
    rcache_get-Refines (ops ++ put sum e ∷ before) sum
    ∙ ap entry_of (aged-left ops before sum e h)
    ∙ within (purges ops) e
