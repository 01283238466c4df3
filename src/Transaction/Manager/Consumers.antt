-- ===== src/Transaction/Manager/Consumers.antt =====
-- The consumers of requests (`RegConsumer` and `UnregConsumer` of
-- sippy/sip_transaction_manager.go).
use go_b2bua.Prelude.{
  ℕ, Bool, true, false, ◌≡◌, ◌≢◌, refl, arith, String, Option, none, some, List, [], ◌∷◌, ◌++◌,
  length, length-append, ltb, if◌then◌else◌, find, delete, store, string_discrete, find-store,
  find-store_ne, find-delete, find-delete_ne, ap, ◌∙◌,
}
use go_b2bua.Transaction.Manager.{
  Manager, reg_consumer, unreg_consumer, or_no_one, without_first, remove_consumer,
}

-- the consumers for this Call-ID, in the order in which they are asked
abbrev pub consumers_of : String → Manager → List ℕ
consumers_of call_id m = or_no_one (find string_discrete call_id m.consumers)

reg_consumer-consumers :
    (ua : ℕ) (call_id : String) (m : Manager)
    → consumers_of call_id (reg_consumer ua call_id m) ≡ consumers_of call_id m ++ ua ∷ []
unfolding reg_consumer
reg_consumer-consumers ua call_id m =
    ap or_no_one (find-store string_discrete call_id _ m.consumers)

abbrev pub AbsentFrom : ℕ → List ℕ → Type 0
AbsentFrom ua [] = Unit
AbsentFrom ua (c ∷ cs) = (c ≢ ua) × AbsentFrom ua cs

without_first-append :
    (ua : ℕ) (cs : List ℕ) → AbsentFrom ua cs → without_first ua (cs ++ ua ∷ []) ≡ cs
without_first-append ua [] h = ground arith
without_first-append ua (c ∷ cs) h = ground (arith, without_first-append ua cs h.1)

remove-consumers :
    (ua : ℕ) (call_id : String) (cs : Option (List ℕ)) (m : Manager)
    → find string_discrete call_id m.consumers ≡ cs
    → consumers_of call_id (remove_consumer ua call_id cs m)
      ≡ (if ltb 1 (length (or_no_one cs)) then without_first ua (or_no_one cs) else [])
remove-consumers ua call_id none m e = ap or_no_one e
remove-consumers ua call_id (some cs) m e = by (ltb 1 (length cs))
  where
    by :
        (b : Bool)
        → consumers_of call_id (
            if b
            then record m {
              consumers =
                  store string_discrete call_id
                    (without_first ua cs)
                    (delete string_discrete call_id m.consumers);
            }
            else record m { consumers = delete string_discrete call_id m.consumers })
          ≡ (if b then without_first ua cs else [])
    by true =
        ap or_no_one
          (find-store string_discrete call_id _ (delete string_discrete call_id m.consumers))
    by false = ap or_no_one (find-delete string_discrete call_id m.consumers)

remove-others :
    (ua : ℕ) (call_id q : String) (cs : Option (List ℕ)) (m : Manager)
    → call_id ≢ q
    → find string_discrete q (remove_consumer ua call_id cs m).consumers
      ≡ find string_discrete q m.consumers
remove-others ua call_id q none m d = refl
remove-others ua call_id q (some cs) m d = by (ltb 1 (length cs))
  where
    by :
        (b : Bool)
        → find string_discrete q
            (if b
              then record m {
                consumers =
                    store string_discrete call_id
                      (without_first ua cs)
                      (delete string_discrete call_id m.consumers);
              }
              else record m { consumers = delete string_discrete call_id m.consumers }).consumers
          ≡ find string_discrete q m.consumers
    by true =
        find-store_ne string_discrete call_id q _ (delete string_discrete call_id m.consumers) d
        ∙ find-delete_ne string_discrete call_id q m.consumers d
    by false = find-delete_ne string_discrete call_id q m.consumers d

unreg_consumer-consumers :
    (ua : ℕ) (call_id : String) (m : Manager)
    → consumers_of call_id (unreg_consumer ua call_id m) ≡ (
        if ltb 1 (length (consumers_of call_id m))
        then without_first ua (consumers_of call_id m)
        else [])
unfolding unreg_consumer
unreg_consumer-consumers ua call_id m = remove-consumers ua call_id _ m refl

unreg_consumer-others :
    (ua : ℕ) (call_id q : String) (m : Manager)
    → call_id ≢ q
    → consumers_of q (unreg_consumer ua call_id m) ≡ consumers_of q m
unfolding unreg_consumer
unreg_consumer-others ua call_id q m d =
    ap or_no_one (remove-others ua call_id q (find string_discrete call_id m.consumers) m d)

reg_consumer-others :
    (ua : ℕ) (call_id q : String) (m : Manager)
    → call_id ≢ q
    → consumers_of q (reg_consumer ua call_id m) ≡ consumers_of q m
unfolding reg_consumer
reg_consumer-others ua call_id q m d =
    ap or_no_one (find-store_ne string_discrete call_id q _ m.consumers d)

shrunk :
    (ua : ℕ) (cs : List ℕ)
    → AbsentFrom ua cs
    → (if ltb 1 (length (cs ++ ua ∷ [])) then without_first ua (cs ++ ua ∷ []) else []) ≡ cs
shrunk ua [] h = refl
shrunk ua (c ∷ cs) h =
    ground (arith, length-append cs (ua ∷ []), without_first-append ua (c ∷ cs) h)

-- A user agent that was no consumer for a Call-ID, registers for it and unregisters: then the
-- consumers are again those before, in their order, and so are those for every other Call-ID.
pub unreg_consumer-reg_consumer :
    (ua : ℕ) (call_id : String) (m : Manager)
    → AbsentFrom ua (consumers_of call_id m)
    → (consumers_of call_id (unreg_consumer ua call_id (reg_consumer ua call_id m))
        ≡ consumers_of call_id m)
      × ((q : String)
          → call_id ≢ q
          → consumers_of q (unreg_consumer ua call_id (reg_consumer ua call_id m))
            ≡ consumers_of q m)
unreg_consumer-reg_consumer ua call_id m h = (
  unreg_consumer-consumers ua call_id (reg_consumer ua call_id m)
      ∙ rw (reg_consumer-consumers ua call_id m) (shrunk ua (consumers_of call_id m) h),
  λ q d.
      unreg_consumer-others ua call_id q (reg_consumer ua call_id m) d
      ∙ reg_consumer-others ua call_id q m d,
)

-- Where one user agent alone is the consumer for a Call-ID, it loses its place also when another
-- one that never registered unregisters.
pub unreg_consumer-drops :
    (ua other : ℕ) (call_id : String) (m : Manager)
    → other ≢ ua
    → consumers_of call_id m ≡ ua ∷ []
    → consumers_of call_id (unreg_consumer other call_id m) ≡ []
unreg_consumer-drops ua other call_id m d e = unreg_consumer-consumers other call_id m ∙ rw e
