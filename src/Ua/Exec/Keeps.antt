-- ===== src/Ua/Exec/Keeps.antt =====
-- Rules for handlers: a predicate on the user agent that every statement keeps, and a predicate on
-- the values of every `return`.
use go_b2bua.Prelude.{Bool, true, false, if◌then◌else◌}
use go_b2bua.Ua.State.{Ua}
use go_b2bua.Ua.Exec.{Ret, Outcome, next, exit, Exec, continue, ◌>>=◌, modify, gets, ret}

abbrev pub Exits : {A : Type 0} → (Ret → Type 0) → Outcome A → Type 0
Exits Q (next a) = Unit
Exits Q (exit r) = Q r

-- `m` keeps `P`, and returns only values with `Q`.
pub record Keeps {A : Type 0} (P : Ua → Type 0) (Q : Ret → Type 0) (m : Exec A) : Type 0 where
  pub at : (u : Ua) → P u → P (m u).1 × Exits Q (m u).0

module _ {A : Type 0} {P : Ua → Type 0} {Q : Ret → Type 0} where
  pub Keeps-gets : (f : Ua → A) → Keeps P Q (gets f)
  unfolding gets
  Keeps-gets f = record { at = λ u h. (h, tt) }

  pub Keeps-ret : (r : Ret) → Q r → Keeps P Q (ret {A = A} r)
  unfolding ret
  Keeps-ret r q = record { at = λ u h. (h, q) }

  pub Keeps-if :
      (b : Bool) (m n : Exec A) → Keeps P Q m → Keeps P Q n → Keeps P Q (if b then m else n)
  Keeps-if true m n km kn = km
  Keeps-if false m n km kn = kn

module _ {P : Ua → Type 0} {Q : Ret → Type 0} where
  pub Keeps-modify : (f : Ua → Ua) → ((u : Ua) → P u → P (f u)) → Keeps P Q (modify f)
  unfolding modify
  Keeps-modify f k = record { at = λ u h. (k u h, tt) }

module _ {A B : Type 0} {P : Ua → Type 0} {Q : Ret → Type 0} where
  Keeps-continue :
      (r : Outcome A) (f : A → Exec B) (u : Ua)
      → P u
      → Exits Q r
      → ((a : A) → Keeps P Q (f a))
      → P (continue r f u).1 × Exits Q (continue r f u).0
  Keeps-continue (next a) f u h e kf = (kf a).at u h
  Keeps-continue (exit r) f u h e kf = (h, e)

  pub Keeps-bind :
      (m : Exec A) (f : A → Exec B)
      → Keeps P Q m
      → ((a : A) → Keeps P Q (f a))
      → Keeps P Q (m >>= f)
  unfolding ◌>>=◌
  Keeps-bind m f km kf = record {
    at = λ u h. let (r, u') = m u in Keeps-continue r f u' (km.at u h).0 (km.at u h).1 kf;
  }

pub ruleset keeps_rules = (Keeps-gets, Keeps-ret, Keeps-if, Keeps-modify, Keeps-bind)
