-- ===== src/Prelude/Maps.antt =====
-- The maps of the code: association lists that hold a key once, with the assignment, the
-- deletion and the look-up of a key.
use Prim.Native.String.{String}
use mathlib.Core.Path.{◌≡◌, refl}
use mathlib.Core.Logic.{◌≢◌}
use mathlib.Core.Bool.{Bool, true, false}
use mathlib.Core.List.{List, [], ◌∷◌}
use mathlib.Core.Option.{Option, none, some}
use native.Mathlib.Omega.{arith}
use text.Mathlib.Text.{◌==◌ as str_eq}
use text.Mathlib.TextEquality.{eq_iff}

unfoldable pub string_discrete : Discrete String
string_discrete a b = decide (str_eq a b) refl
  where
    decide : (t : Bool) → str_eq a b ≡ t → Dec (a ≡ b)
    decide true h = yes ((eq_iff a b).0 h)
    decide false h = no (λ p. cc (h, (eq_iff a b).1 p))

module _ {ℓ ℓ'} {K : Type ℓ} {V : Type ℓ'} (dec : Discrete K) where
  unfoldable pub find : K → List (K × V) → Option V
  find k [] = none
  find k (e ∷ l) = elim (dec e.0 k) [ yes p ↦ some e.1 | no p ↦ find k l ]

  unfoldable pub delete : K → List (K × V) → List (K × V)
  delete k [] = []
  delete k (e ∷ l) = let rest = delete k l in elim (dec e.0 k) [ yes p ↦ rest | no p ↦ e ∷ rest ]

  unfoldable pub store : K → V → List (K × V) → List (K × V)
  unfolding delete
  store k v l = (k, v) ∷ delete k l

  pub find-delete : (k : K) (l : List (K × V)) → find k (delete k l) ≡ none
  unfolding find delete
  find-delete k [] = refl
  find-delete k (e ∷ l) = ground (arith, find-delete k l)

  pub find-delete_ne : (k q : K) (l : List (K × V)) → k ≢ q → find q (delete k l) ≡ find q l
  unfolding find delete
  find-delete_ne k q [] h = refl
  find-delete_ne k q (e ∷ l) h = ground (arith, find-delete_ne k q l h)

  pub find-store : (k : K) (v : V) (l : List (K × V)) → find k (store k v l) ≡ some v
  unfolding find store
  find-store k v l = ground arith

  pub find-store_ne : (k q : K) (v : V) (l : List (K × V)) → k ≢ q → find q (store k v l) ≡ find q l
  unfolding find store
  find-store_ne k q v l h = ground (arith, find-delete_ne k q l h)
