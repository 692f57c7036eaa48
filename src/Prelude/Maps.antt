-- ===== src/Prelude/Maps.antt =====
-- JavaScript's `Map`: entries in the order in which their keys were first set.
use mathlib.Core.Path.{◌≡◌, refl}
use mathlib.Core.Bool.{Bool, true, false, not}
use mathlib.Core.Option.{Option, none, some}
use mathlib.Core.List.{List, [], ◌∷◌, map}
use native.Mathlib.Omega.{arith}
use pmeow.Prelude.Tests.{if◌then◌else◌}
use pmeow.Prelude.Equality.{Eq, ◌==◌, eq_iff}
use pmeow.Prelude.Lists.{any, select}

abbrev pub is_some {ℓ} : {A : Type ℓ} → Option A → Bool
is_some none = false
is_some (some a) = true

module _ {ℓ κ} {K : Type ℓ} {V : Type κ} ⦃e : Eq K⦄ where
  abbrev pub map_get : K → List (K × V) → Option V
  map_get k [] = none
  map_get k ((j, v) ∷ m) = if j == k then some v else map_get k m

  abbrev pub map_has : K → List (K × V) → Bool
  map_has k m = any (λ e. e.0 == k) m

  -- The value of a key that is there is replaced in its place.
  abbrev pub map_set : K → V → List (K × V) → List (K × V)
  map_set k v [] = (k, v) ∷ []
  map_set k v ((j, w) ∷ m) = if j == k then (j, v) ∷ m else (j, w) ∷ map_set k v m

  abbrev pub map_delete : K → List (K × V) → List (K × V)
  map_delete k m = select (λ e. not (e.0 == k)) m

  abbrev pub map_values : List (K × V) → List V
  map_values m = map (λ e. e.1) m

  pub map_has-map_get : (k : K) (m : List (K × V)) → map_has k m ≡ is_some (map_get k m)
  map_has-map_get k [] = refl
  map_has-map_get k ((j, v) ∷ m) = ground (arith, map_has-map_get k m)

  pub map_get-map_set :
      (k j : K) (v : V) (m : List (K × V))
      → map_get j (map_set k v m) ≡ (if k == j then some v else map_get j m)
  map_get-map_set k j v [] = refl
  map_get-map_set k j v ((i, w) ∷ m) =
      ground (arith, eq_iff k j, eq_iff i k, eq_iff i j, map_get-map_set k j v m)

  pub map_has-map_set :
      (k j : K) (v : V) (m : List (K × V))
      → map_has j (map_set k v m) ≡ (if k == j then true else map_has j m)
  map_has-map_set k j v [] = ground arith
  map_has-map_set k j v ((i, w) ∷ m) =
      ground (arith, eq_iff k j, eq_iff i k, eq_iff i j, map_has-map_set k j v m)

  pub map_get-map_delete :
      (k j : K) (m : List (K × V))
      → map_get j (map_delete k m) ≡ (if k == j then none else map_get j m)
  map_get-map_delete k j [] = ground arith
  map_get-map_delete k j ((i, w) ∷ m) =
      ground (arith, eq_iff k j, eq_iff i k, eq_iff i j, map_get-map_delete k j m)
