-- ===== src/Common/JsMap.antt =====
-- JavaScript's `Map`: an association list in insertion order. `set` on a present key keeps its place.
use Prim.Native.Nat.{◌+◌, ◌≤◌, ◌<◌}
use mathlib.Core.Path.{◌≡◌, refl}
use mathlib.Core.Bool.{Bool}
use mathlib.Core.Option.{Option, none, some}
use mathlib.Core.List.{List, [], ◌∷◌, map}
use native.Mathlib.Omega.{arith}
use gateway_realtime.Common.Tests.{if◌then◌else◌, is_some}
use gateway_realtime.Common.Keys.{Eq, ◌==◌}
use gateway_realtime.Common.Lists.{length}

abbrev pub Map {ℓ κ} : Type ℓ → Type κ → Type (ℓ ⊔ κ)
Map K V = List (K × V)

abbrev pub map_option {ℓ κ} : {V : Type ℓ} {W : Type κ} → (V → W) → Option V → Option W
map_option f none = none
map_option f (some v) = some (f v)

module _ {ℓ κ} {K : Type ℓ} {V : Type κ} ⦃e : Eq K⦄ where
  unfoldable pub map_get : K → Map K V → Option V
  map_get k [] = none
  map_get k ((j, v) ∷ m) = if j == k then some v else map_get k m

  unfoldable pub map_set : K → V → Map K V → Map K V
  map_set k v [] = (k, v) ∷ []
  map_set k v ((j, w) ∷ m) = if j == k then (j, v) ∷ m else (j, w) ∷ map_set k v m

  unfoldable pub map_delete : K → Map K V → Map K V
  map_delete k [] = []
  map_delete k ((j, w) ∷ m) = if j == k then map_delete k m else (j, w) ∷ map_delete k m

  -- A change made to the object that the map holds under a key.
  unfoldable pub map_update : K → (V → V) → Map K V → Map K V
  map_update k f [] = []
  map_update k f ((j, w) ∷ m) = if j == k then (j, f w) ∷ m else (j, w) ∷ map_update k f m

  abbrev pub map_has : K → Map K V → Bool
  map_has k m = is_some (map_get k m)

  abbrev pub map_keys : Map K V → List K
  map_keys m = map (λ b. b.0) m

  abbrev pub map_values : Map K V → List V
  map_values m = map (λ b. b.1) m

  pub get-set :
      (j k : K) (v : V) (m : Map K V)
      → map_get j (map_set k v m) ≡ (if k == j then some v else map_get j m)
  unfolding map_get map_set
  get-set j k v [] = refl
  get-set j k v ((i, w) ∷ m) =
      ground (arith, e.same_iff k j, e.same_iff i k, e.same_iff i j, get-set j k v m)

  pub get-delete :
      (j k : K) (m : Map K V) → map_get j (map_delete k m) ≡ (if k == j then none else map_get j m)
  unfolding map_get map_delete
  get-delete j k [] = ground arith
  get-delete j k ((i, w) ∷ m) =
      ground (arith, e.same_iff k j, e.same_iff i k, e.same_iff i j, get-delete j k m)

  pub get-update :
      (j k : K) (f : V → V) (m : Map K V)
      → map_get j (map_update k f m) ≡ (if k == j then map_option f (map_get j m) else map_get j m)
  unfolding map_get map_update
  get-update j k f [] = ground arith
  get-update j k f ((i, w) ∷ m) =
      ground (arith, e.same_iff k j, e.same_iff i k, e.same_iff i j, get-update j k f m)

  pub length-set-le : (k : K) (v : V) (m : Map K V) → length (map_set k v m) ≤ length m + 1
  unfolding map_set
  length-set-le k v [] = omega arith
  length-set-le k v ((j, w) ∷ m) = ground (arith, length-set-le k v m)

  pub length-set_absent :
      (k : K) (v : V) (m : Map K V) → map_get k m ≡ none → length (map_set k v m) ≡ length m + 1
  unfolding map_set map_get
  length-set_absent k v [] h = omega arith
  length-set_absent k v ((j, w) ∷ m) h = ground (arith, length-set_absent k v m)

  pub length-update : (k : K) (f : V → V) (m : Map K V) → length (map_update k f m) ≡ length m
  unfolding map_update
  length-update k f [] = refl
  length-update k f ((j, w) ∷ m) = ground (arith, length-update k f m)

  pub length-delete-le : (k : K) (m : Map K V) → length (map_delete k m) ≤ length m
  unfolding map_delete
  length-delete-le k [] = omega arith
  length-delete-le k ((j, w) ∷ m) = ground (arith, length-delete-le k m)

  pub length-delete-lt :
      (k : K) (m : Map K V) {v : V} → map_get k m ≡ some v → length (map_delete k m) < length m
  unfolding map_delete map_get
  length-delete-lt k [] h = cc
  length-delete-lt k ((j, w) ∷ m) {v} h =
      ground (arith, length-delete-le k m, length-delete-lt k m {v = v})
