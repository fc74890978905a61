-- ===== src/Common/MapKeys.antt =====
-- The keys of a map stay distinct, and its keys as a list.
use mathlib.Core.Path.{◌≡◌, refl}
use mathlib.Core.Option.{none}
use mathlib.Core.List.{[], ◌∷◌}
use native.Mathlib.Omega.{arith}
use gateway_realtime.Common.Keys.{Eq}
use gateway_realtime.Common.JsMap.{
  Map, map_get, map_set, map_delete, map_update, map_has, map_keys, get-set, get-delete, get-update,
}
use gateway_realtime.Common.JsSet.{set_contains}

module _ {ℓ κ} {K : Type ℓ} {V : Type κ} ⦃e : Eq K⦄ where
  -- No key stands twice.
  abbrev pub Distinct : Map K V → Type κ
  Distinct [] = Unit
  Distinct ((k, v) ∷ m) = (map_get k m ≡ none) × Distinct m

  pub contains-keys : (k : K) (m : Map K V) → set_contains k (map_keys m) ≡ map_has k m
  unfolding set_contains map_get
  contains-keys k [] = refl
  contains-keys k ((j, v) ∷ m) = ground (arith, contains-keys k m)

  pub set-Distinct : (k : K) (v : V) (m : Map K V) → Distinct m → Distinct (map_set k v m)
  unfolding map_set map_get
  set-Distinct k v [] d = (refl, tt)
  set-Distinct k v ((j, w) ∷ m) d =
      ground (arith, set-Distinct k v m, get-set j k v m, e.same_iff j k, e.same_iff k j)

  pub delete-Distinct : (k : K) (m : Map K V) → Distinct m → Distinct (map_delete k m)
  unfolding map_delete
  delete-Distinct k [] d = tt
  delete-Distinct k ((j, w) ∷ m) d = ground (arith, delete-Distinct k m, get-delete j k m)

  pub update-Distinct : (k : K) (f : V → V) (m : Map K V) → Distinct m → Distinct (map_update k f m)
  unfolding map_update
  update-Distinct k f [] d = tt
  update-Distinct k f ((j, w) ∷ m) d = ground (arith, update-Distinct k f m, get-update j k f m)
