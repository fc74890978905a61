-- ===== src/Common/JsSet.antt =====
-- JavaScript's `Set`: a list in insertion order without duplicates.
use mathlib.Core.Path.{◌≡◌, refl}
use mathlib.Core.Bool.{Bool, true, false, ◌||◌}
use mathlib.Core.List.{List, [], ◌∷◌, ◌++◌}
use native.Mathlib.Omega.{arith}
use gateway_realtime.Common.Tests.{if◌then◌else◌}
use gateway_realtime.Common.Keys.{Eq, ◌==◌}

module _ {ℓ} {K : Type ℓ} ⦃e : Eq K⦄ where
  -- `includes` of an array and `has` of a set.
  unfoldable pub set_contains : K → List K → Bool
  set_contains k [] = false
  set_contains k (x ∷ xs) = if x == k then true else set_contains k xs

  -- A value that is present keeps its place; a new one goes to the end.
  unfoldable pub set_add : K → List K → List K
  set_add k [] = k ∷ []
  set_add k (x ∷ xs) = if x == k then x ∷ xs else x ∷ set_add k xs

  unfoldable pub set_delete : K → List K → List K
  set_delete k [] = []
  set_delete k (x ∷ xs) = if x == k then set_delete k xs else x ∷ set_delete k xs

  pub contains-add :
      (j k : K) (xs : List K)
      → set_contains j (set_add k xs) ≡ (if k == j then true else set_contains j xs)
  unfolding set_contains set_add
  contains-add j k [] = refl
  contains-add j k (x ∷ xs) =
      ground (arith, e.same_iff k j, e.same_iff x k, e.same_iff x j, contains-add j k xs)

  pub contains-delete :
      (j k : K) (xs : List K)
      → set_contains j (set_delete k xs) ≡ (if k == j then false else set_contains j xs)
  unfolding set_contains set_delete
  contains-delete j k [] = ground arith
  contains-delete j k (x ∷ xs) =
      ground (arith, e.same_iff k j, e.same_iff x k, e.same_iff x j, contains-delete j k xs)

  pub contains-append :
      (k : K) (xs ys : List K)
      → set_contains k (xs ++ ys) ≡ (set_contains k xs || set_contains k ys)
  unfolding set_contains
  contains-append k [] ys = refl
  contains-append k (x ∷ xs) ys = ground (arith, contains-append k xs ys)

  pub delete_idem : (k : K) (xs : List K) → set_delete k (set_delete k xs) ≡ set_delete k xs
  unfolding set_delete
  delete_idem k [] = refl
  delete_idem k (x ∷ xs) = ground (arith, delete_idem k xs)
