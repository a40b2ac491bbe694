-- ===== src/Prelude/Maps.antt =====
-- std::map as the list of its entries in the order of the keys: `m[key] = value`, `find`, and
-- `erase(key)`. An entry is known by its key.
use mathlib.Core.Path.{◌≡◌, refl, ap}
use mathlib.Core.Logic.{inl, inr}
use mathlib.Core.Bool.{Bool}
use mathlib.Core.List.{List, [], ◌∷◌}
use mathlib.Core.Option.{Option, none, some}
use native.Mathlib.Omega.{arith}
use nlsr.Prelude.Tests.{if◌then◌else◌, Bool-cases}
use nlsr.Prelude.Classes.{Eq, ◌==◌, ==_iff, ==_eq, Ord, less}

module _ {K V : Type 0} ⦃o : Ord K⦄ where
  unfoldable pub put : K → V → List (K × V) → List (K × V)
  put k v [] = (k, v) ∷ []
  put k v ((j, w) ∷ m) =
      let rest = put k v m in
      if less k j then (k, v) ∷ (j, w) ∷ m else if less j k then (j, w) ∷ rest else (k, v) ∷ m

module _ {K V : Type 0} where
  -- Every value changed.
  unfoldable pub map_values : (V → V) → List (K × V) → List (K × V)
  map_values f [] = []
  map_values f ((j, w) ∷ m) = (j, f w) ∷ map_values f m

module _ {K V : Type 0} ⦃e : Eq K⦄ where
  unfoldable pub at : K → List (K × V) → Option V
  at k [] = none
  at k ((j, w) ∷ m) = if j == k then some w else at k m

  unfoldable pub erase_key : K → List (K × V) → List (K × V)
  erase_key k [] = []
  erase_key k ((j, w) ∷ m) = let rest = erase_key k m in if j == k then rest else (j, w) ∷ rest

  -- The entries whose key passes.
  unfoldable pub keep_keys : (K → Bool) → List (K × V) → List (K × V)
  keep_keys p [] = []
  keep_keys p ((j, w) ∷ m) = let rest = keep_keys p m in if p j then (j, w) ∷ rest else rest

  pub at-put :
      ⦃o : Ord K⦄
      → (k j : K) (v : V) (m : List (K × V))
      → at k (put j v m) ≡ (if j == k then some v else at k m)
  unfolding at put
  at-put ⦃o⦄ k j v [] = refl
  at-put ⦃o⦄ k j v ((i, w) ∷ m) =
      ground
        (arith, at-put k j v m, o.lt_total j i, o.lt_irrefl j, ==_iff j k, ==_iff i k, ==_iff i j)

  pub at-erase_key :
      (k j : K) (m : List (K × V)) → at k (erase_key j m) ≡ (if j == k then none else at k m)
  unfolding at erase_key
  at-erase_key k j [] = ground arith
  at-erase_key k j ((i, w) ∷ m) =
      ground (arith, at-erase_key k j m, ==_iff j k, ==_iff i k, ==_iff i j)

  pub at-keep_keys :
      (k : K) (p : K → Bool) (m : List (K × V))
      → at k (keep_keys p m) ≡ (if p k then at k m else none)
  unfolding at keep_keys
  at-keep_keys k p [] = ground arith
  at-keep_keys k p ((i, w) ∷ m) = elim (Bool-cases (i == k)) [
    | inl same ↦ ground (arith, at-keep_keys k p m, same, ap p (==_eq i k same))
    | inr other ↦ ground (arith, at-keep_keys k p m, other)
  ]

pub at-map_values :
    {K V : Type 0} ⦃e : Eq K⦄ (k : K) (g : V → V) (m : List (K × V))
    → at k (map_values g m) ≡ (elim (at k m) [ none ↦ none | some v ↦ some (g v) ])
unfolding at map_values
at-map_values k g [] = refl
at-map_values k g ((j, w) ∷ m) = ground (arith, at-map_values k g m)
