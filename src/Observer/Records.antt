-- ===== src/Observer/Records.antt =====
-- recordAdjacencies of topology-change-observer.cpp: what the observer remembers of a router's
-- adjacencies.
use nlsr.Observer.{
  Declared, Observer, declared_router, set_declared, neighbour_names, record_adjacencies,
  on_removed,
}
use nlsr.Lsdb.{Lsdb}
use nlsr.Lsa.{Lsa, adl}
use nlsr.Lsa.Update.{list_equal}
use nlsr.Adjacency.{Adjacent}
use nlsr.Prelude.Sets.{
  set_insert, set_difference, find_key, find_key-set_insert, find_key-modify_if,
}
use nlsr.Prelude.{
  Eq, ◌==◌, ==_refl, Ord, less, if◌then◌else◌, ◌≡◌, refl, true, false, some, List, [], ◌∷◌, arith,
}

module _ {N : Type 0} where
  abbrev declared_now : N → List N → Declared N
  declared_now router names = record { router = router; neighbours = names }

  difference_of_none : ⦃no : Ord N⦄ → (xs : List N) → set_difference less xs [] ≡ xs
  unfolding set_difference
  difference_of_none [] = refl
  difference_of_none (x ∷ xs) = refl

module _ {N : Type 0} ⦃n : Eq N⦄ ⦃no : Ord N⦄ where
  find_key-set_declared :
      (k router : N) (names : List N) (records : List (Declared N))
      → find_key declared_router k (set_declared router names records) ≡ (
          if router == k
          then some (declared_now router names)
          else find_key declared_router k records)
  unfolding set_declared set_insert
  find_key-set_declared k router names records = ground (
    arith,
    find_key-set_insert declared_router k (declared_now router names) records,
    find_key-modify_if declared_router k router (declared_now router names) records refl,
  )

  set_insert-cons :
      (x : N) (xs : List N) → list_equal (λ (a b : N). a == b) [] (set_insert less x xs) ≡ false
  unfolding set_insert
  set_insert-cons x [] = refl
  set_insert-cons x (y ∷ ys) = ground arith

  -- The record of a router after its LSA was removed.
  find_key-emptied :
      (router : N) (records : List (Declared N))
      → find_key declared_router router (set_declared router [] records)
        ≡ some (declared_now router [])
  find_key-emptied router records =
      ground (arith, find_key-set_declared router router [] records, ==_refl router)

module _ {N F D : Type 0} ⦃n : Eq N⦄ ⦃no : Ord N⦄ where
  -- A router whose record is empty declares some neighbours.
  record_adjacencies-emptied :
      (l : Lsa N F D) (records : List (Declared N)) (a : Adjacent N F D)
      (others : List (Adjacent N F D))
      → adl l.body ≡ a ∷ others
      → find_key declared_router l.origin_router records ≡ some (declared_now l.origin_router [])
      → record_adjacencies l records ≡ (
        set_declared l.origin_router (neighbour_names (a ∷ others)) records,
        true,
        neighbour_names (a ∷ others),
      )
  unfolding record_adjacencies neighbour_names
  record_adjacencies-emptied l records a others e found = ground (
    arith,
    found,
    e,
    difference_of_none (neighbour_names (a ∷ others)),
    set_insert-cons a.name (neighbour_names others),
  )

  -- After a router's adjacency LSA was removed, its next LSA with a neighbour is a change and not a
  -- first sighting, whatever was remembered: all its neighbours are added, and they are
  -- remembered.
  pub removed_then_declared :
      (db : Lsdb N F D) (o : Observer N) (l : Lsa N F D) (a : Adjacent N F D)
      (others : List (Adjacent N F D))
      → adl l.body ≡ a ∷ others
      → record_adjacencies l (on_removed db l.origin_router o).adjacencies ≡ (
        set_declared l.origin_router
            (neighbour_names (a ∷ others))
            (on_removed db l.origin_router o).adjacencies,
        true,
        neighbour_names (a ∷ others),
      )
  unfolding on_removed
  removed_then_declared db o l a others e =
      record_adjacencies-emptied l (set_declared l.origin_router [] o.adjacencies) a others e
        (find_key-emptied l.origin_router o.adjacencies)
