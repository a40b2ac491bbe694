-- ===== src/Route/NameMap.antt =====
-- route/name-m.hpp and route/name-m.cpp: the boost::bimap of router names and mapping
-- numbers, as the list of its pairs. An insertion is refused if either side is there already.
pub mod Bijection
use nlsr.Prelude.{
  Eq, ◌==◌, length, find_if, nat_beq, if◌then◌else◌, is_some, ℕ, Bool, ◌||◌, Option, none, some,
  List, [], ◌∷◌, ◌++◌, map,
}
use nlsr.Lsa.{adl, Lsa}
use nlsr.Adjacency.{Adjacent}

module _ {N : Type 0} ⦃n : Eq N⦄ where
  abbrev pub has_router : N → N × ℕ → Bool
  has_router name (r, i) = r == name

  abbrev pub has_number : ℕ → N × ℕ → Bool
  has_number i (r, j) = nat_beq j i

  unfoldable pub add_entry : List (N × ℕ) → N → List (N × ℕ)
  add_entry m name =
      if is_some (find_if (has_router name) m) || is_some (find_if (has_number (length m)) m)
      then m
      else m ++ (name, length m) ∷ []

  unfoldable pub get_router_name_by_mapping_no : List (N × ℕ) → ℕ → Option N
  get_router_name_by_mapping_no m i = elim (find_if (has_number i) m) [
    | none ↦ none
    | some (r, j) ↦ some r
  ]

  unfoldable pub get_mapping_no_by_router_name : List (N × ℕ) → N → Option ℕ
  get_mapping_no_by_router_name m name = elim (find_if (has_router name) m) [
    | none ↦ none
    | some (r, j) ↦ some j
  ]

  unfoldable pub add_entries : List N → List (N × ℕ) → List (N × ℕ)
  unfolding add_entry
  add_entries [] m = m
  add_entries (name ∷ names) m = add_entries names (add_entry m name)

module _ {N F D : Type 0} ⦃n : Eq N⦄ where
  abbrev pub adjacent_names : List (Adjacent N F D) → List N
  adjacent_names l = map (λ a. a.name) l

  unfoldable pub create_from_adj_lsdb : List (Lsa N F D) → List (N × ℕ) → List (N × ℕ)
  unfolding add_entries
  create_from_adj_lsdb [] m = m
  create_from_adj_lsdb (l ∷ lsas) m =
      create_from_adj_lsdb lsas
        (add_entries (adjacent_names (adl l.body)) (add_entry m l.origin_router))

  unfoldable pub create_from_coordinate_lsdb : List (Lsa N F D) → List (N × ℕ) → List (N × ℕ)
  unfolding add_entry
  create_from_coordinate_lsdb [] m = m
  create_from_coordinate_lsdb (l ∷ lsas) m =
      create_from_coordinate_lsdb lsas (add_entry m l.origin_router)
