-- ===== src/Lsa/Update.antt =====
-- The update functions of lsa/adj-lsa.cpp, lsa/coordinate-lsa.cpp and lsa/name-lsa.cpp, with the
-- comparisons they use: operator== and operator< of adjacent.cpp, operator== of
-- adjacency-list.cpp and of lsa/coordinate-lsa.hpp, and diffInEpsilon of utility/numeric.hpp.
use nlsr.Prelude.{
  Eq, ◌==◌, Ord, less, Double, cost_lt, length, erase_if, ltb, nat_beq, if◌then◌else◌, Bool, true,
  false, not, ◌&&◌, ◌||◌, List, [], ◌∷◌,
}
use nlsr.Prelude.Sets.{set_difference, set_insert}
use nlsr.Adjacency.{insert, Adjacent}
use nlsr.Lsa.{adj_body, cor_body, name_body, Body}

module _ {D : Type 0} ⦃d : Double D⦄ where
  unfoldable pub diff_in_epsilon : D → D → Bool
  diff_in_epsilon a b = cost_lt (d.abs_difference a b) d.epsilon

-- std::equal on two ranges
abbrev pub list_equal {ℓ} : {A : Type ℓ} → (A → A → Bool) → List A → List A → Bool
list_equal eq [] [] = true
list_equal eq (x ∷ xs) (y ∷ ys) = eq x y && list_equal eq xs ys
list_equal eq [] (y ∷ ys) = false
list_equal eq (x ∷ xs) [] = false

-- A std::set made of a range, and the insertion and removal of each element of a range.
abbrev pub insert_each {ℓ} : {A : Type ℓ} → (A → A → Bool) → List A → List A → List A
insert_each lt [] set = set
insert_each lt (x ∷ xs) set = insert_each lt xs (set_insert lt x set)

abbrev pub erase_each : {N : Type 0} ⦃n : Eq N⦄ → List N → List N → List N
erase_each [] set = set
erase_each (x ∷ xs) set = erase_each xs (erase_if (λ y. y == x) set)

pub record Changes (N F D : Type 0) : Type 0 where
  pub new_body : Body N F D
  pub is_updated : Bool
  pub names_to_add : List N
  pub names_to_remove : List N

abbrev pub no_change : {N F D : Type 0} → Body N F D → Changes N F D
no_change body = record {
  new_body = body;
  is_updated = false;
  names_to_add = [];
  names_to_remove = [];
}

abbrev pub replaced : {N F D : Type 0} → Body N F D → Changes N F D
replaced body = record {
  new_body = body;
  is_updated = true;
  names_to_add = [];
  names_to_remove = [];
}

module _ {N F D : Type 0} ⦃n : Eq N⦄ ⦃no : Ord N⦄ ⦃f : Eq F⦄ ⦃d : Double D⦄ where
  unfoldable pub same_adjacent : Adjacent N F D → Adjacent N F D → Bool
  unfolding diff_in_epsilon
  same_adjacent a b =
      a.name == b.name && (a.face_uri == b.face_uri && diff_in_epsilon a.link_cost b.link_cost)

  unfoldable pub adjacent_lt : Adjacent N F D → Adjacent N F D → Bool
  adjacent_lt a b =
      less a.name b.name || (not (less b.name a.name) && cost_lt a.link_cost b.link_cost)

  unfoldable pub same_adjacency_list : List (Adjacent N F D) → List (Adjacent N F D) → Bool
  unfolding same_adjacent adjacent_lt
  same_adjacency_list ours theirs =
      if nat_beq (length ours) (length theirs)
      then list_equal same_adjacent (insert_each adjacent_lt ours [])
          (insert_each adjacent_lt theirs [])
      else false

  -- Each neighbour of a list that is new by its name goes to the back.
  abbrev pub add_adjacents : List (Adjacent N F D) → List (Adjacent N F D) → List (Adjacent N F D)
  add_adjacents [] acc = acc
  add_adjacents (a ∷ l) acc = add_adjacents l (insert acc a).0

  -- The pointer is cast without a test, so the two bodies must be of one type; `update_body` on
  -- other pairs is never reached.
  unfoldable pub update_body : Body N F D → Body N F D → Changes N F D
  unfolding same_adjacency_list diff_in_epsilon set_difference
  update_body (adj_body old) (adj_body new) =
      if same_adjacency_list old new
      then no_change (adj_body old)
      else replaced (adj_body (add_adjacents new []))
  update_body (cor_body r angles) (cor_body r2 angles2) =
      if diff_in_epsilon r r2 && list_equal diff_in_epsilon angles angles2
      then no_change (cor_body r angles)
      else replaced (cor_body r2 angles2)
  update_body (name_body old) (name_body new) =
      let to_add = set_difference less new old in
      let to_remove = set_difference less old new in
      record {
        new_body = name_body (erase_each to_remove (insert_each less to_add old));
        is_updated = ltb 0 (length to_add) || ltb 0 (length to_remove);
        names_to_add = to_add;
        names_to_remove = to_remove;
      }
  update_body old _ = no_change old
