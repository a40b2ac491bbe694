-- ===== src/Adjacency.antt =====
-- adjacent.hpp, adjacent.cpp, adjacency-list.hpp and adjacency-list.cpp: a neighbour and the list of
-- neighbours. Names and face URIs are types with an equality test. The cached wire block is left
-- out: it changes no result of the functions here. Counters are uint32_t.
pub mod Neighbors
use nlsr.Prelude.{
  Eq, ◌==◌, Double, cost_lt, cost_eq, length, find_if, modify_if, leb, nat_beq, if◌then◌else◌,
  is_some, ℕ, suc, ◌+◌, ◌%◌, ◌^◌, Bool, true, false, not, ◌&&◌, Option, none, some, List, [], ◌∷◌,
  ◌++◌,
}

pub data Status : Type 0 where
  unknown inactive active : Status

abbrev pub is_active : Status → Bool
is_active active = true
is_active inactive = false
is_active unknown = false

pub record Adjacent (N F D : Type 0) : Type 0 where
  pub name : N
  pub face_uri : F
  pub link_cost : D
  pub status : Status
  pub interest_timed_out_no : ℕ
  pub face_id : ℕ

abbrev pub u32_mod : ℕ
u32_mod = 2 ^ 32

module _ {N F D : Type 0} ⦃d : Double D⦄ where
  -- `none` stands for the tlv::Error that is thrown.
  unfoldable pub set_link_cost : Adjacent N F D → D → Option (Adjacent N F D)
  set_link_cost a lc =
      if cost_lt lc d.zero_cost && not (cost_eq lc d.non_adjacent_cost)
      then none
      else some (record a { link_cost = lc })

  -- The constructor from a name; the default FaceUri is an argument.
  unfoldable pub unreached : F → N → Adjacent N F D
  unreached no_uri an = record {
    name = an;
    face_uri = no_uri;
    link_cost = d.default_link_cost;
    status = inactive;
    interest_timed_out_no = 0;
    face_id = 0;
  }

module _ {N F D : Type 0} ⦃n : Eq N⦄ where
  abbrev pub has_name : N → Adjacent N F D → Bool
  has_name an a = a.name == an

  unfoldable pub find : List (Adjacent N F D) → N → Option (Adjacent N F D)
  find l an = find_if (has_name an) l

  unfoldable pub insert : List (Adjacent N F D) → Adjacent N F D → List (Adjacent N F D) × Bool
  unfolding find
  insert l a = if is_some (find l a.name) then (l, false) else (l ++ a ∷ [], true)

  unfoldable pub is_neighbor : List (Adjacent N F D) → N → Bool
  unfolding find
  is_neighbor l an = is_some (find l an)

  unfoldable pub increment_timed_out_interest_count :
      List (Adjacent N F D) → N → List (Adjacent N F D)
  increment_timed_out_interest_count l an =
      modify_if (has_name an)
        (λ a. record a { interest_timed_out_no = (a.interest_timed_out_no + 1) % u32_mod }) l

  unfoldable pub set_timed_out_interest_count :
      List (Adjacent N F D) → N → ℕ → List (Adjacent N F D)
  set_timed_out_interest_count l an count =
      modify_if (has_name an) (λ a. record a { interest_timed_out_no = count }) l

  -- `none` is the result -1.
  unfoldable pub get_timed_out_interest_count : List (Adjacent N F D) → N → Option ℕ
  unfolding find
  get_timed_out_interest_count l an = elim (find l an) [
    | none ↦ none
    | some a ↦ some a.interest_timed_out_no
  ]

  unfoldable pub get_status_of_neighbor : List (Adjacent N F D) → N → Status
  unfolding find
  get_status_of_neighbor l an = elim (find l an) [ none ↦ unknown | some a ↦ a.status ]

  unfoldable pub set_status_of_neighbor : List (Adjacent N F D) → N → Status → List (Adjacent N F D)
  set_status_of_neighbor l an s = modify_if (has_name an) (λ a. record a { status = s }) l

  unfoldable pub get_adjacent : ⦃d : Double D⦄ → F → List (Adjacent N F D) → N → Adjacent N F D
  unfolding find unreached
  get_adjacent no_uri l an = elim (find l an) [ none ↦ unreached no_uri an | some a ↦ a ]

module _ {N F D : Type 0} where
  -- Neighbours that are not active and have timed out at least `retry` times.
  abbrev pub n_timed_out : ℕ → List (Adjacent N F D) → ℕ
  n_timed_out retry [] = 0
  n_timed_out retry (a ∷ l) =
      (if leb retry a.interest_timed_out_no then 1 else 0) + n_timed_out retry l

  -- The loop of isAdjLsaBuildable: `none` when it returned true early.
  count_timed_out : ℕ → List (Adjacent N F D) → ℕ → Option ℕ
  count_timed_out retry [] n = some n
  count_timed_out retry (a ∷ l) n =
      let rest = count_timed_out retry l (if leb retry a.interest_timed_out_no then suc n else n) in
      if is_active a.status then none else rest

  unfoldable pub is_adj_lsa_buildable : List (Adjacent N F D) → ℕ → Bool
  unfolding count_timed_out
  is_adj_lsa_buildable l retry = elim (count_timed_out retry l 0) [
    | none ↦ true
    | some n ↦ nat_beq n (length l)
  ]

  unfoldable pub get_num_of_active_neighbor : List (Adjacent N F D) → ℕ
  get_num_of_active_neighbor [] = 0
  get_num_of_active_neighbor (a ∷ l) =
      (if is_active a.status then 1 else 0) + get_num_of_active_neighbor l

module _ {N F D : Type 0} ⦃f : Eq F⦄ where
  abbrev pub has_face_uri : F → Adjacent N F D → Bool
  has_face_uri uri a = a.face_uri == uri

  unfoldable pub find_face_uri : List (Adjacent N F D) → F → Option (Adjacent N F D)
  find_face_uri l uri = find_if (has_face_uri uri) l

  unfoldable pub get_face_id : List (Adjacent N F D) → F → ℕ
  get_face_id l uri = elim (find_if (has_face_uri uri) l) [ none ↦ 0 | some a ↦ a.face_id ]
