-- ===== src/Lsa.antt =====
-- lsa/lsa.hpp and the three kinds of LSA (adj-lsa, coordinate-lsa, name-lsa): a common part and
-- a body. A time point is a number. The name prefixes of a name LSA all have the one default
-- source, so its NamePrefixList is the set of its names. The cached wire block is left out.
pub mod Update
pub mod Names
use nlsr.Prelude.{Eq, if◌then◌else◌, ℕ, ◌≡◌, ◌↔◌, Bool, true, false, List, [], ◌∷◌, arith}
use nlsr.Adjacency.{is_active, insert, Adjacent}

pub data LsaType : Type 0 where
  adjacency_lsa coordinate_lsa name_lsa base_lsa : LsaType

pub data Body (N F D : Type 0) : Type 0 where
  adj_body : List (Adjacent N F D) → Body N F D
  cor_body : D → List D → Body N F D
  name_body : List N → Body N F D

pub record Lsa (N F D : Type 0) : Type 0 where
  pub origin_router : N
  pub seq_no : ℕ
  pub expiration_time_point : ℕ
  pub body : Body N F D

abbrev pub type_of_body : {N F D : Type 0} → Body N F D → LsaType
type_of_body (adj_body l) = adjacency_lsa
type_of_body (cor_body r angles) = coordinate_lsa
type_of_body (name_body l) = name_lsa

abbrev pub get_type : {N F D : Type 0} → Lsa N F D → LsaType
get_type l = type_of_body l.body

abbrev pub type_eq : LsaType → LsaType → Bool
type_eq adjacency_lsa adjacency_lsa = true
type_eq coordinate_lsa coordinate_lsa = true
type_eq name_lsa name_lsa = true
type_eq base_lsa base_lsa = true
type_eq _ _ = false

pub type_eq_iff : (a b : LsaType) → (type_eq a b ≡ true) ↔ (a ≡ b)
type_eq_iff a b = ground arith

instance abbrev pub type_has_eq : Eq LsaType
type_has_eq = record { equal = type_eq; equal_iff = type_eq_iff }

-- AdjLsa::getAdl and NameLsa::getNpl().getNames(), on an LSA of that type.
abbrev pub adl : {N F D : Type 0} → Body N F D → List (Adjacent N F D)
adl (adj_body l) = l
adl (cor_body r angles) = []
adl (name_body l) = []

abbrev pub npl : {N F D : Type 0} → Body N F D → List N
npl (adj_body l) = []
npl (cor_body r angles) = []
npl (name_body l) = l

-- The constructor of AdjLsa from the configured neighbours: the active ones, each name once.
active_neighbors :
    {N F D : Type 0}
    → ⦃n : Eq N⦄ → List (Adjacent N F D)
    → List (Adjacent N F D)
    → List (Adjacent N F D)
active_neighbors [] acc = acc
active_neighbors (a ∷ l) acc =
    active_neighbors l (if is_active a.status then (insert acc a).0 else acc)

unfoldable pub new_adj_lsa :
    {N F D : Type 0} → ⦃n : Eq N⦄ → N → ℕ → ℕ → List (Adjacent N F D) → Lsa N F D
unfolding active_neighbors
new_adj_lsa origin seq_no time l = record {
  origin_router = origin;
  seq_no = seq_no;
  expiration_time_point = time;
  body = adj_body (active_neighbors l []);
}
