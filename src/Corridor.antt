-- ===== src/Corridor.antt =====
-- corridor.hpp and corridor.cpp: the hints to neighbours that an LSA is available, along the
-- faces by which a prefix is served. m_state and m_branches are std::map, lists in the order of
-- their keys; a std::set of face ids is a sorted list. `log` is what goes out, the newest first.
-- NFD's dataset of service branches is decoded by the library: its answers and its failures are
-- calls of the handlers. Signing, lifetimes and the registration of the filter are left out.
pub mod Names
pub mod RoundTrip
pub mod Advertise
pub mod Events
pub mod Attachment
pub mod Hooks
pub mod Actions
pub mod Kept
pub mod Once
pub mod Installed
pub mod Branches
pub mod Recorded
pub mod Runs
pub mod Answers
pub mod Associated
pub mod Follow
use nlsr.Lsa.{LsaType, adjacency_lsa, coordinate_lsa, name_lsa, base_lsa, type_eq, type_eq_iff}
use nlsr.Prelude.{
  Eq, ◌==◌, ==_eq, ==_refl, ==_iff, Ord, less, ltb, if◌then◌else◌, ℕ, ◌≡◌, subst, ◌↔◌, Bool, true,
  false, not, ◌&&◌, List, [], arith,
}

-- static_cast<int>(type)
abbrev pub type_number : LsaType → ℕ
type_number adjacency_lsa = 0
type_number coordinate_lsa = 1
type_number name_lsa = 2
type_number base_lsa = 3

pub type_number-injective : (a b : LsaType) → type_number a ≡ type_number b → a ≡ b
type_number-injective a b h = ground arith

pub record AdvertisementKey (N : Type 0) : Type 0 where
  pub origin : N
  pub type : LsaType
  pub prefix : N

pub record AdvertisementState : Type 0 where
  pub seq : ℕ
  pub advertised_faces : List ℕ

abbrev pub fresh_state : AdvertisementState
fresh_state = record { seq = 0; advertised_faces = [] }

pub data CorridorEffect (N C : Type 0) : Type 0 where
  -- Of a key, a sequence number, to a face.
  availability_sent : AdvertisementKey N → ℕ → ℕ → CorridorEffect N C
  -- The Data that answers an Interest of this name.
  replied : List C → CorridorEffect N C
  -- The dataset of the service branches of a prefix is asked for.
  queried : N → CorridorEffect N C
  -- The arguments of fetchLsaFromFace.
  fetched : N → LsaType → ℕ → ℕ → CorridorEffect N C

pub record Corridor (N C : Type 0) : Type 0 where
  pub state : List (AdvertisementKey N × AdvertisementState)
  pub branches : List (N × List ℕ)
  pub log : List (CorridorEffect N C)

module _ {N : Type 0} where
  module _ ⦃n : Eq N⦄ where
    abbrev pub key_equal : AdvertisementKey N → AdvertisementKey N → Bool
    key_equal a b = a.origin == b.origin && type_eq a.type b.type && a.prefix == b.prefix

    key_equal_eq : (a b : AdvertisementKey N) → key_equal a b ≡ true → a ≡ b
    key_equal_eq a b h i = record {
      origin = ==_eq a.origin b.origin (ground arith) i;
      type = ((type_eq_iff a.type b.type).0 (ground arith)) i;
      prefix = ==_eq a.prefix b.prefix (ground arith) i;
    }

    key_equal_refl : (a : AdvertisementKey N) → key_equal a a ≡ true
    key_equal_refl a = ground (arith, ==_refl a.origin, ==_refl a.prefix, type_eq_iff a.type a.type)

    pub key_equal_iff : (a b : AdvertisementKey N) → (key_equal a b ≡ true) ↔ (a ≡ b)
    key_equal_iff a b =
        (key_equal_eq a b, λ h. subst (λ c. key_equal a c ≡ true) h (key_equal_refl a))

    instance abbrev pub key_eq : Eq (AdvertisementKey N)
    key_eq = record { equal = key_equal; equal_iff = key_equal_iff }

  module _ ⦃n : Eq N⦄ ⦃no : Ord N⦄ where
    abbrev pub key_less : AdvertisementKey N → AdvertisementKey N → Bool
    key_less a b =
        if not (a.origin == b.origin)
        then less a.origin b.origin
        else if not (type_eq a.type b.type)
        then ltb (type_number a.type) (type_number b.type)
        else less a.prefix b.prefix

    pub key_less_irrefl : (a : AdvertisementKey N) → key_less a a ≡ false
    key_less_irrefl a =
        ground (arith, ==_refl a.origin, no.lt_irrefl a.prefix, type_eq_iff a.type a.type)

    pub key_less_trans :
        (a b c : AdvertisementKey N)
        → key_less a b ≡ true
        → key_less b c ≡ true
        → key_less a c ≡ true
    key_less_trans a b c h k = ground (
      arith,
      ==_iff a.origin b.origin,
      ==_iff b.origin c.origin,
      ==_iff a.origin c.origin,
      no.lt_trans a.origin b.origin c.origin,
      no.lt_irrefl a.origin,
      no.lt_irrefl b.origin,
      no.lt_trans a.prefix b.prefix c.prefix,
      type_eq_iff a.type b.type,
      type_eq_iff b.type c.type,
      type_eq_iff a.type c.type,
    )

    pub key_less_total :
        (a b : AdvertisementKey N) → key_less a b ≡ false → key_less b a ≡ false → a ≡ b
    key_less_total a b h k = (key_equal_iff a b).0 (
        ground (
          arith,
          ==_iff a.origin b.origin,
          ==_iff b.origin a.origin,
          no.lt_total a.origin b.origin,
          no.lt_total a.prefix b.prefix,
          ==_iff a.prefix b.prefix,
          type_number-injective a.type b.type,
          type_eq_iff a.type b.type,
          type_eq_iff b.type a.type,
        ))

    instance abbrev pub key_ord : Ord (AdvertisementKey N)
    key_ord = record {
      lt = key_less;
      lt_irrefl = key_less_irrefl;
      lt_trans = key_less_trans;
      lt_total = key_less_total;
    }
