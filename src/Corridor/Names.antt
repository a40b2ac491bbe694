-- ===== src/Corridor/Names.antt =====
-- corridor.cpp: the names of availability Interests. What the library does with a name and its
-- components is a record of operations, with the laws of its documentation.
use nlsr.Lsa.{LsaType, adjacency_lsa, coordinate_lsa, name_lsa, base_lsa, type_eq}
use nlsr.Sequencing.{u64_mod}
use Prim.Native.String.{String}
use text.Mathlib.Text.{◌==◌ as text_eq}
use nlsr.Prelude.{
  if◌then◌else◌, ℕ, ◌<◌, ◌≡◌, Bool, true, false, not, ◌&&◌, ◌||◌, Option, none, some, List, [], ◌∷◌,
  ◌++◌,
}

-- ndn::Name (N) and ndn::name::Component (C). `components` is the sequence of a name, `generic`
-- the GenericNameComponent of a text, `number` the one of appendNumber, `wire` the one whose
-- value is wireEncode() of a name, and `unwired` decodes such a value, `none` for tlv::Error.
pub record NameLibrary (N C : Type 0) : Type 0 where
  pub components : N → List C
  pub generic : String → C
  pub to_uri : C → String
  pub number : ℕ → C
  pub is_number : C → Bool
  pub to_number : C → ℕ
  pub wire : N → C
  pub unwired : C → Option N
  pub is_empty : N → Bool
  -- toUri escapes no letter.
  pub uri_nlsr : to_uri (generic "nlsr") ≡ "nlsr"
  pub uri_optoflood : to_uri (generic "optoflood") ≡ "optoflood"
  pub uri_corridor : to_uri (generic "corridor") ≡ "corridor"
  pub uri_localhop : to_uri (generic "localhop") ≡ "localhop"
  pub uri_adjacency : to_uri (generic "ADJACENCY") ≡ "ADJACENCY"
  pub number-IsNumber : (n : ℕ) → n < u64_mod → is_number (number n) ≡ true
  pub to_number-number : (n : ℕ) → n < u64_mod → to_number (number n) ≡ n
  pub unwired-wire : (name : N) → unwired (wire name) ≡ some name

pub record CorridorAvailability (N : Type 0) : Type 0 where
  pub type : LsaType
  pub seq : ℕ
  pub origin : N
  pub prefix : N

-- operator<< and operator>> of Lsa::Type
unfoldable pub type_text : LsaType → String
type_text adjacency_lsa = "ADJACENCY"
type_text coordinate_lsa = "COORDINATE"
type_text name_lsa = "NAME"
type_text base_lsa = "BASE"

unfoldable pub type_of_text : String → LsaType
type_of_text s =
    if text_eq s "ADJACENCY"
    then adjacency_lsa
    else if text_eq s "COORDINATE"
    then coordinate_lsa
    else if text_eq s "NAME"
    then name_lsa
    else base_lsa

module _ {N C : Type 0} (lib : NameLibrary N C) where
  unfoldable pub make_prefix : N → List C
  make_prefix network =
      lib.generic "localhop" ∷ lib.components network
      ++ (lib.generic "nlsr" ∷ lib.generic "optoflood" ∷ lib.generic "corridor" ∷ [])

  unfoldable pub encode_availability_name : N → LsaType → ℕ → N → N → List C
  unfolding make_prefix type_text
  encode_availability_name network type seq origin prefix =
      make_prefix network
      ++ (lib.generic (type_text type) ∷ lib.number seq ∷ lib.wire origin ∷ lib.wire prefix ∷ [])

  -- The URI of a component is this text.
  abbrev pub reads : String → C → Bool
  reads text c = text_eq (lib.to_uri c) text

  -- The test on the two components before "corridor", the nearer one first.
  abbrev pub is_after_optoflood : List C → Bool
  is_after_optoflood [] = false
  is_after_optoflood (a ∷ []) = false
  is_after_optoflood (a ∷ b ∷ _) = reads "optoflood" a && reads "nlsr" b

  -- The origin and the prefix, both decoded and not empty.
  abbrev pub with_names : ℕ → Option N → Option N → Option (CorridorAvailability N)
  with_names seq none _ = none
  with_names seq (some origin) none = none
  with_names seq (some origin) (some prefix) =
      if lib.is_empty origin || lib.is_empty prefix
      then none
      else some (record { type = adjacency_lsa; seq = seq; origin = origin; prefix = prefix })

  -- The four components after "corridor"; any other number of them is refused.
  unfoldable pub parse_fields : List C → Option (CorridorAvailability N)
  unfolding type_of_text
  parse_fields (type ∷ seq ∷ origin ∷ prefix ∷ []) =
      if not (type_eq (type_of_text (lib.to_uri type)) adjacency_lsa)
      then none
      else if not (lib.is_number seq)
      then none
      else with_names (lib.to_number seq) (lib.unwired origin) (lib.unwired prefix)
  parse_fields _ = none

  -- The loop to the first "corridor", with the components before it, the nearest one first.
  unfoldable pub parse_after : List C → List C → Option (CorridorAvailability N)
  unfolding parse_fields
  parse_after before [] = none
  parse_after before (c ∷ name) =
      let later = parse_after (c ∷ before) name in
      if reads "corridor" c
      then (if is_after_optoflood before then parse_fields name else none)
      else later

  unfoldable pub parse_availability_name : List C → Option (CorridorAvailability N)
  unfolding parse_after
  parse_availability_name name = parse_after [] name
