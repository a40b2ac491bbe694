-- ===== src/Examples/WireRun.antt =====
-- TLV blocks as a data type, with time points that are printed in hundreds.
use nlsr.Wire.{Tlv, ok, encode_lsa}
use nlsr.Wire.RoundTrip.{decode_as, received_lsa, decode-encode_lsa}
use nlsr.Lsa.{adjacency_lsa, Lsa}
use nlsr.Examples.Values.{nat_ord, Tenths, tenths_double}
use nlsr.Examples.LinkStateRun.{adj_lsa_of, own_neighbors}
use nlsr.Prelude.{nat_eq, ℕ, ◌*◌, ◌/◌, ◌≡◌, refl, Option, none, some, List, [], ◌∷◌, arith}

data Blk : Type 0 where
  name_blk : ℕ → Blk
  uri_blk : ℕ → ℕ → Blk
  double_blk : ℕ → Tenths → Blk
  number_blk : ℕ → ℕ → Blk
  time_blk : ℕ → ℕ → Blk
  -- A block of the type without elements, and one with an element before those of another.
  nested_none : ℕ → Blk
  nested_more : Blk → Blk → Blk

abbrev blk_type : Blk → ℕ
blk_type (name_blk x) = 7
blk_type (uri_blk t x) = t
blk_type (double_blk t x) = t
blk_type (number_blk t x) = t
blk_type (time_blk t x) = t
blk_type (nested_none t) = t
blk_type (nested_more b bs) = blk_type bs

abbrev nested_blk : ℕ → List Blk → Blk
nested_blk t [] = nested_none t
nested_blk t (b ∷ bs) = nested_more b (nested_blk t bs)

abbrev blk_elements : Blk → Option (List Blk)
blk_elements (nested_none t) = some []
blk_elements (nested_more b bs) = elim (blk_elements bs) [ none ↦ none | some l ↦ some (b ∷ l) ]
blk_elements (name_blk x) = none
blk_elements (uri_blk t x) = none
blk_elements (double_blk t x) = none
blk_elements (number_blk t x) = none
blk_elements (time_blk t x) = none

abbrev number_in : Blk → Option ℕ
number_in (number_blk t x) = some x
number_in (name_blk x) = some x
number_in (uri_blk t x) = some x
number_in (time_blk t x) = some (x / 100 * 100)
number_in (double_blk t x) = none
number_in (nested_none t) = none
number_in (nested_more b bs) = none

abbrev double_in : Blk → Option Tenths
double_in (double_blk t x) = some x
double_in (number_blk t x) = none
double_in (name_blk x) = none
double_in (uri_blk t x) = none
double_in (time_blk t x) = none
double_in (nested_none t) = none
double_in (nested_more b bs) = none

blk_type-nested : (t : ℕ) (bs : List Blk) → blk_type (nested_blk t bs) ≡ t
blk_type-nested t [] = refl
blk_type-nested t (b ∷ bs) = blk_type-nested t bs

blk_elements-nested : (t : ℕ) (bs : List Blk) → blk_elements (nested_blk t bs) ≡ some bs
blk_elements-nested t [] = refl
blk_elements-nested t (b ∷ bs) = rw (blk_elements-nested t bs) refl

abbrev blocks : Tlv Blk ℕ ℕ Tenths
blocks = record {
  type_of = blk_type;
  elements = blk_elements;
  nested = nested_blk;
  name_block = name_blk;
  uri_block = uri_blk;
  double_block = double_blk;
  number_block = number_blk;
  time_block = time_blk;
  read_name = number_in;
  read_uri = number_in;
  read_double = double_in;
  read_number = number_in;
  read_time = number_in;
  printed = λ x. x / 100 * 100;
  name_type = 7;
  type-nested = blk_type-nested;
  type-name_block = λ x. refl;
  type-uri_block = λ t x. refl;
  type-double_block = λ t x. refl;
  type-number_block = λ t x. refl;
  type-time_block = λ t x. refl;
  elements-nested = blk_elements-nested;
  read-name_block = λ x. refl;
  read-uri_block = λ t x. refl;
  read-double_block = λ t x. refl;
  read-number_block = λ t x h. refl;
  read-time_block = λ t x. refl;
}

abbrev sent_lsa : Lsa ℕ ℕ Tenths
sent_lsa = record (adj_lsa_of 20 own_neighbors) { expiration_time_point = 1234 }

decode-encode_lsa_example :
    decode_as blocks 0 adjacency_lsa (encode_lsa blocks 0 sent_lsa)
    ≡ ok (received_lsa blocks 0 sent_lsa)
decode-encode_lsa_example = decode-encode_lsa blocks 0 sent_lsa (omega arith)
