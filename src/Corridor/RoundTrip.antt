-- ===== src/Corridor/RoundTrip.antt =====
-- corridor.cpp: the names of availability Interests, written and read.
use nlsr.Lsa.{adjacency_lsa}
use nlsr.Sequencing.{u64_mod}
use nlsr.Corridor.Names.{
  type_text, NameLibrary, type_of_text, encode_availability_name, reads, parse_fields, parse_after,
  parse_availability_name,
}
use text.Mathlib.Text.{◌==◌ as text_eq}
use mathlib.Core.List.{append_assoc}
use nlsr.Prelude.{ℕ, ◌<◌, ◌≡◌, ap, ◌∙◌, false, some, List, [], ◌∷◌, ◌++◌, arith}

module _ {N C : Type 0} (lib : NameLibrary N C) where
  -- No component of the list reads "corridor".
  abbrev pub NoCorridor : List C → Type 0
  NoCorridor [] = Unit {0}
  NoCorridor (c ∷ cs) = (reads lib "corridor" c ≡ false) × NoCorridor cs

  abbrev read_marks : List C → List C
  read_marks fields = lib.generic "nlsr" ∷ lib.generic "optoflood" ∷ lib.generic "corridor" ∷ fields

  parse_after-read_marks :
      (before fields : List C)
      → parse_after lib before (read_marks fields) ≡ parse_fields lib fields
  unfolding parse_after
  parse_after-read_marks before fields = ground (
    arith,
    ap (λ s. text_eq s "corridor") lib.uri_nlsr,
    ap (λ s. text_eq s "corridor") lib.uri_optoflood,
    ap (λ s. text_eq s "corridor") lib.uri_corridor,
    ap (λ s. text_eq s "optoflood") lib.uri_optoflood,
    ap (λ s. text_eq s "nlsr") lib.uri_nlsr,
  )

  -- Components that do not read "corridor" are passed over.
  parse_after-append :
      (before cs fields : List C)
      → NoCorridor cs
      → parse_after lib before (cs ++ read_marks fields) ≡ parse_fields lib fields
  unfolding parse_after
  parse_after-append before [] fields h = parse_after-read_marks before fields
  parse_after-append before (c ∷ cs) fields h =
      ground (arith, h.0, parse_after-append (c ∷ before) cs fields h.1)

  parse_fields-wire :
      (seq : ℕ) (origin prefix : N)
      → seq < u64_mod
      → lib.is_empty origin ≡ false
      → lib.is_empty prefix ≡ false
      → parse_fields lib
          (lib.generic "ADJACENCY" ∷ lib.number seq ∷ lib.wire origin ∷ lib.wire prefix ∷ [])
        ≡ some (record { type = adjacency_lsa; seq = seq; origin = origin; prefix = prefix })
  unfolding parse_fields
  parse_fields-wire seq origin prefix h o p = ground (
    arith,
    ap type_of_text lib.uri_adjacency,
    lib.number-IsNumber seq h,
    lib.to_number-number seq h,
    lib.unwired-wire origin,
    lib.unwired-wire prefix,
    o,
    p,
  )

  -- An availability of an adjacency LSA comes back as it was written, if no component of the
  -- network reads "corridor" and the origin and the prefix are not empty.
  pub parse_availability_name-encode_availability_name :
      (network : N) (seq : ℕ) (origin prefix : N)
      → seq < u64_mod
      → lib.is_empty origin ≡ false
      → lib.is_empty prefix ≡ false
      → NoCorridor (lib.components network)
      → parse_availability_name lib
          (encode_availability_name lib network adjacency_lsa seq origin prefix)
        ≡ some (record { type = adjacency_lsa; seq = seq; origin = origin; prefix = prefix })
  unfolding parse_availability_name encode_availability_name type_text
  parse_availability_name-encode_availability_name network seq origin prefix h o p clean =
      let fields : List C =
        lib.generic "ADJACENCY" ∷ lib.number seq ∷ lib.wire origin ∷ lib.wire prefix ∷ [] in
      let start = lib.generic "localhop" in
      ap (λ l. parse_after lib [] (start ∷ l))
        (append_assoc (lib.components network) (read_marks []) fields)
      ∙ parse_after-append [] (start ∷ lib.components network) fields
          (ap (λ s. text_eq s "corridor") lib.uri_localhop, clean)
      ∙ parse_fields-wire seq origin prefix h o p
