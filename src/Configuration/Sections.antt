-- ===== src/Configuration/Sections.antt =====
-- conf-file-processor.cpp: the sections "hyperbolic", "fib", "advertising" and "security".
use nlsr.Configuration.Limits.{
  routing_calc_interval_min, routing_calc_interval_default, routing_calc_interval_max,
  max_faces_per_prefix_min, max_faces_per_prefix_default, max_faces_per_prefix_max,
}
use nlsr.Configuration.{
  ConfigLibrary, ConfParameter, Outcome, accepted, refused, threw, ◌>>=◌, find_child, get_text,
  text_or, int_or, set_int_in_range, set_read, parse_from_config_section,
}
use nlsr.Configuration.Angles.{parse_angles}
use nlsr.Prelude.Sets.{set_insert}
use nlsr.Sequencing.{HyperbolicState, hyperbolic_off, hyperbolic_on, hyperbolic_dry_run}
use Prim.Native.String.{String}
use text.Mathlib.Text.{◌==◌ as text_eq}
use nlsr.Prelude.{
  Ord, less, Double, cost_le, find_if, if◌then◌else◌, is_some, not, ◌||◌, Option, none, some, List,
  [], ◌∷◌,
}

module _ {N F D : Type 0} ⦃d : Double D⦄ where
  -- setCorR, which tells whether the radius is set.
  abbrev pub set_cor_r : D → ConfParameter N F D → Outcome (ConfParameter N F D)
  set_cor_r r c = if cost_le d.zero_cost r then accepted (record c { cor_r = r }) else refused c

module _ {S N F D X : Type 0} ⦃d : Double D⦄ (lib : ConfigLibrary S N F D X) where
  -- The cases of the text do not matter.
  unfoldable pub hyperbolic_state_of : String → Option HyperbolicState
  hyperbolic_state_of state =
      if lib.iequals state "off"
      then some hyperbolic_off
      else if lib.iequals state "on"
      then some hyperbolic_on
      else if lib.iequals state "dry-run"
      then some hyperbolic_dry_run
      else none

  -- get<double>, which throws for a missing or malformed value.
  abbrev pub read_radius : S → Option D
  read_radius s = elim (find_child lib s "radius") [ none ↦ none | some t ↦ lib.double_value t ]

  -- What the exception handler returns: here the cases do matter.
  abbrev pub without_coordinates : String → ConfParameter N F D → Outcome (ConfParameter N F D)
  without_coordinates state c =
      if text_eq state "on" || text_eq state "dry-run" then refused c else accepted c

  unfoldable pub with_coordinates :
      String → Option D → Option String → ConfParameter N F D → Outcome (ConfParameter N F D)
  unfolding parse_angles
  with_coordinates state none _ c = without_coordinates state c
  with_coordinates state (some r) none c = without_coordinates state c
  with_coordinates state (some r) (some angles) c =
      set_cor_r r c
      >>= (λ c. accepted (record c { cor_theta = parse_angles lib (lib.stream_of angles) }))

  unfoldable pub process_conf_section_hyperbolic :
      S → ConfParameter N F D → Outcome (ConfParameter N F D)
  unfolding hyperbolic_state_of with_coordinates
  process_conf_section_hyperbolic s c =
      let state = text_or lib s "state" "off" in
      set_read (hyperbolic_state_of state) (λ h c. record c { hyperbolic_state = h }) c
      >>= with_coordinates state (read_radius s) (get_text lib s "angle")

  unfoldable pub process_conf_section_fib : S → ConfParameter N F D → Outcome (ConfParameter N F D)
  unfolding int_or parse_from_config_section
  process_conf_section_fib s c =
      set_int_in_range max_faces_per_prefix_min max_faces_per_prefix_max
        (int_or lib s "max-faces-per-prefix" max_faces_per_prefix_default)
        (λ faces c. record c { max_faces_per_prefix = faces }) c
      >>= parse_from_config_section lib s "routing-calc-interval" routing_calc_interval_min
          routing_calc_interval_max routing_calc_interval_default
          (λ time c. record c { routing_calc_interval = time })

module _ {S N F D X : Type 0} ⦃no : Ord N⦄ (lib : ConfigLibrary S N F D X) where
  unfoldable pub advertise_name : Option N → ConfParameter N F D → Outcome (ConfParameter N F D)
  unfolding set_insert
  advertise_name none c = refused c
  advertise_name (some name) c =
      if lib.is_empty name
      then refused c
      else accepted (record c { name_prefix_list = set_insert less name c.name_prefix_list })

  unfoldable pub process_prefixes :
      List (String × S) → ConfParameter N F D → Outcome (ConfParameter N F D)
  unfolding advertise_name
  process_prefixes [] c = accepted c
  process_prefixes ((key, t) ∷ entries) c =
      if text_eq key "prefix"
      then advertise_name (lib.name_of (lib.data_of t)) c >>= process_prefixes entries
      else process_prefixes entries c

  unfoldable pub process_conf_section_advertising :
      S → ConfParameter N F D → Outcome (ConfParameter N F D)
  unfolding process_prefixes
  process_conf_section_advertising s c = process_prefixes (lib.children s) c

module _ {S N F D X : Type 0} (lib : ConfigLibrary S N F D X) where
  -- The path goes into a std::unordered_set, and the certificate into both validators.
  abbrev pub add_cert_path : String → ConfParameter N F D → ConfParameter N F D
  add_cert_path path c =
      if is_some (find_if (λ p. text_eq p path) c.certs)
      then c
      else record c { certs = path ∷ c.certs }

  unfoldable pub process_certs :
      List (String × S) → ConfParameter N F D → Outcome (ConfParameter N F D)
  process_certs [] c = accepted c
  process_certs ((key, t) ∷ entries) c =
      let path = lib.absolute_from (lib.data_of t) c.conf_file_name in
      let added = process_certs entries (add_cert_path path c) in
      if not (text_eq key "cert-to-publish")
      then refused c
      else if lib.has_certificate path
      then added
      else refused c

  -- ValidatorConfig::load
  abbrev pub load_validator : S → ConfParameter N F D → Outcome (ConfParameter N F D)
  load_validator t c = if lib.validator_loads t then accepted c else threw c

  -- After the validator, nothing is read unless the second entry is the other validator.
  unfoldable pub after_validator :
      List (String × S) → ConfParameter N F D → Outcome (ConfParameter N F D)
  unfolding process_certs
  after_validator [] c = accepted c
  after_validator ((key, t) ∷ entries) c =
      if text_eq key "prefix-update-validator"
      then load_validator t c >>= process_certs entries
      else accepted c

  unfoldable pub process_validators :
      List (String × S) → ConfParameter N F D → Outcome (ConfParameter N F D)
  unfolding after_validator
  process_validators [] c = refused c
  process_validators ((key, t) ∷ entries) c =
      if text_eq key "validator" then load_validator t c >>= after_validator entries else refused c

  unfoldable pub process_conf_section_security :
      S → ConfParameter N F D → Outcome (ConfParameter N F D)
  unfolding process_validators
  process_conf_section_security s c = process_validators (lib.children s) c
