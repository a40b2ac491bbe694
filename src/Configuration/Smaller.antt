-- ===== src/Configuration/Smaller.antt =====
-- conf-file-processor.cpp: the smaller sections keep a configuration usable.
use nlsr.Configuration.{
  ConfigLibrary, ConfParameter, accepted, refused, threw, get_text, text_or, int_or,
}
use nlsr.Configuration.Sections.{
  hyperbolic_state_of, read_radius, with_coordinates, process_conf_section_hyperbolic,
  process_conf_section_fib, advertise_name, process_prefixes, add_cert_path, process_certs,
  load_validator, after_validator, process_validators,
}
use nlsr.Configuration.Ranges.{
  Holds, Holds-bind, Holds-if, Holds-set_read, Holds-set_int_in_range, Holds-parse, IsUsable,
}
use Prim.Native.String.{String}
use text.Mathlib.Text.{◌==◌ as text_eq}
use nlsr.Prelude.{
  Ord, Double, cost_le, if◌then◌else◌, ℕ, not, ◌||◌, Option, none, some, List, [], ◌∷◌, arith,
}

module _ {S N F D X : Type 0} (lib : ConfigLibrary S N F D X) (tries : ℕ) where
  abbrev Usable : ConfParameter N F D → Type 0
  Usable c = IsUsable tries c

  pub fib-IsUsable :
      ⦃d : Double D⦄ (s : S) (c : ConfParameter N F D)
      → IsUsable tries c
      → Holds Usable (process_conf_section_fib lib s c)
  unfolding process_conf_section_fib
  fib-IsUsable s c u =
      Holds-bind Usable Usable _ _
        (Holds-set_int_in_range Usable 0 60 (λ v c. record c { max_faces_per_prefix = v }) c
          (λ v l h. ground arith) (int_or lib s "max-faces-per-prefix" 0))
        (λ c u.
          Holds-parse Usable 0 15 (λ v c. record c { routing_calc_interval = v }) c
            (λ v l h. ground arith) lib s "routing-calc-interval" 15 (omega arith) (omega arith))

  with_coordinates-IsUsable :
      ⦃d : Double D⦄ (state : String) (r : Option D) (angles : Option String)
      (c : ConfParameter N F D)
      → IsUsable tries c
      → Holds Usable (with_coordinates lib state r angles c)
  unfolding with_coordinates
  with_coordinates-IsUsable state none angles c u =
      Holds-if Usable (text_eq state "on" || text_eq state "dry-run") (refused c) (accepted c)
        (λ _. tt) (λ _. u)
  with_coordinates-IsUsable state (some r) none c u =
      Holds-if Usable (text_eq state "on" || text_eq state "dry-run") (refused c) (accepted c)
        (λ _. tt) (λ _. u)
  with_coordinates-IsUsable ⦃d⦄ state (some r) (some angles) c u =
      Holds-bind Usable Usable _ _
        (Holds-if Usable (cost_le d.zero_cost r) (accepted (record c { cor_r = r })) (refused c)
          (λ _. ground arith) (λ _. tt))
        (λ c u. ground arith)

  pub hyperbolic-IsUsable :
      ⦃d : Double D⦄ (s : S) (c : ConfParameter N F D)
      → IsUsable tries c
      → Holds Usable (process_conf_section_hyperbolic lib s c)
  unfolding process_conf_section_hyperbolic
  hyperbolic-IsUsable s c u =
      let state = text_or lib s "state" "off" in
      Holds-bind Usable Usable _ _
        (Holds-set_read Usable (hyperbolic_state_of lib state)
          (λ h c. record c { hyperbolic_state = h }) c (λ h. ground arith))
        (λ c u. with_coordinates-IsUsable state (read_radius lib s) (get_text lib s "angle") c u)

  advertise_name-IsUsable :
      ⦃no : Ord N⦄ (name : Option N) (c : ConfParameter N F D)
      → IsUsable tries c
      → Holds Usable (advertise_name lib name c)
  unfolding advertise_name
  advertise_name-IsUsable none c u = tt
  advertise_name-IsUsable (some name) c u =
      Holds-if Usable (lib.is_empty name) (refused c) _ (λ _. tt) (λ _. ground arith)

  pub process_prefixes-IsUsable :
      ⦃no : Ord N⦄ (entries : List (String × S)) (c : ConfParameter N F D)
      → IsUsable tries c
      → Holds Usable (process_prefixes lib entries c)
  unfolding process_prefixes
  process_prefixes-IsUsable [] c u = u
  process_prefixes-IsUsable ((key, t) ∷ entries) c u =
      Holds-if Usable (text_eq key "prefix") _ _
        (λ _.
          Holds-bind Usable Usable _ (process_prefixes lib entries)
            (advertise_name-IsUsable (lib.name_of (lib.data_of t)) c u)
            (λ c u. process_prefixes-IsUsable entries c u))
        (λ _. process_prefixes-IsUsable entries c u)

  add_cert_path-IsUsable :
      (path : String) (c : ConfParameter N F D)
      → IsUsable tries c
      → IsUsable tries (add_cert_path lib path c)
  add_cert_path-IsUsable path c u = ground arith

  process_certs-IsUsable :
      (entries : List (String × S)) (c : ConfParameter N F D)
      → IsUsable tries c
      → Holds Usable (process_certs lib entries c)
  unfolding process_certs
  process_certs-IsUsable [] c u = u
  process_certs-IsUsable ((key, t) ∷ entries) c u =
      let path = lib.absolute_from (lib.data_of t) c.conf_file_name in
      let added = process_certs lib entries (add_cert_path lib path c) in
      Holds-if Usable (not (text_eq key "cert-to-publish")) (refused c)
        (if lib.has_certificate path then added else refused c) (λ _. tt)
        (λ _.
          Holds-if Usable (lib.has_certificate path) added (refused c)
            (λ _.
              process_certs-IsUsable entries (add_cert_path lib path c)
                (add_cert_path-IsUsable path c u))
            (λ _. tt))

  load_validator-IsUsable :
      (t : S) (c : ConfParameter N F D) → IsUsable tries c → Holds Usable (load_validator lib t c)
  load_validator-IsUsable t c u =
      Holds-if Usable (lib.validator_loads t) (accepted c) (threw c) (λ _. u) (λ _. tt)

  after_validator-IsUsable :
      (entries : List (String × S)) (c : ConfParameter N F D)
      → IsUsable tries c
      → Holds Usable (after_validator lib entries c)
  unfolding after_validator
  after_validator-IsUsable [] c u = u
  after_validator-IsUsable ((key, t) ∷ entries) c u =
      Holds-if Usable (text_eq key "prefix-update-validator") _ (accepted c)
        (λ _.
          Holds-bind Usable Usable _ (process_certs lib entries) (load_validator-IsUsable t c u)
            (λ c u. process_certs-IsUsable entries c u))
        (λ _. u)

  pub process_validators-IsUsable :
      (entries : List (String × S)) (c : ConfParameter N F D)
      → IsUsable tries c
      → Holds Usable (process_validators lib entries c)
  unfolding process_validators
  process_validators-IsUsable [] c u = tt
  process_validators-IsUsable ((key, t) ∷ entries) c u =
      Holds-if Usable (text_eq key "validator") _ (refused c)
        (λ _.
          Holds-bind Usable Usable _ (after_validator lib entries) (load_validator-IsUsable t c u)
            (λ c u. after_validator-IsUsable entries c u))
        (λ _. tt)
