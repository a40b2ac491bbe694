-- ===== src/Configuration/Whole.antt =====
-- conf-file-processor.cpp: what a file that is accepted makes of the configuration.
use nlsr.Configuration.{ConfigLibrary, ConfParameter, new_conf_parameter, accepted}
use nlsr.Configuration.General.{build_router_and_sync_user_prefix}
use nlsr.Configuration.Sections.{process_conf_section_advertising, process_conf_section_security}
use nlsr.Configuration.Load.{
  process_section, process_sections, load_tree, load, load_file, process_conf_file,
}
use nlsr.Configuration.Ranges.{Holds, Holds-bind, Holds-if, IsUsable}
use nlsr.Configuration.Keeping.{process_conf_section_neighbors-IsUsable}
use nlsr.Configuration.Smaller.{
  fib-IsUsable, hyperbolic-IsUsable, process_prefixes-IsUsable, process_validators-IsUsable,
}
use nlsr.Configuration.Accepted.{general-IsUsable}
use Prim.Native.String.{String}
use text.Mathlib.Text.{◌==◌ as text_eq}
use nlsr.Prelude.{Eq, Ord, Double, ℕ, Option, none, some, List, [], ◌∷◌, arith}

module _ {S N F D X : Type 0} ⦃n : Eq N⦄ ⦃no : Ord N⦄ ⦃d : Double D⦄ (lib : ConfigLibrary S N F D X)
    (tries : ℕ) where
  abbrev Usable : ConfParameter N F D → Type 0
  Usable c = IsUsable tries c

  process_section-IsUsable :
      (name : String) (s : S) (c : ConfParameter N F D)
      → IsUsable tries c
      → Holds Usable (process_section lib name s c)
  unfolding process_section process_conf_section_advertising process_conf_section_security
  process_section-IsUsable name s c u =
      Holds-if Usable (text_eq name "general") _ _ (λ _. general-IsUsable lib tries s c u)
        (λ _.
          Holds-if Usable (text_eq name "neighbors") _ _
            (λ _. process_conf_section_neighbors-IsUsable lib tries s c u)
            (λ _.
              Holds-if Usable (text_eq name "hyperbolic") _ _
                (λ _. hyperbolic-IsUsable lib tries s c u)
                (λ _.
                  Holds-if Usable (text_eq name "fib") _ _ (λ _. fib-IsUsable lib tries s c u)
                    (λ _.
                      Holds-if Usable (text_eq name "advertising") _ _
                        (λ _. process_prefixes-IsUsable lib tries (lib.children s) c u)
                        (λ _.
                          Holds-if Usable (text_eq name "security") _ (accepted c)
                            (λ _. process_validators-IsUsable lib tries (lib.children s) c u)
                            (λ _. u))))))

  process_sections-IsUsable :
      (sections : List (String × S)) (c : ConfParameter N F D)
      → IsUsable tries c
      → Holds Usable (process_sections lib sections c)
  unfolding process_sections
  process_sections-IsUsable [] c u = u
  process_sections-IsUsable ((name, s) ∷ sections) c u =
      Holds-bind Usable Usable (process_section lib name s c) (process_sections lib sections)
        (process_section-IsUsable name s c u) (λ c u. process_sections-IsUsable sections c u)

  load_tree-IsUsable :
      (tree : Option (List (String × S))) (c : ConfParameter N F D)
      → IsUsable tries c
      → Holds Usable (load_tree lib tree c)
  unfolding load_tree
  load_tree-IsUsable none c u = tt
  load_tree-IsUsable (some sections) c u = process_sections-IsUsable sections c u

  load_file-IsUsable :
      (input : Option String) (c : ConfParameter N F D)
      → IsUsable tries c
      → Holds Usable (load_file lib input c)
  unfolding load_file load
  load_file-IsUsable none c u = tt
  load_file-IsUsable (some input) c u = load_tree-IsUsable (lib.read_info input) c u

  -- A file that is accepted gives a configuration whose numbers are all in their ranges, with
  -- LSAs that live longer than the refresh time, and neighbours that are inactive, without a face
  -- and with a name of their own each; the number of tries for the face dataset may still be the
  -- one that was there before.
  pub process_conf_file-IsUsable :
      (file : String) → Holds Usable (process_conf_file lib (new_conf_parameter lib file tries))
  unfolding process_conf_file new_conf_parameter build_router_and_sync_user_prefix
  process_conf_file-IsUsable file =
      let start = new_conf_parameter lib file tries in
      Holds-bind Usable Usable (load_file lib (lib.open_file file) start) _
        (load_file-IsUsable (lib.open_file file) start (ground arith)) (λ c u. ground arith)
