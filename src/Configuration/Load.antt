-- ===== src/Configuration/Load.antt =====
-- conf-file-processor.cpp: a section by its name, and the whole file.
use nlsr.Configuration.{ConfigLibrary, ConfParameter, Outcome, accepted, refused, ◌>>=◌}
use nlsr.Configuration.General.{build_router_and_sync_user_prefix, process_conf_section_general}
use nlsr.Configuration.Neighbors.{process_conf_section_neighbors}
use nlsr.Configuration.Sections.{
  process_conf_section_hyperbolic, process_conf_section_fib, process_conf_section_advertising,
  process_conf_section_security,
}
use Prim.Native.String.{String}
use text.Mathlib.Text.{◌==◌ as text_eq}
use nlsr.Prelude.{Eq, Ord, Double, if◌then◌else◌, Option, none, some, List, [], ◌∷◌}

module _ {S N F D X : Type 0} ⦃n : Eq N⦄ ⦃no : Ord N⦄ ⦃d : Double D⦄
    (lib : ConfigLibrary S N F D X) where
  -- An unknown section is reported, but not refused.
  unfoldable pub process_section : String → S → ConfParameter N F D → Outcome (ConfParameter N F D)
  unfolding process_conf_section_general process_conf_section_neighbors
      process_conf_section_hyperbolic process_conf_section_fib process_conf_section_advertising
      process_conf_section_security
  process_section name s c =
      if text_eq name "general"
      then process_conf_section_general lib s c
      else if text_eq name "neighbors"
      then process_conf_section_neighbors lib s c
      else if text_eq name "hyperbolic"
      then process_conf_section_hyperbolic lib s c
      else if text_eq name "fib"
      then process_conf_section_fib lib s c
      else if text_eq name "advertising"
      then process_conf_section_advertising lib s c
      else if text_eq name "security"
      then process_conf_section_security lib s c
      else accepted c

  unfoldable pub process_sections :
      List (String × S) → ConfParameter N F D → Outcome (ConfParameter N F D)
  unfolding process_section
  process_sections [] c = accepted c
  process_sections ((name, s) ∷ sections) c = process_section name s c >>= process_sections sections

  unfoldable pub load_tree :
      Option (List (String × S)) → ConfParameter N F D → Outcome (ConfParameter N F D)
  unfolding process_sections
  load_tree none c = refused c
  load_tree (some sections) c = process_sections sections c

  unfoldable pub load : String → ConfParameter N F D → Outcome (ConfParameter N F D)
  unfolding load_tree
  load input c = load_tree (lib.read_info input) c

  unfoldable pub load_file : Option String → ConfParameter N F D → Outcome (ConfParameter N F D)
  unfolding load
  load_file none c = refused c
  load_file (some input) c = load input c

  unfoldable pub process_conf_file : ConfParameter N F D → Outcome (ConfParameter N F D)
  unfolding load_file build_router_and_sync_user_prefix
  process_conf_file c =
      load_file (lib.open_file c.conf_file_name) c
      >>= (λ c. accepted (build_router_and_sync_user_prefix lib c))
