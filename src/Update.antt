-- ===== src/Update.antt =====
-- name-prefix-list.hpp, name-prefix-list.cpp and update/: the names that this router advertises,
-- with the sources that asked for each, and the commands that change them. The std::map and its
-- std::sets are lists in order. The dynamic configuration file is the list of its lines as getline
-- gives them, the last one behind the last line break; `none` is a file that cannot be opened.
-- Authorization is left to the dispatcher.
pub mod Names
pub mod SavedFile
pub mod Commands
pub mod Published
use nlsr.Prelude.Sets.{itself, set_insert, by_key, find_key}
use nlsr.Prelude.{
  Eq, ◌==◌, is_in, Ord, length, erase_if, modify_if, nat_beq, if◌then◌else◌, Bool, true, false,
  ◌||◌, Option, none, some, List, [], ◌∷◌, map,
}

pub record NameSources (N S : Type 0) : Type 0 where
  pub name : N
  pub sources : List S

abbrev pub sourced_name : {N S : Type 0} → NameSources N S → N
sourced_name e = e.name

module _ {N S : Type 0} ⦃n : Eq N⦄ ⦃no : Ord N⦄ ⦃e : Eq S⦄ ⦃so : Ord S⦄ where
  -- The list, and whether the source is new to the name.
  unfoldable pub insert_source : N → S → List (NameSources N S) → List (NameSources N S) × Bool
  unfolding set_insert
  insert_source name source list = elim (find_key sourced_name name list) [
    | none ↦ (
      set_insert (by_key sourced_name) (record { name = name; sources = source ∷ [] }) list,
      true,
    )
    | some old ↦ if is_in source old.sources then (list, false) else (
      modify_if (λ (x : NameSources N S). x.name == name)
          (λ _. record { name = name; sources = set_insert (by_key itself) source old.sources })
          list,
      true,
    )
  ]

  -- A name goes with its last source.
  unfoldable pub erase_source : N → S → List (NameSources N S) → List (NameSources N S) × Bool
  erase_source name source list = elim (find_key sourced_name name list) [
    | none ↦ (list, false)
    | some old ↦
        let rest = erase_if (λ (x : S). x == source) old.sources in
        (
          if nat_beq (length rest) 0
              then erase_if (λ (x : NameSources N S). x.name == name) list
              else modify_if (λ (x : NameSources N S). x.name == name)
                  (λ _. record { name = name; sources = rest }) list,
          is_in source old.sources,
        )
  ]

unfoldable pub get_names : {N S : Type 0} → List (NameSources N S) → List N
get_names list = map sourced_name list

-- The lines of the file. `trim` is boost::trim, `advertising` the line that opens the section, and
-- `prefix_line` the line for a name.
pub record FileFormat (N L : Type 0) : Type 0 where
  pub empty_line : L
  pub advertising : L
  pub prefix_line : N → L
  pub trim : L → L

module _ {N L : Type 0} ⦃l : Eq L⦄ (format : FileFormat N L) where
  -- A file that cannot be opened counts as one with the line.
  unfoldable pub check_for_prefix_in_file : Option (List L) → L → Bool
  check_for_prefix_in_file none line = true
  check_for_prefix_in_file (some lines) line = is_in line lines

  -- At the end of the file getline leaves the line as it was.
  unfoldable pub with_added : L → List L → List L
  with_added value [] = format.empty_line ∷ []
  with_added value (line ∷ []) =
      if line == format.empty_line
      then format.empty_line ∷ []
      else if line == format.advertising
      then line ∷ line ∷ value ∷ format.empty_line ∷ []
      else line ∷ format.empty_line ∷ []
  with_added value (line ∷ next ∷ lines) =
      let after_next = with_added value lines in
      let after = with_added value (next ∷ lines) in
      if line == format.empty_line
      then after
      else if line == format.advertising
      then line ∷ next ∷ value ∷ after_next
      else line ∷ after

  unfoldable pub with_removed : L → List L → List L
  with_removed value [] = format.empty_line ∷ []
  with_removed value (line ∷ lines) =
      let rest = with_removed value lines in
      if line == format.empty_line || format.trim line == value then rest else line ∷ rest

  -- The file afterwards, and whether it was written.
  unfoldable pub add_or_delete_prefix : N → Bool → Option (List L) → Option (List L) × Bool
  unfolding check_for_prefix_in_file with_added with_removed
  add_or_delete_prefix name add none = (none, false)
  add_or_delete_prefix name true (some lines) =
      if check_for_prefix_in_file (some lines) (format.prefix_line name)
      then (some lines, false)
      else (some (with_added (format.prefix_line name) lines), true)
  add_or_delete_prefix name false (some lines) =
      if check_for_prefix_in_file (some lines) (format.prefix_line name)
      then (some (with_removed (format.trim (format.prefix_line name)) lines), true)
      else (some lines, false)
