-- ===== src/Examples/UpdateRun.antt =====
-- Router 10 with a configuration file whose lines are numbers: 0 is the empty line, 1 "advertising",
-- 2 the bracket behind it, and 100 + n the line of the name n.
use nlsr.Lsdb.{find_lsa}
use nlsr.Update.{
  with_added, with_removed, NameSources, insert_source, erase_source, FileFormat,
  add_or_delete_prefix,
}
use nlsr.Update.Names.{IsNames, operations-IsNames}
use nlsr.Update.SavedFile.{add-not_saved, delete-add}
use nlsr.Update.Commands.{Advertiser, advertise_and_insert_prefix}
use nlsr.Update.Published.{IsPublished, advertise-IsPublished}
use nlsr.Examples.LsdbRun.{router_config, dirty}
use nlsr.Examples.Values.{nat_ord, Tenths, tenths_double}
use nlsr.Prelude.{is_in, nat_eq, ℕ, ◌+◌, ◌≡◌, refl, true, false, some, List, [], ◌∷◌, arith}

abbrev numbered_lines : FileFormat ℕ ℕ
numbered_lines = record {
  empty_line = 0;
  advertising = 1;
  prefix_line = λ n. 100 + n;
  trim = λ n. n;
}

abbrev some_lines : List ℕ
some_lines = 9 ∷ 1 ∷ 2 ∷ 107 ∷ 3 ∷ 0 ∷ []

abbrev seven_and_eight : List (NameSources ℕ ℕ)
seven_and_eight =
    record { name = 7; sources = 0 ∷ [] } ∷ record { name = 8; sources = 0 ∷ 5 ∷ [] } ∷ []

abbrev advertiser : Advertiser ℕ ℕ ℕ Tenths ℕ
advertiser = record { names = seven_and_eight; database = dirty; saved_file = some some_lines }

seven_and_eight-IsNames : IsNames seven_and_eight
seven_and_eight-IsNames = record {
  sorted = ((refl, tt), (tt, tt));
  filled = (refl, (tt, tt), (refl, ((refl, tt), (tt, tt)), tt));
}

delete-add_example :
    (add_or_delete_prefix numbered_lines 8 true (some some_lines)
      ≡ (some (9 ∷ 1 ∷ 2 ∷ 108 ∷ 107 ∷ 3 ∷ 0 ∷ []), true))
    × (add_or_delete_prefix numbered_lines 8 false (some (9 ∷ 1 ∷ 2 ∷ 108 ∷ 107 ∷ 3 ∷ 0 ∷ []))
        ≡ (some some_lines, true))
unfolding with_added with_removed
delete-add_example = delete-add numbered_lines 8 some_lines refl refl refl (λ h. omega (arith, h))

operations-IsNames_example :
    IsNames (insert_source 6 0 seven_and_eight).0 × IsNames (erase_source 6 0 seven_and_eight).0
operations-IsNames_example = operations-IsNames 6 0 seven_and_eight seven_and_eight-IsNames

advertise-IsPublished_example :
    IsPublished router_config numbered_lines 0 true 50 6
      (advertise_and_insert_prefix router_config numbered_lines 0 true 50 6 true advertiser).0
unfolding find_lsa
advertise-IsPublished_example =
    advertise-IsPublished router_config numbered_lines 0 true 50 6 6 true advertiser
      seven_and_eight-IsNames tt refl

add-not_saved_example :
    (add_or_delete_prefix numbered_lines 8 true (some (9 ∷ 0 ∷ [])) ≡ (some (9 ∷ 0 ∷ []), true))
    × (is_in {A = ℕ} 108 (9 ∷ 0 ∷ []) ≡ false)
    × ((add_or_delete_prefix numbered_lines 8 true (some (9 ∷ 0 ∷ []))).1 ≡ true)
unfolding with_added
add-not_saved_example =
    add-not_saved numbered_lines 8 (9 ∷ 0 ∷ []) refl refl (λ h. omega (arith, h))
