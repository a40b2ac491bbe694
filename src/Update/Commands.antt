-- ===== src/Update/Commands.antt =====
-- update/manager-base.cpp: the commands that advertise and withdraw a prefix, for the name prefix
-- list, the LSDB and the dynamic configuration file. The readvertised routes of NFD's RIB come with
-- the same commands, but are never saved.
use nlsr.Update.{
  NameSources, insert_source, erase_source, get_names, FileFormat, add_or_delete_prefix,
}
use nlsr.Lsdb.{Config, Lsdb}
use nlsr.Lsdb.Own.{build_and_install_own_name_lsa}
use nlsr.Prelude.{Eq, Ord, Double, if◌then◌else◌, ℕ, Bool, true, false, not, ◌&&◌, Option, List}

-- The code of the answer: 200, 204, 205 or 406.
pub record Advertiser (N S F D L : Type 0) : Type 0 where
  pub names : List (NameSources N S)
  pub database : Lsdb N F D
  pub saved_file : Option (List L)

-- `saves` is the processor's own afterAdvertise and afterWithdraw; the one for NFD's RIB gives
-- std::nullopt.
module _ {N S F D L : Type 0} ⦃n : Eq N⦄ ⦃no : Ord N⦄ ⦃e : Eq S⦄ ⦃so : Ord S⦄ ⦃f : Eq F⦄
    ⦃d : Double D⦄ ⦃l : Eq L⦄ (conf : Config N F D) (format : FileFormat N L) (own_source : S)
    (saves : Bool) (now : ℕ) where
  -- The configuration with the names that are advertised now.
  abbrev pub with_names : List (NameSources N S) → Config N F D
  with_names names = record conf { name_prefix_list = get_names names }

  unfoldable pub rebuild_name_lsa : Advertiser N S F D L → Advertiser N S F D L
  unfolding build_and_install_own_name_lsa
  rebuild_name_lsa a = record a {
    database = build_and_install_own_name_lsa (with_names a.names) now a.database;
  }

  -- Saving or deleting the name, where the flags ask for it; else the given code.
  unfoldable pub after_change :
      N → Bool → Bool → ℕ → Advertiser N S F D L → Advertiser N S F D L × ℕ
  unfolding add_or_delete_prefix
  after_change name add flagged otherwise a =
      let (file, written) = add_or_delete_prefix format name add a.saved_file in
      if not flagged
      then (a, otherwise)
      else if saves && written
      then (record a { saved_file = file }, 205)
      else (if saves then record a { saved_file = file } else a, 406)

  unfoldable pub advertise_and_insert_prefix :
      N → Bool → Advertiser N S F D L → Advertiser N S F D L × ℕ
  unfolding insert_source rebuild_name_lsa after_change
  advertise_and_insert_prefix name flagged a =
      let (names, is_new) = insert_source name own_source a.names in
      if is_new
      then after_change name true flagged 200 (rebuild_name_lsa (record a { names = names }))
      else after_change name true flagged 204 (record a { names = names })

  unfoldable pub withdraw_and_remove_prefix :
      N → Bool → Advertiser N S F D L → Advertiser N S F D L × ℕ
  unfolding erase_source rebuild_name_lsa after_change
  withdraw_and_remove_prefix name flagged a =
      let (names, was_there) = erase_source name own_source a.names in
      if was_there
      then after_change name false flagged 200 (rebuild_name_lsa (record a { names = names }))
      else after_change name false flagged 204 (record a { names = names })
