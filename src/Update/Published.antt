-- ===== src/Update/Published.antt =====
-- The own name LSA after a command: it names what the name prefix list names.
use nlsr.Update.{insert_source, erase_source, NameSources, sourced_name, get_names, FileFormat}
use nlsr.Update.Names.{
  insert_source-has_source, erase_source-has_source, operations-IsNames, has_source, IsNames,
}
use nlsr.Update.Commands.{
  with_names, rebuild_name_lsa, withdraw_and_remove_prefix, Advertiser, after_change,
  advertise_and_insert_prefix,
}
use nlsr.Lsa.{name_lsa, name_body, Lsa, get_type, type_eq, npl}
use nlsr.Lsa.Names.{update_body-names}
use nlsr.Lsdb.{write_file, Config, Lsdb, publish, find_lsa, updated_lsa}
use nlsr.Lsdb.Own.{with_increased, own_lsa, build_and_install_own_name_lsa}
use nlsr.Lsdb.Install.{has_key_refl, find-install_lsa, merged}
use nlsr.Prelude.Sets.{Above, itself, IsSorted}
use nlsr.Sequencing.{increased}
use nlsr.Prelude.{
  Eq, is_in, Ord, Double, ltb, if◌then◌else◌, ℕ, ◌<◌, ◌≡◌, refl, sym, ap, subst, ◌∙◌, Bool, true,
  false, Option, none, some, List, [], ◌∷◌, arith,
}

module _ {N F D : Type 0} ⦃n : Eq N⦄ ⦃no : Ord N⦄ ⦃f : Eq F⦄ ⦃d : Double D⦄ where
  -- The names of an LSA that may be missing.
  abbrev pub lsa_names : Option (Lsa N F D) → List N
  lsa_names none = []
  lsa_names (some l) = npl l.body

  -- A name LSA with a number below the next, and with its names in order.
  abbrev pub IsOlder : ℕ → Option (Lsa N F D) → Type 0
  IsOlder next none = Unit {0}
  IsOlder next (some l) =
      (l.seq_no < next) × (type_eq (get_type l) name_lsa ≡ true) × IsSorted itself (npl l.body)

  merged-names :
      (k : N) (o : Option (Lsa N F D)) (l : Lsa N F D) (names : List N)
      → IsOlder l.seq_no o
      → IsSorted itself names
      → l.body ≡ name_body names
      → (is_in k (lsa_names (some (merged o l))) ≡ is_in k names)
        × IsSorted itself (lsa_names (some (merged o l)))
  unfolding updated_lsa
  merged-names k none l names h s e = rw e (refl, s)
  merged-names k (some old) l names h s e =
      let (same, sorted) = update_body-names k old.body names h.1 h.2 s in
      let newer : ltb old.seq_no l.seq_no ≡ true = ground arith in rw (newer, e) (same, sorted)

  pub rebuilt-names :
      (conf : Config N F D) (now : ℕ) (k : N) (db : Lsdb N F D)
      → IsOlder (increased db.seqs.name_lsa_seq 1) (find_lsa db conf.this_router_prefix name_lsa)
      → IsSorted itself conf.name_prefix_list
      → let new =
          find_lsa (build_and_install_own_name_lsa conf now db) conf.this_router_prefix name_lsa in
        (is_in k (lsa_names new) ≡ is_in k conf.name_prefix_list) × IsSorted itself (lsa_names new)
  unfolding build_and_install_own_name_lsa with_increased find_lsa write_file
  rebuilt-names conf now k db older sorted =
      let next = increased db.seqs.name_lsa_seq 1 in
      let l = own_lsa conf now next (name_body conf.name_prefix_list) in
      let given = with_increased conf now name_lsa db in
      let sent = publish name_lsa given.seqs.name_lsa_seq given in
      let held = find_lsa db conf.this_router_prefix name_lsa in
      let found : find_lsa (build_and_install_own_name_lsa conf now db) conf.this_router_prefix
            name_lsa
          ≡ some (merged held l) =
        find-install_lsa conf now l sent conf.this_router_prefix name_lsa
        ∙ ap (λ (b : Bool). if b then some (merged held l) else held) (has_key_refl l) in
      subst
        (λ (o : Option (Lsa N F D)).
          (is_in k (lsa_names o) ≡ is_in k conf.name_prefix_list) × IsSorted itself (lsa_names o))
        (sym found) (merged-names k held l conf.name_prefix_list older sorted refl)

module _ {N S : Type 0} ⦃no : Ord N⦄ where
  Above-get_names :
      (k : N) (list : List (NameSources N S))
      → Above sourced_name k list
      → Above itself k (get_names list)
  unfolding get_names
  Above-get_names k [] a = tt
  Above-get_names k (x ∷ list) a = (a.0, Above-get_names k list a.1)

  IsSorted-get_names :
      (list : List (NameSources N S))
      → IsSorted sourced_name list
      → IsSorted itself (get_names list)
  unfolding get_names
  IsSorted-get_names [] s = tt
  IsSorted-get_names (x ∷ list) s = (Above-get_names x.name list s.0, IsSorted-get_names list s.1)

module _ {N S F D L : Type 0} ⦃n : Eq N⦄ ⦃no : Ord N⦄ ⦃e : Eq S⦄ ⦃so : Ord S⦄ ⦃f : Eq F⦄
    ⦃d : Double D⦄ ⦃l : Eq L⦄ (conf : Config N F D) (format : FileFormat N L) (own_source : S)
    (saves : Bool) (now : ℕ) where
  -- The own name LSA that the LSDB holds.
  abbrev pub own_names : Advertiser N S F D L → List N
  own_names a = lsa_names (find_lsa a.database conf.this_router_prefix name_lsa)

  after_change-database :
      (name : N) (add flagged : Bool) (otherwise : ℕ) (a : Advertiser N S F D L)
      → ((after_change conf format own_source saves now name add flagged otherwise a).0.database
          ≡ a.database)
        × ((after_change conf format own_source saves now name add flagged otherwise a).0.names
            ≡ a.names)
  unfolding after_change
  after_change-database name add flagged otherwise a = (ground arith, ground arith)

  -- The own name LSA names what the list names.
  abbrev pub IsPublished : N → Advertiser N S F D L → Type 0
  IsPublished k a = is_in k (own_names a) ≡ is_in k (get_names a.names)

  abbrev IsOlderOwn : Advertiser N S F D L → Type 0
  IsOlderOwn a =
      IsOlder (increased a.database.seqs.name_lsa_seq 1)
        (find_lsa a.database conf.this_router_prefix name_lsa)

  rebuilt-IsPublished :
      (k name : N) (add flagged : Bool) (otherwise : ℕ) (a : Advertiser N S F D L)
      → IsNames a.names
      → IsOlderOwn a
      → IsPublished k
          (after_change conf format own_source saves now name add flagged otherwise
            (rebuild_name_lsa conf format own_source saves now a)).0
  unfolding rebuild_name_lsa
  rebuilt-IsPublished k name add flagged otherwise a v older =
      let rebuilt = rebuild_name_lsa conf format own_source saves now a in
      let (database, names) = after_change-database name add flagged otherwise rebuilt in
      let (same, _) =
        rebuilt-names (with_names conf format own_source saves now a.names) now k a.database older
          (IsSorted-get_names a.names v.sorted) in
      ap (λ (db : Lsdb N F D). is_in k (lsa_names (find_lsa db conf.this_router_prefix name_lsa)))
        database
      ∙ (same ∙ ap (λ (l : List (NameSources N S)). is_in k (get_names l)) (sym names))

  -- After the advertisement of a name that was not in the list for this source, the own name LSA of
  -- the LSDB names exactly the names of the list, whether the file was written or not. The LSA
  -- before has a number below the next one and has its names in order.
  pub advertise-IsPublished :
      (k name : N) (flagged : Bool) (a : Advertiser N S F D L)
      → IsNames a.names
      → IsOlder
          (increased a.database.seqs.name_lsa_seq 1)
          (find_lsa a.database conf.this_router_prefix name_lsa)
      → has_source name own_source a.names ≡ false
      → IsPublished k
          (advertise_and_insert_prefix conf format own_source saves now name flagged a).0
  unfolding advertise_and_insert_prefix
  advertise-IsPublished k name flagged a v older new =
      let (names, is_new) = insert_source name own_source a.names in
      let after : Advertiser N S F D L = record a { names = names } in
      let (has, told) = insert_source-has_source name name own_source own_source a.names in
      let (kept, erased) = operations-IsNames name own_source a.names v in
      ground (arith, rebuilt-IsPublished k name true flagged 200 after kept older, told, new)

  -- After the withdrawal of a name that was in the list for this source, the own name LSA of the LSDB
  -- names exactly the names of the list, whether the file was written or not. The LSA before has a
  -- number below the next one and has its names in order.
  pub withdraw-IsPublished :
      (k name : N) (flagged : Bool) (a : Advertiser N S F D L)
      → IsNames a.names
      → IsOlder
          (increased a.database.seqs.name_lsa_seq 1)
          (find_lsa a.database conf.this_router_prefix name_lsa)
      → has_source name own_source a.names ≡ true
      → IsPublished k (withdraw_and_remove_prefix conf format own_source saves now name flagged a).0
  unfolding withdraw_and_remove_prefix
  withdraw-IsPublished k name flagged a v older there =
      let (names, was_there) = erase_source name own_source a.names in
      let after : Advertiser N S F D L = record a { names = names } in
      let (has, told) =
        erase_source-has_source name name own_source own_source a.names v.sorted v.filled in
      let (inserted, kept) = operations-IsNames name own_source a.names v in
      ground (arith, rebuilt-IsPublished k name false flagged 200 after kept older, told, there)
