-- ===== src/Lsdb/Fetch.antt =====
-- lsdb.cpp: the highest sequence number that was asked for or fetched under each LSA name, as
-- expressInterest and afterFetchLsa keep it, and the installation of a fetched LSA. An LSA's name
-- is its router and type.
use nlsr.Prelude.{
  Eq, ◌==◌, Ord, Double, find_if, modify_if, ltb, if◌then◌else◌, ℕ, Bool, not, ◌&&◌, Option, none,
  some, [], ◌∷◌, ◌++◌,
}
use nlsr.Lsa.{LsaType, base_lsa, Lsa, type_eq}
use nlsr.Lsdb.{Config, Lsdb, is_lsa_new, install_lsa}

abbrev pub has_lsa_name : {N : Type 0} ⦃n : Eq N⦄ → N → LsaType → N × LsaType × ℕ → Bool
has_lsa_name router type e = e.0 == router && type_eq e.1 type

module _ {N F D : Type 0} ⦃n : Eq N⦄ where
  -- `none` is a number below the highest one, on which both functions return.
  unfoldable pub note_seq_no : N → LsaType → ℕ → Lsdb N F D → Option (Lsdb N F D)
  note_seq_no router type k db = elim (find_if (has_lsa_name router type) db.highest_seq_no) [
    | none ↦ some (record db { highest_seq_no = db.highest_seq_no ++ (router, type, k) ∷ [] })
    | some e ↦
        if ltb e.2 k
        then some (record db {
          highest_seq_no =
              modify_if (has_lsa_name router type) (λ _. (router, type, k)) db.highest_seq_no;
        })
        else if ltb k e.2
        then none
        else some db
  ]

module _ {N F D : Type 0} ⦃n : Eq N⦄ ⦃no : Ord N⦄ ⦃f : Eq F⦄ ⦃d : Double D⦄ (conf : Config N F D)
    (now : ℕ) where
  -- The last branch of afterFetchLsa: `fetched` is the decoded LSA, `none` an error in decoding.
  unfoldable pub install_if_new : N → LsaType → ℕ → Option (Lsa N F D) → Lsdb N F D → Lsdb N F D
  unfolding is_lsa_new install_lsa
  install_if_new router type k none db = db
  install_if_new router type k (some l) db =
      if not (type_eq type base_lsa) && is_lsa_new db router type k
      then install_lsa conf now l db
      else db

  unfoldable pub after_fetch_lsa : N → LsaType → ℕ → Option (Lsa N F D) → Lsdb N F D → Lsdb N F D
  unfolding note_seq_no install_if_new
  after_fetch_lsa router type k fetched db = elim (note_seq_no router type k db) [
    | none ↦ db
    | some noted ↦ install_if_new router type k fetched noted
  ]
