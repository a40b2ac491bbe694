-- ===== src/Lsdb/Install.antt =====
-- What an installation does to the database.
use nlsr.Lsa.Update.{update_body}
use nlsr.Prelude.{
  Eq, ==_refl, ==_iff, Ord, Double, find_if, modify_if, ltb, if◌then◌else◌, Bool-cases,
  Option-cases, is_some, ℕ, ◌≡◌, ◌∙◌, inl, inr, true, false, Option, none, some, List, [], ◌∷◌,
  ◌++◌, arith,
}
use nlsr.Lsa.{Body, type_of_body, LsaType, get_type, type_eq_iff, Lsa}
use nlsr.Lsdb.{Config, Lsdb, find_lsa, updated_lsa, install_lsa, has_key}

module _ {N F D : Type 0} ⦃n : Eq N⦄ where
  -- The number under which the database holds an LSA.
  abbrev pub seq_of : Option (Lsa N F D) → Option ℕ
  seq_of none = none
  seq_of (some l) = some l.seq_no

  pub has_key-found :
      (router : N) (type : LsaType) (ls : List (Lsa N F D)) (l : Lsa N F D)
      → find_if (has_key router type) ls ≡ some l
      → has_key router type l ≡ true
  has_key-found router type [] l e = ground arith
  has_key-found router type (x ∷ xs) l e = ground (arith, has_key-found router type xs l)

  find-append :
      (router : N) (type : LsaType) (ls : List (Lsa N F D)) (l : Lsa N F D)
      → find_if (has_key router type) (ls ++ l ∷ []) ≡ (
          if is_some (find_if (has_key router type) ls)
          then find_if (has_key router type) ls
          else if has_key router type l
          then some l
          else none)
  find-append router type [] l = ground arith
  find-append router type (x ∷ xs) l = ground (arith, find-append router type xs l)

  pub has_key-key :
      (router : N) (type : LsaType) (l : Lsa N F D)
      → has_key router type l ≡ true
      → (l.origin_router ≡ router) × (get_type l ≡ type)
  has_key-key router type l h =
      (ground (arith, ==_iff l.origin_router router), ground (arith, type_eq_iff (get_type l) type))

  has_key-same :
      (router r : N) (type t : LsaType) (x l : Lsa N F D)
      → has_key router type x ≡ true
      → has_key router type l ≡ true
      → has_key r t x ≡ has_key r t l
  has_key-same router r type t x l h k =
      let (o, y) = has_key-key router type x h in
      let (p, z) = has_key-key router type l k in rw (o, y, p, z)

  has_key-different :
      (router r : N) (type t : LsaType) (x l : Lsa N F D)
      → has_key router type x ≡ false
      → has_key router type l ≡ true
      → has_key r t l ≡ true
      → has_key r t x ≡ false
  has_key-different router r type t x l h k m =
      let (o, y) = has_key-key router type l k in
      let (p, z) = has_key-key r t l m in rw (← p, ← z, o, y) h

  pub find-modify_if :
      (router r : N) (type t : LsaType) (ls : List (Lsa N F D)) (l : Lsa N F D)
      → has_key router type l ≡ true
      → is_some (find_if (has_key router type) ls) ≡ true
      → find_if (has_key r t) (modify_if (has_key router type) (λ _. l) ls)
        ≡ (if has_key r t l then some l else find_if (has_key r t) ls)
  find-modify_if router r type t [] l h k = ground arith
  find-modify_if router r type t (x ∷ xs) l h k = elim (Bool-cases (has_key router type x)) [
    | inl e ↦ let same = has_key-same router r type t x l e h in ground arith
    | inr e ↦
        let different = has_key-different router r type t x l e h in
        let rest = find-modify_if router r type t xs l h in ground arith
  ]

module _ {N F D : Type 0} ⦃n : Eq N⦄ ⦃no : Ord N⦄ ⦃f : Eq F⦄ ⦃d : Double D⦄ where
  type-update_body :
      (old new : Body N F D) → type_of_body (update_body old new).new_body ≡ type_of_body old
  unfolding update_body
  type-update_body old new = ground arith

  -- What the database holds under the key of an LSA after that LSA was offered to it.
  abbrev pub merged : Option (Lsa N F D) → Lsa N F D → Lsa N F D
  merged none l = l
  merged (some old) l = if ltb old.seq_no l.seq_no then updated_lsa old l else old

  pub has_key_refl : (l : Lsa N F D) → has_key l.origin_router (get_type l) l ≡ true
  has_key_refl l = ground (arith, ==_refl l.origin_router, type_eq_iff (get_type l) (get_type l))

  pub find-same :
      (db : Lsdb N F D) (l : Lsa N F D) (r : N) (t : LsaType)
      → has_key r t l ≡ true
      → find_lsa db r t ≡ find_lsa db l.origin_router (get_type l)
  find-same db l r t h = let (o, y) = has_key-key r t l h in rw (o, y)

  has_key-updated_lsa :
      (r : N) (t : LsaType) (old l : Lsa N F D) → has_key r t (updated_lsa old l) ≡ has_key r t old
  unfolding updated_lsa
  has_key-updated_lsa r t old l = rw (type-update_body old.body l.body)

  -- The database is a map from router and type to an LSA: an installation merges the LSA into
  -- what its own router and type hold, and keeps the LSAs of all others.
  pub find-install_lsa :
      (conf : Config N F D) (now : ℕ) (l : Lsa N F D) (db : Lsdb N F D) (r : N) (t : LsaType)
      → find_lsa (install_lsa conf now l db) r t
        ≡ (if has_key r t l then some (merged (find_lsa db r t) l) else find_lsa db r t)
  unfolding install_lsa find_lsa
  find-install_lsa conf now l db r t =
      elim (Option-cases (find_lsa db l.origin_router (get_type l))) [
        | inl e ↦
            rw (e, install_lsa) (ground (arith, find-append r t db.lsdb l, find-same db l r t))
        | inr (old, e) ↦
            let o = l.origin_router in
            let y = get_type l in
            let held : has_key o y (updated_lsa old l) ≡ true =
              has_key-updated_lsa o y old l ∙ has_key-found o y db.lsdb old e in
            let same = has_key-same o r y t (updated_lsa old l) l held (has_key_refl l) in
            let found = find-modify_if o r y t db.lsdb (updated_lsa old l) held (rw e) in
            rw (e, install_lsa) (ground (arith, find-same db l r t))
      ]

  -- What an installation leaves alone.
  pub install-keeps :
      (conf : Config N F D) (now : ℕ) (l : Lsa N F D) (db : Lsdb N F D)
      → let new = install_lsa conf now l db in
        (new.seqs ≡ db.seqs)
        × (new.adj_lsa_build_held ≡ db.adj_lsa_build_held)
        × (new.adj_build_count ≡ db.adj_build_count)
        × (new.published_adj_lsa_seq ≡ db.published_adj_lsa_seq)
  unfolding install_lsa
  install-keeps conf now l db = ground arith
