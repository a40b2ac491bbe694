-- ===== src/Lsdb/Published.antt =====
-- lsdb.cpp: which numbers the log says that sync was given.
use nlsr.Prelude.{
  Eq, Ord, Double, nat_beq, Option-cases, ℕ, ◌+◌, ◌≡◌, refl, inl, inr, Bool, false, ◌&&◌, ◌||◌,
  List, [], ◌∷◌, ◌++◌, arith,
}
use nlsr.Lsdb.{
  Config, Effect, published, triggered_sync, modified, wrote_seq_nos, expiration_scheduled, Lsdb,
  lsa_grace_period, find_lsa, time_to_expire, install_lsa,
}
use nlsr.Lsa.{LsaType, Lsa, get_type, type_eq}
use nlsr.Lsa.Update.{update_body}
use nlsr.Sequencing.{installed, updated}

module _ {N F D : Type 0} where
  -- Sync was given the number of an LSA of the type.
  abbrev pub was_published : LsaType → ℕ → List (Effect N F D) → Bool
  was_published t k [] = false
  was_published t k (published type j ∷ log) =
      type_eq type t && nat_beq j k || was_published t k log
  was_published t k (triggered_sync ∷ log) = was_published t k log
  was_published t k (modified l kind added gone ∷ log) = was_published t k log
  was_published t k (wrote_seq_nos numbers ∷ log) = was_published t k log
  was_published t k (expiration_scheduled router type delay ∷ log) = was_published t k log

  pub was_published-append :
      (t : LsaType) (k : ℕ) (log new : List (Effect N F D))
      → was_published t k (log ++ new) ≡ (was_published t k log || was_published t k new)
  was_published-append t k [] new = refl
  was_published-append t k (published type j ∷ log) new =
      ground (arith, was_published-append t k log new)
  was_published-append t k (triggered_sync ∷ log) new = was_published-append t k log new
  was_published-append t k (modified l kind added gone ∷ log) new = was_published-append t k log new
  was_published-append t k (wrote_seq_nos numbers ∷ log) new = was_published-append t k log new
  was_published-append t k (expiration_scheduled router type delay ∷ log) new =
      was_published-append t k log new

module _ {N F D : Type 0} ⦃n : Eq N⦄ ⦃no : Ord N⦄ ⦃f : Eq F⦄ ⦃d : Double D⦄ (conf : Config N F D)
    (now : ℕ) where
  -- An installation publishes nothing and takes nothing back.
  pub was_published-install_lsa :
      (t : LsaType) (k : ℕ) (l : Lsa N F D) (db : Lsdb N F D)
      → was_published t k (install_lsa conf now l db).log ≡ was_published t k db.log
  unfolding install_lsa
  was_published-install_lsa t k l db =
      let delay : Effect N F D =
        expiration_scheduled l.origin_router (get_type l)
          (time_to_expire conf now l + lsa_grace_period) in
      elim (Option-cases (find_lsa db l.origin_router (get_type l))) [
        | inl e ↦ ground (
          arith,
          e,
          was_published-append t k (db.log ++ modified l installed [] [] ∷ []) (delay ∷ []),
          was_published-append t k db.log (modified l installed [] [] ∷ []),
        )
        | inr (old, e) ↦
            let changes = update_body old.body l.body in
            let change = modified l updated changes.names_to_add changes.names_to_remove in
            ground (
              arith,
              e,
              was_published-append t k (db.log ++ change ∷ []) (delay ∷ []),
              was_published-append t k db.log (change ∷ []),
              was_published-append t k db.log (delay ∷ []),
            )
      ]
