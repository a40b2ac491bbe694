-- ===== src/Corridor/Follow.antt =====
-- corridor.cpp: an availability is followed up once its LSA is in the database.
-- The LSA is in the database after the change.
use nlsr.Lsa.{adjacency_lsa, Lsa, get_type, type_eq}
use nlsr.Corridor.{AdvertisementKey, Corridor, key_eq, key_ord}
use nlsr.Corridor.Advertise.{get_advertised_seq, record_association}
use nlsr.Lsdb.{Config, Lsdb}
use nlsr.Sequencing.{LsdbUpdate, installed, updated, removed}
use nlsr.Corridor.Events.{CorridorEvent, find_installed_lsa}
use nlsr.Corridor.Names.{NameLibrary, CorridorAvailability}
use nlsr.Corridor.Hooks.{
  local_seq, propagated, on_available, propagate_if_associated, advertise_changed, on_lsa_set,
  on_lsdb_modified, corridor_run,
}
use nlsr.Corridor.Actions.{all_growing}
use nlsr.Corridor.Kept.{advertise_changed-kept}
use nlsr.Corridor.Installed.{key_installed, get_advertised_seq-corridor_run}
use nlsr.Prelude.{
  Eq, Ord, nat_eq, ltb, ℕ, ◌≤◌, ◌<◌, ◌≡◌, sym, subst, ◌∙◌, Bool, true, false, List, arith,
}
use nlsr.Corridor.Answers.{seq-state}
use nlsr.Corridor.Associated.{
  was_queried, propagated-queried, NotAbove-laws, seq-record_association, state-of_seq,
}

abbrev pub is_set : LsdbUpdate → Bool
is_set installed = true
is_set updated = true
is_set removed = false

module _ {N F D C : Type 0} ⦃n : Eq N⦄ ⦃no : Ord N⦄ (conf : Config N F D) where
  on_available-state :
      (db : Lsdb N F D) (av : CorridorAvailability N) (face : ℕ) (c : Corridor N C)
      → ltb av.seq (local_seq (find_installed_lsa db av.origin av.type)) ≡ false
      → (on_available db av face c).state
        ≡ (record_association
            (record { origin = av.origin; type = av.type; prefix = av.prefix })
            av.seq
            c).state
  unfolding on_available
  on_available-state db av face c fresh = ground (arith, fresh)

  -- An LSA that comes in under the number that is known for a prefix.
  on_lsa_set-queried :
      (after : Lsdb N F D) (l : Lsa N F D) (prefix : N) (told : Corridor N C)
      → let key : AdvertisementKey N = record {
        origin = l.origin_router;
        type = get_type l;
        prefix = prefix;
      } in
        type_eq (get_type l) adjacency_lsa ≡ true
        → 0 < l.seq_no
        → get_advertised_seq key told ≡ l.seq_no
        → key_installed after key l.seq_no ≡ true
        → was_queried prefix (on_lsa_set conf after l told).log ≡ true
  unfolding on_lsa_set propagate_if_associated
  on_lsa_set-queried after l prefix told adj positive known there =
      let key : AdvertisementKey N = record {
        origin = l.origin_router;
        type = get_type l;
        prefix = prefix;
      } in
      let changed = advertise_changed conf after l told in
      let kept : get_advertised_seq key changed ≡ l.seq_no =
        advertise_changed-kept conf after (NotAbove-laws after) l told key
          (subst (λ q. key_installed after key q ≡ true) (sym known) there)
        ∙ known in
      let (s, here, same) = state-of_seq key changed l.seq_no kept positive in
      ground (
        arith,
        adj,
        subst
            (λ q.
              was_queried prefix
                (propagated l.origin_router (get_type l) q changed.state changed.log)
              ≡ true)
            same (propagated-queried key s changed.state changed.log here),
      )

  -- An availability of an adjacency LSA whose number, above 0, is not below the number in the
  -- database then, nor below the number known for the same origin and prefix, is followed up,
  -- whatever else happens before, as long as no LSA is removed, no face is destroyed, and no
  -- greater number becomes known for this origin and prefix: when the LSA of that number has come
  -- into the database and the corridor is told that it is installed or updated, a query for the
  -- service branches of the prefix is in the log.
  pub on_available-queried :
      (lib : NameLibrary N C) (steps : List (Config N F D × Lsdb N F D × CorridorEvent N F D C))
      (before after : Lsdb N F D) (l : Lsa N F D) (update : LsdbUpdate) (prefix : N) (face : ℕ)
      (c : Corridor N C)
      → let key : AdvertisementKey N = record {
        origin = l.origin_router;
        type = get_type l;
        prefix = prefix;
      } in
        let av : CorridorAvailability N = record {
          type = get_type l;
          seq = l.seq_no;
          origin = l.origin_router;
          prefix = prefix;
        } in
        let told = corridor_run lib steps (on_available before av face c) in
        type_eq (get_type l) adjacency_lsa ≡ true
        → 0 < l.seq_no
        → ltb l.seq_no (local_seq (find_installed_lsa before l.origin_router (get_type l))) ≡ false
        → get_advertised_seq key c ≤ l.seq_no
        → all_growing steps ≡ true
        → get_advertised_seq key told ≤ l.seq_no
        → key_installed after key l.seq_no ≡ true
        → is_set update ≡ true
        → was_queried prefix (on_lsdb_modified conf after l update told).log ≡ true
  unfolding on_lsdb_modified
  on_available-queried lib steps before after l update prefix face c adj positive fresh below grows
        newest there set =
      set_by update set
    where
      key : AdvertisementKey N
      key = record { origin = l.origin_router; type = get_type l; prefix = prefix }

      av : CorridorAvailability N
      av = record { type = get_type l; seq = l.seq_no; origin = l.origin_router; prefix = prefix }

      noted : Corridor N C
      noted = on_available before av face c

      told : Corridor N C
      told = corridor_run lib steps noted

      at_first : get_advertised_seq key noted ≡ l.seq_no
      at_first =
          seq-state key noted (record_association key l.seq_no c)
            (on_available-state before av face c fresh)
          ∙ seq-record_association key l.seq_no c below

      known : get_advertised_seq key told ≡ l.seq_no
      known =
          omega (arith, newest, at_first, get_advertised_seq-corridor_run lib steps noted key grows)

      set_by :
          (u : LsdbUpdate)
          → is_set u ≡ true
          → was_queried prefix (on_lsdb_modified conf after l u told).log ≡ true
      set_by installed h = on_lsa_set-queried after l prefix told adj positive known there
      set_by updated h = on_lsa_set-queried after l prefix told adj positive known there
      set_by removed h = ground arith
