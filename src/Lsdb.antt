-- ===== src/Lsdb.antt =====
-- lsdb.hpp and lsdb.cpp: the link state database, the building of this router's own LSAs with
-- the hold on their publication, and the installation, refresh and expiration of LSAs. Time is
-- in seconds and `now` is the system clock. `log` is what the database does to the outside,
-- oldest first: sync, the file of sequence numbers, onLsdbModified and expiration events. The
-- retrieval of an LSA (SegmentFetcher), its segments and its decoding are left out: `after_fetch`
-- takes the decoded LSA. The subscribers of onLsdbModified do not call the database back.
-- m_adjBuildCount (int64_t) does not overflow.
use nlsr.Prelude.{
  Eq, ◌==◌, Ord, Double, find_if, erase_if, modify_if, ltb, if◌then◌else◌, ℕ, ◌+◌, ◌-◌, Bool, true,
  false, not, ◌&&◌, Option, none, some, List, [], ◌∷◌, ◌++◌,
}
use nlsr.Sequencing.{
  HyperbolicState, LsdbUpdate, installed, updated, removed, SequenceNumbers, write_seq_no_to_file,
}
use nlsr.Adjacency.{Adjacent}
use nlsr.Lsa.{LsaType, adjacency_lsa, get_type, type_eq, Lsa}
use nlsr.Lsa.Update.{update_body}
pub mod Own
pub mod Fetch
pub mod Install
pub mod Flag
pub mod Retry
pub mod Hold
pub mod Adjacencies
pub mod Published
pub mod Release

-- What the database reads of ConfParameter.
pub record Config (N F D : Type 0) : Type 0 where
  pub this_router_prefix : N
  pub adjacency_list : List (Adjacent N F D)
  pub name_prefix_list : List N
  pub cor_r : D
  pub cor_theta : List D
  pub hyperbolic_state : HyperbolicState
  pub corridor_prioritised_routing : Bool
  pub event_driven_adjacency_verification : Bool
  pub interest_retry_number : ℕ
  pub interest_resend_time : ℕ
  pub router_dead_interval : ℕ
  pub lsa_refresh_time : ℕ
  pub adj_lsa_build_interval : ℕ
  pub corridor_adj_lsa_sync_publish_delay : ℕ

pub data Effect (N F D : Type 0) : Type 0 where
  published : LsaType → ℕ → Effect N F D
  triggered_sync : Effect N F D
  modified : Lsa N F D → LsdbUpdate → List N → List N → Effect N F D
  wrote_seq_nos : ℕ × ℕ × ℕ → Effect N F D
  -- Of the LSA of a router and type, after a delay.
  expiration_scheduled : N → LsaType → ℕ → Effect N F D

pub record Lsdb (N F D : Type 0) : Type 0 where
  pub lsdb : List (Lsa N F D)
  pub highest_seq_no : List (N × LsaType × ℕ)
  pub seqs : SequenceNumbers
  pub is_build_adj_lsa_scheduled : Bool
  pub adj_lsa_build_held : Bool
  pub adj_build_count : ℕ
  -- The pending events: the delay and the argument of buildAdjLsa, and the delay.
  pub scheduled_adj_lsa_build : Option (ℕ × Bool)
  pub scheduled_adj_lsa_sync_publish : Option ℕ
  pub pending_adj_sync_trigger : Bool
  pub published_adj_lsa_seq : ℕ
  pub log : List (Effect N F D)

abbrev pub lsa_grace_period : ℕ
lsa_grace_period = 10

module _ {N F D : Type 0} where
  abbrev pub add_log : Lsdb N F D → Effect N F D → Lsdb N F D
  add_log db e = record db { log = db.log ++ e ∷ [] }

  abbrev pub publish : LsaType → ℕ → Lsdb N F D → Lsdb N F D
  publish type n db = add_log db (published type n)

  unfoldable pub write_file : Lsdb N F D → Lsdb N F D
  unfolding write_seq_no_to_file
  write_file db = add_log db (wrote_seq_nos (write_seq_no_to_file db.seqs))

module _ {N F D : Type 0} ⦃n : Eq N⦄ where
  abbrev pub has_key : N → LsaType → Lsa N F D → Bool
  has_key router type l = l.origin_router == router && type_eq (get_type l) type

  unfoldable pub find_lsa : Lsdb N F D → N → LsaType → Option (Lsa N F D)
  find_lsa db router type = find_if (has_key router type) db.lsdb

  unfoldable pub is_lsa_new : Lsdb N F D → N → LsaType → ℕ → Bool
  unfolding find_lsa
  is_lsa_new db router type k = elim (find_lsa db router type) [
    | none ↦ true
    | some l ↦ ltb l.seq_no k
  ]

module _ {N F D : Type 0} ⦃n : Eq N⦄ ⦃no : Ord N⦄ ⦃f : Eq F⦄ ⦃d : Double D⦄ where
  -- The LSA in the database after it took over a newer one.
  unfoldable pub updated_lsa : Lsa N F D → Lsa N F D → Lsa N F D
  unfolding update_body
  updated_lsa old l = record old {
    seq_no = l.seq_no;
    expiration_time_point = l.expiration_time_point;
    body = (update_body old.body l.body).new_body;
  }

module _ {N F D : Type 0} ⦃n : Eq N⦄ ⦃no : Ord N⦄ ⦃f : Eq F⦄ ⦃d : Double D⦄ (conf : Config N F D)
    (now : ℕ) where
  pub get_lsa_expiration_time_point : ℕ
  get_lsa_expiration_time_point = now + conf.router_dead_interval

  abbrev pub schedule_lsa_expiration : N → LsaType → ℕ → Lsdb N F D → Lsdb N F D
  schedule_lsa_expiration router type time db =
      add_log db (expiration_scheduled router type (time + lsa_grace_period))

  -- In `install_lsa`, from the own or the remaining lifetime of the LSA.
  pub time_to_expire : Lsa N F D → ℕ
  time_to_expire l =
      if not (l.origin_router == conf.this_router_prefix) && ltb now l.expiration_time_point
      then l.expiration_time_point - now
      else conf.lsa_refresh_time

  abbrev pub with_update : Lsdb N F D → Lsa N F D → Lsa N F D → Lsdb N F D
  unfolding update_body updated_lsa
  with_update db old l =
      let changes = update_body old.body l.body in
      let db = record db {
        lsdb = modify_if (has_key l.origin_router (get_type l)) (λ _. updated_lsa old l) db.lsdb;
      } in
      if changes.is_updated
      then add_log db (modified l updated changes.names_to_add changes.names_to_remove)
      else db

  unfoldable pub install_lsa : Lsa N F D → Lsdb N F D → Lsdb N F D
  unfolding find_lsa with_update time_to_expire
  install_lsa l db = elim (find_lsa db l.origin_router (get_type l)) [
    | none ↦
        schedule_lsa_expiration l.origin_router (get_type l) (time_to_expire l)
          (add_log (record db { lsdb = db.lsdb ++ l ∷ [] }) (modified l installed [] []))
    | some old ↦
        if ltb old.seq_no l.seq_no
        then schedule_lsa_expiration l.origin_router (get_type l) (time_to_expire l)
            (with_update db old l)
        else db
  ]

  abbrev pub cancel_sync_publish : Lsdb N F D → Lsdb N F D
  cancel_sync_publish db = record db {
    scheduled_adj_lsa_sync_publish = none;
    pending_adj_sync_trigger = false;
  }

  unfoldable pub remove_lsa : N → LsaType → Lsdb N F D → Lsdb N F D
  unfolding find_lsa
  remove_lsa router type db = elim (find_lsa db router type) [
    | none ↦ db
    | some l ↦
        let db = record db { lsdb = erase_if (has_key router type) db.lsdb } in
        add_log
          (if l.origin_router == conf.this_router_prefix && type_eq (get_type l) adjacency_lsa
            then cancel_sync_publish db
            else db)
          (modified l removed [] [])
  ]
