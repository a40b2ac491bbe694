-- ===== src/Lsdb/Own.antt =====
-- lsdb.cpp: the building of this router's own LSAs, the hold, the deferred publication of the
-- adjacency LSA, and the refresh or expiration of an LSA. The hold, the release and the immediate
-- build end in a test of the state before them, so each is one conditional.
use nlsr.Prelude.{
  Eq, ◌==◌, Ord, Double, modify_if, ltb, nat_beq, if◌then◌else◌, ℕ, ◌+◌, ◌-◌, ◌*◌, Bool, true,
  false, not, ◌&&◌, ◌||◌, none, some,
}
use nlsr.Sequencing.{is_on, is_off, increased, set_lsa_seq, get_lsa_seq, increase_lsa_seq}
use nlsr.Adjacency.{is_adj_lsa_buildable, get_num_of_active_neighbor}
use nlsr.Lsa.{
  LsaType, adjacency_lsa, coordinate_lsa, name_lsa, Body, cor_body, name_body, get_type, type_eq,
  new_adj_lsa, Lsa,
}
use nlsr.Lsdb.{
  Config, triggered_sync, add_log, publish, write_file, has_key, find_lsa,
  get_lsa_expiration_time_point, schedule_lsa_expiration, install_lsa, cancel_sync_publish,
  remove_lsa, Lsdb,
}

module _ {N F D : Type 0} ⦃n : Eq N⦄ ⦃no : Ord N⦄ ⦃f : Eq F⦄ ⦃d : Double D⦄ (conf : Config N F D)
    (now : ℕ) where
  unfoldable pub with_increased : LsaType → Lsdb N F D → Lsdb N F D
  unfolding increase_lsa_seq
  with_increased type db = write_file (record db { seqs = increase_lsa_seq db.seqs type })

  abbrev pub own_lsa : ℕ → Body N F D → Lsa N F D
  own_lsa k body = record {
    origin_router = conf.this_router_prefix;
    seq_no = k;
    expiration_time_point = get_lsa_expiration_time_point conf now;
    body = body;
  }

  unfoldable pub build_and_install_own_name_lsa : Lsdb N F D → Lsdb N F D
  unfolding with_increased install_lsa
  build_and_install_own_name_lsa db =
      let l = own_lsa (increased db.seqs.name_lsa_seq 1) (name_body conf.name_prefix_list) in
      let db = with_increased name_lsa db in
      install_lsa conf now l (publish name_lsa db.seqs.name_lsa_seq db)

  unfoldable pub build_and_install_own_coordinate_lsa : Lsdb N F D → Lsdb N F D
  unfolding with_increased install_lsa
  build_and_install_own_coordinate_lsa db =
      let l = own_lsa (increased db.seqs.cor_lsa_seq 1) (cor_body conf.cor_r conf.cor_theta) in
      let db = with_increased coordinate_lsa db in
      install_lsa conf now l
        (if is_off conf.hyperbolic_state then db else publish coordinate_lsa db.seqs.cor_lsa_seq db)

  abbrev pub schedule_build : ℕ → Bool → Lsdb N F D → Lsdb N F D
  schedule_build delay express db = record db {
    is_build_adj_lsa_scheduled = true;
    scheduled_adj_lsa_build = some (delay, express);
  }

  unfoldable pub schedule_adj_lsa_build : Lsdb N F D → Lsdb N F D
  schedule_adj_lsa_build db =
      let db = record db { adj_build_count = db.adj_build_count + 1 } in
      if is_on conf.hyperbolic_state
      then db
      else if db.adj_lsa_build_held
      then db
      else schedule_build conf.adj_lsa_build_interval false db

  -- The condition under which sync is triggered after a publication that asked for it.
  abbrev pub may_trigger_sync : Bool → Bool
  may_trigger_sync express =
      express && (conf.event_driven_adjacency_verification && not (is_on conf.hyperbolic_state))

  abbrev pub trigger_sync_if : Bool → Lsdb N F D → Lsdb N F D
  trigger_sync_if b db = if b then add_log db triggered_sync else db

  -- Publication of the adjacency LSA and the record of its number.
  abbrev pub publish_adj : ℕ → Lsdb N F D → Lsdb N F D
  publish_adj k db = record (publish adjacency_lsa k db) { published_adj_lsa_seq = k }

  unfoldable pub build_and_install_own_adj_lsa : Bool → Lsdb N F D → Lsdb N F D
  unfolding with_increased install_lsa new_adj_lsa
  build_and_install_own_adj_lsa express db =
      let l : Lsa N F D =
        new_adj_lsa conf.this_router_prefix (increased db.seqs.adj_lsa_seq 1)
          (get_lsa_expiration_time_point conf now) conf.adjacency_list in
      let db = with_increased adjacency_lsa db in
      let seq = db.seqs.adj_lsa_seq in
      let deferred = install_lsa conf now l db in
      if conf.corridor_prioritised_routing
      then record deferred {
        pending_adj_sync_trigger = deferred.pending_adj_sync_trigger || express;
        scheduled_adj_lsa_sync_publish = elim deferred.scheduled_adj_lsa_sync_publish [
          | none ↦ some conf.corridor_adj_lsa_sync_publish_delay
          | some t ↦ some t
        ];
      }
      else trigger_sync_if (may_trigger_sync express)
          (install_lsa conf now l (if is_on conf.hyperbolic_state then db else publish_adj seq db))

  -- What `build_adj_lsa` does for an outstanding build when the neighbours' states are known.
  unfoldable pub build_or_remove : Bool → Lsdb N F D → Lsdb N F D
  unfolding build_and_install_own_adj_lsa remove_lsa get_num_of_active_neighbor
  build_or_remove express db =
      if ltb 0 (get_num_of_active_neighbor conf.adjacency_list)
      then build_and_install_own_adj_lsa express db
      else remove_lsa conf now conf.this_router_prefix adjacency_lsa db

  unfoldable pub build_adj_lsa : Bool → Lsdb N F D → Lsdb N F D
  unfolding build_or_remove is_adj_lsa_buildable
  build_adj_lsa express db =
      let count = db.adj_build_count in
      let db = record db { is_build_adj_lsa_scheduled = false } in
      let built = build_or_remove express db in
      if db.adj_lsa_build_held
      then db
      else if is_adj_lsa_buildable conf.adjacency_list conf.interest_retry_number
      then (if ltb 0 count
          then record built { adj_build_count = built.adj_build_count - count }
          else db)
      else schedule_build (conf.interest_retry_number * conf.interest_resend_time) express db

  unfoldable pub request_immediate_adj_lsa_build : Bool → Lsdb N F D → Lsdb N F D
  unfolding build_adj_lsa
  request_immediate_adj_lsa_build express db =
      if is_on conf.hyperbolic_state
      then db
      else if db.adj_lsa_build_held
      then db
      else if nat_beq db.adj_build_count 0
      then db
      else build_adj_lsa express (record db { scheduled_adj_lsa_build = none })

  unfoldable pub release_adj_lsa_build_hold : Bool → Lsdb N F D → Lsdb N F D
  unfolding request_immediate_adj_lsa_build
  release_adj_lsa_build_hold immediate_if_dirty db =
      let free = record db { adj_lsa_build_held = false } in
      if not db.adj_lsa_build_held
      then db
      else if nat_beq db.adj_build_count 0
      then free
      else if immediate_if_dirty
      then request_immediate_adj_lsa_build true free
      else if is_on conf.hyperbolic_state
      then free
      else schedule_build conf.adj_lsa_build_interval false free

  unfoldable pub finish_own_adj_sync_publication : ℕ → Lsdb N F D → Lsdb N F D
  finish_own_adj_sync_publication seq db =
      let idle = record db { scheduled_adj_lsa_sync_publish = none } in
      let announced =
        if not (is_on conf.hyperbolic_state) && ltb db.published_adj_lsa_seq seq
        then publish_adj seq idle
        else idle in
      record (trigger_sync_if (may_trigger_sync db.pending_adj_sync_trigger) announced) {
        pending_adj_sync_trigger = false;
      }

  unfoldable pub on_delayed_own_adj_sync_publication : Lsdb N F D → Lsdb N F D
  unfolding finish_own_adj_sync_publication find_lsa
  on_delayed_own_adj_sync_publication db =
      elim (find_lsa db conf.this_router_prefix adjacency_lsa) [
        | none ↦ cancel_sync_publish conf now db
        | some l ↦ finish_own_adj_sync_publication l.seq_no db
      ]

  -- The LSA with the next number and a new lifetime.
  abbrev pub refreshed : Lsa N F D → Lsa N F D
  refreshed l = record l {
    seq_no = increased l.seq_no 1;
    expiration_time_point = get_lsa_expiration_time_point conf now;
  }

  -- The refresh of an own LSA.
  abbrev pub refresh_own : Lsa N F D → Lsdb N F D → Lsdb N F D
  unfolding set_lsa_seq get_lsa_seq finish_own_adj_sync_publication
  refresh_own l db =
      let type = get_type l in
      let db = record db {
        lsdb = modify_if (has_key l.origin_router type) (λ _. refreshed l) db.lsdb;
        seqs = set_lsa_seq db.seqs (increased l.seq_no 1) type;
      } in
      let db =
        write_file
          (schedule_lsa_expiration conf now l.origin_router type conf.lsa_refresh_time db) in
      let seq = get_lsa_seq db.seqs type in
      if type_eq type adjacency_lsa && conf.corridor_prioritised_routing
      then finish_own_adj_sync_publication seq db
      else if type_eq type adjacency_lsa
      then publish_adj seq db
      else publish type seq db

  -- `expected` is the number of the LSA that the event was scheduled for, when the event fires.
  unfoldable pub expire_or_refresh_lsa : N → LsaType → ℕ → Lsdb N F D → Lsdb N F D
  unfolding find_lsa refresh_own remove_lsa
  expire_or_refresh_lsa router type expected db = elim (find_lsa db router type) [
    | none ↦ db
    | some l ↦
        if nat_beq l.seq_no expected
        then (if l.origin_router == conf.this_router_prefix
            then refresh_own l db
            else remove_lsa conf now router type db)
        else db
  ]

unfoldable pub hold_adj_lsa_build : {N F D : Type 0} → Lsdb N F D → Lsdb N F D
hold_adj_lsa_build db = record db {
  adj_lsa_build_held = true;
  scheduled_adj_lsa_build = none;
  is_build_adj_lsa_scheduled = false;
}
