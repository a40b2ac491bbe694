-- ===== src/Examples/LsdbRun.antt =====
-- A database with the LSAs of the triangle, for router 10.
use nlsr.Lsdb.Adjacencies.{KeepsAdjacencies, on_triggers-KeepsAdjacencies}
use nlsr.Adjacency.{get_num_of_active_neighbor, is_adj_lsa_buildable, insert}
use nlsr.Prelude.{nat_eq, ℕ, ◌≡◌, refl, true, false, none, some, [], ◌∷◌, arith}
use nlsr.Examples.Values.{Tenths, tenths, nat_ord, tenths_double}
use nlsr.Examples.LinkStateRun.{triangle, own_neighbors, adj_lsa_of, neighbor}
use nlsr.Lsa.{adjacency_lsa, Lsa}
use nlsr.Sequencing.{
  hyperbolic_off, hyperbolic_dry_run, write_seq_no_to_file, initiate_seq_no_from_file,
  SequenceNumbers,
}
use nlsr.Sequencing.Restart.{initiate-write}
use nlsr.Lsdb.{updated_lsa, find_lsa, install_lsa, Lsdb, Config}
use nlsr.Lsdb.Own.{release_adj_lsa_build_hold}
use nlsr.Lsdb.Install.{find-install_lsa}
use nlsr.Lsdb.Release.{release-PublishedNext, PublishedNext}
use nlsr.Lsdb.Hold.{
  sync_due, lsa_due, changed, at_once, timer_fired, on_triggers, KeepsSilent,
  on_triggers-KeepsSilent,
}

abbrev some_numbers : SequenceNumbers
some_numbers = record { name_lsa_seq = 3; adj_lsa_seq = 7; cor_lsa_seq = 2 }

abbrev pub router_config : Config ℕ ℕ Tenths
router_config = record {
  this_router_prefix = 10;
  adjacency_list = own_neighbors;
  name_prefix_list = 7 ∷ [];
  cor_r = tenths 1;
  cor_theta = [];
  hyperbolic_state = hyperbolic_off;
  corridor_prioritised_routing = false;
  event_driven_adjacency_verification = true;
  interest_retry_number = 3;
  interest_resend_time = 5;
  router_dead_interval = 3600;
  lsa_refresh_time = 1800;
  adj_lsa_build_interval = 10;
  corridor_adj_lsa_sync_publish_delay = 2;
}

abbrev pub dirty : Lsdb ℕ ℕ Tenths
dirty = record {
  lsdb = triangle;
  highest_seq_no = [];
  seqs = some_numbers;
  is_build_adj_lsa_scheduled = false;
  adj_lsa_build_held = true;
  adj_build_count = 1;
  scheduled_adj_lsa_build = none;
  scheduled_adj_lsa_sync_publish = none;
  pending_adj_sync_trigger = false;
  published_adj_lsa_seq = 7;
  log = [];
}

abbrev newer : Lsa ℕ ℕ Tenths
newer = record (adj_lsa_of 20 (neighbor 10 1 31 ∷ [])) { seq_no = 4 }

initiate-write_example :
    initiate_seq_no_from_file hyperbolic_dry_run (some (write_seq_no_to_file some_numbers))
    ≡ record { name_lsa_seq = 13; adj_lsa_seq = 0; cor_lsa_seq = 10 }
initiate-write_example = initiate-write hyperbolic_dry_run some_numbers

find-install_lsa_example :
    find_lsa (install_lsa router_config 50 newer dirty) 20 adjacency_lsa ≡ some newer
unfolding find_lsa updated_lsa insert
find-install_lsa_example = find-install_lsa router_config 50 newer dirty 20 adjacency_lsa

on_triggers-KeepsSilent_example :
    KeepsSilent router_config 50 dirty
      (on_triggers router_config 50 (changed ∷ at_once true ∷ timer_fired false ∷ []) dirty)
on_triggers-KeepsSilent_example =
    on_triggers-KeepsSilent router_config 50 (changed ∷ at_once true ∷ timer_fired false ∷ []) dirty
      refl refl

on_triggers-KeepsAdjacencies_example :
    KeepsAdjacencies router_config 50 dirty
      (on_triggers router_config 50 (sync_due ∷ lsa_due 10 adjacency_lsa 3 ∷ changed ∷ []) dirty)
on_triggers-KeepsAdjacencies_example =
    on_triggers-KeepsAdjacencies router_config 50
      (sync_due ∷ lsa_due 10 adjacency_lsa 3 ∷ changed ∷ []) dirty refl

release-PublishedNext_example :
    let new = release_adj_lsa_build_hold router_config 50 true dirty in
    PublishedNext router_config 50 dirty new
    × (new.adj_build_count ≡ 0)
    × (new.adj_lsa_build_held ≡ false)
unfolding is_adj_lsa_buildable get_num_of_active_neighbor
release-PublishedNext_example =
    release-PublishedNext router_config 50 dirty refl (omega arith) refl refl refl (omega arith)
