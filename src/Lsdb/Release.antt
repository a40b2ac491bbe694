-- ===== src/Lsdb/Release.antt =====
-- The publication of the adjacency LSA when the hold is released.
use nlsr.Lsdb.Published.{was_published, was_published-append, was_published-install_lsa}
use nlsr.Adjacency.{is_adj_lsa_buildable, get_num_of_active_neighbor}
use nlsr.Prelude.{
  Eq, ==_refl, Ord, Double, ℕ, ◌-◌, ◌<◌, ◌≡◌, refl, ap, ◌∙◌, Bool, true, false, none, some, [], ◌∷◌,
  arith,
}
use nlsr.Sequencing.{SequenceNumbers, increase_lsa_seq, is_on, increased}
use nlsr.Lsa.{type_eq_iff, adjacency_lsa, new_adj_lsa, Lsa}
use nlsr.Lsdb.{
  published, triggered_sync, write_file, Config, find_lsa, get_lsa_expiration_time_point,
  install_lsa, Lsdb,
}
use nlsr.Lsdb.Own.{
  build_or_remove, build_adj_lsa, request_immediate_adj_lsa_build, release_adj_lsa_build_hold,
  may_trigger_sync, trigger_sync_if, with_increased, publish_adj, build_and_install_own_adj_lsa,
}
use nlsr.Lsdb.Install.{install-keeps, find-install_lsa, merged}

module _ {N F D : Type 0} ⦃n : Eq N⦄ ⦃no : Ord N⦄ ⦃f : Eq F⦄ ⦃d : Double D⦄ (conf : Config N F D)
    (now : ℕ) where
  -- This router's next adjacency LSA.
  abbrev pub next_adj_lsa : Lsdb N F D → Lsa N F D
  unfolding new_adj_lsa
  next_adj_lsa db =
      new_adj_lsa conf.this_router_prefix (increased db.seqs.adj_lsa_seq 1)
        (get_lsa_expiration_time_point conf now) conf.adjacency_list

  pub record PublishedNext (db new : Lsdb N F D) : Type 0 where
    pub number : new.seqs.adj_lsa_seq ≡ increased db.seqs.adj_lsa_seq 1
    pub published_number : new.published_adj_lsa_seq ≡ increased db.seqs.adj_lsa_seq 1
    pub sent : was_published adjacency_lsa (increased db.seqs.adj_lsa_seq 1) new.log ≡ true
    pub own :
        find_lsa new conf.this_router_prefix adjacency_lsa
        ≡ some (merged (find_lsa db conf.this_router_prefix adjacency_lsa) (next_adj_lsa db))

  PublishedNext-trigger_sync_if :
      (b : Bool) (db new : Lsdb N F D)
      → PublishedNext db new
      → PublishedNext db (trigger_sync_if conf now b new)
  unfolding find_lsa
  PublishedNext-trigger_sync_if true db new p = record {
    number = p.number;
    published_number = p.published_number;
    sent = ground (
      arith,
      p.sent,
      was_published-append adjacency_lsa (increased db.seqs.adj_lsa_seq 1) new.log
          (triggered_sync ∷ []),
    );
    own = p.own;
  }
  PublishedNext-trigger_sync_if false db new p = p

  -- The database in which the next number is used and published.
  abbrev pub announced : Lsdb N F D → Lsdb N F D
  unfolding with_increased increase_lsa_seq write_file
  announced db =
      publish_adj conf now (increased db.seqs.adj_lsa_seq 1)
        (with_increased conf now adjacency_lsa db)

  build_and_install-form :
      (express : Bool) (db : Lsdb N F D)
      → is_on conf.hyperbolic_state ≡ false
      → conf.corridor_prioritised_routing ≡ false
      → build_and_install_own_adj_lsa conf now express db
        ≡ trigger_sync_if conf now
            (may_trigger_sync conf now express)
            (install_lsa conf now (next_adj_lsa db) (announced db))
  unfolding build_and_install_own_adj_lsa announced next_adj_lsa
  build_and_install-form express db off plain = ground arith

  announced-sent :
      (db : Lsdb N F D)
      → was_published adjacency_lsa (increased db.seqs.adj_lsa_seq 1) (announced db).log ≡ true
  unfolding announced
  announced-sent db =
      let k = increased db.seqs.adj_lsa_seq 1 in
      let written = (with_increased conf now adjacency_lsa db).log in
      ground (
        arith,
        was_published-append adjacency_lsa k written (published adjacency_lsa k ∷ []),
        type_eq_iff adjacency_lsa adjacency_lsa,
      )

  installed_next :
      (db : Lsdb N F D) → PublishedNext db (install_lsa conf now (next_adj_lsa db) (announced db))
  unfolding announced next_adj_lsa find_lsa
  installed_next db =
      let kept = install-keeps conf now (next_adj_lsa db) (announced db) in
      let found =
        find-install_lsa conf now (next_adj_lsa db) (announced db) conf.this_router_prefix
          adjacency_lsa in
      record {
        number = ap (λ (s : SequenceNumbers). s.adj_lsa_seq) kept.0;
        published_number = kept.3;
        sent = ground (
          arith,
          was_published-install_lsa conf now adjacency_lsa (increased db.seqs.adj_lsa_seq 1)
              (next_adj_lsa db) (announced db),
          announced-sent db,
        );
        own = ground (arith, found, ==_refl conf.this_router_prefix);
      }

  build_and_install-PublishedNext :
      (express : Bool) (db : Lsdb N F D)
      → is_on conf.hyperbolic_state ≡ false
      → conf.corridor_prioritised_routing ≡ false
      → PublishedNext db (build_and_install_own_adj_lsa conf now express db)
  build_and_install-PublishedNext express db off plain =
      rw (build_and_install-form express db off plain) (
        PublishedNext-trigger_sync_if (may_trigger_sync conf now express) db
          (install_lsa conf now (next_adj_lsa db) (announced db)) (installed_next db))

  -- The database when the build of a release starts.
  abbrev pub released : Lsdb N F D → Lsdb N F D
  released db = record db {
    adj_lsa_build_held = false;
    scheduled_adj_lsa_build = none;
    is_build_adj_lsa_scheduled = false;
  }

  trigger_sync_if-keeps :
      (b : Bool) (db : Lsdb N F D)
      → let new = trigger_sync_if conf now b db in
        (new.adj_build_count ≡ db.adj_build_count)
        × (new.adj_lsa_build_held ≡ db.adj_lsa_build_held)
  trigger_sync_if-keeps true db = (refl, refl)
  trigger_sync_if-keeps false db = (refl, refl)

  build_and_install-count :
      (express : Bool) (db : Lsdb N F D)
      → is_on conf.hyperbolic_state ≡ false
      → conf.corridor_prioritised_routing ≡ false
      → let new = build_and_install_own_adj_lsa conf now express db in
        (new.adj_build_count ≡ db.adj_build_count)
        × (new.adj_lsa_build_held ≡ db.adj_lsa_build_held)
  unfolding announced next_adj_lsa
  build_and_install-count express db off plain =
      let kept = install-keeps conf now (next_adj_lsa db) (announced db) in
      let (count, held) =
        trigger_sync_if-keeps (may_trigger_sync conf now express)
          (install_lsa conf now (next_adj_lsa db) (announced db)) in
      rw (build_and_install-form express db off plain) (count ∙ kept.2, held ∙ kept.1)

  release-form :
      (db : Lsdb N F D)
      → db.adj_lsa_build_held ≡ true
      → 0 < db.adj_build_count
      → is_on conf.hyperbolic_state ≡ false
      → is_adj_lsa_buildable conf.adjacency_list conf.interest_retry_number ≡ true
      → 0 < get_num_of_active_neighbor conf.adjacency_list
      → let built = build_and_install_own_adj_lsa conf now true (released db) in
        release_adj_lsa_build_hold conf now true db
        ≡ record built { adj_build_count = built.adj_build_count - db.adj_build_count }
  unfolding release_adj_lsa_build_hold request_immediate_adj_lsa_build build_adj_lsa build_or_remove
  release-form db held dirty off buildable neighbors = ground arith

  -- The release of a hold publishes at once what the hold kept back: with builds outstanding, link
  -- state routing without corridors, the neighbours' states known and at least one neighbour
  -- active, the next sequence number is used, sync is given it as the number of the adjacency LSA,
  -- which is recorded, the database holds the new adjacency LSA merged into the old one, no build is outstanding and the hold is off.
  pub release-PublishedNext :
      (db : Lsdb N F D)
      → db.adj_lsa_build_held ≡ true
      → 0 < db.adj_build_count
      → is_on conf.hyperbolic_state ≡ false
      → conf.corridor_prioritised_routing ≡ false
      → is_adj_lsa_buildable conf.adjacency_list conf.interest_retry_number ≡ true
      → 0 < get_num_of_active_neighbor conf.adjacency_list
      → let new = release_adj_lsa_build_hold conf now true db in
        PublishedNext db new × (new.adj_build_count ≡ 0) × (new.adj_lsa_build_held ≡ false)
  unfolding find_lsa next_adj_lsa
  release-PublishedNext db held dirty off plain buildable neighbors =
      let p = build_and_install-PublishedNext true (released db) off plain in
      let (count, free) = build_and_install-count true (released db) off plain in
      rw (release-form db held dirty off buildable neighbors) (
        record {
          number = p.number;
          published_number = p.published_number;
          sent = p.sent;
          own = p.own;
        },
        omega (arith, count),
        free,
      )
