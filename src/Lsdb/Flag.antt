-- ===== src/Lsdb/Flag.antt =====
-- Which operations move the hold on the building of the adjacency LSA.
use nlsr.Sequencing.{increased}
use nlsr.Lsa.{LsaType, adjacency_lsa, Lsa, new_adj_lsa}
use nlsr.Lsdb.Install.{install-keeps}
use nlsr.Prelude.{Eq, Ord, Double, ℕ, ◌≡◌, Bool, true, false, none, arith}
use nlsr.Lsdb.{write_file, get_lsa_expiration_time_point, Config, install_lsa, remove_lsa, Lsdb}
use nlsr.Lsdb.Own.{
  publish_adj, with_increased, schedule_adj_lsa_build, build_and_install_own_adj_lsa,
  build_or_remove, request_immediate_adj_lsa_build, release_adj_lsa_build_hold, build_adj_lsa,
}

module _ {N F D : Type 0} ⦃n : Eq N⦄ ⦃no : Ord N⦄ ⦃f : Eq F⦄ ⦃d : Double D⦄ (conf : Config N F D)
    (now : ℕ) where
  abbrev pub KeepsHold : Lsdb N F D → Lsdb N F D → Type 0
  KeepsHold db new = new.adj_lsa_build_held ≡ db.adj_lsa_build_held

  build_and_install-KeepsHold :
      (express : Bool) (db : Lsdb N F D)
      → KeepsHold db (build_and_install_own_adj_lsa conf now express db)
  unfolding build_and_install_own_adj_lsa with_increased write_file
  build_and_install-KeepsHold express db =
      let numbered = with_increased conf now adjacency_lsa db in
      let l : Lsa N F D =
        new_adj_lsa conf.this_router_prefix (increased db.seqs.adj_lsa_seq 1)
          (get_lsa_expiration_time_point conf now) conf.adjacency_list in
      let sent = publish_adj conf now numbered.seqs.adj_lsa_seq numbered in
      let plain : KeepsHold db (install_lsa conf now l numbered) =
        (install-keeps conf now l numbered).1 in
      let after : KeepsHold db (install_lsa conf now l sent) = (install-keeps conf now l sent).1 in
      ground arith

  remove_lsa-KeepsHold :
      (router : N) (type : LsaType) (db : Lsdb N F D)
      → KeepsHold db (remove_lsa conf now router type db)
  unfolding remove_lsa
  remove_lsa-KeepsHold router type db = ground arith

  pub build_adj_lsa-KeepsHold :
      (express : Bool) (db : Lsdb N F D) → KeepsHold db (build_adj_lsa conf now express db)
  unfolding build_adj_lsa build_or_remove
  build_adj_lsa-KeepsHold express db =
      let ready = record db { is_build_adj_lsa_scheduled = false } in
      ground (
        arith,
        build_and_install-KeepsHold express ready,
        remove_lsa-KeepsHold conf.this_router_prefix adjacency_lsa ready,
      )

  pub schedule_adj_lsa_build-KeepsHold :
      (db : Lsdb N F D) → KeepsHold db (schedule_adj_lsa_build conf now db)
  unfolding schedule_adj_lsa_build
  schedule_adj_lsa_build-KeepsHold db = ground arith

  pub request_immediate-KeepsHold :
      (express : Bool) (db : Lsdb N F D)
      → KeepsHold db (request_immediate_adj_lsa_build conf now express db)
  unfolding request_immediate_adj_lsa_build
  request_immediate-KeepsHold express db =
      ground (arith, build_adj_lsa-KeepsHold express (record db { scheduled_adj_lsa_build = none }))

  pub release-frees :
      (immediate : Bool) (db : Lsdb N F D)
      → (release_adj_lsa_build_hold conf now immediate db).adj_lsa_build_held ≡ false
  unfolding release_adj_lsa_build_hold
  release-frees immediate db =
      ground (arith, request_immediate-KeepsHold true (record db { adj_lsa_build_held = false }))
