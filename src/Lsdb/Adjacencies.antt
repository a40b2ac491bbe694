-- ===== src/Lsdb/Adjacencies.antt =====
-- lsdb.cpp: what no callback changes while the hold is on, the adjacencies that this router
-- advertises. A refresh gives the LSA a new number and a new lifetime only.
use nlsr.Lsdb.Hold.{
  Trigger, changed, at_once, timer_fired, held_again, sync_due, lsa_due, is_of_build, on_trigger,
  on_triggers, on_trigger-KeepsSilent,
}
use nlsr.Sequencing.{set_lsa_seq, get_lsa_seq}
use nlsr.Lsa.{LsaType, adjacency_lsa, Body, Lsa, get_type, type_eq, type_eq_iff}
use nlsr.Lsdb.{write_file, Config, Lsdb, has_key, find_lsa, remove_lsa}
use nlsr.Lsdb.Own.{
  finish_own_adj_sync_publication, on_delayed_own_adj_sync_publication, refreshed, refresh_own,
  expire_or_refresh_lsa,
}
use nlsr.Lsdb.Install.{has_key-found, has_key-key, find-modify_if, has_key_refl, find-same}
use nlsr.Prelude.{
  Eq, ◌==◌, ==_iff, Ord, Double, find_if, erase_if, modify_if, nat_beq, if◌then◌else◌, Bool-cases,
  Option-cases, is_some, ℕ, ◌≤◌, ◌≡◌, refl, sym, ap, ◌∙◌, inl, inr, true, false, ◌&&◌, Option, none,
  some, List, [], ◌∷◌, arith,
}

module _ {N F D : Type 0} ⦃n : Eq N⦄ where
  -- What an LSA in the database says.
  abbrev pub body_of : Option (Lsa N F D) → Option (Body N F D)
  body_of none = none
  body_of (some l) = some l.body

  find-erase_if :
      (router r : N) (type t : LsaType) (ls : List (Lsa N F D))
      → (router == r && type_eq type t) ≡ false
      → find_if (has_key r t) (erase_if (has_key router type) ls) ≡ find_if (has_key r t) ls
  find-erase_if router r type t [] h = refl
  find-erase_if router r type t (x ∷ xs) h = ground (
    arith,
    find-erase_if router r type t xs h,
    ==_iff x.origin_router router,
    ==_iff x.origin_router r,
    ==_iff router r,
    type_eq_iff (get_type x) type,
    type_eq_iff (get_type x) t,
    type_eq_iff type t,
  )

module _ {N F D : Type 0} ⦃n : Eq N⦄ ⦃no : Ord N⦄ ⦃f : Eq F⦄ ⦃d : Double D⦄ (conf : Config N F D)
    (now : ℕ) where
  abbrev pub own_adjacencies : Lsdb N F D → Option (Body N F D)
  own_adjacencies db = body_of (find_lsa db conf.this_router_prefix adjacency_lsa)

  -- What a hold keeps whatever happens: itself, what this router says of its adjacencies, and the
  -- builds that are outstanding.
  pub record KeepsAdjacencies (db new : Lsdb N F D) : Type 0 where
    pub held : new.adj_lsa_build_held ≡ true
    pub adjacencies : own_adjacencies new ≡ own_adjacencies db
    pub outstanding : db.adj_build_count ≤ new.adj_build_count

  same_lsas :
      (db new : Lsdb N F D)
      → db.adj_lsa_build_held ≡ true
      → new.adj_lsa_build_held ≡ db.adj_lsa_build_held
      → new.lsdb ≡ db.lsdb
      → db.adj_build_count ≤ new.adj_build_count
      → KeepsAdjacencies db new
  unfolding find_lsa
  same_lsas db new h held same count = record {
    held = held ∙ h;
    adjacencies =
        ap
          (λ (ls : List (Lsa N F D)).
            body_of (find_if (has_key conf.this_router_prefix adjacency_lsa) ls))
          same;
    outstanding = count;
  }

  build-KeepsAdjacencies :
      (t : Trigger N) (db : Lsdb N F D)
      → db.adj_lsa_build_held ≡ true
      → is_of_build t ≡ true
      → KeepsAdjacencies db (on_trigger conf now t db)
  build-KeepsAdjacencies t db h b =
      let kept = on_trigger-KeepsSilent conf now t db h b in
      same_lsas db (on_trigger conf now t db) h (kept.held ∙ sym h) kept.lsas kept.outstanding

  sync_due-KeepsAdjacencies :
      (db : Lsdb N F D)
      → db.adj_lsa_build_held ≡ true
      → KeepsAdjacencies db (on_delayed_own_adj_sync_publication conf now db)
  unfolding on_delayed_own_adj_sync_publication finish_own_adj_sync_publication
  sync_due-KeepsAdjacencies db h =
      same_lsas db (on_delayed_own_adj_sync_publication conf now db) h (ground arith) (ground arith)
        (ground arith)

  -- The refresh replaces the LSA under its own key.
  refresh-form :
      (l : Lsa N F D) (db : Lsdb N F D)
      → let new = refresh_own conf now l db in
        (new.lsdb
          ≡ modify_if (has_key l.origin_router (get_type l)) (λ _. refreshed conf now l) db.lsdb)
        × (new.adj_lsa_build_held ≡ db.adj_lsa_build_held)
        × (new.adj_build_count ≡ db.adj_build_count)
  unfolding set_lsa_seq get_lsa_seq finish_own_adj_sync_publication write_file
  refresh-form l db = (ground arith, ground arith, ground arith)

  refresh-adjacencies :
      (l : Lsa N F D) (db : Lsdb N F D)
      → find_lsa db l.origin_router (get_type l) ≡ some l
      → own_adjacencies (refresh_own conf now l db) ≡ own_adjacencies db
  unfolding find_lsa
  refresh-adjacencies l db here =
      let r = conf.this_router_prefix in
      let form = (refresh-form l db).0 in
      let found =
        find-modify_if l.origin_router r (get_type l) adjacency_lsa db.lsdb (refreshed conf now l)
          (has_key_refl l) (ap is_some here) in
      ground (arith, form, found, here, find-same db l r adjacency_lsa)

  refresh-KeepsAdjacencies :
      (l : Lsa N F D) (db : Lsdb N F D) (router : N) (type : LsaType)
      → db.adj_lsa_build_held ≡ true
      → find_lsa db router type ≡ some l
      → KeepsAdjacencies db (refresh_own conf now l db)
  unfolding find_lsa
  refresh-KeepsAdjacencies l db router type h e =
      let key = has_key-found router type db.lsdb l e in
      let (_, held, count) = refresh-form l db in
      record {
        held = held ∙ h;
        adjacencies = refresh-adjacencies l db (sym (find-same db l router type key) ∙ e);
        outstanding = omega (arith, count);
      }

  remove-KeepsAdjacencies :
      (l : Lsa N F D) (db : Lsdb N F D) (router : N) (type : LsaType)
      → db.adj_lsa_build_held ≡ true
      → find_lsa db router type ≡ some l
      → (l.origin_router == conf.this_router_prefix) ≡ false
      → KeepsAdjacencies db (remove_lsa conf now router type db)
  unfolding remove_lsa find_lsa
  remove-KeepsAdjacencies l db router type h e other =
      let (origin, _) = has_key-key router type l (has_key-found router type db.lsdb l e) in
      let far : (router == conf.this_router_prefix) ≡ false = rw (← origin) other in
      let kept =
        find-erase_if router conf.this_router_prefix type adjacency_lsa db.lsdb
          (ground (arith, far)) in
      record {
        held = ground (arith, e, h);
        adjacencies = ground (arith, e, kept);
        outstanding = ground (arith, e);
      }

  lsa_due-KeepsAdjacencies :
      (router : N) (type : LsaType) (seq : ℕ) (db : Lsdb N F D)
      → db.adj_lsa_build_held ≡ true
      → KeepsAdjacencies db (expire_or_refresh_lsa conf now router type seq db)
  unfolding expire_or_refresh_lsa
  lsa_due-KeepsAdjacencies router type seq db h = elim (Option-cases (find_lsa db router type)) [
    | inl e ↦ rw (e, expire_or_refresh_lsa) (same_lsas db db h refl refl (omega arith))
    | inr (l, e) ↦ rw (e, expire_or_refresh_lsa) (when_found l e)
  ]
    where
      when_found :
          (l : Lsa N F D)
          → find_lsa db router type ≡ some l
          → KeepsAdjacencies db (
              if nat_beq l.seq_no seq
              then (if l.origin_router == conf.this_router_prefix
                  then refresh_own conf now l db
                  else remove_lsa conf now router type db)
              else db)
      when_found l e = elim (Bool-cases (nat_beq l.seq_no seq)) [
        | inl due ↦ elim (Bool-cases (l.origin_router == conf.this_router_prefix)) [
          | inl own ↦ rw (due, own) (refresh-KeepsAdjacencies l db router type h e)
          | inr other ↦ rw (due, other) (remove-KeepsAdjacencies l db router type h e other)
        ]
        | inr stale ↦ rw stale (same_lsas db db h refl refl (omega arith))
      ]

  on_trigger-KeepsAdjacencies :
      (t : Trigger N) (db : Lsdb N F D)
      → db.adj_lsa_build_held ≡ true
      → KeepsAdjacencies db (on_trigger conf now t db)
  unfolding on_trigger
  on_trigger-KeepsAdjacencies sync_due db h = sync_due-KeepsAdjacencies db h
  on_trigger-KeepsAdjacencies (lsa_due router type seq) db h =
      lsa_due-KeepsAdjacencies router type seq db h
  on_trigger-KeepsAdjacencies changed db h = build-KeepsAdjacencies changed db h refl
  on_trigger-KeepsAdjacencies (at_once express) db h =
      build-KeepsAdjacencies (at_once express) db h refl
  on_trigger-KeepsAdjacencies (timer_fired express) db h =
      build-KeepsAdjacencies (timer_fired express) db h refl
  on_trigger-KeepsAdjacencies held_again db h = build-KeepsAdjacencies held_again db h refl

  -- The two timers leave the hold as it is, on or off.
  pub sync_due-held :
      (db : Lsdb N F D)
      → (on_delayed_own_adj_sync_publication conf now db).adj_lsa_build_held ≡ db.adj_lsa_build_held
  unfolding on_delayed_own_adj_sync_publication finish_own_adj_sync_publication
  sync_due-held db = ground arith

  pub lsa_due-held :
      (router : N) (type : LsaType) (seq : ℕ) (db : Lsdb N F D)
      → (expire_or_refresh_lsa conf now router type seq db).adj_lsa_build_held
        ≡ db.adj_lsa_build_held
  unfolding expire_or_refresh_lsa remove_lsa
  lsa_due-held router type seq db = elim (Option-cases (find_lsa db router type)) [
    | inl e ↦ ground (arith, e)
    | inr (l, e) ↦ ground (arith, e, (refresh-form l db).1)
  ]

  -- While the hold is on, nothing changes the adjacencies that this router says it has: no sequence
  -- of changes, requests, further holds, and callbacks of the timers for the build, for the
  -- deferred publication and for the refresh or expiration of any LSA. A refresh may give the LSA
  -- a new number and lifetime. The hold stays on, and the builds that are outstanding are not
  -- forgotten.
  pub on_triggers-KeepsAdjacencies :
      (ts : List (Trigger N)) (db : Lsdb N F D)
      → db.adj_lsa_build_held ≡ true
      → KeepsAdjacencies db (on_triggers conf now ts db)
  unfolding on_triggers
  on_triggers-KeepsAdjacencies [] db h = same_lsas db db h refl refl (omega arith)
  on_triggers-KeepsAdjacencies (t ∷ ts) db h =
      let next = on_trigger conf now t db in
      let first = on_trigger-KeepsAdjacencies t db h in
      let rest = on_triggers-KeepsAdjacencies ts next first.held in
      record {
        held = rest.held;
        adjacencies = rest.adjacencies ∙ first.adjacencies;
        outstanding = omega (arith, first.outstanding, rest.outstanding);
      }
