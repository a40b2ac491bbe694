-- ===== src/Lsdb/Hold.antt =====
-- The hold on the building of the adjacency LSA, and its deferred publication.
use nlsr.Lsa.{LsaType}
use nlsr.Prelude.{Eq, Ord, Double, ℕ, ◌≤◌, ◌≡◌, ◌∙◌, Bool, true, false, ◌&&◌, List, [], ◌∷◌, arith}
use nlsr.Lsdb.{Config, Lsdb}
use nlsr.Lsdb.Own.{
  on_delayed_own_adj_sync_publication, expire_or_refresh_lsa, schedule_adj_lsa_build,
  request_immediate_adj_lsa_build, finish_own_adj_sync_publication, hold_adj_lsa_build,
  build_adj_lsa,
}

-- What reaches the building and the publication: a change of a neighbour, a request to build at
-- once, a further hold, and the callbacks of the three timers, for the build, for the deferred
-- publication to sync, and for the refresh or expiration of the LSA of a router, type and number.
pub data Trigger (N : Type 0) : Type 0 where
  changed : Trigger N
  at_once : Bool → Trigger N
  timer_fired : Bool → Trigger N
  held_again : Trigger N
  sync_due : Trigger N
  lsa_due : N → LsaType → ℕ → Trigger N

-- Not the callback of a timer that publishes also while the hold is on.
abbrev pub is_of_build : {N : Type 0} → Trigger N → Bool
is_of_build changed = true
is_of_build (at_once express) = true
is_of_build (timer_fired express) = true
is_of_build held_again = true
is_of_build sync_due = false
is_of_build (lsa_due router type seq) = false

abbrev pub all_of_build : {N : Type 0} → List (Trigger N) → Bool
all_of_build [] = true
all_of_build (t ∷ ts) = is_of_build t && all_of_build ts

module _ {N F D : Type 0} ⦃n : Eq N⦄ ⦃no : Ord N⦄ ⦃f : Eq F⦄ ⦃d : Double D⦄ (conf : Config N F D)
    (now : ℕ) where
  unfoldable pub on_trigger : Trigger N → Lsdb N F D → Lsdb N F D
  unfolding schedule_adj_lsa_build request_immediate_adj_lsa_build build_adj_lsa hold_adj_lsa_build
      on_delayed_own_adj_sync_publication expire_or_refresh_lsa
  on_trigger changed db = schedule_adj_lsa_build conf now db
  on_trigger (at_once express) db = request_immediate_adj_lsa_build conf now express db
  on_trigger (timer_fired express) db = build_adj_lsa conf now express db
  on_trigger held_again db = hold_adj_lsa_build db
  on_trigger sync_due db = on_delayed_own_adj_sync_publication conf now db
  on_trigger (lsa_due router type seq) db = expire_or_refresh_lsa conf now router type seq db

  unfoldable pub on_triggers : List (Trigger N) → Lsdb N F D → Lsdb N F D
  unfolding on_trigger
  on_triggers [] db = db
  on_triggers (t ∷ ts) db = on_triggers ts (on_trigger t db)

  -- What a hold keeps: the hold, the LSAs, the numbers, and silence.
  pub record KeepsSilent (db new : Lsdb N F D) : Type 0 where
    pub held : new.adj_lsa_build_held ≡ true
    pub lsas : new.lsdb ≡ db.lsdb
    pub numbers : new.seqs ≡ db.seqs
    pub silence : new.log ≡ db.log
    pub published : new.published_adj_lsa_seq ≡ db.published_adj_lsa_seq
    pub outstanding : db.adj_build_count ≤ new.adj_build_count

  KeepsSilent-trans : (a b c : Lsdb N F D) → KeepsSilent a b → KeepsSilent b c → KeepsSilent a c
  KeepsSilent-trans a b c h k = record {
    held = k.held;
    lsas = k.lsas ∙ h.lsas;
    numbers = k.numbers ∙ h.numbers;
    silence = k.silence ∙ h.silence;
    published = k.published ∙ h.published;
    outstanding = omega (arith, h.outstanding, k.outstanding);
  }

  pub on_trigger-KeepsSilent :
      (t : Trigger N) (db : Lsdb N F D)
      → db.adj_lsa_build_held ≡ true
      → is_of_build t ≡ true
      → KeepsSilent db (on_trigger t db)
  unfolding on_trigger schedule_adj_lsa_build request_immediate_adj_lsa_build build_adj_lsa
      hold_adj_lsa_build
  on_trigger-KeepsSilent changed db h b = ground arith
  on_trigger-KeepsSilent (at_once express) db h b = ground arith
  on_trigger-KeepsSilent (timer_fired express) db h b = ground arith
  on_trigger-KeepsSilent held_again db h b = ground arith
  on_trigger-KeepsSilent sync_due db h b = absurd (cc b)
  on_trigger-KeepsSilent (lsa_due router type seq) db h b = absurd (cc b)

  -- While the hold is on, no sequence of changes, requests, further holds and callbacks of the
  -- build's timer publishes anything: the LSAs, the sequence numbers and the log stay, the hold
  -- stays on, and the builds that are outstanding are not forgotten. The callbacks of the two other
  -- timers, for the deferred publication and for the refresh of an LSA, are not among these.
  pub on_triggers-KeepsSilent :
      (ts : List (Trigger N)) (db : Lsdb N F D)
      → db.adj_lsa_build_held ≡ true
      → all_of_build ts ≡ true
      → KeepsSilent db (on_triggers ts db)
  unfolding on_triggers
  on_triggers-KeepsSilent [] db h b = ground arith
  on_triggers-KeepsSilent (t ∷ ts) db h b =
      let first = on_trigger-KeepsSilent t db h (ground arith) in
      KeepsSilent-trans db (on_trigger t db) (on_triggers ts (on_trigger t db)) first
        (on_triggers-KeepsSilent ts (on_trigger t db) first.held (ground arith))

  -- Once a number is published, finishing the publication again does nothing, in any state of
  -- hyperbolic routing; and the highest published number never falls.
  pub finish-finish :
      (seq : ℕ) (db : Lsdb N F D)
      → let done = finish_own_adj_sync_publication conf now seq db in
        (finish_own_adj_sync_publication conf now seq done ≡ done)
        × (db.published_adj_lsa_seq ≤ done.published_adj_lsa_seq)
  unfolding finish_own_adj_sync_publication
  finish-finish seq db = ground arith
