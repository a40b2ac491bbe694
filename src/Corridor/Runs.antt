-- ===== src/Corridor/Runs.antt =====
-- corridor.cpp: any run of the corridor from its start.
use nlsr.Prelude.{Eq, Ord, nat_eq, refl, List, [], ◌∷◌, arith}
use nlsr.Prelude.Maps.{at}
use nlsr.Corridor.{Corridor, key_eq, key_ord}
use nlsr.Corridor.Advertise.{new_corridor}
use nlsr.Corridor.Events.{
  BranchEntry, CorridorEvent, availability, lsdb_modified, branch_noted, query_answered,
  query_failed, face_destroyed, on_query_answered,
}
use nlsr.Corridor.Hooks.{on_lsdb_modified, corridor_step, corridor_run}
use nlsr.Corridor.Actions.{ActionLaws, on_query_answered-kept}
use nlsr.Corridor.Kept.{corridor_step-kept}
use nlsr.Corridor.Recorded.{
  Recorded, Recorded-effect, Recorded-removed, Recorded-on_face_destroyed, Recorded-advertise,
  Recorded-record_association,
}
use nlsr.Corridor.Names.{NameLibrary}
use nlsr.Lsdb.{Config, Lsdb}
use nlsr.Sequencing.{installed, updated, removed}

module _ {N F D C : Type 0} ⦃n : Eq N⦄ ⦃no : Ord N⦄ where
  Recorded-laws : (db : Lsdb N F D) → ActionLaws {C = C} db (λ c c'. Recorded c → Recorded c')
  unfolding Recorded
  Recorded-laws db = record {
    unchanged = λ c kept. kept;
    after = λ a b c h k kept. k (h kept);
    by_advertise = λ key seq faces c h. Recorded-advertise key seq faces c;
    by_branches = λ b c kept. kept;
    by_effect = λ e c h. Recorded-effect e c;
  }

  pub on_query_answered-Recorded :
      (db : Lsdb N F D) (prefix : N) (entries : List (BranchEntry N)) (c : Corridor N C)
      → Recorded c
      → Recorded (on_query_answered db prefix entries c)
  on_query_answered-Recorded db prefix entries c =
      on_query_answered-kept db (Recorded-laws db) prefix entries c

  corridor_step-Recorded :
      (conf : Config N F D) (db : Lsdb N F D) (lib : NameLibrary N C) (e : CorridorEvent N F D C)
      (c : Corridor N C)
      → Recorded c
      → Recorded (corridor_step conf db lib e c)
  unfolding corridor_step on_lsdb_modified
  corridor_step-Recorded conf db lib (availability name incoming) c =
      corridor_step-kept conf db (Recorded-laws db) Recorded-record_association lib
        (availability name incoming) c refl
  corridor_step-Recorded conf db lib (lsdb_modified l installed) c =
      corridor_step-kept conf db (Recorded-laws db) Recorded-record_association lib
        (lsdb_modified l installed) c refl
  corridor_step-Recorded conf db lib (lsdb_modified l updated) c =
      corridor_step-kept conf db (Recorded-laws db) Recorded-record_association lib
        (lsdb_modified l updated) c refl
  corridor_step-Recorded conf db lib (lsdb_modified l removed) c = Recorded-removed _ c
  corridor_step-Recorded conf db lib (branch_noted prefix face) c =
      corridor_step-kept conf db (Recorded-laws db) Recorded-record_association lib
        (branch_noted prefix face) c refl
  corridor_step-Recorded conf db lib (query_answered prefix entries) c =
      on_query_answered-Recorded db prefix entries c
  corridor_step-Recorded conf db lib (query_failed prefix) c =
      corridor_step-kept conf db (Recorded-laws db) Recorded-record_association lib
        (query_failed prefix) c refl
  corridor_step-Recorded conf db lib (face_destroyed face) c = Recorded-on_face_destroyed face c

  corridor_run-Recorded :
      (lib : NameLibrary N C) (steps : List (Config N F D × Lsdb N F D × CorridorEvent N F D C))
      (c : Corridor N C)
      → Recorded c
      → Recorded (corridor_run lib steps c)
  unfolding corridor_run
  corridor_run-Recorded lib [] c kept = kept
  corridor_run-Recorded lib ((conf, db, e) ∷ steps) c kept =
      corridor_run-Recorded lib steps (corridor_step conf db lib e c)
        (corridor_step-Recorded conf db lib e c kept)

  -- In any run from the start.
  pub started-Recorded :
      (lib : NameLibrary N C) (steps : List (Config N F D × Lsdb N F D × CorridorEvent N F D C))
      → Recorded (corridor_run lib steps new_corridor)
  unfolding Recorded at
  started-Recorded lib steps =
      corridor_run-Recorded lib steps new_corridor (λ key face h. ground (arith, h))
