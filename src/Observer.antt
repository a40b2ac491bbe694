-- ===== src/Observer.antt =====
-- topology-change-observer.hpp and topology-change-observer.cpp: which changes of the routers'
-- adjacencies are confirmed by the routers on the other side. m_adjacencies and m_pending are
-- std::map, lists in the order of their routers. `reports` is the log of the two signals, oldest
-- first; a subscriber may act on them, but what it does to the observer is a later step.
pub mod Records
pub mod Pending
use nlsr.Adjacency.{Adjacent, is_neighbor}
use nlsr.Lsa.{adjacency_lsa, Lsa, get_type, type_eq, adl}
use nlsr.Lsa.Update.{list_equal}
use nlsr.Lsdb.{Lsdb, find_lsa}
use nlsr.Sequencing.{LsdbUpdate, removed}
use nlsr.Prelude.{
  Eq, ◌==◌, Ord, less, length, erase_if, modify_if, ltb, if◌then◌else◌, is_some, Bool, true, false,
  not, ◌&&◌, ◌||◌, none, some, List, [], ◌∷◌, ◌++◌,
}
use nlsr.Prelude.Sets.{by_key, find_key, set_insert, set_difference}

pub record Declared (N : Type 0) : Type 0 where
  pub router : N
  pub neighbours : List N

pub record PendingChange (N : Type 0) : Type 0 where
  pub router : N
  pub added : List N
  pub reachable_reported : Bool

pub data Report (N : Type 0) : Type 0 where
  origin_reachable : N → Report N
  -- Whether adjacencies were added.
  origin_settled : N → Bool → Report N

pub record Observer (N : Type 0) : Type 0 where
  pub adjacencies : List (Declared N)
  pub pending : List (PendingChange N)
  pub reports : List (Report N)

abbrev pub declared_router : {N : Type 0} → Declared N → N
declared_router e = e.router

abbrev pub pending_router : {N : Type 0} → PendingChange N → N
pending_router e = e.router

module _ {N : Type 0} ⦃n : Eq N⦄ ⦃no : Ord N⦄ where
  -- `map[router] = neighbours`, for a router that is in the map or not.
  unfoldable pub set_declared : N → List N → List (Declared N) → List (Declared N)
  unfolding set_insert
  set_declared router neighbours records =
      let new : Declared N = record { router = router; neighbours = neighbours } in
      if is_some (find_key declared_router router records)
      then modify_if (λ (e : Declared N). e.router == router) (λ _. new) records
      else set_insert (by_key declared_router) new records

  unfoldable pub set_pending : N → List N → List (PendingChange N) → List (PendingChange N)
  unfolding set_insert
  set_pending router added pending =
      let new : PendingChange N = record {
        router = router;
        added = added;
        reachable_reported = false;
      } in
      if is_some (find_key pending_router router pending)
      then modify_if (λ (e : PendingChange N). e.router == router) (λ _. new) pending
      else set_insert (by_key pending_router) new pending

module _ {N F D : Type 0} ⦃n : Eq N⦄ ⦃no : Ord N⦄ where
  -- The names of the neighbours in an adjacency LSA, as a std::set.
  unfoldable pub neighbour_names : List (Adjacent N F D) → List N
  unfolding set_insert
  neighbour_names [] = []
  neighbour_names (a ∷ l) = set_insert less a.name (neighbour_names l)

  -- The records, whether the adjacencies changed, and the added ones.
  unfoldable pub record_adjacencies :
      Lsa N F D → List (Declared N) → List (Declared N) × Bool × List N
  unfolding neighbour_names set_difference set_declared
  record_adjacencies l records =
      let current = neighbour_names (adl l.body) in
      elim (find_key declared_router l.origin_router records) [
        | none ↦ (set_declared l.origin_router current records, false, [])
        | some old ↦
            if list_equal (λ (x y : N). x == y) old.neighbours current
            then (records, false, [])
            else (
              set_declared l.origin_router current records,
              true,
              set_difference less current old.neighbours,
            )
      ]

-- With the LSDB that the observer reads.
module _ {N F D : Type 0} ⦃n : Eq N⦄ ⦃no : Ord N⦄ (db : Lsdb N F D) where
  unfoldable pub declares_back : N → N → Bool
  unfolding find_lsa is_neighbor
  declares_back neighbour router = elim (find_lsa db neighbour adjacency_lsa) [
    | none ↦ false
    | some l ↦ is_neighbor (adl l.body) router
  ]

  unfoldable pub any_declares_back : N → List (Adjacent N F D) → Bool
  unfolding declares_back
  any_declares_back router [] = false
  any_declares_back router (a ∷ l) = declares_back a.name router || any_declares_back router l

  unfoldable pub has_reciprocal_adjacency : N → Bool
  unfolding any_declares_back find_lsa
  has_reciprocal_adjacency router = elim (find_lsa db router adjacency_lsa) [
    | none ↦ false
    | some l ↦ any_declares_back router (adl l.body)
  ]

  unfoldable pub are_all_reciprocal : N → List N → Bool
  unfolding declares_back
  are_all_reciprocal router [] = true
  are_all_reciprocal router (x ∷ added) = declares_back x router && are_all_reciprocal router added

  unfoldable pub is_settled : PendingChange N → Bool
  unfolding are_all_reciprocal
  is_settled p = are_all_reciprocal p.router p.added

  unfoldable pub becomes_reachable : PendingChange N → Bool
  unfolding has_reciprocal_adjacency
  becomes_reachable p = not p.reachable_reported && has_reciprocal_adjacency p.router

  -- The walk over the pending changes: what stays, and the facts to report.
  unfoldable pub still_pending : List (PendingChange N) → List (PendingChange N)
  unfolding is_settled becomes_reachable
  still_pending [] = []
  still_pending (p ∷ ps) =
      let rest = still_pending ps in
      if is_settled p
      then rest
      else record p { reachable_reported = p.reachable_reported || becomes_reachable p } ∷ rest

  unfoldable pub reachable_now : List (PendingChange N) → List (Report N)
  unfolding becomes_reachable
  reachable_now [] = []
  reachable_now (p ∷ ps) =
      let rest = reachable_now ps in
      if becomes_reachable p then origin_reachable p.router ∷ rest else rest

  unfoldable pub settled_now : List (PendingChange N) → List (Report N)
  unfolding is_settled
  settled_now [] = []
  settled_now (p ∷ ps) =
      let rest = settled_now ps in
      if is_settled p then origin_settled p.router (ltb 0 (length p.added)) ∷ rest else rest

  unfoldable pub evaluate_pending : Observer N → Observer N
  unfolding still_pending reachable_now settled_now
  evaluate_pending o = record o {
    pending = still_pending o.pending;
    reports = o.reports ++ (reachable_now o.pending ++ settled_now o.pending);
  }

  -- The LSA that the database holds now, on an installation or an update.
  unfoldable pub on_installed : Lsa N F D → Observer N → Observer N
  unfolding record_adjacencies evaluate_pending set_pending
  on_installed l o =
      let (records, changed, added) = record_adjacencies l o.adjacencies in
      evaluate_pending (record o {
        adjacencies = records;
        pending = if changed then set_pending l.origin_router added o.pending else o.pending;
      })

  unfoldable pub on_removed : N → Observer N → Observer N
  unfolding set_declared
  on_removed router o = record o {
    adjacencies = set_declared router [] o.adjacencies;
    pending = erase_if (λ (p : PendingChange N). p.router == router) o.pending;
  }

  unfoldable pub on_lsdb_modified : Lsa N F D → LsdbUpdate → Observer N → Observer N
  unfolding on_installed on_removed find_lsa
  on_lsdb_modified l removed o =
      if type_eq (get_type l) adjacency_lsa then on_removed l.origin_router o else o
  on_lsdb_modified l _ o =
      if type_eq (get_type l) adjacency_lsa
      then elim (find_lsa db l.origin_router adjacency_lsa) [
        | none ↦ o
        | some held ↦ on_installed held o
      ]
      else o
