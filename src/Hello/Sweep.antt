-- ===== src/Hello/Sweep.antt =====
-- hello-protocol.cpp: the mobility sweep. It verifies each target at once and holds the adjacency
-- LSA back until each has answered, or gives up at the first result that decides nothing.
use nlsr.Prelude.{
  Eq, ◌==◌, is_in, Ord, less, Double, length, find_if, nat_beq, if◌then◌else◌, is_some, ℕ, Bool,
  true, false, not, ◌&&◌, ◌||◌, Option, none, some, List, [], ◌∷◌,
}
use nlsr.Sequencing.{increased}
use nlsr.Prelude.Sets.{set_insert}
use nlsr.Adjacency.{
  Status, unknown, inactive, active, is_active, find, set_timed_out_interest_count, Adjacent,
}
use nlsr.Lsdb.Own.{release_adj_lsa_build_hold, hold_adj_lsa_build}
use nlsr.Hello.{
  VerifyResult, reachable, unreachable, indeterminate, MobilitySweep, is_event_driven_on, neighbors,
  with_neighbors, verify_now_lifetime, set_control, supersede, express_interest_owned,
  schedule_periodic, Hello,
}

module _ {N : Type 0} ⦃n : Eq N⦄ where
  -- `results[neighbor] = result`
  abbrev pub set_result : N → VerifyResult → List (N × VerifyResult) → List (N × VerifyResult)
  set_result nb r [] = (nb, r) ∷ []
  set_result nb r ((k, old) ∷ rest) =
      if k == nb then (k, r) ∷ rest else (k, old) ∷ set_result nb r rest

  abbrev pub has_result : List (N × VerifyResult) → N → Bool
  has_result results nb = is_some (find_if (λ (e : N × VerifyResult). e.0 == nb) results)

  abbrev pub all_answered : List N → List (N × VerifyResult) → Bool
  all_answered [] results = true
  all_answered (t ∷ ts) results = has_result results t && all_answered ts results

-- A neighbour without a face that is active still is to be found out about.
abbrev pub result_without_face : Status → VerifyResult
result_without_face active = indeterminate
result_without_face inactive = unreachable
result_without_face unknown = unreachable

module _ {N F D : Type 0} ⦃no : Ord N⦄ where
  unfoldable pub build_sweep_targets : List (Adjacent N F D) → List N
  unfolding set_insert
  build_sweep_targets [] = []
  build_sweep_targets (a ∷ l) =
      let rest = build_sweep_targets l in
      if is_active a.status || not (nat_beq a.face_id 0) then set_insert less a.name rest else rest

module _ {N F D : Type 0} ⦃n : Eq N⦄ ⦃no : Ord N⦄ ⦃f : Eq F⦄ ⦃d : Double D⦄ (now : ℕ) where
  -- The sweep is over and the hold is released.
  unfoldable pub end_sweep : Bool → Hello N F D → Hello N F D
  unfolding release_adj_lsa_build_hold
  end_sweep immediate h = record h {
    sweep = none;
    database = release_adj_lsa_build_hold h.conf now immediate h.database;
  }

  unfoldable pub abort_mobility_sweep : Hello N F D → Hello N F D
  unfolding end_sweep
  abort_mobility_sweep h = if is_some h.sweep then end_sweep false h else h

  unfoldable pub check_sweep_completion : Hello N F D → Hello N F D
  unfolding end_sweep
  check_sweep_completion h = elim h.sweep [
    | none ↦ h
    | some s ↦ if all_answered s.targets s.results then end_sweep true h else h
  ]

  unfoldable pub record_result : N → VerifyResult → MobilitySweep N → Hello N F D → Hello N F D
  unfolding abort_mobility_sweep check_sweep_completion
  record_result nb indeterminate s h = abort_mobility_sweep h
  record_result nb reachable s h =
      check_sweep_completion
        (record h { sweep = some (record s { results = set_result nb reachable s.results }) })
  record_result nb unreachable s h =
      check_sweep_completion
        (record h { sweep = some (record s { results = set_result nb unreachable s.results }) })

  unfoldable pub note_in : N → VerifyResult → Option (MobilitySweep N) → Hello N F D → Hello N F D
  unfolding record_result
  note_in nb r none h = h
  note_in nb r (some s) h = if is_in nb s.targets then record_result nb r s h else h

  unfoldable pub note_sweep_result : N → VerifyResult → Hello N F D → Hello N F D
  unfolding note_in
  note_sweep_result nb r h = note_in nb r h.sweep h

  -- The new flow of a verification at once.
  unfoldable pub start_verification : N → Hello N F D → Hello N F D
  unfolding supersede verify_now_lifetime set_timed_out_interest_count
  start_verification nb h =
      let h = supersede nb (verify_now_lifetime h) h in
      let h = set_control nb (record (h.adj_hello nb) { periodic_event = false }) h in
      with_neighbors (set_timed_out_interest_count (neighbors h) nb 0) h

  unfoldable pub request_verification_now : N → Hello N F D → Hello N F D
  unfolding start_verification note_sweep_result express_interest_owned find verify_now_lifetime
  request_verification_now nb h = elim (find (neighbors h) nb) [
    | none ↦ note_sweep_result nb indeterminate h
    | some a ↦
        let started = start_verification nb h in
        schedule_periodic nb (
          if nat_beq a.face_id 0
          then note_sweep_result nb (result_without_face a.status) started
          else express_interest_owned nb (verify_now_lifetime h) false
              (started.adj_hello nb).current_token started)
  ]

  -- The loop over the targets, which stops when the sweep has ended.
  unfoldable pub verify_all : List N → Hello N F D → Hello N F D
  unfolding request_verification_now
  verify_all [] h = h
  verify_all (nb ∷ rest) h =
      let later = verify_all rest (request_verification_now nb h) in
      if is_some h.sweep then later else h

  -- A sweep with no results, in the place of the one that runs.
  unfoldable pub new_sweep : Hello N F D → Hello N F D
  unfolding build_sweep_targets hold_adj_lsa_build
  new_sweep h = record h {
    database = if is_some h.sweep then h.database else hold_adj_lsa_build h.database;
    sweep = some (record {
      serial = h.next_sweep_serial;
      targets = build_sweep_targets (neighbors h);
      results = [];
    });
    next_sweep_serial = increased h.next_sweep_serial 1;
  }

  unfoldable pub begin_mobility_sweep : Hello N F D → Hello N F D
  unfolding new_sweep abort_mobility_sweep verify_all build_sweep_targets
  begin_mobility_sweep h =
      let targets = build_sweep_targets (neighbors h) in
      if nat_beq (length targets) 0
      then abort_mobility_sweep (new_sweep h)
      else verify_all targets (new_sweep h)

  unfoldable pub on_attachment_change_hint : Hello N F D → Hello N F D
  unfolding begin_mobility_sweep
  on_attachment_change_hint h = if is_event_driven_on h then begin_mobility_sweep h else h

  unfoldable pub destroyed_in : N → Option (MobilitySweep N) → Hello N F D → Hello N F D
  unfolding supersede note_sweep_result
  destroyed_in nb none h = h
  destroyed_in nb (some s) h =
      if is_event_driven_on h && is_in nb s.targets
      then note_sweep_result nb unreachable (supersede nb (h.adj_hello nb).interest_lifetime h)
      else h

  unfoldable pub on_adjacent_face_destroyed : N → Hello N F D → Hello N F D
  unfolding destroyed_in
  on_adjacent_face_destroyed nb h = destroyed_in nb h.sweep h
