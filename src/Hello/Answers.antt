-- ===== src/Hello/Answers.antt =====
-- hello-protocol.cpp: what a timeout, validated Data and Data that fails validation do.
use nlsr.Prelude.{
  Eq, Ord, Double, ltb, if◌then◌else◌, is_some, ℕ, ◌-◌, Bool, true, false, not, ◌&&◌, ◌||◌, none,
  some,
}
use nlsr.Sequencing.{is_on}
use nlsr.Adjacency.{
  u32_mod, Status, unknown, inactive, active, is_active, increment_timed_out_interest_count,
  set_timed_out_interest_count, get_timed_out_interest_count, get_status_of_neighbor,
  set_status_of_neighbor,
}
use nlsr.Lsdb.Own.{request_immediate_adj_lsa_build, schedule_adj_lsa_build}
use nlsr.Route.RoutingTable.{schedule_routing_table_calculation}
use nlsr.Hello.{
  VerifyResult, reachable, unreachable, indeterminate, HelloInterest, initial_data_validated,
  is_event_driven_on, note, neighbors, with_neighbors, express_interest_vanilla, is_stale,
  express_interest_owned, Hello,
}
use nlsr.Hello.Sweep.{note_sweep_result}

abbrev pub same_status : Status → Status → Bool
same_status unknown unknown = true
same_status inactive inactive = true
same_status active active = true
same_status _ _ = false

module _ {N F D : Type 0} ⦃n : Eq N⦄ ⦃no : Ord N⦄ ⦃f : Eq F⦄ ⦃d : Double D⦄ (now : ℕ) where
  -- A neighbour's status has changed: the routes, or this router's adjacency LSA, follow.
  unfoldable pub schedule_calculation_or_build : Hello N F D → Hello N F D
  unfolding schedule_routing_table_calculation schedule_adj_lsa_build
  schedule_calculation_or_build h =
      if is_on h.conf.hyperbolic_state
      then record h { routing_table = schedule_routing_table_calculation h.routing_table }
      else record h { database = schedule_adj_lsa_build h.conf now h.database }

  -- The answer is outdated: only with event-driven verification are there flows.
  abbrev pub is_outdated : N → ℕ → Hello N F D → Bool
  is_outdated nb token h = is_event_driven_on h && is_stale nb token h

  unfoldable pub note_if_event_driven : N → VerifyResult → Hello N F D → Hello N F D
  unfolding note_sweep_result
  note_if_event_driven nb r h = if is_event_driven_on h then note_sweep_result now nb r h else h

  unfoldable pub resend : HelloInterest N → Hello N F D → Hello N F D
  unfolding express_interest_vanilla express_interest_owned
  resend i h =
      if is_event_driven_on h
      then express_interest_owned i.neighbor (h.adj_hello i.neighbor).interest_lifetime
          i.is_reciprocal i.flow_token h
      else express_interest_vanilla i.neighbor h.conf.interest_resend_time i.is_reciprocal h

  -- After the last retry: an active neighbour becomes inactive.
  unfoldable pub give_up : N → Hello N F D → Hello N F D
  unfolding schedule_calculation_or_build get_status_of_neighbor set_status_of_neighbor
      note_if_event_driven
  give_up nb h =
      let down =
        if is_active (get_status_of_neighbor (neighbors h) nb)
        then schedule_calculation_or_build
            (with_neighbors (set_status_of_neighbor (neighbors h) nb inactive) h)
        else h in
      note_if_event_driven nb unreachable down

  unfoldable pub counted : N → Hello N F D → Hello N F D
  unfolding increment_timed_out_interest_count
  counted nb h = with_neighbors (increment_timed_out_interest_count (neighbors h) nb) h

  -- The count is read as uint32_t: -1, for a neighbour that is not there, is the largest number.
  unfoldable pub timed_out_count : N → Hello N F D → ℕ
  unfolding get_timed_out_interest_count
  timed_out_count nb h = elim (get_timed_out_interest_count (neighbors h) nb) [
    | none ↦ u32_mod - 1
    | some k ↦ k
  ]

  unfoldable pub process_interest_timed_out : HelloInterest N → Hello N F D → Hello N F D
  unfolding counted timed_out_count resend give_up
  process_interest_timed_out i h =
      let h' = counted i.neighbor h in
      if is_outdated i.neighbor i.flow_token h
      then h
      else if ltb (timed_out_count i.neighbor h') h.conf.interest_retry_number
      then resend i h'
      else give_up i.neighbor h'

  unfoldable pub mark_active : N → Hello N F D → Hello N F D
  unfolding set_status_of_neighbor set_timed_out_interest_count
  mark_active nb h =
      with_neighbors
        (set_timed_out_interest_count (set_status_of_neighbor (neighbors h) nb active) nb 0) h

  -- The status differs from the one before.
  unfoldable pub follow_change : N → Status → Hello N F D → Hello N F D
  unfolding schedule_calculation_or_build get_status_of_neighbor
  follow_change nb old h =
      if same_status old (get_status_of_neighbor (neighbors h) nb)
      then h
      else note (initial_data_validated nb) (schedule_calculation_or_build h)

  unfoldable pub request_if_reciprocal : Bool → Hello N F D → Hello N F D
  unfolding request_immediate_adj_lsa_build
  request_if_reciprocal reciprocal h =
      if reciprocal
        && (h.hello_conf.result_driven_adj_lsa_build && not (is_on h.conf.hyperbolic_state))
        && not (is_event_driven_on h && is_some h.sweep)
      then record h { database = request_immediate_adj_lsa_build h.conf now false h.database }
      else h

  unfoldable pub on_content_validated : N → Bool → ℕ → Hello N F D → Hello N F D
  unfolding mark_active follow_change request_if_reciprocal note_if_event_driven
      get_status_of_neighbor
  on_content_validated nb reciprocal token h =
      let old = get_status_of_neighbor (neighbors h) nb in
      if is_outdated nb token h
      then h
      else note_if_event_driven nb reachable
          (request_if_reciprocal reciprocal (follow_change nb old (mark_active nb h)))

  unfoldable pub on_content_validation_failed : N → ℕ → Hello N F D → Hello N F D
  unfolding note_sweep_result
  on_content_validation_failed nb token h =
      if not (is_event_driven_on h) || is_stale nb token h
      then h
      else note_sweep_result now nb indeterminate h
