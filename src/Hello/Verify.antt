-- ===== src/Hello/Verify.antt =====
-- The loop over a sweep's targets and the answers of the outside keep the sweep and the hold
-- together.
use nlsr.Lsdb.{Lsdb}
use nlsr.Route.RoutingTable.{schedule_routing_table_calculation}
use nlsr.Sequencing.{is_on}
use nlsr.Hello.{
  VerifyResult, reachable, unreachable, HelloInterest, initial_data_validated, is_event_driven_on,
  note, with_neighbors, express_interest_vanilla, is_stale, indeterminate, Hello, neighbors,
  verify_now_lifetime, supersede, express_interest_owned, schedule_periodic,
}
use nlsr.Hello.Sweep.{
  result_without_face, note_sweep_result, start_verification, request_verification_now, verify_all,
}
use nlsr.Hello.Answers.{
  same_status, is_outdated, note_if_event_driven, resend, give_up, counted, timed_out_count,
  process_interest_timed_out, mark_active, follow_change, request_if_reciprocal,
  on_content_validated, on_content_validation_failed, schedule_calculation_or_build,
}
use nlsr.Hello.Held.{
  IsHeld, Moves, Moves-trans, Moves-still, Moves-IsHeld, Moves-if, Moves-refl,
  note_sweep_result-Moves, still-note-Moves,
}
use nlsr.Lsdb.Flag.{
  build_adj_lsa-KeepsHold, request_immediate-KeepsHold, schedule_adj_lsa_build-KeepsHold,
}
use nlsr.Lsdb.Hold.{at_once, timer_fired, on_trigger, changed, on_trigger-KeepsSilent}
use nlsr.Lsdb.Own.{build_adj_lsa, request_immediate_adj_lsa_build, schedule_adj_lsa_build}
use nlsr.Adjacency.{
  Status, inactive, is_active, get_status_of_neighbor, set_status_of_neighbor, find,
}
use nlsr.Prelude.{
  Eq, Ord, Double, ltb, nat_beq, if◌then◌else◌, Bool-cases, Option-cases, is_some, ℕ, ◌≡◌, refl,
  ◌∙◌, inl, inr, Bool, true, false, not, ◌&&◌, ◌||◌, List, [], ◌∷◌, arith,
}

module _ {N F D : Type 0} ⦃n : Eq N⦄ ⦃no : Ord N⦄ ⦃f : Eq F⦄ ⦃d : Double D⦄ (now : ℕ) where
  -- A step, and then one that leaves the sweep and the database alone.
  then-still :
      (h mid new : Hello N F D)
      → Moves h mid
      → new.sweep ≡ mid.sweep
      → new.database ≡ mid.database
      → Moves h new
  then-still h mid new m s e =
      Moves-trans h mid new m (Moves-still mid new (Moves-IsHeld h mid m) s e)

  request-Moves :
      (nb : N) (h : Hello N F D) → IsHeld h → Moves h (request_verification_now now nb h)
  unfolding request_verification_now start_verification supersede express_interest_owned
  request-Moves nb h v = elim (Option-cases (find (neighbors h) nb)) [
    | inl e ↦ rw (e, request_verification_now) (note_sweep_result-Moves now nb indeterminate h v)
    | inr (a, e) ↦
        let started = start_verification now nb h in
        let noted = note_sweep_result now nb (result_without_face a.status) started in
        let asked =
          express_interest_owned nb (verify_now_lifetime h) false
            (started.adj_hello nb).current_token started in
        rw (e, request_verification_now)
          (then-still h (if nat_beq a.face_id 0 then noted else asked)
            (schedule_periodic nb (if nat_beq a.face_id 0 then noted else asked))
            (Moves-if now (nat_beq a.face_id 0) h noted asked
              (still-note-Moves now nb (result_without_face a.status) h started v refl refl)
              (Moves-still h asked v refl refl))
            refl refl)
  ]

  pub verify_all-Moves :
      (targets : List N) (h : Hello N F D) → IsHeld h → Moves h (verify_all now targets h)
  unfolding verify_all
  verify_all-Moves [] h v = Moves-refl now h v
  verify_all-Moves (nb ∷ rest) h v =
      let asked = request_verification_now now nb h in
      let m = request-Moves nb h v in
      Moves-if now (is_some h.sweep) h (verify_all now rest asked) h
        (Moves-trans h asked (verify_all now rest asked) m
          (verify_all-Moves rest asked (Moves-IsHeld h asked m)))
        (Moves-refl now h v)

  -- A step of the database that keeps the hold, and says nothing while it is on.
  Moves-database :
      (h : Hello N F D) (db : Lsdb N F D)
      → IsHeld h
      → db.adj_lsa_build_held ≡ h.database.adj_lsa_build_held
      → (h.database.adj_lsa_build_held ≡ true → db.log ≡ h.database.log)
      → Moves h (record h { database = db })
  Moves-database h db v k silent = elim (Bool-cases (is_some h.sweep)) [
    | inl e ↦ let quiet = silent (v.flag ∙ e) in ground (arith, v.flag, v.waits)
    | inr e ↦ ground (arith, v.flag, v.waits)
  ]

  pub schedule-Moves : (h : Hello N F D) → IsHeld h → Moves h (schedule_calculation_or_build now h)
  unfolding schedule_calculation_or_build on_trigger
  schedule-Moves h v =
      let built = schedule_adj_lsa_build h.conf now h.database in
      let routed = schedule_routing_table_calculation h.routing_table in
      Moves-if now (is_on h.conf.hyperbolic_state) h (record h { routing_table = routed })
        (record h { database = built })
        (Moves-still h (record h { routing_table = routed }) v refl refl)
        (Moves-database h built v (schedule_adj_lsa_build-KeepsHold h.conf now h.database)
          (λ on. (on_trigger-KeepsSilent h.conf now changed h.database on refl).silence))

  request_if_reciprocal-Moves :
      (reciprocal : Bool) (h : Hello N F D)
      → IsHeld h
      → Moves h (request_if_reciprocal now reciprocal h)
  unfolding request_if_reciprocal on_trigger
  request_if_reciprocal-Moves reciprocal h v =
      let built = request_immediate_adj_lsa_build h.conf now false h.database in
      Moves-if now
        (reciprocal
          && (h.hello_conf.result_driven_adj_lsa_build && not (is_on h.conf.hyperbolic_state))
          && not (is_event_driven_on h && is_some h.sweep))
        h (record h { database = built }) h
        (Moves-database h built v (request_immediate-KeepsHold h.conf now false h.database)
          (λ on. (on_trigger-KeepsSilent h.conf now (at_once false) h.database on refl).silence))
        (Moves-refl now h v)

  pub timer-Moves :
      (express : Bool) (h : Hello N F D)
      → IsHeld h
      → Moves h (record h { database = build_adj_lsa h.conf now express h.database })
  unfolding on_trigger
  timer-Moves express h v =
      Moves-database h (build_adj_lsa h.conf now express h.database) v
        (build_adj_lsa-KeepsHold h.conf now express h.database)
        (λ on. (on_trigger-KeepsSilent h.conf now (timer_fired express) h.database on refl).silence)

  note_if_event_driven-Moves :
      (nb : N) (r : VerifyResult) (h : Hello N F D)
      → IsHeld h
      → Moves h (note_if_event_driven now nb r h)
  unfolding note_if_event_driven
  note_if_event_driven-Moves nb r h v =
      Moves-if now (is_event_driven_on h) h (note_sweep_result now nb r h) h
        (note_sweep_result-Moves now nb r h v) (Moves-refl now h v)

  -- A step, and then one that moves on.
  then-Moves : (h mid new : Hello N F D) → Moves h mid → (IsHeld mid → Moves mid new) → Moves h new
  then-Moves h mid new p q = Moves-trans h mid new p (q (Moves-IsHeld h mid p))

  give_up-Moves : (nb : N) (h : Hello N F D) → IsHeld h → Moves h (give_up now nb h)
  unfolding give_up
  give_up-Moves nb h v =
      let lost = with_neighbors (set_status_of_neighbor (neighbors h) nb inactive) h in
      let down = schedule_calculation_or_build now lost in
      let was_active = is_active (get_status_of_neighbor (neighbors h) nb) in
      let end = if was_active then down else h in
      then-Moves h end (note_if_event_driven now nb unreachable end)
        (Moves-if now was_active h down h
          (then-Moves h lost down (Moves-still h lost v refl refl) (schedule-Moves lost))
          (Moves-refl now h v))
        (note_if_event_driven-Moves nb unreachable end)

  pub timed_out-Moves :
      (i : HelloInterest N) (h : Hello N F D)
      → IsHeld h
      → Moves h (process_interest_timed_out now i h)
  unfolding process_interest_timed_out counted resend express_interest_owned
      express_interest_vanilla
  timed_out-Moves i h v =
      let more = counted now i.neighbor h in
      let again = resend now i more in
      let gone = give_up now i.neighbor more in
      let few = ltb (timed_out_count now i.neighbor more) h.conf.interest_retry_number in
      Moves-if now (is_outdated now i.neighbor i.flow_token h) h h (if few then again else gone)
        (Moves-refl now h v)
        (Moves-if now few h again gone (Moves-still h again v (ground arith) (ground arith))
          (then-Moves h more gone (Moves-still h more v refl refl) (give_up-Moves i.neighbor more)))

  follow_change-Moves :
      (nb : N) (old : Status) (h : Hello N F D) → IsHeld h → Moves h (follow_change now nb old h)
  unfolding follow_change
  follow_change-Moves nb old h v =
      let done = schedule_calculation_or_build now h in
      let told = note (initial_data_validated nb) done in
      Moves-if now (same_status old (get_status_of_neighbor (neighbors h) nb)) h h told
        (Moves-refl now h v) (then-still h done told (schedule-Moves h v) refl refl)

  pub validated-Moves :
      (nb : N) (reciprocal : Bool) (token : ℕ) (h : Hello N F D)
      → IsHeld h
      → Moves h (on_content_validated now nb reciprocal token h)
  unfolding on_content_validated mark_active
  validated-Moves nb reciprocal token h v =
      let old = get_status_of_neighbor (neighbors h) nb in
      let marked = mark_active now nb h in
      let followed = follow_change now nb old marked in
      let asked = request_if_reciprocal now reciprocal followed in
      let noted = note_if_event_driven now nb reachable asked in
      Moves-if now (is_outdated now nb token h) h h noted (Moves-refl now h v) (
        then-Moves h asked noted
          (then-Moves h followed asked
            (then-Moves h marked followed (Moves-still h marked v refl refl)
              (follow_change-Moves nb old marked))
            (request_if_reciprocal-Moves reciprocal followed))
          (note_if_event_driven-Moves nb reachable asked))

  pub failed-Moves :
      (nb : N) (token : ℕ) (h : Hello N F D)
      → IsHeld h
      → Moves h (on_content_validation_failed now nb token h)
  unfolding on_content_validation_failed
  failed-Moves nb token h v =
      Moves-if now (not (is_event_driven_on h) || is_stale nb token h) h h
        (note_sweep_result now nb indeterminate h) (Moves-refl now h v)
        (note_sweep_result-Moves now nb indeterminate h v)
