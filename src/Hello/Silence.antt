-- ===== src/Hello/Silence.antt =====
-- hello-protocol.cpp: the LSDB while a mobility sweep goes on.
use nlsr.Hello.{MobilitySweep, Hello, is_event_driven_on, neighbors}
use nlsr.Hello.Sweep.{
  build_sweep_targets, verify_all, new_sweep, begin_mobility_sweep, on_attachment_change_hint,
}
use nlsr.Hello.Held.{IsHeld, Moves-silent, destroyed-Moves}
use nlsr.Hello.Verify.{
  verify_all-Moves, schedule-Moves, timer-Moves, timed_out-Moves, validated-Moves, failed-Moves,
}
use nlsr.Hello.Events.{
  HelloEvent, hello_due, interest_came, nacked, timed_out, data_validated, validation_failed,
  attachment_changed, face_lost, status_changed, build_due, sync_due, lsa_due, is_lsdb_timer,
  on_event, send_hello_interest-Moves, process_interest-Moves, on_nack-Moves, new_sweep-IsHeld,
}
use nlsr.Lsdb.Own.{hold_adj_lsa_build}
use nlsr.Prelude.{
  Eq, Ord, Double, length, nat_beq, if◌then◌else◌, Bool-cases, is_some, ℕ, ◌≡◌, refl, sym, ap, ◌∙◌,
  inl, inr, Bool, true, false, Option, none,
}

module _ {N F D : Type 0} ⦃n : Eq N⦄ ⦃no : Ord N⦄ ⦃f : Eq F⦄ ⦃d : Double D⦄ (now : ℕ) where
  begin-empty :
      (h : Hello N F D)
      → nat_beq (length (build_sweep_targets (neighbors h))) 0 ≡ true
      → (begin_mobility_sweep now h).sweep ≡ none
  unfolding begin_mobility_sweep
  begin-empty h e = rw (e, begin_mobility_sweep)

  begin-full :
      (h : Hello N F D)
      → nat_beq (length (build_sweep_targets (neighbors h))) 0 ≡ false
      → begin_mobility_sweep now h
        ≡ verify_all now (build_sweep_targets (neighbors h)) (new_sweep now h)
  unfolding begin_mobility_sweep
  begin-full h e = rw (e, begin_mobility_sweep)

  -- While a sweep goes on over its restart, the database says nothing.
  begin-silent :
      (h : Hello N F D)
      → IsHeld h
      → is_some h.sweep ≡ true
      → is_some (begin_mobility_sweep now h).sweep ≡ true
      → (begin_mobility_sweep now h).database.log ≡ h.database.log
  unfolding new_sweep
  begin-silent h v runs still =
      let targets = build_sweep_targets (neighbors h) in
      let started = new_sweep now h in
      elim (Bool-cases (nat_beq (length targets) 0)) [
        | inl none_there ↦
            let over : (begin_mobility_sweep now h).sweep ≡ none = begin-empty h none_there in
            cc (still, ap (λ (x : Option (MobilitySweep N)). is_some x) over)
        | inr some_there ↦
            let same = begin-full h some_there in
            let final = verify_all now targets started in
            let on : is_some final.sweep ≡ true =
              ap (λ (x : Hello N F D). is_some x.sweep) (sym same) ∙ still in
            let moves =
              verify_all-Moves now targets started (new_sweep-IsHeld now h v some_there) in
            ap (λ (x : Hello N F D). x.database.log) same
            ∙ (Moves-silent started final moves on
                ∙ ap (λ (b : Bool). (if b then h.database else hold_adj_lsa_build h.database).log)
                    runs)
      ]

  hint-silent :
      (h : Hello N F D)
      → IsHeld h
      → is_some h.sweep ≡ true
      → is_some (on_attachment_change_hint now h).sweep ≡ true
      → (on_attachment_change_hint now h).database.log ≡ h.database.log
  unfolding on_attachment_change_hint
  hint-silent h v runs still = silent_when (is_event_driven_on h) still
    where
      silent_when :
          (b : Bool)
          → is_some (if b then begin_mobility_sweep now h else h).sweep ≡ true
          → (if b then begin_mobility_sweep now h else h).database.log ≡ h.database.log
      silent_when true on = begin-silent h v runs on
      silent_when false on = refl

  -- While the sweep goes on, no event of the Hello protocol and no callback of the timer for the
  -- build of the adjacency LSA makes the LSDB publish, write its numbers or report a change, a
  -- restart of the sweep included: what the LSDB has said before and after the event is the same.
  -- The callbacks of the LSDB's timers for the deferred publication and for the refresh or
  -- expiration of an LSA are excepted.
  pub on_event-silent :
      (e : HelloEvent N) (h : Hello N F D)
      → is_lsdb_timer e ≡ false
      → IsHeld h
      → is_some h.sweep ≡ true
      → is_some (on_event now e h).sweep ≡ true
      → (on_event now e h).database.log ≡ h.database.log
  unfolding on_event
  on_event-silent (hello_due nb) h q v r s =
      Moves-silent h _ (send_hello_interest-Moves now nb h v) s
  on_event-silent (interest_came sender) h q v r s =
      Moves-silent h _ (process_interest-Moves now sender h v) s
  on_event-silent (nacked i) h q v r s = Moves-silent h _ (on_nack-Moves now i h v) s
  on_event-silent (timed_out i) h q v r s = Moves-silent h _ (timed_out-Moves now i h v) s
  on_event-silent (data_validated nb b token) h q v r s =
      Moves-silent h _ (validated-Moves now nb b token h v) s
  on_event-silent (validation_failed nb token) h q v r s =
      Moves-silent h _ (failed-Moves now nb token h v) s
  on_event-silent attachment_changed h q v r s = hint-silent h v r s
  on_event-silent (face_lost nb) h q v r s = Moves-silent h _ (destroyed-Moves now nb h v) s
  on_event-silent status_changed h q v r s = Moves-silent h _ (schedule-Moves now h v) s
  on_event-silent (build_due b) h q v r s = Moves-silent h _ (timer-Moves now b h v) s
  on_event-silent sync_due h q v r s = absurd (cc q)
  on_event-silent (lsa_due router type seq) h q v r s = absurd (cc q)
