-- ===== src/Hello/Flow.antt =====
-- Flow tokens: an answer of an earlier flow changes nothing.
use nlsr.Sequencing.{increased, u64_mod}
use nlsr.Lsdb.{Config}
use nlsr.Hello.{
  unreachable, AdjHelloControl, MobilitySweep, supersede, VerifyResult, HelloInterest, Hello,
  is_event_driven_on, is_stale, on_nack_owned,
}
use nlsr.Hello.Sweep.{
  destroyed_in, on_adjacent_face_destroyed, end_sweep, abort_mobility_sweep, check_sweep_completion,
  record_result, note_in, note_sweep_result,
}
use nlsr.Hello.Answers.{
  process_interest_timed_out, on_content_validated, on_content_validation_failed,
}
use nlsr.Prelude.{
  Eq, ==_refl, is_in, Ord, Double, if◌then◌else◌, ℕ, ◌<◌, ◌≡◌, refl, sym, ap, ◌∙◌, ◌≢◌, Bool, true,
  ◌&&◌, Option, some, arith,
}

increased-ne : (t : ℕ) → t < u64_mod → t ≢ increased t 1
increased-ne t h e = omega arith

module _ {N F D : Type 0} ⦃n : Eq N⦄ ⦃no : Ord N⦄ ⦃f : Eq F⦄ ⦃d : Double D⦄ (now : ℕ) where
  -- With event-driven verification, no answer with a token other than the neighbour's current one
  -- has any effect: neither a timeout, nor a Nack, nor validated Data, nor Data that fails
  -- validation.
  pub stale-ignored :
      (h : Hello N F D) (i : HelloInterest N)
      → is_event_driven_on h ≡ true
      → i.flow_token ≢ (h.adj_hello i.neighbor).current_token
      → (process_interest_timed_out now i h ≡ h)
        × (on_nack_owned i h ≡ h)
        × (on_content_validated now i.neighbor i.is_reciprocal i.flow_token h ≡ h)
        × (on_content_validation_failed now i.neighbor i.flow_token h ≡ h)
  unfolding process_interest_timed_out on_nack_owned on_content_validated
      on_content_validation_failed
  stale-ignored h i on other =
      let stale : is_stale i.neighbor i.flow_token h ≡ true = ground arith in
      (ground arith, ground arith, ground arith, ground arith)

  control-note :
      (nb : N) (r : VerifyResult) (h : Hello N F D)
      → ((note_sweep_result now nb r h).adj_hello ≡ h.adj_hello)
        × ((note_sweep_result now nb r h).conf ≡ h.conf)
  unfolding note_sweep_result note_in record_result abort_mobility_sweep check_sweep_completion
      end_sweep
  control-note nb r h = (ground arith, ground arith)

  supersede-token :
      (nb : N) (time : ℕ) (h : Hello N F D)
      → ((supersede nb time h).adj_hello nb).current_token
        ≡ increased (h.adj_hello nb).current_token 1
  unfolding supersede
  supersede-token nb time h = ground (arith, ==_refl nb)

  supersede-conf : (nb : N) (time : ℕ) (h : Hello N F D) → (supersede nb time h).conf ≡ h.conf
  unfolding supersede
  supersede-conf nb time h = refl

  -- The loss of a target's face ends its flow: Data or a timeout of the flow that was current before
  -- has no effect afterwards, so a late answer does not revive the neighbour.
  pub face_lost-outdates :
      (h : Hello N F D) (s : MobilitySweep N) (i : HelloInterest N)
      → is_event_driven_on h ≡ true
      → h.sweep ≡ some s
      → is_in i.neighbor s.targets ≡ true
      → i.flow_token ≡ (h.adj_hello i.neighbor).current_token
      → i.flow_token < u64_mod
      → let lost = on_adjacent_face_destroyed now i.neighbor h in
        (process_interest_timed_out now i lost ≡ lost)
        × (on_content_validated now i.neighbor i.is_reciprocal i.flow_token lost ≡ lost)
  unfolding on_adjacent_face_destroyed destroyed_in
  face_lost-outdates h s i on runs target current small =
      let fresh = supersede i.neighbor (h.adj_hello i.neighbor).interest_lifetime h in
      let lost = on_adjacent_face_destroyed now i.neighbor h in
      let noted = note_sweep_result now i.neighbor unreachable fresh in
      let (kept, conf) = control-note i.neighbor unreachable fresh in
      let asked : (is_event_driven_on h && is_in i.neighbor s.targets) ≡ true = ground arith in
      let same : lost ≡ noted =
        ap (λ (o : Option (MobilitySweep N)). destroyed_in now i.neighbor o h) runs
        ∙ ap (λ (b : Bool). if b then noted else h) asked in
      let ignored =
        stale-ignored noted i
          (ap (λ (c : Config N F D). c.event_driven_adjacency_verification)
              (conf ∙ supersede-conf i.neighbor (h.adj_hello i.neighbor).interest_lifetime h)
            ∙ on)
          (λ e. increased-ne i.flow_token small (
            e
            ∙ ap (λ (g : N → AdjHelloControl N). (g i.neighbor).current_token) kept
            ∙ supersede-token i.neighbor (h.adj_hello i.neighbor).interest_lifetime h
            ∙ ap (λ (t : ℕ). increased t 1) (sym current))) in
      (
        ap (process_interest_timed_out now i) same ∙ ignored.0 ∙ sym same,
        ap (on_content_validated now i.neighbor i.is_reciprocal i.flow_token) same
            ∙ ignored.2
            ∙ sym same,
      )
