-- ===== src/Hello/Events.antt =====
-- The events that reach the Hello protocol, in any order: its timers, Interests and their answers,
-- the hint of an attachment change, the loss of a face, and the timers of the LSDB.
use nlsr.Lsdb.Adjacencies.{sync_due-held, lsa_due-held}
use nlsr.Lsa.{LsaType}
use nlsr.Hello.Verify.{
  schedule-Moves, timer-Moves, timed_out-Moves, validated-Moves, failed-Moves, verify_all-Moves,
}
use nlsr.Hello.{
  HelloInterest, Hello, is_event_driven_on, neighbors, express_interest_vanilla, on_nack_vanilla,
  supersede, express_interest_owned, on_nack_owned, send_hello_interest_vanilla, probe,
  send_hello_interest_owned, send_hello_interest, reciprocate, process_interest,
}
use nlsr.Hello.Sweep.{
  all_answered, end_sweep, abort_mobility_sweep, verify_all, build_sweep_targets, new_sweep,
  begin_mobility_sweep, on_attachment_change_hint, on_adjacent_face_destroyed,
}
use nlsr.Hello.Answers.{
  schedule_calculation_or_build, process_interest_timed_out, on_content_validated,
  on_content_validation_failed,
}
use nlsr.Hello.Held.{
  destroyed-Moves, Moves-IsHeld, end_sweep-Moves, IsHeld, Moves, Moves-still, Moves-refl,
}
use nlsr.Lsdb.Own.{
  on_delayed_own_adj_sync_publication, expire_or_refresh_lsa, build_adj_lsa, hold_adj_lsa_build,
}
use nlsr.Prelude.{
  Eq, Ord, Double, length, nat_beq, if◌then◌else◌, Bool-cases, ℕ, ◌≡◌, refl, ◌∙◌, inl, inr, Bool,
  true, false, not, Option, none, some, List, [], ◌∷◌, arith,
}

pub data HelloEvent (N : Type 0) : Type 0 where
  hello_due : N → HelloEvent N
  interest_came : Option N → HelloEvent N
  nacked : HelloInterest N → HelloEvent N
  timed_out : HelloInterest N → HelloEvent N
  data_validated : N → Bool → ℕ → HelloEvent N
  validation_failed : N → ℕ → HelloEvent N
  attachment_changed : HelloEvent N
  face_lost : N → HelloEvent N
  status_changed : HelloEvent N
  build_due : Bool → HelloEvent N
  sync_due : HelloEvent N
  lsa_due : N → LsaType → ℕ → HelloEvent N

-- The callbacks that publish also while a sweep goes on: of the deferred publication to sync, and
-- of the refresh or expiration of an LSA.
abbrev pub is_lsdb_timer : {N : Type 0} → HelloEvent N → Bool
is_lsdb_timer (hello_due nb) = false
is_lsdb_timer (interest_came sender) = false
is_lsdb_timer (nacked i) = false
is_lsdb_timer (timed_out i) = false
is_lsdb_timer (data_validated nb reciprocal token) = false
is_lsdb_timer (validation_failed nb token) = false
is_lsdb_timer attachment_changed = false
is_lsdb_timer (face_lost nb) = false
is_lsdb_timer status_changed = false
is_lsdb_timer (build_due express) = false
is_lsdb_timer sync_due = true
is_lsdb_timer (lsa_due router type seq) = true

module _ {N F D : Type 0} ⦃n : Eq N⦄ ⦃no : Ord N⦄ ⦃f : Eq F⦄ ⦃d : Double D⦄ (now : ℕ) where
  unfoldable pub on_event : HelloEvent N → Hello N F D → Hello N F D
  unfolding send_hello_interest process_interest on_nack_owned process_interest_timed_out
      on_content_validated on_content_validation_failed on_attachment_change_hint
      on_adjacent_face_destroyed schedule_calculation_or_build build_adj_lsa
      on_delayed_own_adj_sync_publication expire_or_refresh_lsa
  on_event (hello_due nb) h = send_hello_interest nb h
  on_event (interest_came sender) h = process_interest sender h
  on_event (nacked i) h = if is_event_driven_on h then on_nack_owned i h else on_nack_vanilla i h
  on_event (timed_out i) h = process_interest_timed_out now i h
  on_event (data_validated nb reciprocal token) h = on_content_validated now nb reciprocal token h
  on_event (validation_failed nb token) h = on_content_validation_failed now nb token h
  on_event attachment_changed h = on_attachment_change_hint now h
  on_event (face_lost nb) h = on_adjacent_face_destroyed now nb h
  on_event status_changed h = schedule_calculation_or_build now h
  on_event (build_due express) h = record h {
    database = build_adj_lsa h.conf now express h.database;
  }
  on_event sync_due h = record h {
    database = on_delayed_own_adj_sync_publication h.conf now h.database;
  }
  on_event (lsa_due router type seq) h = record h {
    database = expire_or_refresh_lsa h.conf now router type seq h.database;
  }

  unfoldable pub on_events : List (HelloEvent N) → Hello N F D → Hello N F D
  unfolding on_event
  on_events [] h = h
  on_events (e ∷ es) h = on_events es (on_event e h)

  pub send_hello_interest-Moves :
      (nb : N) (h : Hello N F D) → IsHeld h → Moves h (send_hello_interest nb h)
  unfolding send_hello_interest send_hello_interest_owned send_hello_interest_vanilla probe
      supersede express_interest_owned express_interest_vanilla
  send_hello_interest-Moves nb h v =
      Moves-still h (send_hello_interest nb h) v (ground arith) (ground arith)

  pub process_interest-Moves :
      (sender : Option N) (h : Hello N F D) → IsHeld h → Moves h (process_interest sender h)
  unfolding process_interest reciprocate supersede express_interest_owned express_interest_vanilla
  process_interest-Moves none h v = Moves-refl now h v
  process_interest-Moves (some nb) h v =
      Moves-still h (process_interest (some nb) h) v (ground arith) (ground arith)

  pub on_nack-Moves :
      (i : HelloInterest N) (h : Hello N F D) → IsHeld h → Moves h (on_event (nacked i) h)
  unfolding on_event on_nack_owned on_nack_vanilla
  on_nack-Moves i h v = Moves-still h (on_event (nacked i) h) v (ground arith) (ground arith)

  -- A sweep that begins: the hold is on, and some target has not answered.
  pub new_sweep-IsHeld :
      (h : Hello N F D)
      → IsHeld h
      → nat_beq (length (build_sweep_targets (neighbors h))) 0 ≡ false
      → IsHeld (new_sweep now h)
  unfolding new_sweep hold_adj_lsa_build
  new_sweep-IsHeld h v e = record {
    flag = ground (arith, v.flag);
    waits = waiting (build_sweep_targets (neighbors h)) e;
  }
    where
      waiting :
          (targets : List N)
          → nat_beq (length targets) 0 ≡ false
          → not (all_answered targets []) ≡ true
      waiting [] e = cc e
      waiting (t ∷ ts) e = refl

  begin-IsHeld : (h : Hello N F D) → IsHeld h → IsHeld (begin_mobility_sweep now h)
  unfolding begin_mobility_sweep abort_mobility_sweep new_sweep
  begin-IsHeld h v = elim (Bool-cases (nat_beq (length (build_sweep_targets (neighbors h))) 0)) [
    | inl none_there ↦
        rw (none_there, begin_mobility_sweep)
          (Moves-IsHeld (new_sweep now h) (end_sweep now false (new_sweep now h))
            (end_sweep-Moves now false (new_sweep now h)))
    | inr some_there ↦
        let started = new_sweep now h in
        let w = new_sweep-IsHeld h v some_there in
        rw (some_there, begin_mobility_sweep)
          (Moves-IsHeld started (verify_all now (build_sweep_targets (neighbors h)) started)
            (verify_all-Moves now (build_sweep_targets (neighbors h)) started w))
  ]

  hint-IsHeld : (h : Hello N F D) → IsHeld h → IsHeld (on_attachment_change_hint now h)
  unfolding on_attachment_change_hint
  hint-IsHeld h v = either (is_event_driven_on h)
    where
      either : (b : Bool) → IsHeld (if b then begin_mobility_sweep now h else h)
      either true = begin-IsHeld h v
      either false = v

  on_event-IsHeld : (e : HelloEvent N) (h : Hello N F D) → IsHeld h → IsHeld (on_event e h)
  unfolding on_event
  on_event-IsHeld (hello_due nb) h v = Moves-IsHeld h _ (send_hello_interest-Moves nb h v)
  on_event-IsHeld (interest_came sender) h v = Moves-IsHeld h _ (process_interest-Moves sender h v)
  on_event-IsHeld (nacked i) h v = Moves-IsHeld h _ (on_nack-Moves i h v)
  on_event-IsHeld (timed_out i) h v = Moves-IsHeld h _ (timed_out-Moves now i h v)
  on_event-IsHeld (data_validated nb b token) h v =
      Moves-IsHeld h _ (validated-Moves now nb b token h v)
  on_event-IsHeld (validation_failed nb token) h v =
      Moves-IsHeld h _ (failed-Moves now nb token h v)
  on_event-IsHeld attachment_changed h v = hint-IsHeld h v
  on_event-IsHeld (face_lost nb) h v = Moves-IsHeld h _ (destroyed-Moves now nb h v)
  on_event-IsHeld status_changed h v = Moves-IsHeld h _ (schedule-Moves now h v)
  on_event-IsHeld (build_due b) h v = Moves-IsHeld h _ (timer-Moves now b h v)
  on_event-IsHeld sync_due h v = record {
    flag = sync_due-held h.conf now h.database ∙ v.flag;
    waits = v.waits;
  }
  on_event-IsHeld (lsa_due router type seq) h v = record {
    flag = lsa_due-held h.conf now router type seq h.database ∙ v.flag;
    waits = v.waits;
  }

  -- The publication hold is on exactly while a mobility sweep runs, and a running sweep waits for
  -- a target that has not answered: this is kept by every sequence of events.
  pub on_events-IsHeld :
      (es : List (HelloEvent N)) (h : Hello N F D) → IsHeld h → IsHeld (on_events es h)
  unfolding on_events
  on_events-IsHeld [] h v = v
  on_events-IsHeld (e ∷ es) h v = on_events-IsHeld es (on_event e h) (on_event-IsHeld e h v)
