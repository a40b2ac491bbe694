-- ===== src/Examples/HelloRun.antt =====
-- Router 10 while a mobility sweep runs over its neighbours 20 and 30, and what an observer sees.
use nlsr.Hello.Silence.{on_event-silent}
use nlsr.Hello.{HelloInterest, AdjHelloControl, MobilitySweep, Hello, hello_interest}
use nlsr.Hello.Sweep.{on_adjacent_face_destroyed}
use nlsr.Hello.Answers.{process_interest_timed_out, on_content_validated}
use nlsr.Hello.Events.{
  data_validated, attachment_changed, face_lost, build_due, on_event, on_events, on_events-IsHeld,
}
use nlsr.Hello.Flow.{face_lost-outdates}
use nlsr.Hello.Settle.{note_answers, Settled, note_answers-Settled}
use nlsr.Hello.Held.{IsHeld}
use nlsr.Examples.LsdbRun.{router_config, dirty}
use nlsr.Examples.LinkStateRun.{empty_table}
use nlsr.Examples.Values.{nat_ord, Tenths, tenths_double}
use nlsr.Prelude.{nat_eq, ℕ, ◌≡◌, refl, true, false, none, some, [], ◌∷◌, arith}

abbrev flow : ℕ → AdjHelloControl ℕ
flow nb = record {
  periodic_event = true;
  pending_interest = none;
  nack_delay_event = none;
  current_token = 5;
  interest_lifetime = 1000;
}

abbrev sweep_of_two : MobilitySweep ℕ
sweep_of_two = record { serial = 1; targets = 20 ∷ 30 ∷ []; results = [] }

abbrev pub sweeping : Hello ℕ ℕ Tenths
sweeping = record {
  conf = router_config;
  hello_conf = record {
    info_interest_interval = 60;
    event_driven_verification_timeout_ms = 500;
    result_driven_adj_lsa_build = true;
  };
  database = dirty;
  routing_table = empty_table;
  adj_hello = flow;
  sweep = some sweep_of_two;
  next_sweep_serial = 2;
  hello_log = [];
}

abbrev old_interest : HelloInterest ℕ
old_interest = hello_interest 20 1000 true 4

abbrev current_interest : HelloInterest ℕ
current_interest = hello_interest 20 1000 true 5

pub sweeping-IsHeld : IsHeld sweeping
sweeping-IsHeld = record { flag = refl; waits = refl }

on_events-IsHeld_example : IsHeld (
    on_events 50
      (data_validated 20 true 5 ∷ face_lost 30 ∷ build_due false ∷ attachment_changed ∷ [])
      sweeping)
on_events-IsHeld_example =
    on_events-IsHeld 50
      (data_validated 20 true 5 ∷ face_lost 30 ∷ build_due false ∷ attachment_changed ∷ []) sweeping
      sweeping-IsHeld

on_event-silent_example : (on_event 50 (data_validated 20 true 5) sweeping).database.log ≡ []
unfolding on_event
on_event-silent_example =
    on_event-silent 50 (data_validated 20 true 5) sweeping refl sweeping-IsHeld refl refl

face_lost-outdates_example :
    let lost = on_adjacent_face_destroyed 50 20 sweeping in
    (process_interest_timed_out 50 current_interest lost ≡ lost)
    × (on_content_validated 50 20 true 5 lost ≡ lost)
face_lost-outdates_example =
    face_lost-outdates 50 sweeping sweep_of_two current_interest refl refl refl refl (omega arith)

note_answers-Settled_example :
    Settled 50 sweeping (note_answers 50 ((30, false) ∷ (20, true) ∷ []) sweeping)
note_answers-Settled_example =
    note_answers-Settled 50 ((30, false) ∷ (20, true) ∷ []) sweeping sweep_of_two refl refl refl
