-- ===== src/Examples/ObserverRun.antt =====
-- An observer of the triangle of routers, with a change of router 10 that router 30 has not
-- confirmed.
use nlsr.Observer.{origin_reachable, origin_settled, Observer, evaluate_pending}
use nlsr.Observer.Pending.{evaluate_pending-idempotent}
use nlsr.Examples.LsdbRun.{dirty}
use nlsr.Examples.Values.{nat_ord, tenths_double}
use nlsr.Prelude.{nat_eq, ℕ, ◌≡◌, refl, true, false, [], ◌∷◌}

abbrev waiting : Observer ℕ
waiting = record {
  adjacencies = record { router = 20; neighbours = 10 ∷ [] } ∷ [];
  pending =
      record { router = 10; added = 30 ∷ []; reachable_reported = false }
      ∷ record { router = 20; added = 40 ∷ []; reachable_reported = false }
      ∷ [];
  reports = [];
}

waiting_evaluated :
    (evaluate_pending dirty waiting).reports
    ≡ origin_reachable 10 ∷ origin_reachable 20 ∷ origin_settled 10 true ∷ []
unfolding evaluate_pending
waiting_evaluated = refl

evaluate_pending-idempotent_example :
    evaluate_pending dirty (evaluate_pending dirty waiting) ≡ evaluate_pending dirty waiting
evaluate_pending-idempotent_example = evaluate_pending-idempotent dirty waiting
