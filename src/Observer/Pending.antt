-- ===== src/Observer/Pending.antt =====
-- evaluatePending of topology-change-observer.cpp: that a fact is reported once.
use mathlib.Core.List.{append-nil}
use nlsr.Observer.{
  Report, origin_reachable, origin_settled, Observer, evaluate_pending, PendingChange,
  has_reciprocal_adjacency, is_settled, becomes_reachable, still_pending, reachable_now,
  settled_now,
}
use nlsr.Lsdb.{Lsdb}
use nlsr.Prelude.{
  Eq, Ord, length, ap2, ltb, if◌then◌else◌, ◌≡◌, refl, ap, ◌∙◌, Bool, true, false, not, ◌&&◌, ◌||◌,
  List, [], ◌∷◌, ◌++◌, arith,
}

-- Whether reachability is known once an evaluation has marked it.
marked_is_quiet : (reported has : Bool) → (not (reported || (not reported && has)) && has) ≡ false
marked_is_quiet reported has = ground arith

marked_again :
    (reported has : Bool)
    → ((reported || (not reported && has)) || (not (reported || (not reported && has)) && has))
      ≡ (reported || (not reported && has))
marked_again reported has = ground arith

module _ {N F D : Type 0} ⦃n : Eq N⦄ ⦃no : Ord N⦄ (db : Lsdb N F D) where
  -- The changes that an evaluation leaves have nothing more to report.
  Quiet : List (PendingChange N) → Type 0
  unfolding still_pending reachable_now settled_now
  Quiet ps = (still_pending db ps ≡ ps) × (reachable_now db ps ≡ []) × (settled_now db ps ≡ [])

  nil-Quiet : Quiet []
  unfolding Quiet still_pending reachable_now settled_now
  nil-Quiet = (refl, refl, refl)

  abbrev marked : PendingChange N → PendingChange N
  marked p = record p { reachable_reported = p.reachable_reported || becomes_reachable db p }

  marked-IsQuiet : (p : PendingChange N) → becomes_reachable db (marked p) ≡ false
  unfolding becomes_reachable
  marked-IsQuiet p = marked_is_quiet p.reachable_reported (has_reciprocal_adjacency db p.router)

  marked-marked : (p : PendingChange N) → marked (marked p) ≡ marked p
  unfolding becomes_reachable
  marked-marked p =
      ap (λ (b : Bool). record p { reachable_reported = b })
        (marked_again p.reachable_reported (has_reciprocal_adjacency db p.router))

  -- A change that stays has nothing more to report.
  kept-Quiet :
      (p : PendingChange N) (ps : List (PendingChange N))
      → is_settled db p ≡ false
      → Quiet ps
      → Quiet (marked p ∷ ps)
  unfolding Quiet still_pending reachable_now settled_now is_settled
  kept-Quiet p ps waits q = (
    ap (λ (b : Bool). if b then still_pending db ps else marked (marked p) ∷ still_pending db ps)
          waits
        ∙ ap2 (λ (m : PendingChange N) (rest : List (PendingChange N)). m ∷ rest) (marked-marked p)
            q.0,
    ap2
        (λ (b : Bool) (rest : List (Report N)).
          if b then origin_reachable p.router ∷ rest else rest)
        (marked-IsQuiet p) q.1,
    ap2
        (λ (b : Bool) (rest : List (Report N)).
          if b then origin_settled p.router (ltb 0 (length p.added)) ∷ rest else rest)
        waits q.2,
  )

  Quiet-if :
      (b : Bool) (x y : List (PendingChange N))
      → Quiet x
      → (b ≡ false → Quiet y)
      → Quiet (if b then x else y)
  Quiet-if true x y h k = h
  Quiet-if false x y h k = k refl

  still_pending-Quiet : (ps : List (PendingChange N)) → Quiet (still_pending db ps)
  unfolding still_pending
  still_pending-Quiet [] = nil-Quiet
  still_pending-Quiet (p ∷ ps) =
      let rest = still_pending-Quiet ps in
      Quiet-if (is_settled db p) (still_pending db ps) (marked p ∷ still_pending db ps) rest
        (λ waits. kept-Quiet p (still_pending db ps) waits rest)

  -- A second evaluation with the same LSDB changes nothing: the changes left waiting are the same,
  -- and no fact is reported again.
  pub evaluate_pending-idempotent :
      (o : Observer N) → evaluate_pending db (evaluate_pending db o) ≡ evaluate_pending db o
  unfolding evaluate_pending Quiet
  evaluate_pending-idempotent o =
      let q = still_pending-Quiet o.pending in
      let again = o.reports ++ (reachable_now db o.pending ++ settled_now db o.pending) in
      ap2
        (λ (ps : List (PendingChange N)) (rs : List (Report N)). record o {
          pending = ps;
          reports = rs;
        })
        q.0 (ap2 (λ (x y : List (Report N)). again ++ (x ++ y)) q.1 q.2 ∙ append-nil again)
