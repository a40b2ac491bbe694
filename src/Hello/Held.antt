-- ===== src/Hello/Held.antt =====
-- The mobility sweep and the hold go together, and nothing is published in between.
use nlsr.Hello.{
  is_event_driven_on, reachable, unreachable, indeterminate, supersede, VerifyResult, MobilitySweep,
  Hello,
}
use nlsr.Hello.Sweep.{
  set_result, record_result, note_in, destroyed_in, on_adjacent_face_destroyed,
  check_sweep_completion, all_answered, end_sweep, abort_mobility_sweep, note_sweep_result,
}
use nlsr.Lsdb.Flag.{release-frees}
use nlsr.Prelude.{
  Eq, is_in, Ord, Double, if◌then◌else◌, Bool-cases, is_some, ℕ, ◌≡◌, refl, inl, inr, Bool, true,
  false, not, ◌&&◌, ◌||◌, Option, none, some, arith,
}

abbrev pub is_open : {N : Type 0} ⦃n : Eq N⦄ → Option (MobilitySweep N) → Bool
is_open none = true
is_open (some s) = not (all_answered s.targets s.results)

module _ {N F D : Type 0} ⦃n : Eq N⦄ where
  -- The hold is on exactly while a sweep runs, and a running sweep waits for some target.
  pub record IsHeld (h : Hello N F D) : Type 0 where
    pub flag : h.database.adj_lsa_build_held ≡ is_some h.sweep
    pub waits : is_open h.sweep ≡ true

  -- What every step but the start of a sweep does: it keeps the two together, starts no sweep, and
  -- where the sweep goes on the database says nothing.
  pub record Moves (h new : Hello N F D) : Type 0 where
    pub flag : new.database.adj_lsa_build_held ≡ is_some new.sweep
    pub waits : is_open new.sweep ≡ true
    pub stays : (not (is_some new.sweep) || is_some h.sweep) ≡ true
    pub silent : (if is_some new.sweep then new.database.log else h.database.log) ≡ h.database.log

  pub Moves-trans : (a b c : Hello N F D) → Moves a b → Moves b c → Moves a c
  Moves-trans a b c p q =
      let w = q.waits in
      let s = p.stays in
      let t = q.stays in
      let k = p.silent in
      let l = q.silent in
      record { flag = q.flag; waits = w; stays = ground arith; silent = ground arith }

  -- A step that touches neither the sweep nor the database.
  pub Moves-still :
      (h new : Hello N F D)
      → IsHeld h
      → new.sweep ≡ h.sweep
      → new.database ≡ h.database
      → Moves h new
  Moves-still h new v s e = ground (arith, v.flag, v.waits)

  pub Moves-silent :
      (h new : Hello N F D)
      → Moves h new
      → is_some new.sweep ≡ true
      → new.database.log ≡ h.database.log
  Moves-silent h new m e = ground (arith, m.silent)

  pub Moves-IsHeld : (h new : Hello N F D) → Moves h new → IsHeld new
  Moves-IsHeld h new m = record { flag = m.flag; waits = m.waits }

module _ {N F D : Type 0} ⦃n : Eq N⦄ ⦃no : Ord N⦄ ⦃f : Eq F⦄ ⦃d : Double D⦄ (now : ℕ) where
  pub end_sweep-Moves : (immediate : Bool) (h : Hello N F D) → Moves h (end_sweep now immediate h)
  unfolding end_sweep
  end_sweep-Moves immediate h = record {
    flag = release-frees h.conf now immediate h.database;
    waits = refl;
    stays = refl;
    silent = refl;
  }

  pub Moves-if :
      (b : Bool) (h x y : Hello N F D) → Moves h x → Moves h y → Moves h (if b then x else y)
  Moves-if true h x y p q = p
  Moves-if false h x y p q = q

  pub Moves-refl : (h : Hello N F D) → IsHeld h → Moves h h
  Moves-refl h v = Moves-still h h v refl refl

  pub abort-Moves : (h : Hello N F D) → IsHeld h → Moves h (abort_mobility_sweep now h)
  unfolding abort_mobility_sweep
  abort-Moves h v =
      Moves-if (is_some h.sweep) h (end_sweep now false h) h (end_sweep-Moves false h)
        (Moves-refl h v)

  -- A sweep that got a result goes on, waiting for another target, or ends.
  answered-Moves :
      (h : Hello N F D) (s new : MobilitySweep N)
      → IsHeld h
      → h.sweep ≡ some s
      → Moves h (check_sweep_completion now (record h { sweep = some new }))
  unfolding check_sweep_completion
  answered-Moves h s new v e = elim (Bool-cases (all_answered new.targets new.results)) [
    | inl done ↦
        rw (done, check_sweep_completion)
          (let ended = end_sweep-Moves true (record h { sweep = some new }) in
            record {
              flag = ended.flag;
              waits = ended.waits;
              stays = ended.stays;
              silent = ended.silent;
            })
    | inr open_still ↦
        rw (open_still, check_sweep_completion)
          (let w = v.flag in
            record {
              flag = ground (arith, e);
              waits = ground arith;
              stays = ground (arith, e);
              silent = refl;
            })
  ]

  record_result-Moves :
      (nb : N) (r : VerifyResult) (h : Hello N F D) (s : MobilitySweep N)
      → IsHeld h
      → h.sweep ≡ some s
      → Moves h (record_result now nb r s h)
  unfolding record_result
  record_result-Moves nb indeterminate h s v e = abort-Moves h v
  record_result-Moves nb reachable h s v e =
      answered-Moves h s (record s { results = set_result nb reachable s.results }) v e
  record_result-Moves nb unreachable h s v e =
      answered-Moves h s (record s { results = set_result nb unreachable s.results }) v e

  note_in-Moves :
      (nb : N) (r : VerifyResult) (o : Option (MobilitySweep N)) (h : Hello N F D)
      → IsHeld h
      → h.sweep ≡ o
      → Moves h (note_in now nb r o h)
  unfolding note_in
  note_in-Moves nb r none h v e = Moves-refl h v
  note_in-Moves nb r (some s) h v e =
      Moves-if (is_in nb s.targets) h (record_result now nb r s h) h
        (record_result-Moves nb r h s v e) (Moves-refl h v)

  pub note_sweep_result-Moves :
      (nb : N) (r : VerifyResult) (h : Hello N F D)
      → IsHeld h
      → Moves h (note_sweep_result now nb r h)
  unfolding note_sweep_result
  note_sweep_result-Moves nb r h v = note_in-Moves nb r h.sweep h v refl

  -- A step that leaves the two alone, and then a result.
  pub still-note-Moves :
      (nb : N) (r : VerifyResult) (h new : Hello N F D)
      → IsHeld h
      → new.sweep ≡ h.sweep
      → new.database ≡ h.database
      → Moves h (note_sweep_result now nb r new)
  still-note-Moves nb r h new v s e =
      let m = Moves-still h new v s e in
      Moves-trans h new (note_sweep_result now nb r new) m
        (note_sweep_result-Moves nb r new (Moves-IsHeld h new m))

  destroyed_in-Moves :
      (nb : N) (o : Option (MobilitySweep N)) (h : Hello N F D)
      → IsHeld h
      → Moves h (destroyed_in now nb o h)
  unfolding destroyed_in supersede
  destroyed_in-Moves nb none h v = Moves-refl h v
  destroyed_in-Moves nb (some s) h v =
      let new = supersede nb (h.adj_hello nb).interest_lifetime h in
      Moves-if (is_event_driven_on h && is_in nb s.targets) h
        (note_sweep_result now nb unreachable new) h
        (still-note-Moves nb unreachable h new v refl refl) (Moves-refl h v)

  pub destroyed-Moves :
      (nb : N) (h : Hello N F D) → IsHeld h → Moves h (on_adjacent_face_destroyed now nb h)
  unfolding on_adjacent_face_destroyed
  destroyed-Moves nb h v = destroyed_in-Moves nb h.sweep h v
