-- ===== src/Hello/Settle.antt =====
-- A sweep in which each target gives an answer that decides ends, and releases the hold.
use nlsr.Lsdb.Own.{release_adj_lsa_build_hold}
use nlsr.Hello.{MobilitySweep, Hello, VerifyResult, reachable, unreachable}
use nlsr.Hello.Sweep.{
  end_sweep, check_sweep_completion, record_result, note_in, note_sweep_result, set_result,
  has_result, all_answered,
}
use nlsr.Prelude.{
  Eq, ◌==◌, ==_iff, is_in, Ord, Double, if◌then◌else◌, Bool-cases, ℕ, ◌≡◌, refl, sym, ap, subst,
  ◌∙◌, inl, inr, Bool, true, false, ◌&&◌, ◌||◌, Option, none, some, List, [], ◌∷◌, arith,
}

abbrev pub decisive : Bool → VerifyResult
decisive true = reachable
decisive false = unreachable

module _ {N : Type 0} ⦃n : Eq N⦄ where
  -- Answers as they come: a neighbour, and whether it is reachable.
  abbrev pub has_answer : List (N × Bool) → N → Bool
  has_answer [] t = false
  has_answer ((nb, b) ∷ rest) t = nb == t || has_answer rest t

  -- Each target has a result, or gets one from the answers.
  abbrev pub covered : List N → List (N × VerifyResult) → List (N × Bool) → Bool
  covered [] results answers = true
  covered (t ∷ ts) results answers =
      (has_result results t || has_answer answers t) && covered ts results answers

  has_result-set_result :
      (nb t : N) (r : VerifyResult) (results : List (N × VerifyResult))
      → has_result (set_result nb r results) t ≡ (has_result results t || nb == t)
  has_result-set_result nb t r [] = ground arith
  has_result-set_result nb t r ((k, old) ∷ rest) =
      ground (arith, has_result-set_result nb t r rest, ==_iff k nb, ==_iff k t, ==_iff nb t)

  covered-set_result :
      (nb : N) (b : Bool) (r : VerifyResult) (ts : List N) (results : List (N × VerifyResult))
      (rest : List (N × Bool))
      → covered ts results ((nb, b) ∷ rest) ≡ true
      → covered ts (set_result nb r results) rest ≡ true
  covered-set_result nb b r [] results rest h = refl
  covered-set_result nb b r (t ∷ ts) results rest h =
      ground
        (arith, covered-set_result nb b r ts results rest, has_result-set_result nb t r results)

  covered-others :
      (nb : N) (b : Bool) (ts : List N) (results : List (N × VerifyResult)) (rest : List (N × Bool))
      → is_in nb ts ≡ false
      → covered ts results ((nb, b) ∷ rest) ≡ true
      → covered ts results rest ≡ true
  covered-others nb b [] results rest out h = refl
  covered-others nb b (t ∷ ts) results rest out h =
      ground (arith, covered-others nb b ts results rest)

  covered-none :
      (ts : List N) (results : List (N × VerifyResult))
      → covered ts results [] ≡ true
      → all_answered ts results ≡ true
  covered-none [] results h = refl
  covered-none (t ∷ ts) results h = ground (arith, covered-none ts results)

module _ {N F D : Type 0} ⦃n : Eq N⦄ ⦃no : Ord N⦄ ⦃f : Eq F⦄ ⦃d : Double D⦄ (now : ℕ) where
  unfoldable pub note_answers : List (N × Bool) → Hello N F D → Hello N F D
  unfolding note_sweep_result
  note_answers [] h = h
  note_answers ((nb, b) ∷ rest) h = note_answers rest (note_sweep_result now nb (decisive b) h)

  -- What a settled sweep leaves: no sweep, and a database that was released to publish.
  abbrev pub Settled : Hello N F D → Hello N F D → Type 0
  Settled h new =
      (new.sweep ≡ none) × (new.database ≡ release_adj_lsa_build_hold h.conf now true h.database)

  after_end :
      (answers : List (N × Bool)) (h : Hello N F D) → h.sweep ≡ none → note_answers answers h ≡ h
  unfolding note_answers note_sweep_result note_in
  after_end [] h e = refl
  after_end ((nb, b) ∷ rest) h e =
      let same = ap (λ (o : Option (MobilitySweep N)). note_in now nb (decisive b) o h) e in
      ap (note_answers rest) same ∙ after_end rest h e

  with_result : N → Bool → MobilitySweep N → Hello N F D → Hello N F D
  with_result nb b s h = record h {
    sweep = some (record s { results = set_result nb (decisive b) s.results });
  }

  noted :
      (nb : N) (b : Bool) (s : MobilitySweep N) (h : Hello N F D)
      → h.sweep ≡ some s
      → is_in nb s.targets ≡ true
      → note_sweep_result now nb (decisive b) h ≡ (
          if all_answered s.targets (set_result nb (decisive b) s.results)
          then end_sweep now true (with_result nb b s h)
          else with_result nb b s h)
  unfolding note_sweep_result note_in record_result check_sweep_completion with_result
  noted nb true s h e m =
      ap (λ (o : Option (MobilitySweep N)). note_in now nb reachable o h) e ∙ ground arith
  noted nb false s h e m =
      ap (λ (o : Option (MobilitySweep N)). note_in now nb unreachable o h) e ∙ ground arith

  passed :
      (nb : N) (b : Bool) (s : MobilitySweep N) (h : Hello N F D)
      → h.sweep ≡ some s
      → is_in nb s.targets ≡ false
      → note_sweep_result now nb (decisive b) h ≡ h
  unfolding note_sweep_result note_in
  passed nb b s h e m =
      ap (λ (o : Option (MobilitySweep N)). note_in now nb (decisive b) o h) e ∙ ground arith

  -- A running sweep ends once each of its targets has answered that it is reachable or not, in
  -- whatever order the answers come, further answers in between or behind; and the database is then
  -- released once, to publish at once what the hold kept back.
  pub note_answers-Settled :
      (answers : List (N × Bool)) (h : Hello N F D) (s : MobilitySweep N)
      → h.sweep ≡ some s
      → all_answered s.targets s.results ≡ false
      → covered s.targets s.results answers ≡ true
      → Settled h (note_answers answers h)
  unfolding note_answers end_sweep with_result
  note_answers-Settled [] h s e waits all = cc (waits, covered-none s.targets s.results all)
  note_answers-Settled ((nb, b) ∷ rest) h s e waits all = elim (Bool-cases (is_in nb s.targets)) [
    | inr out ↦
        let same = passed nb b s h e out in
        subst (λ (x : Hello N F D). Settled h (note_answers rest x)) (sym same)
          (note_answers-Settled rest h s e waits
            (covered-others nb b s.targets s.results rest out all))
    | inl in_it ↦
        elim (Bool-cases (all_answered s.targets (set_result nb (decisive b) s.results))) [
          | inl done ↦
              let ended = end_sweep now true (with_result nb b s h) in
              let same =
                noted nb b s h e in_it
                ∙ ap (λ (x : Bool). if x then ended else with_result nb b s h) done in
              subst (λ (x : Hello N F D). Settled h x)
                (sym (ap (note_answers rest) same ∙ after_end rest ended refl)) (refl, refl)
          | inr more ↦
              let ended = end_sweep now true (with_result nb b s h) in
              let same =
                noted nb b s h e in_it
                ∙ ap (λ (x : Bool). if x then ended else with_result nb b s h) more in
              subst (λ (x : Hello N F D). Settled h (note_answers rest x)) (sym same)
                (note_answers-Settled rest (with_result nb b s h)
                  (record s { results = set_result nb (decisive b) s.results }) refl more
                  (covered-set_result nb b (decisive b) s.targets s.results rest all))
        ]
  ]
