-- ===== src/Corridor/Once.antt =====
-- corridor.cpp: while no LSA is removed and no face destroyed, the numbers that are advertised do
-- not decrease, and no face is sent the same availability twice.
use nlsr.Lsdb.{Config, Lsdb}
use nlsr.Corridor.Events.{CorridorEvent}
use nlsr.Corridor.Names.{NameLibrary}
use nlsr.Corridor.Hooks.{corridor_step, corridor_run}
use nlsr.Corridor.Actions.{is_sent, all_growing, ActionLaws}
use nlsr.Corridor.Kept.{corridor_step-kept}
use nlsr.Prelude.Maps.{put, at-put}
use nlsr.Corridor.{
  Corridor, AdvertisementKey, AdvertisementState, CorridorEffect, availability_sent, replied,
  queried, fetched, key_eq, key_ord,
}
use nlsr.Prelude.Sets.{set_insert}
use nlsr.Corridor.Advertise.{
  new_corridor, add_effect, record_association, state_at, renewed, put_state, advertise,
  advertise_faces,
}
use nlsr.Prelude.{
  Eq, ◌==◌, ==_eq, is_in, Ord, nat_eq, ltb, nat_beq, if◌then◌else◌, Bool-cases, ℕ, ◌≡◌, refl, sym,
  subst, ◌∙◌, inl, inr, Bool, true, false, ◌&&◌, ◌||◌, List, [], ◌∷◌, arith,
}

abbrev pub covers : ℕ → ℕ → AdvertisementState → Bool
covers seq face s = ltb seq s.seq || nat_beq seq s.seq && is_in face s.advertised_faces

pub is_in-set_insert_face :
    (x y : ℕ) (ys : List ℕ) → is_in x (set_insert ltb y ys) ≡ (is_in x ys || nat_beq x y)
unfolding set_insert
is_in-set_insert_face x y [] = ground arith
is_in-set_insert_face x y (z ∷ ys) = ground (arith, is_in-set_insert_face x y ys)

module _ {N C : Type 0} ⦃n : Eq N⦄ where
  -- The availability is in the log.
  abbrev pub was_sent : AdvertisementKey N → ℕ → ℕ → List (CorridorEffect N C) → Bool
  was_sent key seq face [] = false
  was_sent key seq face (availability_sent k q f ∷ log) =
      k == key && nat_beq q seq && nat_beq f face || was_sent key seq face log
  was_sent key seq face (replied name ∷ log) = was_sent key seq face log
  was_sent key seq face (queried prefix ∷ log) = was_sent key seq face log
  was_sent key seq face (fetched origin type q f ∷ log) = was_sent key seq face log

  -- No availability is in the log twice.
  abbrev pub SentOnce : List (CorridorEffect N C) → Type 0
  SentOnce [] = Unit {0}
  SentOnce (availability_sent k q f ∷ log) = (was_sent k q f log ≡ false) × SentOnce log
  SentOnce (replied name ∷ log) = SentOnce log
  SentOnce (queried prefix ∷ log) = SentOnce log
  SentOnce (fetched origin type q f ∷ log) = SentOnce log

  -- What was sent under a key is covered by its state.
  abbrev pub IsCovered :
      AdvertisementKey N → AdvertisementState → List (CorridorEffect N C) → Type 0
  IsCovered key s log = (seq face : ℕ) → was_sent key seq face log ≡ true → covers seq face s ≡ true

  pub Once : Corridor N C → Type 0
  Once c =
      SentOnce c.log × ((key : AdvertisementKey N) → IsCovered key (state_at key c.state) c.log)

  -- The loop over the faces: it sends only under its key, what was not sent, and covers it.
  advertise_faces-SentOnce :
      (key : AdvertisementKey N) (seq : ℕ) (faces : List ℕ) (s : AdvertisementState)
      (log : List (CorridorEffect N C))
      → s.seq ≡ seq
      → SentOnce log
      → IsCovered key s log
      → let after = advertise_faces key seq faces s log in
        SentOnce after.1
        × IsCovered key after.0 after.1
        × (after.0.seq ≡ seq)
        × ((j : AdvertisementKey N) (q face : ℕ)
            → (key == j) ≡ false
            → was_sent j q face after.1 ≡ was_sent j q face log)
  unfolding advertise_faces
  advertise_faces-SentOnce key seq [] s log current once covered =
      (once, covered, current, λ j q face h. refl)
  advertise_faces-SentOnce key seq (f ∷ faces) s log current once covered =
      elim (Bool-cases (nat_beq f 0 || is_in f s.advertised_faces)) [
        | inl skip ↦ rw skip (advertise_faces-SentOnce key seq faces s log current once covered)
        | inr send ↦
            let s_sent = record s { advertised_faces = set_insert ltb f s.advertised_faces } in
            let is_new : was_sent key seq f log ≡ false = ground (arith, covered seq f) in
            let now_covered : IsCovered key s_sent (availability_sent key seq f ∷ log) = λ q face h.
              ground (arith, covered q face, is_in-set_insert_face face f s.advertised_faces) in
            let (sent, all, same, others) =
              advertise_faces-SentOnce key seq faces s_sent (availability_sent key seq f ∷ log)
                current (is_new, once) now_covered in
            rw send (sent, all, same, λ j q face h. others j q face h ∙ ground (arith, h))
      ]

  IsCovered-renewed :
      (key : AdvertisementKey N) (seq : ℕ) (s : AdvertisementState)
      (log : List (CorridorEffect N C))
      → IsCovered key s log
      → IsCovered key (renewed seq s) log
  unfolding renewed
  IsCovered-renewed key seq s log covered q face h = ground (arith, covered q face h)

pub renewed-seq :
    (seq : ℕ) (s : AdvertisementState) → ltb seq s.seq ≡ false → (renewed seq s).seq ≡ seq
unfolding renewed
renewed-seq seq s h = ground arith

module _ {N : Type 0} ⦃n : Eq N⦄ ⦃no : Ord N⦄ where
  pub state_at-put :
      (j key : AdvertisementKey N) (s : AdvertisementState)
      (m : List (AdvertisementKey N × AdvertisementState))
      → state_at j (put key s m) ≡ (if key == j then s else state_at j m)
  state_at-put j key s m = ground (arith, at-put j key s m)

module _ {N C : Type 0} ⦃n : Eq N⦄ ⦃no : Ord N⦄ where
  put_state-Once :
      (key : AdvertisementKey N) (s : AdvertisementState) (log : List (CorridorEffect N C))
      (c : Corridor N C)
      → Once c
      → SentOnce log
      → IsCovered key s log
      → ((j : AdvertisementKey N) (q face : ℕ)
          → (key == j) ≡ false
          → was_sent j q face log ≡ was_sent j q face c.log)
      → Once (put_state key (s, log) c)
  unfolding put_state Once
  put_state-Once key s log c once sent covered others = (
    sent,
    λ j q face h. elim (Bool-cases (key == j)) [
      | inl same ↦
          let here = subst (λ k. was_sent k q face log ≡ true) (sym (==_eq key j same)) h in
          ground (arith, state_at-put j key s c.state, same, covered q face here)
      | inr other ↦ ground (
        arith,
        state_at-put j key s c.state,
        other,
        once.1 j q face (sym (others j q face other) ∙ h),
      )
    ],
  )

  Once-advertise :
      (key : AdvertisementKey N) (seq : ℕ) (faces : List ℕ) (c : Corridor N C)
      → Once c
      → Once (advertise key seq faces c)
  unfolding advertise Once
  Once-advertise key seq faces c once =
      let s = state_at key c.state in
      let unsent = put_state-Once key s c.log c once once.0 (once.1 key) (λ j q face h. refl) in
      elim (Bool-cases (ltb seq s.seq)) [
        | inl old ↦ ground (arith, old, unsent)
        | inr not_old ↦
            let after = advertise_faces key seq faces (renewed seq s) c.log in
            let (sent, covered, _, others) =
              advertise_faces-SentOnce key seq faces (renewed seq s) c.log
                (renewed-seq seq s not_old) once.0
                (IsCovered-renewed key seq s c.log (once.1 key)) in
            ground
              (arith, not_old, put_state-Once key after.0 after.1 c once sent covered others, once)
      ]

  Once-record_association :
      (key : AdvertisementKey N) (seq : ℕ) (c : Corridor N C)
      → Once c
      → Once (record_association key seq c)
  unfolding record_association Once
  Once-record_association key seq c once =
      let s = state_at key c.state in
      let put_with = λ (t : AdvertisementState) (covered : IsCovered key t c.log).
        put_state-Once key t c.log c once once.0 covered (λ j q face h. refl) in
      elim (Bool-cases (ltb seq s.seq)) [
        | inl old ↦ rw old (put_with s (once.1 key))
        | inr not_old ↦
            rw not_old (put_with (renewed seq s) (IsCovered-renewed key seq s c.log (once.1 key)))
      ]

  Once-effect :
      (e : CorridorEffect N C) (c : Corridor N C)
      → is_sent e ≡ false
      → Once c
      → Once (add_effect e c)
  unfolding Once
  Once-effect (availability_sent key seq face) c h once = ground arith
  Once-effect (replied name) c h once = once
  Once-effect (queried prefix) c h once = once
  Once-effect (fetched origin type seq face) c h once = once

module _ {N F D C : Type 0} ⦃n : Eq N⦄ ⦃no : Ord N⦄ where
  Once-laws : (db : Lsdb N F D) → ActionLaws {C = C} db (λ c c'. Once c → Once c')
  unfolding Once
  Once-laws db = record {
    unchanged = λ c once. once;
    after = λ a b c h k once. k (h once);
    by_advertise = λ key seq faces c h. Once-advertise key seq faces c;
    by_branches = λ b c once. once;
    by_effect = λ e c h. Once-effect e c h;
  }

  corridor_run-Once :
      (lib : NameLibrary N C) (steps : List (Config N F D × Lsdb N F D × CorridorEvent N F D C))
      (c : Corridor N C)
      → all_growing steps ≡ true
      → Once c
      → Once (corridor_run lib steps c)
  unfolding corridor_run
  corridor_run-Once lib [] c h once = once
  corridor_run-Once lib ((conf, db, e) ∷ steps) c h once =
      corridor_run-Once lib steps (corridor_step conf db lib e c) (ground arith) (
        corridor_step-kept conf db (Once-laws db) Once-record_association lib e c (ground arith)
          once)

  -- In any run from the start without a removed LSA and without a destroyed face, under whatever
  -- configurations and databases, no face is sent the availability of one number of one
  -- advertisement twice.
  pub corridor_run-SentOnce :
      (lib : NameLibrary N C) (steps : List (Config N F D × Lsdb N F D × CorridorEvent N F D C))
      → all_growing steps ≡ true
      → SentOnce (corridor_run lib steps new_corridor).log
  unfolding Once
  corridor_run-SentOnce lib steps h =
      (corridor_run-Once lib steps new_corridor h (tt, λ key q face e. ground arith)).0
