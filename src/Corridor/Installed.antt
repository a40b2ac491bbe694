-- ===== src/Corridor/Installed.antt =====
-- corridor.cpp: what a step does to the numbers that are advertised, and what it advertises.
use nlsr.Corridor.Names.{NameLibrary}
use nlsr.Corridor.Hooks.{on_lsdb_modified, corridor_step, corridor_run}
use nlsr.Corridor.Kept.{corridor_step-kept}
use nlsr.Lsdb.{Config, Lsdb}
use nlsr.Sequencing.{updated, removed, installed}
use nlsr.Corridor.Events.{
  CorridorEvent, availability, lsdb_modified, branch_noted, query_answered, query_failed,
  face_destroyed, on_face_destroyed, is_installed,
}
use nlsr.Corridor.Actions.{all_growing, is_sent, ActionLaws}
use nlsr.Corridor.Once.{was_sent}
use nlsr.Corridor.{
  replied, queried, fetched, AdvertisementKey, AdvertisementState, CorridorEffect,
  availability_sent, Corridor, key_eq, key_ord,
}
use nlsr.Prelude.Sets.{set_insert}
use nlsr.Prelude.Maps.{at-put}
use nlsr.Corridor.Advertise.{
  add_effect, record_association, state_at, find_state, get_advertised_seq, renewed,
  advertise_faces, put_state, advertise,
}
use nlsr.Prelude.{
  Eq, ◌==◌, ==_eq, ==_iff, Ord, nat_eq, ltb, nat_beq, if◌then◌else◌, Bool-cases, ℕ, ◌≤◌, ◌≡◌, refl,
  ap, inl, inr, Bool, true, false, ◌&&◌, ◌||◌, List, [], ◌∷◌, arith,
}

module _ {N C : Type 0} ⦃n : Eq N⦄ where
  abbrev pub NoSeqLower : Corridor N C → Corridor N C → Type 0
  NoSeqLower c after =
      (key : AdvertisementKey N) → get_advertised_seq key c ≤ get_advertised_seq key after

module _ {N C : Type 0} ⦃n : Eq N⦄ ⦃no : Ord N⦄ where
  pub get_advertised_seq-put_state :
      (j key : AdvertisementKey N) (s : AdvertisementState) (log : List (CorridorEffect N C))
      (c : Corridor N C)
      → get_advertised_seq j (put_state key (s, log) c)
        ≡ (if key == j then s.seq else get_advertised_seq j c)
  unfolding get_advertised_seq put_state find_state
  get_advertised_seq-put_state j key s log c = ground (arith, at-put j key s c.state)

  pub get_advertised_seq-state_at :
      (key : AdvertisementKey N) (c : Corridor N C)
      → get_advertised_seq key c ≡ (state_at key c.state).seq
  unfolding get_advertised_seq find_state
  get_advertised_seq-state_at key c = ground arith

  pub advertise_faces-seq :
      (key : AdvertisementKey N) (seq : ℕ) (faces : List ℕ) (s : AdvertisementState)
      (log : List (CorridorEffect N C))
      → (advertise_faces key seq faces s log).0.seq ≡ s.seq
  unfolding advertise_faces
  advertise_faces-seq key seq [] s log = refl
  advertise_faces-seq key seq (f ∷ faces) s log = ground (
    arith,
    advertise_faces-seq key seq faces s log,
    advertise_faces-seq key seq faces
        (record s { advertised_faces = set_insert ltb f s.advertised_faces })
        (availability_sent key seq f ∷ log),
  )

  -- The number after an advertisement: the greater one, for the key itself.
  pub get_advertised_seq-advertise :
      (j key : AdvertisementKey N) (seq : ℕ) (faces : List ℕ) (c : Corridor N C)
      → get_advertised_seq j (advertise key seq faces c)
        ≡ (if key == j && ltb (get_advertised_seq j c) seq then seq else get_advertised_seq j c)
  unfolding advertise renewed
  get_advertised_seq-advertise j key seq faces c =
      let s = state_at key c.state in
      let sent = advertise_faces key seq faces (renewed seq s) c.log in
      ground (
        arith,
        ==_iff key j,
        get_advertised_seq-state_at j c,
        get_advertised_seq-put_state j key s c.log c,
        get_advertised_seq-put_state j key sent.0 sent.1 c,
        advertise_faces-seq key seq faces (renewed seq s) c.log,
      )

  get_advertised_seq-record_association :
      (j key : AdvertisementKey N) (seq : ℕ) (c : Corridor N C)
      → get_advertised_seq j c ≤ get_advertised_seq j (record_association key seq c)
  unfolding record_association renewed
  get_advertised_seq-record_association j key seq c =
      let s = state_at key c.state in
      ground (
        arith,
        ==_iff key j,
        get_advertised_seq-state_at j c,
        get_advertised_seq-put_state j key s c.log c,
        get_advertised_seq-put_state j key (renewed seq s) c.log c,
      )

  get_advertised_seq-effect :
      (e : CorridorEffect N C) (c : Corridor N C) → NoSeqLower c (add_effect e c)
  unfolding get_advertised_seq find_state
  get_advertised_seq-effect e c key = omega arith

  get_advertised_seq-branches :
      (b : List (N × List ℕ)) (c : Corridor N C) → NoSeqLower c (record c { branches = b })
  unfolding get_advertised_seq find_state
  get_advertised_seq-branches b c key = omega arith

  -- What was sent before, or is sent for the number of an LSA that is installed.
  abbrev pub SentOrInstalled :
      (AdvertisementKey N → ℕ → Bool)
      → List (CorridorEffect N C)
      → List (CorridorEffect N C)
      → Type 0
  SentOrInstalled is_there log after =
      (key : AdvertisementKey N) (seq face : ℕ)
      → was_sent key seq face after ≡ true
      → (was_sent key seq face log || is_there key seq) ≡ true

  association-log :
      (key : AdvertisementKey N) (seq : ℕ) (c : Corridor N C)
      → (record_association key seq c).log ≡ c.log
  unfolding record_association put_state
  association-log key seq c = ground arith

  advertise_faces-was_sent :
      (j key : AdvertisementKey N) (q face seq : ℕ) (faces : List ℕ) (s : AdvertisementState)
      (log : List (CorridorEffect N C))
      → was_sent j q face (advertise_faces key seq faces s log).1 ≡ true
      → (was_sent j q face log || key == j && nat_beq seq q) ≡ true
  unfolding advertise_faces
  advertise_faces-was_sent j key q face seq [] s log h = ground arith
  advertise_faces-was_sent j key q face seq (f ∷ faces) s log h = ground (
    arith,
    advertise_faces-was_sent j key q face seq faces s log,
    advertise_faces-was_sent j key q face seq faces
        (record s { advertised_faces = set_insert ltb f s.advertised_faces })
        (availability_sent key seq f ∷ log),
  )

  advertise-was_sent :
      (j key : AdvertisementKey N) (q face seq : ℕ) (faces : List ℕ) (c : Corridor N C)
      → was_sent j q face (advertise key seq faces c).log ≡ true
      → (was_sent j q face c.log || key == j && nat_beq seq q) ≡ true
  unfolding advertise put_state
  advertise-was_sent j key q face seq faces c h = ground (
    arith,
    advertise_faces-was_sent j key q face seq faces (renewed seq (state_at key c.state)) c.log,
  )

  effect-was_sent :
      (j : AdvertisementKey N) (q face : ℕ) (e : CorridorEffect N C)
      (log : List (CorridorEffect N C))
      → is_sent e ≡ false
      → was_sent j q face (e ∷ log) ≡ was_sent j q face log
  effect-was_sent j q face (availability_sent key seq f) log h = ground arith
  effect-was_sent j q face (replied name) log h = refl
  effect-was_sent j q face (queried prefix) log h = refl
  effect-was_sent j q face (fetched origin type seq f) log h = refl

module _ {N F D : Type 0} ⦃n : Eq N⦄ where
  abbrev pub key_installed : Lsdb N F D → AdvertisementKey N → ℕ → Bool
  key_installed db key seq = is_installed db key.origin key.type seq

module _ {N F D C : Type 0} ⦃n : Eq N⦄ ⦃no : Ord N⦄ where
  NoSeqLower-laws : (db : Lsdb N F D) → ActionLaws {C = C} db (λ c c'. NoSeqLower c c')
  NoSeqLower-laws db = record {
    unchanged = λ c key. omega arith;
    after = λ a b c h k key. omega (arith, h key, k key);
    by_advertise =
        λ key seq faces c h j. ground (arith, get_advertised_seq-advertise j key seq faces c);
    by_branches = λ b c. get_advertised_seq-branches b c;
    by_effect = λ e c h. get_advertised_seq-effect e c;
  }

  -- In any run without a removed LSA and without a destroyed face, no advertised number decreases.
  pub get_advertised_seq-corridor_run :
      (lib : NameLibrary N C) (steps : List (Config N F D × Lsdb N F D × CorridorEvent N F D C))
      (c : Corridor N C) (key : AdvertisementKey N)
      → all_growing steps ≡ true
      → get_advertised_seq key c ≤ get_advertised_seq key (corridor_run lib steps c)
  unfolding corridor_run
  get_advertised_seq-corridor_run lib [] c key h = omega arith
  get_advertised_seq-corridor_run lib ((conf, db, e) ∷ steps) c key h =
      let next = corridor_step conf db lib e c in
      omega (
        arith,
        corridor_step-kept conf db (NoSeqLower-laws db)
            (λ key seq c j. get_advertised_seq-record_association j key seq c) lib e c
            (ground arith) key,
        get_advertised_seq-corridor_run lib steps next key (ground arith),
      )

  SentOrInstalled-laws :
      (db : Lsdb N F D)
      → ActionLaws {C = C} db (λ c c'. SentOrInstalled (key_installed db) c.log c'.log)
  SentOrInstalled-laws db = record {
    unchanged = λ c key q face h. ground arith;
    after = λ a b c h k key q face sent. ground (arith, h key q face, k key q face sent);
    by_advertise = λ key seq faces c there j q face sent.
        elim (Bool-cases (key == j && nat_beq seq q)) [
          | inl same ↦ ground (
            arith,
            ap (λ (k : AdvertisementKey N). key_installed db k seq) (==_eq key j (ground arith)),
          )
          | inr other ↦ ground (arith, advertise-was_sent j key q face seq faces c sent)
        ];
    by_branches = λ b c key q face sent. ground arith;
    by_effect = λ e c h key q face sent. ground (arith, effect-was_sent key q face e c.log h);
  }

  association-SentOrInstalled :
      (db : Lsdb N F D) (key : AdvertisementKey N) (seq : ℕ) (c : Corridor N C)
      → SentOrInstalled (key_installed db) c.log (record_association key seq c).log
  association-SentOrInstalled db key seq c j q face sent =
      ground (arith, association-log key seq c, sent)

  -- Whatever happens, an availability is sent only if it was before, or if the LSA of its origin,
  -- type and number is in the database.
  pub corridor_step-installed :
      (conf : Config N F D) (db : Lsdb N F D) (lib : NameLibrary N C) (e : CorridorEvent N F D C)
      (c : Corridor N C)
      → SentOrInstalled (key_installed db) c.log (corridor_step conf db lib e c).log
  unfolding corridor_step on_lsdb_modified on_face_destroyed
  corridor_step-installed conf db lib (availability name incoming) c =
      corridor_step-kept conf db (SentOrInstalled-laws db) (association-SentOrInstalled db) lib
        (availability name incoming) c refl
  corridor_step-installed conf db lib (lsdb_modified l installed) c =
      corridor_step-kept conf db (SentOrInstalled-laws db) (association-SentOrInstalled db) lib
        (lsdb_modified l installed) c refl
  corridor_step-installed conf db lib (lsdb_modified l updated) c =
      corridor_step-kept conf db (SentOrInstalled-laws db) (association-SentOrInstalled db) lib
        (lsdb_modified l updated) c refl
  corridor_step-installed conf db lib (lsdb_modified l removed) c = λ key q face h. ground arith
  corridor_step-installed conf db lib (branch_noted prefix face) c =
      corridor_step-kept conf db (SentOrInstalled-laws db) (association-SentOrInstalled db) lib
        (branch_noted prefix face) c refl
  corridor_step-installed conf db lib (query_answered prefix entries) c =
      corridor_step-kept conf db (SentOrInstalled-laws db) (association-SentOrInstalled db) lib
        (query_answered prefix entries) c refl
  corridor_step-installed conf db lib (query_failed prefix) c =
      corridor_step-kept conf db (SentOrInstalled-laws db) (association-SentOrInstalled db) lib
        (query_failed prefix) c refl
  corridor_step-installed conf db lib (face_destroyed face) c = λ key q f h. ground arith
