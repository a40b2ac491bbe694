-- ===== src/Corridor/Recorded.antt =====
-- corridor.cpp: the faces that an advertisement keeps are those that its availability was sent to.
use nlsr.Corridor.Branches.{has_advertised_face-state_at}
use nlsr.Corridor.Installed.{get_advertised_seq-state_at}
use nlsr.Prelude.{
  Eq, ◌==◌, ==_eq, ==_refl, is_in, Ord, nat_eq, ltb, nat_beq, Bool-cases, Option-cases, ℕ, ◌≡◌,
  refl, subst, inl, inr, Bool, true, not, ◌&&◌, ◌||◌, List, [], ◌∷◌, arith,
}
use nlsr.Prelude.Maps.{at, keep_keys, at-keep_keys, at-map_values}
use nlsr.Prelude.Sets.{set_insert}
use nlsr.Corridor.{
  AdvertisementKey, AdvertisementState, CorridorEffect, availability_sent, replied, queried,
  fetched, Corridor, key_eq, key_ord,
}
use nlsr.Corridor.Advertise.{
  get_advertised_seq, has_advertised_face, state_at, add_effect, renewed, advertise_faces,
  put_state, advertise, record_association,
}
use nlsr.Corridor.Events.{erase_face, on_face_destroyed}
use nlsr.Corridor.Once.{is_in-set_insert_face, was_sent, renewed-seq, state_at-put}

pub is_in-erase_face :
    (face f : ℕ) (faces : List ℕ)
    → is_in face (erase_face f faces) ≡ (is_in face faces && not (nat_beq face f))
unfolding erase_face
is_in-erase_face face f [] = refl
is_in-erase_face face f (g ∷ faces) = ground (arith, is_in-erase_face face f faces)

-- The availability of the number was sent to each face that the state keeps.
abbrev pub IsRecorded :
    {N C : Type 0} ⦃n : Eq N⦄
    → AdvertisementKey N
    → AdvertisementState
    → List (CorridorEffect N C)
    → Type 0
IsRecorded key s log =
    (face : ℕ) → is_in face s.advertised_faces ≡ true → was_sent key s.seq face log ≡ true

module _ {N C : Type 0} ⦃n : Eq N⦄ where
  unfoldable pub Recorded : Corridor N C → Type 0
  Recorded c = (key : AdvertisementKey N) → IsRecorded key (state_at key c.state) c.log

  -- What was sent is in the longer log too.
  abbrev Grows : List (CorridorEffect N C) → List (CorridorEffect N C) → Type 0
  Grows log after =
      (key : AdvertisementKey N) (seq face : ℕ)
      → was_sent key seq face log ≡ true
      → was_sent key seq face after ≡ true

  advertise_faces-IsRecorded :
      (key : AdvertisementKey N) (seq : ℕ) (faces : List ℕ) (s : AdvertisementState)
      (log : List (CorridorEffect N C))
      → s.seq ≡ seq
      → IsRecorded key s log
      → let after = advertise_faces key seq faces s log in
        IsRecorded key after.0 after.1 × Grows log after.1
  unfolding advertise_faces
  advertise_faces-IsRecorded key seq [] s log current kept = (kept, λ j q face h. h)
  advertise_faces-IsRecorded key seq (f ∷ faces) s log current kept =
      elim (Bool-cases (nat_beq f 0 || is_in f s.advertised_faces)) [
        | inl skip ↦ rw skip (advertise_faces-IsRecorded key seq faces s log current kept)
        | inr send ↦
            let s_sent = record s { advertised_faces = set_insert ltb f s.advertised_faces } in
            let now_kept : IsRecorded key s_sent (availability_sent key seq f ∷ log) = λ face h.
              ground (
                arith,
                kept face,
                current,
                ==_refl key,
                is_in-set_insert_face face f s.advertised_faces,
              ) in
            let (all, grows) =
              advertise_faces-IsRecorded key seq faces s_sent (availability_sent key seq f ∷ log)
                current now_kept in
            rw send (all, λ j q face h. grows j q face (ground (arith, h)))
      ]

  IsRecorded-renewed :
      (key : AdvertisementKey N) (seq : ℕ) (s : AdvertisementState)
      (log : List (CorridorEffect N C))
      → IsRecorded key s log
      → IsRecorded key (renewed seq s) log
  unfolding renewed
  IsRecorded-renewed key seq s log kept face h = ground (arith, kept face)

  pub Recorded-effect :
      (e : CorridorEffect N C) (c : Corridor N C) → Recorded c → Recorded (add_effect e c)
  unfolding Recorded
  Recorded-effect (availability_sent k q f) c kept key face h = ground (arith, kept key face h)
  Recorded-effect (replied name) c kept key face h = kept key face h
  Recorded-effect (queried prefix) c kept key face h = kept key face h
  Recorded-effect (fetched origin type seq f) c kept key face h = kept key face h

  pub Recorded-removed :
      (p : AdvertisementKey N → Bool) (c : Corridor N C)
      → Recorded c
      → Recorded (record c { state = keep_keys p c.state })
  unfolding Recorded
  Recorded-removed p c kept key face h =
      ground (arith, at-keep_keys key p c.state, kept key face, h)

  pub Recorded-on_face_destroyed :
      (destroyed : ℕ) (c : Corridor N C) → Recorded c → Recorded (on_face_destroyed destroyed c)
  unfolding Recorded on_face_destroyed
  Recorded-on_face_destroyed destroyed c kept key face h =
      let erased = λ (s : AdvertisementState). record s {
        advertised_faces = erase_face destroyed s.advertised_faces;
      } in
      elim (Option-cases (at key c.state)) [
        | inl gone ↦ ground (arith, at-map_values key erased c.state, gone, h)
        | inr (s, here) ↦ ground (
          arith,
          at-map_values key erased c.state,
          here,
          h,
          kept key face,
          is_in-erase_face face destroyed s.advertised_faces,
        )
      ]

module _ {N C : Type 0} ⦃n : Eq N⦄ ⦃no : Ord N⦄ where
  put_state-Recorded :
      (key : AdvertisementKey N) (s : AdvertisementState) (log : List (CorridorEffect N C))
      (c : Corridor N C)
      → Recorded c
      → IsRecorded key s log
      → Grows c.log log
      → Recorded (put_state key (s, log) c)
  unfolding put_state Recorded
  put_state-Recorded key s log c kept here grows j face h = elim (Bool-cases (key == j)) [
    | inl same ↦
        let moved = subst (λ k. IsRecorded k s log) (==_eq key j same) here in
        ground (arith, state_at-put j key s c.state, same, moved face, h)
    | inr other ↦
        let put_there = state_at-put j key s c.state in
        ground (arith, put_there, other, h, kept j face, grows j (state_at j c.state).seq face)
  ]

  pub Recorded-advertise :
      (key : AdvertisementKey N) (seq : ℕ) (faces : List ℕ) (c : Corridor N C)
      → Recorded c
      → Recorded (advertise key seq faces c)
  unfolding advertise Recorded
  Recorded-advertise key seq faces c kept =
      let s = state_at key c.state in
      let unsent = put_state-Recorded key s c.log c kept (kept key) (λ j q face h. h) in
      elim (Bool-cases (ltb seq s.seq)) [
        | inl old ↦ ground (arith, old, unsent)
        | inr not_old ↦
            let after = advertise_faces key seq faces (renewed seq s) c.log in
            let (all, grows) =
              advertise_faces-IsRecorded key seq faces (renewed seq s) c.log
                (renewed-seq seq s not_old) (IsRecorded-renewed key seq s c.log (kept key)) in
            ground (arith, not_old, put_state-Recorded key after.0 after.1 c kept all grows, kept)
      ]

  pub Recorded-record_association :
      (key : AdvertisementKey N) (seq : ℕ) (c : Corridor N C)
      → Recorded c
      → Recorded (record_association key seq c)
  unfolding record_association Recorded
  Recorded-record_association key seq c kept =
      let s = state_at key c.state in
      elim (Bool-cases (ltb seq s.seq)) [
        | inl old ↦ rw old (put_state-Recorded key s c.log c kept (kept key) (λ j q face h. h))
        | inr not_old ↦ rw not_old (
            put_state-Recorded key (renewed seq s) c.log c kept
              (IsRecorded-renewed key seq s c.log (kept key)) (λ j q face h. h))
      ]

  pub has_advertised_face-was_sent :
      (key : AdvertisementKey N) (face : ℕ) (c : Corridor N C)
      → Recorded c
      → has_advertised_face key face c ≡ true
      → was_sent key (get_advertised_seq key c) face c.log ≡ true
  unfolding Recorded
  has_advertised_face-was_sent key face c kept h = ground (
    arith,
    kept key face,
    has_advertised_face-state_at key face c,
    get_advertised_seq-state_at key c,
    h,
  )
