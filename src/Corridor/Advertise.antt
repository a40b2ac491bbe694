-- ===== src/Corridor/Advertise.antt =====
-- corridor.cpp: the state of an advertisement, and the advertising itself. A reference into
-- m_state is read with its key, changed and put back.
use nlsr.Corridor.{
  key_eq, key_ord, AdvertisementKey, AdvertisementState, fresh_state, CorridorEffect,
  availability_sent, Corridor,
}
use nlsr.Prelude.Sets.{set_insert}
use nlsr.Prelude.Maps.{put, at, erase_key}
use nlsr.Prelude.{
  Eq, is_in, Ord, nat_eq, length, ltb, nat_beq, if◌then◌else◌, is_some, ℕ, Bool, false, ◌||◌,
  Option, none, some, List, [], ◌∷◌,
}

module _ {N : Type 0} ⦃n : Eq N⦄ where
  -- `m_state[key]`, which is there from then on.
  abbrev pub state_at :
      AdvertisementKey N → List (AdvertisementKey N × AdvertisementState) → AdvertisementState
  state_at key m = elim (at key m) [ none ↦ fresh_state | some s ↦ s ]

module _ {N C : Type 0} ⦃n : Eq N⦄ where
  unfoldable pub find_state : AdvertisementKey N → Corridor N C → Option AdvertisementState
  unfolding at
  find_state key c = at key c.state

  unfoldable pub get_advertised_seq : AdvertisementKey N → Corridor N C → ℕ
  unfolding find_state
  get_advertised_seq key c = elim (find_state key c) [ none ↦ 0 | some s ↦ s.seq ]

  unfoldable pub count_advertised_faces : AdvertisementKey N → Corridor N C → ℕ
  unfolding find_state
  count_advertised_faces key c = elim (find_state key c) [
    | none ↦ 0
    | some s ↦ length s.advertised_faces
  ]

  unfoldable pub has_advertised_face : AdvertisementKey N → ℕ → Corridor N C → Bool
  unfolding find_state
  has_advertised_face key face c = elim (find_state key c) [
    | none ↦ false
    | some s ↦ is_in face s.advertised_faces
  ]

  unfoldable pub get_branch_faces : N → Corridor N C → List ℕ
  unfolding at
  get_branch_faces prefix c = elim (at prefix c.branches) [ none ↦ [] | some faces ↦ faces ]

  unfoldable pub has_cached_service_branch : N → Corridor N C → Bool
  unfolding at
  has_cached_service_branch prefix c = is_some (at prefix c.branches)

  abbrev pub add_effect : CorridorEffect N C → Corridor N C → Corridor N C
  add_effect e c = record c { log = e ∷ c.log }

-- The faces of a newer number start over.
unfoldable pub renewed : ℕ → AdvertisementState → AdvertisementState
renewed seq s = if ltb s.seq seq then record { seq = seq; advertised_faces = [] } else s

module _ {N C : Type 0} where
  -- The loop over the faces: the state of the key, and the log.
  unfoldable pub advertise_faces :
      AdvertisementKey N
      → ℕ
      → List ℕ
      → AdvertisementState
      → List (CorridorEffect N C)
      → AdvertisementState × List (CorridorEffect N C)
  unfolding set_insert
  advertise_faces key seq [] s log = (s, log)
  advertise_faces key seq (face ∷ faces) s log =
      let skipped = advertise_faces key seq faces s log in
      let sent =
        advertise_faces key seq faces
          (record s { advertised_faces = set_insert ltb face s.advertised_faces })
          (availability_sent key seq face ∷ log) in
      if nat_beq face 0 || is_in face s.advertised_faces then skipped else sent

module _ {N C : Type 0} ⦃n : Eq N⦄ ⦃no : Ord N⦄ where
  unfoldable pub put_state :
      AdvertisementKey N
      → AdvertisementState × List (CorridorEffect N C)
      → Corridor N C
      → Corridor N C
  unfolding put
  put_state key (s, log) c = record c { state = put key s c.state; log = log }

  -- An older number only leaves the entry that the look-up made.
  unfoldable pub advertise : AdvertisementKey N → ℕ → List ℕ → Corridor N C → Corridor N C
  unfolding put_state at renewed advertise_faces
  advertise key seq faces c =
      let s = state_at key c.state in
      if nat_beq seq 0
      then c
      else if ltb seq s.seq
      then put_state key (s, c.log) c
      else put_state key (advertise_faces key seq faces (renewed seq s) c.log) c

  unfoldable pub record_association : AdvertisementKey N → ℕ → Corridor N C → Corridor N C
  unfolding put_state at renewed
  record_association key seq c =
      let s = state_at key c.state in
      if ltb seq s.seq then put_state key (s, c.log) c else put_state key (renewed seq s, c.log) c

  unfoldable pub replace_service_branch_snapshot : N → List ℕ → Corridor N C → Corridor N C
  unfolding erase_key put
  replace_service_branch_snapshot prefix [] c = record c { branches = erase_key prefix c.branches }
  replace_service_branch_snapshot prefix (face ∷ faces) c = record c {
    branches = put prefix (face ∷ faces) c.branches;
  }

-- The constructor: both maps are empty.
abbrev pub new_corridor : {N C : Type 0} → Corridor N C
new_corridor = record { state = []; branches = []; log = [] }
