-- ===== src/Corridor/Answers.antt =====
-- corridor.cpp: what holds once NFD has answered about a prefix, and once a face is destroyed.
use nlsr.Corridor.Runs.{on_query_answered-Recorded, started-Recorded}
use nlsr.Corridor.Names.{NameLibrary}
use nlsr.Corridor.Hooks.{corridor_run}
use nlsr.Corridor.Once.{was_sent}
use nlsr.Corridor.Recorded.{has_advertised_face-was_sent, is_in-erase_face}
use nlsr.Corridor.{AdvertisementState, AdvertisementKey, Corridor, key_eq, key_ord}
use nlsr.Prelude.Maps.{at-map_values, at, at-put, at-erase_key}
use nlsr.Corridor.Advertise.{
  new_corridor, find_state, get_advertised_seq, has_advertised_face, get_branch_faces,
  replace_service_branch_snapshot,
}
use nlsr.Lsdb.{Config, Lsdb}
use nlsr.Corridor.Events.{
  CorridorEvent, on_face_destroyed, advertise_entries, BranchEntry, erase_face, snapshot_of,
  is_installed, advertise_associated, on_query_answered,
}
use nlsr.Corridor.Branches.{
  advertise_entries-seq, advertise_entries-covers, advertise_entries-branches,
}
use nlsr.Prelude.{
  Eq, ◌==◌, ==_refl, is_in, Ord, nat_eq, ltb, nat_beq, Option-cases, is_some, ℕ, ◌≡◌, refl, subst,
  ◌∙◌, inl, inr, true, not, ◌&&◌, List, [], ◌∷◌, arith,
}

module _ {N C : Type 0} ⦃n : Eq N⦄ ⦃no : Ord N⦄ where
  snapshot-branch_faces :
      (prefix : N) (faces : List ℕ) (c : Corridor N C)
      → get_branch_faces prefix (replace_service_branch_snapshot prefix faces c) ≡ faces
  unfolding get_branch_faces replace_service_branch_snapshot
  snapshot-branch_faces prefix [] c =
      ground (arith, at-erase_key prefix prefix c.branches, ==_refl prefix)
  snapshot-branch_faces prefix (f ∷ fs) c =
      ground (arith, at-put prefix prefix (f ∷ fs) c.branches, ==_refl prefix)

  snapshot-state :
      (prefix : N) (faces : List ℕ) (c : Corridor N C)
      → (replace_service_branch_snapshot prefix faces c).state ≡ c.state
  unfolding replace_service_branch_snapshot
  snapshot-state prefix [] c = refl
  snapshot-state prefix (f ∷ fs) c = refl

  pub at-advertised_seq :
      (key : AdvertisementKey N) (c : Corridor N C)
      → ltb 0 (get_advertised_seq key c) ≡ true
      → is_some (at key c.state) ≡ true
  unfolding get_advertised_seq find_state
  at-advertised_seq key c h = ground arith

  pub seq-state :
      (key : AdvertisementKey N) (a b : Corridor N C)
      → a.state ≡ b.state
      → get_advertised_seq key a ≡ get_advertised_seq key b
  unfolding get_advertised_seq find_state
  seq-state key a b h = ground (arith, h)

  branch_faces-same :
      (a b : Corridor N C) (prefix : N)
      → a.branches ≡ b.branches
      → get_branch_faces prefix a ≡ get_branch_faces prefix b
  unfolding get_branch_faces
  branch_faces-same a b prefix h = ground (arith, h)

  -- A destroyed face is in no branch and under no advertisement any more; every other face stays
  -- where it was, and so do the numbers.
  pub on_face_destroyed-gone :
      (destroyed : ℕ) (c : Corridor N C) (prefix : N) (key : AdvertisementKey N) (face : ℕ)
      → let after = on_face_destroyed destroyed c in
        (is_in face (get_branch_faces prefix after)
          ≡ (is_in face (get_branch_faces prefix c) && not (nat_beq face destroyed)))
        × (has_advertised_face key face after
            ≡ (has_advertised_face key face c && not (nat_beq face destroyed)))
        × (get_advertised_seq key after ≡ get_advertised_seq key c)
  unfolding on_face_destroyed get_branch_faces has_advertised_face get_advertised_seq find_state
  on_face_destroyed-gone destroyed c prefix key face =
      let erased = λ (s : AdvertisementState). record s {
        advertised_faces = erase_face destroyed s.advertised_faces;
      } in
      (
        elim (Option-cases (at prefix c.branches)) [
          | inl gone ↦ ground (arith, at-map_values prefix (erase_face destroyed) c.branches, gone)
          | inr (faces, here) ↦ ground (
            arith,
            at-map_values prefix (erase_face destroyed) c.branches,
            here,
            is_in-erase_face face destroyed faces,
          )
        ],
        elim (Option-cases (at key c.state)) [
          | inl gone ↦ ground (arith, at-map_values key erased c.state, gone)
          | inr (s, here) ↦ ground (
            arith,
            at-map_values key erased c.state,
            here,
            is_in-erase_face face destroyed s.advertised_faces,
          )
        ],
        elim (Option-cases (at key c.state)) [
          | inl gone ↦ ground (arith, at-map_values key erased c.state, gone)
          | inr (s, here) ↦ ground (arith, at-map_values key erased c.state, here)
        ],
      )

module _ {N F D C : Type 0} ⦃n : Eq N⦄ ⦃no : Ord N⦄ (db : Lsdb N F D) where
  answered :
      (prefix : N) (entries : List (BranchEntry N)) (c : Corridor N C) (key : AdvertisementKey N)
      (face : ℕ)
      → (key.prefix == prefix
          && is_installed db key.origin key.type (get_advertised_seq key c)
          && ltb 0 (get_advertised_seq key c)
          && is_in face (snapshot_of prefix entries)
          && not (nat_beq face 0))
        ≡ true
      → let after = on_query_answered db prefix entries c in
        (get_branch_faces prefix after ≡ snapshot_of prefix entries)
        × (has_advertised_face key face after ≡ true)
        × (get_advertised_seq key after ≡ get_advertised_seq key c)
  unfolding on_query_answered advertise_associated
  answered prefix entries c key face h =
      let faces = snapshot_of prefix entries in
      let replaced = replace_service_branch_snapshot prefix faces c in
      let branch = get_branch_faces prefix replaced in
      let cached = snapshot-branch_faces prefix faces c in
      let kept = advertise_entries-branches db prefix branch replaced.state replaced in
      let same_seq = seq-state key replaced c (snapshot-state prefix faces c) in
      (
        branch_faces-same (advertise_entries db prefix branch replaced.state replaced) replaced
              prefix kept
            ∙ cached,
        advertise_entries-covers db prefix branch replaced.state replaced key face
            (at-advertised_seq key replaced (ground (arith, same_seq, h)))
            (ground (arith, same_seq, cached, h)),
        advertise_entries-seq db prefix branch replaced.state replaced key ∙ same_seq,
      )

  -- In any run of the corridor from its start, let an answer come about a prefix, and take an
  -- advertisement of the prefix whose LSA is in the database under the advertised number, not 0,
  -- and a face of the answer, not 0. Then the branches of the prefix are the faces of the answer,
  -- the face is recorded under the advertisement, and its availability under that number was sent
  -- to the face, with this answer or before.
  pub on_query_answered-advertised :
      (lib : NameLibrary N C) (steps : List (Config N F D × Lsdb N F D × CorridorEvent N F D C))
      (prefix : N) (entries : List (BranchEntry N)) (key : AdvertisementKey N) (face : ℕ)
      → let c : Corridor N C = corridor_run lib steps new_corridor in
        (key.prefix == prefix
            && is_installed db key.origin key.type (get_advertised_seq key c)
            && ltb 0 (get_advertised_seq key c)
            && is_in face (snapshot_of prefix entries)
            && not (nat_beq face 0))
          ≡ true
        → let after = on_query_answered db prefix entries c in
          (get_branch_faces prefix after ≡ snapshot_of prefix entries)
          × (has_advertised_face key face after ≡ true)
          × (was_sent key (get_advertised_seq key c) face after.log ≡ true)
  on_query_answered-advertised lib steps prefix entries key face h =
      let c : Corridor N C = corridor_run lib steps new_corridor in
      let after = on_query_answered db prefix entries c in
      let (branches, covered, same) = answered prefix entries c key face h in
      let kept = on_query_answered-Recorded db prefix entries c (started-Recorded lib steps) in
      (
        branches,
        covered,
        subst (λ q. was_sent key q face after.log ≡ true) same
            (has_advertised_face-was_sent key face after kept covered),
      )
