-- ===== src/Corridor/Branches.antt =====
-- corridor.cpp: the faces of a prefix after an answer of NFD, and after a face is destroyed.
use nlsr.Lsdb.{Lsdb}
use nlsr.Corridor.Events.{is_installed, advertise_entries}
use nlsr.Corridor.{
  AdvertisementKey, AdvertisementState, CorridorEffect, availability_sent, Corridor, key_eq,
  key_ord,
}
use nlsr.Prelude.Sets.{set_insert}
use nlsr.Prelude.Maps.{at, at-put}
use nlsr.Corridor.Advertise.{
  state_at, find_state, get_advertised_seq, has_advertised_face, renewed, advertise_faces,
  put_state, advertise,
}
use nlsr.Corridor.Once.{is_in-set_insert_face}
use nlsr.Corridor.Installed.{get_advertised_seq-advertise, get_advertised_seq-state_at}
use nlsr.Prelude.{
  Eq, ◌==◌, ==_eq, ==_refl, ==_iff, is_in, Ord, nat_eq, ltb, nat_beq, if◌then◌else◌, Bool-cases,
  is_some, ℕ, ◌≡◌, refl, sym, subst, inl, inr, true, not, ◌&&◌, ◌||◌, List, [], ◌∷◌, arith,
}

module _ {N C : Type 0} ⦃n : Eq N⦄ ⦃no : Ord N⦄ where
  has_advertised_face-put_state :
      (j key : AdvertisementKey N) (face : ℕ) (s : AdvertisementState)
      (log : List (CorridorEffect N C)) (c : Corridor N C)
      → has_advertised_face j face (put_state key (s, log) c)
        ≡ (if key == j then is_in face s.advertised_faces else has_advertised_face j face c)
  unfolding has_advertised_face put_state find_state
  has_advertised_face-put_state j key face s log c = ground (arith, at-put j key s c.state)

  pub has_advertised_face-state_at :
      (key : AdvertisementKey N) (face : ℕ) (c : Corridor N C)
      → has_advertised_face key face c ≡ is_in face (state_at key c.state).advertised_faces
  unfolding has_advertised_face find_state
  has_advertised_face-state_at key face c = ground arith

  -- The loop keeps the faces and adds those of the list.
  advertise_faces-is_in :
      (key : AdvertisementKey N) (seq face : ℕ) (faces : List ℕ) (s : AdvertisementState)
      (log : List (CorridorEffect N C))
      → is_in face (advertise_faces key seq faces s log).0.advertised_faces
        ≡ (is_in face s.advertised_faces || is_in face faces && not (nat_beq face 0))
  unfolding advertise_faces
  advertise_faces-is_in key seq face [] s log = ground arith
  advertise_faces-is_in key seq face (f ∷ faces) s log = ground (
    arith,
    advertise_faces-is_in key seq face faces s log,
    advertise_faces-is_in key seq face faces
        (record s { advertised_faces = set_insert ltb f s.advertised_faces })
        (availability_sent key seq f ∷ log),
    is_in-set_insert_face face f s.advertised_faces,
  )

  -- Advertised again under its own number, a key keeps its faces and gets those of the list.
  has_advertised_face-advertise :
      (j key : AdvertisementKey N) (face : ℕ) (faces : List ℕ) (c : Corridor N C)
      → ltb 0 (get_advertised_seq key c) ≡ true
      → has_advertised_face j face (advertise key (get_advertised_seq key c) faces c)
        ≡ (has_advertised_face j face c || key == j && is_in face faces && not (nat_beq face 0))
  unfolding advertise renewed
  has_advertised_face-advertise j key face faces c h =
      let s = state_at key c.state in
      let seq = get_advertised_seq key c in
      let after = advertise_faces key seq faces s c.log in
      ground (
        arith,
        ==_iff key j,
        get_advertised_seq-state_at key c,
        has_advertised_face-state_at key face c,
        has_advertised_face-put_state j key face after.0 after.1 c,
        advertise_faces-is_in key seq face faces s c.log,
      )

  advertise-keeps_face :
      (j key : AdvertisementKey N) (face : ℕ) (faces : List ℕ) (c : Corridor N C)
      → has_advertised_face j face c ≡ true
      → has_advertised_face j face (advertise key (get_advertised_seq key c) faces c) ≡ true
  unfolding advertise
  advertise-keeps_face j key face faces c h = elim (Bool-cases (ltb 0 (get_advertised_seq key c))) [
    | inl positive ↦ ground (arith, has_advertised_face-advertise j key face faces c positive, h)
    | inr none_yet ↦ ground (arith, none_yet, h)
  ]

module _ {N F D C : Type 0} ⦃n : Eq N⦄ ⦃no : Ord N⦄ (db : Lsdb N F D) where
  pub advertise_entries-seq :
      (prefix : N) (faces : List ℕ) (entries : List (AdvertisementKey N × AdvertisementState))
      (c : Corridor N C) (j : AdvertisementKey N)
      → get_advertised_seq j (advertise_entries db prefix faces entries c) ≡ get_advertised_seq j c
  unfolding advertise_entries
  advertise_entries-seq prefix faces [] c j = refl
  advertise_entries-seq prefix faces ((key, _) ∷ entries) c j =
      let next = advertise key (get_advertised_seq key c) faces c in
      ground (
        arith,
        advertise_entries-seq prefix faces entries c j,
        advertise_entries-seq prefix faces entries next j,
        get_advertised_seq-advertise j key (get_advertised_seq key c) faces c,
        ==_iff key j,
      )

  advertise_entries-keeps_face :
      (prefix : N) (faces : List ℕ) (entries : List (AdvertisementKey N × AdvertisementState))
      (c : Corridor N C) (j : AdvertisementKey N) (face : ℕ)
      → has_advertised_face j face c ≡ true
      → has_advertised_face j face (advertise_entries db prefix faces entries c) ≡ true
  unfolding advertise_entries
  advertise_entries-keeps_face prefix faces [] c j face h = h
  advertise_entries-keeps_face prefix faces ((key, _) ∷ entries) c j face h =
      let next = advertise key (get_advertised_seq key c) faces c in
      ground (
        arith,
        advertise_entries-keeps_face prefix faces entries c j face h,
        advertise_entries-keeps_face prefix faces entries next j face
            (advertise-keeps_face j key face faces c h),
      )

  -- Every entry of the prefix whose LSA is installed under its number gets the faces.
  pub advertise_entries-covers :
      (prefix : N) (faces : List ℕ) (entries : List (AdvertisementKey N × AdvertisementState))
      (c : Corridor N C) (j : AdvertisementKey N) (face : ℕ)
      → is_some (at j entries) ≡ true
      → (j.prefix == prefix
          && is_installed db j.origin j.type (get_advertised_seq j c)
          && ltb 0 (get_advertised_seq j c)
          && is_in face faces
          && not (nat_beq face 0))
        ≡ true
      → has_advertised_face j face (advertise_entries db prefix faces entries c) ≡ true
  unfolding advertise_entries at
  advertise_entries-covers prefix faces [] c j face present h = ground arith
  advertise_entries-covers prefix faces ((key, s) ∷ entries) c j face present h =
      let next = advertise key (get_advertised_seq key c) faces c in
      elim (Bool-cases (key == j)) [
        | inl same ↦
            subst
              (λ k.
                has_advertised_face j face (
                  if k.prefix == prefix && is_installed db k.origin k.type (get_advertised_seq k c)
                  then advertise_entries db prefix faces entries
                      (advertise k (get_advertised_seq k c) faces c)
                  else advertise_entries db prefix faces entries c)
                ≡ true)
              (sym (==_eq key j same))
              (ground (
                arith,
                advertise_entries-keeps_face prefix faces entries
                    (advertise j (get_advertised_seq j c) faces c) j face,
                has_advertised_face-advertise j j face faces c,
                ==_refl j,
                h,
              ))
        | inr other ↦
            let later : is_some (at j entries) ≡ true = ground (arith, other, present) in
            ground (
              arith,
              other,
              advertise_entries-covers prefix faces entries c j face later h,
              advertise_entries-covers prefix faces entries next j face later,
              get_advertised_seq-advertise j key (get_advertised_seq key c) faces c,
              h,
            )
      ]

  pub advertise_entries-branches :
      (prefix : N) (faces : List ℕ) (entries : List (AdvertisementKey N × AdvertisementState))
      (c : Corridor N C)
      → (advertise_entries db prefix faces entries c).branches ≡ c.branches
  unfolding advertise_entries advertise put_state
  advertise_entries-branches prefix faces [] c = refl
  advertise_entries-branches prefix faces ((key, _) ∷ entries) c =
      let next = advertise key (get_advertised_seq key c) faces c in
      ground (
        arith,
        advertise_entries-branches prefix faces entries c,
        advertise_entries-branches prefix faces entries next,
      )
