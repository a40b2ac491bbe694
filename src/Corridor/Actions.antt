-- ===== src/Corridor/Actions.antt =====
-- corridor.cpp: every handler but the ones of removed LSAs and destroyed faces is a sequence of
-- four kinds of action, so what the actions keep, the handlers keep.
use nlsr.Lsa.{adjacency_lsa, Lsa}
use nlsr.Corridor.{
  AdvertisementKey, AdvertisementState, CorridorEffect, availability_sent, replied, queried,
  fetched, Corridor, key_eq, key_ord,
}
use nlsr.Corridor.Advertise.{
  get_advertised_seq, get_branch_faces, add_effect, advertise, replace_service_branch_snapshot,
}
use nlsr.Lsdb.{Config, Lsdb, find_lsa}
use nlsr.Sequencing.{installed, updated, removed}
use nlsr.Corridor.Events.{
  BranchEntry, CorridorEvent, availability, lsdb_modified, branch_noted, query_answered,
  query_failed, face_destroyed, snapshot_of, find_installed_lsa, is_installed, advertise_entries,
  note_service_branch, advertise_associated, on_query_answered,
}
use nlsr.Corridor.Attachment.{advertise_attachment}
use nlsr.Prelude.{
  Eq, ◌==◌, Ord, nat_eq, nat_beq, if◌then◌else◌, ℕ, ◌≡◌, refl, Bool, true, false, ◌&&◌, some, List,
  [], ◌∷◌, arith,
}

module _ {N C : Type 0} where
  abbrev pub is_sent : CorridorEffect N C → Bool
  is_sent (availability_sent key seq face) = true
  is_sent (replied name) = false
  is_sent (queried prefix) = false
  is_sent (fetched origin type seq face) = false

module _ {N F D C : Type 0} where
  -- No LSA is removed and no face destroyed.
  abbrev pub is_growing : CorridorEvent N F D C → Bool
  is_growing (availability name incoming) = true
  is_growing (lsdb_modified l installed) = true
  is_growing (lsdb_modified l updated) = true
  is_growing (lsdb_modified l removed) = false
  is_growing (branch_noted prefix face) = true
  is_growing (query_answered prefix entries) = true
  is_growing (query_failed prefix) = true
  is_growing (face_destroyed face) = false

  abbrev pub all_growing : List (Config N F D × Lsdb N F D × CorridorEvent N F D C) → Bool
  all_growing [] = true
  all_growing ((conf, db, e) ∷ steps) = is_growing e && all_growing steps

module _ {N F D : Type 0} ⦃n : Eq N⦄ (db : Lsdb N F D) where
  pub is_installed-found :
      (origin : N) (l : Lsa N F D)
      → find_lsa db origin adjacency_lsa ≡ some l
      → is_installed db origin adjacency_lsa l.seq_no ≡ true
  unfolding is_installed find_installed_lsa
  is_installed-found origin l h = ground (arith, h)

module _ {N F D C : Type 0} ⦃n : Eq N⦄ ⦃no : Ord N⦄ (db : Lsdb N F D) where
  -- A relation between what was before and what is after, kept by each action but the association
  -- of an availability.
  pub record ActionLaws (R : Corridor N C → Corridor N C → Type 0) : Type 0 where
    pub unchanged : (c : Corridor N C) → R c c
    pub after : (a b c : Corridor N C) → R a b → R b c → R a c
    pub by_advertise :
        (key : AdvertisementKey N) (seq : ℕ) (faces : List ℕ) (c : Corridor N C)
        → is_installed db key.origin key.type seq ≡ true
        → R c (advertise key seq faces c)
    pub by_branches : (b : List (N × List ℕ)) (c : Corridor N C) → R c (record c { branches = b })
    pub by_effect :
        (e : CorridorEffect N C) (c : Corridor N C) → is_sent e ≡ false → R c (add_effect e c)

  module _ {R : Corridor N C → Corridor N C → Type 0} (laws : ActionLaws R) where
    -- A change that is made only under a test.
    pub if-kept :
        (b : Bool) (a c d : Corridor N C)
        → (b ≡ true → R a c)
        → (b ≡ false → R a d)
        → R a (if b then c else d)
    if-kept true a c d h k = h refl
    if-kept false a c d h k = k refl

    advertise_entries-kept :
        (prefix : N) (faces : List ℕ) (entries : List (AdvertisementKey N × AdvertisementState))
        (c : Corridor N C)
        → R c (advertise_entries db prefix faces entries c)
    unfolding advertise_entries
    advertise_entries-kept prefix faces [] c = laws.unchanged c
    advertise_entries-kept prefix faces ((key, _) ∷ entries) c =
        let seq = get_advertised_seq key c in
        if-kept (key.prefix == prefix && is_installed db key.origin key.type seq) c
          (advertise_entries db prefix faces entries (advertise key seq faces c))
          (advertise_entries db prefix faces entries c)
          (λ h.
            laws.after c (advertise key seq faces c)
              (advertise_entries db prefix faces entries (advertise key seq faces c))
              (laws.by_advertise key seq faces c (ground arith))
              (advertise_entries-kept prefix faces entries (advertise key seq faces c)))
          (λ h. advertise_entries-kept prefix faces entries c)

    pub note_service_branch-kept :
        (prefix : N) (face : ℕ) (c : Corridor N C) → R c (note_service_branch db prefix face c)
    unfolding note_service_branch
    note_service_branch-kept prefix face c =
        if-kept (nat_beq face 0) c c _ (λ h. laws.unchanged c)
          (λ h.
            laws.after c _ _ (laws.by_branches _ c)
              (advertise_entries-kept prefix (face ∷ []) c.state _))

    snapshot-kept :
        (prefix : N) (faces : List ℕ) (c : Corridor N C)
        → R c (replace_service_branch_snapshot prefix faces c)
    unfolding replace_service_branch_snapshot
    snapshot-kept prefix [] c = laws.by_branches _ c
    snapshot-kept prefix (f ∷ fs) c = laws.by_branches _ c

    pub advertise_associated-kept :
        (prefix : N) (c : Corridor N C) → R c (advertise_associated db prefix c)
    unfolding advertise_associated
    advertise_associated-kept prefix c =
        advertise_entries-kept prefix (get_branch_faces prefix c) c.state c

    pub on_query_answered-kept :
        (prefix : N) (entries : List (BranchEntry N)) (c : Corridor N C)
        → R c (on_query_answered db prefix entries c)
    unfolding on_query_answered
    on_query_answered-kept prefix entries c =
        laws.after c _ _ (snapshot-kept prefix (snapshot_of prefix entries) c)
          (advertise_associated-kept prefix _)

    pub advertise_attachment-kept :
        (conf : Config N F D) (origin : N) (remote own : Lsa N F D) (faces : List ℕ)
        (prefixes : List N) (c : Corridor N C)
        → find_lsa db origin adjacency_lsa ≡ some remote
        → find_lsa db conf.this_router_prefix adjacency_lsa ≡ some own
        → R c (advertise_attachment conf origin remote.seq_no own.seq_no faces prefixes c)
    unfolding advertise_attachment
    advertise_attachment-kept conf origin remote own faces [] c h k = laws.unchanged c
    advertise_attachment-kept conf origin remote own faces (prefix ∷ prefixes) c h k =
        laws.after c _ _
          (laws.by_advertise _ remote.seq_no faces c (is_installed-found db origin remote h))
          (laws.after _ _ _
            (laws.by_advertise _ own.seq_no faces _
              (is_installed-found db conf.this_router_prefix own k))
            (laws.after _ _ _ (laws.by_effect (queried prefix) _ refl)
              (advertise_attachment-kept conf origin remote own faces prefixes _ h k)))
