-- ===== src/Corridor/Kept.antt =====
-- corridor.cpp: a step of the corridor keeps what the actions keep.
use nlsr.Lsa.{LsaType, adjacency_lsa, name_lsa, Lsa, get_type, type_eq, npl}
use nlsr.Corridor.{
  CorridorEffect, fetched, AdvertisementKey, AdvertisementState, replied, queried, Corridor, key_eq,
  key_ord,
}
use nlsr.Corridor.Advertise.{record_association, add_effect}
use nlsr.Lsdb.{Config, Lsdb, find_lsa}
use nlsr.Sequencing.{removed, installed, updated}
use nlsr.Corridor.Events.{
  face_destroyed, query_service_branches, find_installed_lsa, CorridorEvent, availability,
  lsdb_modified, branch_noted, query_answered, query_failed,
}
use nlsr.Corridor.Attachment.{
  get_active_adjacency_faces, attach_self, is_attached, attach_origin, attach_all,
  maybe_advertise_service_attachment, advertise_own_names, own_first_hop,
  advertise_own_adj_first_hop,
}
use nlsr.Corridor.Names.{NameLibrary, CorridorAvailability, parse_availability_name}
use nlsr.Corridor.Hooks.{
  advertise_changed, local_seq, on_parsed, incoming_face, propagated, propagate_if_associated,
  on_lsa_set, on_lsdb_modified, on_available, process_availability_interest, corridor_step,
}
use nlsr.Corridor.Actions.{
  is_growing, is_installed-found, ActionLaws, if-kept, note_service_branch-kept,
  advertise_associated-kept, on_query_answered-kept, advertise_attachment-kept,
}
use nlsr.Prelude.{
  Eq, ◌==◌, Ord, nat_eq, ltb, nat_beq, if◌then◌else◌, Bool-cases, is_some, ℕ, ◌≡◌, refl, inl, inr,
  true, not, ◌&&◌, ◌||◌, Option, none, some, List, [], ◌∷◌, arith,
}

module _ {N F D C : Type 0} ⦃n : Eq N⦄ ⦃no : Ord N⦄ (conf : Config N F D) (db : Lsdb N F D)
    {R : Corridor N C → Corridor N C → Type 0} (laws : ActionLaws db R) where
  attach_origin-kept :
      (own l : Lsa N F D) (found : Option (Lsa N F D)) (c : Corridor N C)
      → find_lsa db conf.this_router_prefix adjacency_lsa ≡ some own
      → find_lsa db l.origin_router adjacency_lsa ≡ found
      → R c (attach_origin conf own l found c)
  unfolding attach_origin
  attach_origin-kept own l none c h k = laws.unchanged c
  attach_origin-kept own l (some remote) c h k =
      if-kept db laws (is_attached conf l.origin_router own remote) c _ c
        (λ _.
          advertise_attachment-kept db laws conf l.origin_router remote own
            (get_active_adjacency_faces conf.adjacency_list) (npl l.body) c k h)
        (λ _. laws.unchanged c)

  attach_all-kept :
      (own : Lsa N F D) (lsas : List (Lsa N F D)) (c : Corridor N C)
      → find_lsa db conf.this_router_prefix adjacency_lsa ≡ some own
      → R c (attach_all conf db own lsas c)
  unfolding attach_all
  attach_all-kept own [] c h = laws.unchanged c
  attach_all-kept own (l ∷ lsas) c h =
      if-kept db laws
        (type_eq (get_type l) name_lsa && not (l.origin_router == conf.this_router_prefix)) c _ _
        (λ _. laws.after c _ _ (attach_origin-kept own l _ c h refl) (attach_all-kept own lsas _ h))
        (λ _. attach_all-kept own lsas c h)

  attach_self-kept :
      (own : Option (Lsa N F D)) (c : Corridor N C)
      → find_lsa db conf.this_router_prefix adjacency_lsa ≡ own
      → R c (attach_self conf db own c)
  unfolding attach_self
  attach_self-kept none c h = laws.unchanged c
  attach_self-kept (some own) c h = attach_all-kept own db.lsdb c h

  advertise_own_names-kept :
      (own : Lsa N F D) (faces : List ℕ) (prefixes : List N) (c : Corridor N C)
      → find_lsa db conf.this_router_prefix adjacency_lsa ≡ some own
      → R c (advertise_own_names conf db own.seq_no faces prefixes c)
  unfolding advertise_own_names
  advertise_own_names-kept own faces [] c h = laws.unchanged c
  advertise_own_names-kept own faces (prefix ∷ prefixes) c h =
      laws.after c _ _
        (laws.by_advertise _ own.seq_no faces c
          (is_installed-found db conf.this_router_prefix own h))
        (advertise_own_names-kept own faces prefixes _ h)

  own_first_hop-kept :
      (own name : Option (Lsa N F D)) (c : Corridor N C)
      → find_lsa db conf.this_router_prefix adjacency_lsa ≡ own
      → R c (own_first_hop conf db own name c)
  unfolding own_first_hop
  own_first_hop-kept none name c h = laws.unchanged c
  own_first_hop-kept (some own) none c h = laws.unchanged c
  own_first_hop-kept (some own) (some name) c h =
      advertise_own_names-kept own (get_active_adjacency_faces conf.adjacency_list) (npl name.body)
        c h

  propagated-kept :
      (origin : N) (type : LsaType) (seq : ℕ)
      (entries : List (AdvertisementKey N × AdvertisementState)) (c : Corridor N C)
      → R c (record c { log = propagated origin type seq entries c.log })
  unfolding propagated
  propagated-kept origin type seq [] c = laws.unchanged c
  propagated-kept origin type seq ((key, s) ∷ entries) c =
      elim (Bool-cases (key.origin == origin && type_eq key.type type && nat_beq s.seq seq)) [
        | inl asked ↦ rw asked (
            laws.after c (add_effect (queried key.prefix) c) _
              (laws.by_effect (queried key.prefix) c refl)
              (propagated-kept origin type seq entries (add_effect (queried key.prefix) c)))
        | inr skipped ↦ rw skipped (propagated-kept origin type seq entries c)
      ]

  pub advertise_changed-kept :
      (l : Lsa N F D) (c : Corridor N C) → R c (advertise_changed conf db l c)
  unfolding advertise_changed maybe_advertise_service_attachment advertise_own_adj_first_hop
  advertise_changed-kept l c =
      let is_adj = type_eq (get_type l) adjacency_lsa in
      laws.after c _ _
        (if-kept db laws (is_adj || type_eq (get_type l) name_lsa) c _ c
          (λ _. attach_self-kept _ c refl) (λ _. laws.unchanged c))
        (if-kept db laws (is_adj && l.origin_router == conf.this_router_prefix) _ _ _
          (λ _. own_first_hop-kept _ _ _ refl) (λ _. laws.unchanged _))

  pub on_lsa_set-kept : (l : Lsa N F D) (c : Corridor N C) → R c (on_lsa_set conf db l c)
  unfolding on_lsa_set propagate_if_associated
  on_lsa_set-kept l c =
      let changed = advertise_changed conf db l c in
      laws.after c changed _ (advertise_changed-kept l c) (
        if-kept db laws (type_eq (get_type l) adjacency_lsa) changed _ changed
          (λ _. propagated-kept l.origin_router (get_type l) l.seq_no changed.state changed)
          (λ _. laws.unchanged changed))

module _ {N F D C : Type 0} ⦃n : Eq N⦄ ⦃no : Ord N⦄ (conf : Config N F D) (db : Lsdb N F D)
    {R : Corridor N C → Corridor N C → Type 0} (laws : ActionLaws db R)
    (by_association : (key : AdvertisementKey N) (seq : ℕ) (c : Corridor N C)
      → R c (record_association key seq c)) where
  on_available-kept :
      (av : CorridorAvailability N) (face : ℕ) (c : Corridor N C) → R c (on_available db av face c)
  unfolding on_available
  on_available-kept av face c =
      let key : AdvertisementKey N = record {
        origin = av.origin;
        type = av.type;
        prefix = av.prefix;
      } in
      let associated = record_association key av.seq c in
      let recorded = by_association key av.seq c in
      let local = find_installed_lsa db av.origin av.type in
      let fetch : CorridorEffect N C = fetched av.origin av.type av.seq face in
      let fetching = if nat_beq face 0 then associated else add_effect fetch associated in
      let is_newer = not (is_some local) || ltb (local_seq local) av.seq in
      if-kept db laws (is_some local && ltb av.seq (local_seq local)) c c
        (if is_newer then fetching else query_service_branches av.prefix associated)
        (λ _. laws.unchanged c)
        (λ _.
          if-kept db laws is_newer c fetching _
            (λ _.
              if-kept db laws (nat_beq face 0) c associated (add_effect fetch associated)
                (λ _. recorded)
                (λ _. laws.after c associated _ recorded (laws.by_effect fetch associated refl)))
            (λ _.
              laws.after c associated _ recorded
                (laws.by_effect (queried av.prefix) associated refl)))

  on_parsed-kept :
      (name : List C) (face : ℕ) (found : Option (CorridorAvailability N)) (c : Corridor N C)
      → R c (on_parsed db name face found c)
  unfolding on_parsed
  on_parsed-kept name face none c = laws.unchanged c
  on_parsed-kept name face (some av) c =
      laws.after c _ _ (laws.by_effect (replied name) c refl) (on_available-kept av face _)

  pub corridor_step-kept :
      (lib : NameLibrary N C) (e : CorridorEvent N F D C) (c : Corridor N C)
      → is_growing e ≡ true
      → R c (corridor_step conf db lib e c)
  unfolding corridor_step on_lsdb_modified process_availability_interest
  corridor_step-kept lib (availability name incoming) c h =
      on_parsed-kept name (incoming_face incoming) (parse_availability_name lib name) c
  corridor_step-kept lib (lsdb_modified l installed) c h = on_lsa_set-kept conf db laws l c
  corridor_step-kept lib (lsdb_modified l updated) c h = on_lsa_set-kept conf db laws l c
  corridor_step-kept lib (branch_noted prefix face) c h =
      note_service_branch-kept db laws prefix face c
  corridor_step-kept lib (query_answered prefix entries) c h =
      on_query_answered-kept db laws prefix entries c
  corridor_step-kept lib (query_failed prefix) c h = advertise_associated-kept db laws prefix c
  corridor_step-kept lib (lsdb_modified l removed) c h = ground arith
  corridor_step-kept lib (face_destroyed face) c h = ground arith
