-- ===== src/Corridor/Hooks.antt =====
-- corridor.cpp: a change of the LSDB, an availability Interest, and a step of the corridor: any
-- of its events, with the database and the neighbours as they are then.
use nlsr.Lsa.{LsaType, adjacency_lsa, name_lsa, Lsa, get_type, type_eq}
use nlsr.Corridor.{
  AdvertisementKey, AdvertisementState, CorridorEffect, replied, queried, fetched, Corridor, key_eq,
  key_ord,
}
use nlsr.Prelude.Maps.{keep_keys}
use nlsr.Corridor.Advertise.{add_effect, record_association}
use nlsr.Lsdb.{Config, Lsdb}
use nlsr.Sequencing.{LsdbUpdate, installed, updated, removed}
use nlsr.Corridor.Events.{
  CorridorEvent, availability, lsdb_modified, branch_noted, query_answered, query_failed,
  face_destroyed, on_face_destroyed, query_service_branches, find_installed_lsa,
  note_service_branch, advertise_associated, on_query_answered,
}
use nlsr.Corridor.Attachment.{maybe_advertise_service_attachment, advertise_own_adj_first_hop}
use nlsr.Corridor.Names.{NameLibrary, CorridorAvailability, parse_availability_name}
use nlsr.Prelude.{
  Eq, ◌==◌, Ord, nat_eq, ltb, nat_beq, if◌then◌else◌, is_some, ℕ, Bool, not, ◌&&◌, ◌||◌, Option,
  none, some, List, [], ◌∷◌,
}

-- 0 for no face.
abbrev pub incoming_face : Option ℕ → ℕ
incoming_face none = 0
incoming_face (some face) = face

module _ {N F D : Type 0} where
  -- The number of the LSA in the database, 0 without one.
  abbrev pub local_seq : Option (Lsa N F D) → ℕ
  local_seq none = 0
  local_seq (some l) = l.seq_no

module _ {N : Type 0} ⦃n : Eq N⦄ where
  -- The queries for the entries of the LSA with its number, the newest first.
  unfoldable pub propagated :
      {C : Type 0}
      → N
      → LsaType
      → ℕ
      → List (AdvertisementKey N × AdvertisementState)
      → List (CorridorEffect N C)
      → List (CorridorEffect N C)
  propagated origin type seq [] log = log
  propagated origin type seq ((key, s) ∷ entries) log =
      let skipped = propagated origin type seq entries log in
      let asked = propagated origin type seq entries (queried key.prefix ∷ log) in
      if key.origin == origin && type_eq key.type type && nat_beq s.seq seq then asked else skipped

  -- The entries of a removed LSA are erased.
  abbrev pub is_of : N → LsaType → AdvertisementKey N → Bool
  is_of origin type key = key.origin == origin && type_eq key.type type

module _ {N F D C : Type 0} ⦃n : Eq N⦄ ⦃no : Ord N⦄ (db : Lsdb N F D) where
  -- An available LSA, from a face (0 is none): fetched if it is newer than the one installed, and
  -- passed on if it is that one.
  unfoldable pub on_available : CorridorAvailability N → ℕ → Corridor N C → Corridor N C
  unfolding record_association find_installed_lsa
  on_available av face c =
      let local = find_installed_lsa db av.origin av.type in
      let key : AdvertisementKey N = record {
        origin = av.origin;
        type = av.type;
        prefix = av.prefix;
      } in
      let associated = record_association key av.seq c in
      if is_some local && ltb av.seq (local_seq local)
      then c
      else if not (is_some local) || ltb (local_seq local) av.seq
      then (if nat_beq face 0
          then associated
          else add_effect (fetched av.origin av.type av.seq face) associated)
      else query_service_branches av.prefix associated

  -- Only a name that parses is answered.
  unfoldable pub on_parsed :
      List C → ℕ → Option (CorridorAvailability N) → Corridor N C → Corridor N C
  unfolding on_available
  on_parsed name face none c = c
  on_parsed name face (some av) c = on_available av face (add_effect (replied name) c)

  unfoldable pub process_availability_interest :
      NameLibrary N C → List C → Option ℕ → Corridor N C → Corridor N C
  unfolding parse_availability_name on_parsed
  process_availability_interest lib name incoming c =
      on_parsed name (incoming_face incoming) (parse_availability_name lib name) c

module _ {N F D C : Type 0} ⦃n : Eq N⦄ ⦃no : Ord N⦄ (conf : Config N F D) (db : Lsdb N F D) where
  unfoldable pub propagate_if_associated : Lsa N F D → Corridor N C → Corridor N C
  unfolding propagated
  propagate_if_associated l c = record c {
    log = propagated l.origin_router (get_type l) l.seq_no c.state c.log;
  }

  -- What is advertised anew for an LSA that is installed or updated.
  unfoldable pub advertise_changed : Lsa N F D → Corridor N C → Corridor N C
  unfolding maybe_advertise_service_attachment advertise_own_adj_first_hop
  advertise_changed l c =
      let is_adj = type_eq (get_type l) adjacency_lsa in
      let attached =
        if is_adj || type_eq (get_type l) name_lsa
        then maybe_advertise_service_attachment conf db c
        else c in
      if is_adj && l.origin_router == conf.this_router_prefix
      then advertise_own_adj_first_hop conf db attached
      else attached

  unfoldable pub on_lsa_set : Lsa N F D → Corridor N C → Corridor N C
  unfolding advertise_changed propagate_if_associated
  on_lsa_set l c =
      let changed = advertise_changed l c in
      if type_eq (get_type l) adjacency_lsa then propagate_if_associated l changed else changed

  unfoldable pub on_lsdb_modified : Lsa N F D → LsdbUpdate → Corridor N C → Corridor N C
  unfolding on_lsa_set keep_keys
  on_lsdb_modified l removed c = record c {
    state = keep_keys (λ key. not (is_of l.origin_router (get_type l) key)) c.state;
  }
  on_lsdb_modified l installed c = on_lsa_set l c
  on_lsdb_modified l updated c = on_lsa_set l c

  unfoldable pub corridor_step :
      NameLibrary N C → CorridorEvent N F D C → Corridor N C → Corridor N C
  unfolding process_availability_interest on_lsdb_modified note_service_branch on_query_answered
      advertise_associated on_face_destroyed
  corridor_step lib (availability name incoming) c =
      process_availability_interest db lib name incoming c
  corridor_step lib (lsdb_modified l update) c = on_lsdb_modified l update c
  corridor_step lib (branch_noted prefix face) c = note_service_branch db prefix face c
  corridor_step lib (query_answered prefix entries) c = on_query_answered db prefix entries c
  corridor_step lib (query_failed prefix) c = advertise_associated db prefix c
  corridor_step lib (face_destroyed face) c = on_face_destroyed face c

module _ {N F D C : Type 0} ⦃n : Eq N⦄ ⦃no : Ord N⦄ where
  -- Event after event, each with the configuration and the database of its time.
  unfoldable pub corridor_run :
      NameLibrary N C
      → List (Config N F D × Lsdb N F D × CorridorEvent N F D C)
      → Corridor N C
      → Corridor N C
  unfolding corridor_step
  corridor_run lib [] c = c
  corridor_run lib ((conf, db, e) ∷ steps) c =
      corridor_run lib steps (corridor_step conf db lib e c)
