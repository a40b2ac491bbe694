-- ===== src/Corridor/Events.antt =====
-- corridor.cpp: the handlers, of availability Interests, of changes of the LSDB, of the events
-- and answers of NFD about service branches, and of destroyed faces. A loop over m_state calls
-- only what changes the entry that it is at, so it runs over the entries that it found and reads
-- the state of each by its key.
use nlsr.Lsa.{LsaType, adjacency_lsa, coordinate_lsa, name_lsa, base_lsa, Lsa}
use nlsr.Corridor.{key_eq, key_ord, AdvertisementKey, AdvertisementState, queried, Corridor}
use nlsr.Prelude.Sets.{set_insert}
use nlsr.Prelude.Maps.{put, map_values}
use nlsr.Corridor.Advertise.{
  get_advertised_seq, get_branch_faces, advertise, replace_service_branch_snapshot,
}
use nlsr.Lsdb.{Lsdb, find_lsa}
use nlsr.Sequencing.{LsdbUpdate}
use nlsr.Prelude.{
  Eq, ◌==◌, Ord, nat_eq, ltb, nat_beq, if◌then◌else◌, ℕ, Bool, false, ◌&&◌, Option, none, some,
  List, [], ◌∷◌,
}

-- An entry of the dataset: its prefix, empty or not, and the faces of its next hops.
pub record BranchEntry (N : Type 0) : Type 0 where
  pub branch_prefix : Option N
  pub next_hop_faces : List ℕ

pub data CorridorEvent (N F D C : Type 0) : Type 0 where
  -- The name of an Interest and the face of its IncomingFaceIdTag.
  availability : List C → Option ℕ → CorridorEvent N F D C
  lsdb_modified : Lsa N F D → LsdbUpdate → CorridorEvent N F D C
  branch_noted : N → ℕ → CorridorEvent N F D C
  query_answered : N → List (BranchEntry N) → CorridorEvent N F D C
  query_failed : N → CorridorEvent N F D C
  face_destroyed : ℕ → CorridorEvent N F D C

-- std::set::erase, of every element that is equal.
unfoldable pub erase_face : ℕ → List ℕ → List ℕ
erase_face face [] = []
erase_face face (f ∷ faces) =
    let rest = erase_face face faces in if nat_beq f face then rest else f ∷ rest

module _ {N C : Type 0} where
  unfoldable pub on_face_destroyed : ℕ → Corridor N C → Corridor N C
  unfolding map_values erase_face
  on_face_destroyed face c = record c {
    branches = map_values (erase_face face) c.branches;
    state =
        map_values
          (λ (s : AdvertisementState). record s {
            advertised_faces = erase_face face s.advertised_faces;
          })
          c.state;
  }

  -- What the dataset is asked for is logged; the answer is an event.
  abbrev pub query_service_branches : N → Corridor N C → Corridor N C
  query_service_branches prefix c = record c { log = queried prefix ∷ c.log }

-- The faces of a list but 0, as a std::set.
unfoldable pub insert_faces : List ℕ → List ℕ → List ℕ
unfolding set_insert
insert_faces [] faces = faces
insert_faces (f ∷ fs) faces =
    let rest = insert_faces fs faces in if nat_beq f 0 then rest else set_insert ltb f rest

module _ {N : Type 0} ⦃n : Eq N⦄ where
  abbrev pub branch_of : N → Option N → N
  branch_of prefix none = prefix
  branch_of prefix (some p) = p

  -- The snapshot of the answer to the query about one prefix.
  unfoldable pub snapshot_of : N → List (BranchEntry N) → List ℕ
  unfolding insert_faces
  snapshot_of prefix [] = []
  snapshot_of prefix (e ∷ entries) =
      let rest = snapshot_of prefix entries in
      if branch_of prefix e.branch_prefix == prefix
      then insert_faces e.next_hop_faces rest
      else rest

module _ {N F D : Type 0} ⦃n : Eq N⦄ (db : Lsdb N F D) where
  unfoldable pub find_installed_lsa : N → LsaType → Option (Lsa N F D)
  unfolding find_lsa
  find_installed_lsa origin adjacency_lsa = find_lsa db origin adjacency_lsa
  find_installed_lsa origin name_lsa = find_lsa db origin name_lsa
  find_installed_lsa origin coordinate_lsa = none
  find_installed_lsa origin base_lsa = none

  -- The LSA of this origin and type is in the database, with this number.
  unfoldable pub is_installed : N → LsaType → ℕ → Bool
  unfolding find_installed_lsa
  is_installed origin type seq = elim (find_installed_lsa origin type) [
    | none ↦ false
    | some l ↦ nat_beq l.seq_no seq
  ]

module _ {N F D C : Type 0} ⦃n : Eq N⦄ ⦃no : Ord N⦄ (db : Lsdb N F D) where
  -- The body of the loop over m_state: those of the prefix whose LSA is the one installed.
  unfoldable pub advertise_entries :
      N → List ℕ → List (AdvertisementKey N × AdvertisementState) → Corridor N C → Corridor N C
  unfolding advertise is_installed get_advertised_seq
  advertise_entries prefix faces [] c = c
  advertise_entries prefix faces ((key, _) ∷ entries) c =
      let seq = get_advertised_seq key c in
      let skipped = advertise_entries prefix faces entries c in
      let advertised = advertise_entries prefix faces entries (advertise key seq faces c) in
      if key.prefix == prefix && is_installed db key.origin key.type seq
      then advertised
      else skipped

  unfoldable pub note_service_branch : N → ℕ → Corridor N C → Corridor N C
  unfolding advertise_entries get_branch_faces put set_insert
  note_service_branch prefix face c =
      if nat_beq face 0
      then c
      else advertise_entries prefix (face ∷ []) c.state (record c {
        branches = put prefix (set_insert ltb face (get_branch_faces prefix c)) c.branches;
      })

  unfoldable pub advertise_associated : N → Corridor N C → Corridor N C
  unfolding advertise_entries get_branch_faces
  advertise_associated prefix c = advertise_entries prefix (get_branch_faces prefix c) c.state c

  -- The answer to the exact query, and its failure.
  unfoldable pub on_query_answered : N → List (BranchEntry N) → Corridor N C → Corridor N C
  unfolding advertise_associated replace_service_branch_snapshot snapshot_of
  on_query_answered prefix entries c =
      advertise_associated prefix
        (replace_service_branch_snapshot prefix (snapshot_of prefix entries) c)

  -- The answer to the query at the start: an entry has its own prefix, `unnamed` if it is empty.
  unfoldable pub note_faces : N → List ℕ → Corridor N C → Corridor N C
  unfolding note_service_branch
  note_faces prefix [] c = c
  note_faces prefix (face ∷ faces) c = note_faces prefix faces (note_service_branch prefix face c)

  unfoldable pub on_all_branches : N → List (BranchEntry N) → Corridor N C → Corridor N C
  unfolding note_faces
  on_all_branches unnamed [] c = c
  on_all_branches unnamed (e ∷ entries) c =
      on_all_branches unnamed entries
        (note_faces (branch_of unnamed e.branch_prefix) e.next_hop_faces c)
