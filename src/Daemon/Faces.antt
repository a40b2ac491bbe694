-- ===== src/Daemon/Faces.antt =====
-- What the loss of a face, and the list of NFD's faces, do to the neighbours and to the mobility
-- sweep.
use mathlib.Core.List.{append-nil, append_assoc}
use nlsr.Adjacency.{
  is_active, Adjacent, n_timed_out, is_adj_lsa_buildable, get_num_of_active_neighbor,
}
use nlsr.Adjacency.Neighbors.{is_adj_lsa_buildable_lem}
use nlsr.Hello.{Hello, neighbors, with_neighbors}
use nlsr.Hello.Sweep.{on_adjacent_face_destroyed}
use nlsr.Hello.Answers.{schedule_calculation_or_build}
use nlsr.Hello.Held.{
  Moves-refl, IsHeld, Moves, Moves-trans, Moves-still, Moves-IsHeld, Moves-if, destroyed-Moves,
}
use nlsr.Hello.Verify.{schedule-Moves}
use nlsr.Daemon.{
  process_face_dataset, with_hello, match_neighbors, DaemonConfig, FaceStatus, Daemon, has_face_id,
  faceless, on_face_lost, on_face_destroyed, match_faces,
}
use nlsr.Prelude.{
  Eq, ◌==◌, Ord, Double, length, find_if, modify_if, leb, nat_beq, if◌then◌else◌, Bool-cases, ℕ,
  ◌+◌, ◌≤◌, ◌≡◌, refl, sym, ap, ◌∙◌, inl, inr, Bool, true, false, not, ◌&&◌, ◌||◌, Option, none,
  some, List, [], ◌∷◌, ◌++◌, map, arith,
}

module _ {N F D : Type 0} where
  -- Each neighbour is active, or has timed out as often as the configuration says.
  abbrev pub all_settled : ℕ → List (Adjacent N F D) → Bool
  all_settled retry [] = true
  all_settled retry (a ∷ l) =
      (is_active a.status || leb retry a.interest_timed_out_no) && all_settled retry l

  n_timed_out-le-length : (retry : ℕ) (l : List (Adjacent N F D)) → n_timed_out retry l ≤ length l
  n_timed_out-le-length retry [] = omega arith
  n_timed_out-le-length retry (a ∷ l) = ground (arith, n_timed_out-le-length retry l)

  settled_counts :
      (retry : ℕ) (l : List (Adjacent N F D))
      → all_settled retry l ≡ true
      → length l ≤ get_num_of_active_neighbor l + n_timed_out retry l
  unfolding get_num_of_active_neighbor
  settled_counts retry [] h = omega arith
  settled_counts retry (a ∷ l) h = ground (arith, settled_counts retry l)

  settled-is_adj_lsa_buildable :
      (retry : ℕ) (l : List (Adjacent N F D))
      → all_settled retry l ≡ true
      → is_adj_lsa_buildable l retry ≡ true
  settled-is_adj_lsa_buildable retry l h = ground (
    arith,
    is_adj_lsa_buildable_lem l retry,
    settled_counts retry l h,
    n_timed_out-le-length retry l,
  )

module _ {N F D : Type 0} ⦃n : Eq N⦄ ⦃no : Ord N⦄ ⦃f : Eq F⦄ ⦃dd : Double D⦄ where
  faceless-settled :
      (retry id : ℕ) (l : List (Adjacent N F D))
      → all_settled retry l ≡ true
      → all_settled retry (modify_if (has_face_id id) (faceless retry) l) ≡ true
  faceless-settled retry id [] h = refl
  faceless-settled retry id (a ∷ l) h = ground (arith, faceless-settled retry id l)

  -- The loss of a face leaves the adjacency LSA buildable: where each neighbour was active or had timed
  -- out, the same holds afterwards, so a build that is due does not wait for more timeouts.
  pub faceless-buildable :
      (retry id : ℕ) (l : List (Adjacent N F D))
      → all_settled retry l ≡ true
      → let after = modify_if (has_face_id id) (faceless retry) l in
        (all_settled retry after ≡ true) × (is_adj_lsa_buildable after retry ≡ true)
  faceless-buildable retry id l h =
      let s = faceless-settled retry id l h in
      let after = modify_if (has_face_id id) (faceless retry) l in
      (s, settled-is_adj_lsa_buildable retry after s)

  on_face_lost-Moves :
      (now id : ℕ) (a : Adjacent N F D) (h : Hello N F D)
      → IsHeld h
      → Moves h (on_face_lost now id a h)
  unfolding on_face_lost
  on_face_lost-Moves now id a h v =
      let lost =
        with_neighbors
          (modify_if (has_face_id id) (faceless h.conf.interest_retry_number) (neighbors h)) h in
      let down = schedule_calculation_or_build now lost in
      let still = Moves-still h lost v refl refl in
      let mid = if is_active a.status then down else lost in
      let m =
        Moves-if now (is_active a.status) h down lost
          (Moves-trans h lost down still (schedule-Moves now lost (Moves-IsHeld h lost still)))
          still in
      Moves-trans h mid (on_adjacent_face_destroyed now a.name mid) m
        (destroyed-Moves now a.name mid (Moves-IsHeld h mid m))

  -- The loss of a face keeps the hold and the sweep together and starts no sweep; and where the sweep
  -- goes on afterwards the LSDB has said nothing, although the neighbour's status may have changed.
  pub on_face_destroyed-Moves :
      (now id : ℕ) (d : Daemon N F D)
      → IsHeld d.hello
      → Moves d.hello (on_face_destroyed now id d).hello
  unfolding on_face_destroyed
  on_face_destroyed-Moves now id d v = after (find_if (has_face_id id) (neighbors d.hello))
    where
      lost_to : Option (Adjacent N F D) → Daemon N F D
      lost_to none = d
      lost_to (some a) = with_hello (on_face_lost now id a d.hello) d

      after : (o : Option (Adjacent N F D)) → Moves d.hello (lost_to o).hello
      after none = Moves-refl now d.hello v
      after (some a) = on_face_lost-Moves now id a d.hello v

  -- The first of NFD's faces with the neighbour's URI and a number.
  abbrev pub is_face_of : Adjacent N F D → FaceStatus F → Bool
  is_face_of a s = (a.face_uri == s.remote_uri) && not (nat_beq s.face_id 0)

  abbrev pub assigned : List (FaceStatus F) → Adjacent N F D → Adjacent N F D
  assigned faces a =
      if nat_beq a.face_id 0
      then elim (find_if (is_face_of a) faces) [
        | none ↦ a
        | some s ↦ record a { face_id = s.face_id }
      ]
      else a

  still_zero : (a : Adjacent N F D) → a.face_id ≡ 0 → record a { face_id = 0 } ≡ a
  still_zero a e = ap (λ (k : ℕ). record a { face_id = k }) (sym e)

  assigned-nonzero :
      (faces : List (FaceStatus F)) (a : Adjacent N F D)
      → nat_beq a.face_id 0 ≡ false
      → assigned faces a ≡ a
  assigned-nonzero faces a e = rw e refl

  assigned-again :
      (s : FaceStatus F) (faces : List (FaceStatus F)) (a : Adjacent N F D)
      → nat_beq a.face_id 0 && (a.face_uri == s.remote_uri) ≡ true
      → assigned faces (record a { face_id = s.face_id }) ≡ assigned (s ∷ faces) a
  assigned-again s faces a e = elim (Bool-cases (nat_beq s.face_id 0)) [
    | inl zero_id ↦
        let both : s.face_id ≡ a.face_id = ground arith in
        let same : record a { face_id = s.face_id } ≡ a =
          ap (λ (k : ℕ). record a { face_id = k }) both in
        ground arith
    | inr some_id ↦ ground arith
  ]

  assigned-skip :
      (s : FaceStatus F) (faces : List (FaceStatus F)) (a : Adjacent N F D)
      → nat_beq a.face_id 0 && (a.face_uri == s.remote_uri) ≡ false
      → assigned faces a ≡ assigned (s ∷ faces) a
  assigned-skip s faces a e = ground arith

  match_faces-assigned :
      (c : DaemonConfig N) (before : List (Adjacent N F D)) (a : Adjacent N F D)
      (after : List (Adjacent N F D)) (faces : List (FaceStatus F))
      → (match_faces c before a after faces).0 ≡ assigned faces a
  unfolding match_faces
  match_faces-assigned c before a after [] = ground arith
  match_faces-assigned c before a after (s ∷ faces) =
      let found = match_faces-assigned c before (record a { face_id = s.face_id }) after faces in
      let unmatched = match_faces-assigned c before a after faces in
      ground (arith, assigned-again s faces a, assigned-skip s faces a)

  match_neighbors-assigned :
      (c : DaemonConfig N) (before l : List (Adjacent N F D)) (faces : List (FaceStatus F))
      → (match_neighbors c before l faces).0 ≡ before ++ map (assigned faces) l
  unfolding match_neighbors
  match_neighbors-assigned c before [] faces = sym (append-nil before)
  match_neighbors-assigned c before (a ∷ l) faces =
      let one = match_faces-assigned c before a l faces in
      let matched = (match_faces c before a l faces).0 in
      match_neighbors-assigned c (before ++ matched ∷ []) l faces
      ∙ (append_assoc before (matched ∷ []) (map (assigned faces) l)
          ∙ ap (λ (x : Adjacent N F D). before ++ x ∷ map (assigned faces) l) one)

  -- The list of NFD's faces gives each neighbour without a face the first face with its URI and a
  -- number; the other neighbours keep theirs, and the order is kept.
  pub process_face_dataset-assigned :
      (faces : List (FaceStatus F)) (d : Daemon N F D)
      → (process_face_dataset faces d).hello.conf.adjacency_list
        ≡ map (assigned faces) d.hello.conf.adjacency_list
  unfolding process_face_dataset
  process_face_dataset-assigned faces d =
      match_neighbors-assigned d.conf [] d.hello.conf.adjacency_list faces
