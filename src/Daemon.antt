-- ===== src/Daemon.antt =====
-- nlsr.hpp and nlsr.cpp: the daemon, which connects the other components: what it does on a face
-- event, on the list of NFD's faces, on a registration, on a new neighbour and on the end of a route
-- calculation. `hello` holds what it shares with them: the configuration with the list of
-- neighbours, the LSDB and the routing table. m_awaitingNewPathCalc is a list in the order of its
-- routers. `log` is what goes out, oldest first; commands to NFD go through the FIB's functions.
-- calculateNow, whose subscribers call back, is a log entry: each calculation that ends is a call of
-- `on_routing_calculation_completed`. Set-up, and the corridor, are left out.
pub mod Faces
pub mod Fetch
pub mod Certs
pub mod NewPath
pub mod Absorbed
use nlsr.Adjacency.{inactive, is_active, Adjacent, u32_mod, find, has_face_uri, find_face_uri}
use nlsr.Route.Fib.{Command, register_prefix}
use nlsr.Hello.{Hello, neighbors, with_neighbors, send_hello_interest}
use nlsr.Hello.Sweep.{on_adjacent_face_destroyed}
use nlsr.Hello.Answers.{schedule_calculation_or_build}
use nlsr.Prelude.{
  Eq, ◌==◌, Ord, Double, find_if, modify_if, ltb, nat_beq, if◌then◌else◌, ℕ, ◌+◌, ◌%◌, Bool, not,
  ◌&&◌, ◌||◌, Option, none, some, List, [], ◌∷◌, ◌++◌, map,
}

pub record DaemonConfig (N : Type 0) : Type 0 where
  pub lsa_prefix : N
  pub sync_prefix : N
  pub face_dataset_fetch_tries : ℕ
  pub face_dataset_fetch_interval : ℕ
  -- milliseconds::max() and ndn::nfd::ROUTE_FLAG_CAPTURE.
  pub no_expiration : ℕ
  pub route_flag_capture : ℕ

pub record FaceStatus (F : Type 0) : Type 0 where
  pub face_id : ℕ
  pub remote_uri : F

pub record Awaited (N : Type 0) : Type 0 where
  pub origin : N
  pub barrier : ℕ

pub data DaemonEffect (N : Type 0) : Type 0 where
  commanded : Command N → DaemonEffect N
  sync_triggered calculate_now_called : DaemonEffect N
  -- The failures so far.
  dataset_fetched : ℕ → DaemonEffect N
  dataset_fetch_scheduled : ℕ → DaemonEffect N
  -- The number of the calculation, and a prefix.
  new_path_calculated : ℕ → N → DaemonEffect N

pub record Daemon (N F D : Type 0) : Type 0 where
  pub conf : DaemonConfig N
  pub hello : Hello N F D
  pub awaiting_new_path_calc : List (Awaited N)
  pub routing_calc_serial : ℕ
  pub log : List (DaemonEffect N)

abbrev pub origin_of : {N : Type 0} → Awaited N → N
origin_of e = e.origin

abbrev pub has_face_id : {N F D : Type 0} → ℕ → Adjacent N F D → Bool
has_face_id id a = nat_beq a.face_id id

module _ {N F D : Type 0} where
  abbrev pub with_hello : Hello N F D → Daemon N F D → Daemon N F D
  with_hello h d = record d { hello = h }

  abbrev pub emit : List (DaemonEffect N) → Daemon N F D → Daemon N F D
  emit es d = record d { log = d.log ++ es }

module _ {N F D : Type 0} ⦃n : Eq N⦄ ⦃no : Ord N⦄ ⦃f : Eq F⦄ ⦃dd : Double D⦄ where
  -- The commands that reach NFD for one neighbour, with `adj` as the list of neighbours.
  unfoldable pub register_adjacency_prefixes :
      DaemonConfig N → List (Adjacent N F D) → Adjacent N F D → List (Command N)
  unfolding register_prefix
  register_adjacency_prefixes c adj a =
      register_prefix adj a.name a.face_uri (dd.truncated a.link_cost) c.no_expiration
        c.route_flag_capture 0
      ++ register_prefix adj c.lsa_prefix a.face_uri (dd.truncated a.link_cost) c.no_expiration
          c.route_flag_capture 0

  -- What becomes of the neighbour whose face is gone.
  abbrev pub faceless : ℕ → Adjacent N F D → Adjacent N F D
  faceless retry a =
      if is_active a.status
      then record a { face_id = 0; status = inactive; interest_timed_out_no = retry }
      else record a { face_id = 0 }

  unfoldable pub on_face_lost : ℕ → ℕ → Adjacent N F D → Hello N F D → Hello N F D
  unfolding schedule_calculation_or_build on_adjacent_face_destroyed
  on_face_lost now id a h =
      let h =
        with_neighbors
          (modify_if (has_face_id id) (faceless h.conf.interest_retry_number) (neighbors h)) h in
      let h = if is_active a.status then schedule_calculation_or_build now h else h in
      on_adjacent_face_destroyed now a.name h

  -- The FACE_EVENT_DESTROYED case of onFaceEventNotification.
  unfoldable pub on_face_destroyed : ℕ → ℕ → Daemon N F D → Daemon N F D
  unfolding on_face_lost
  on_face_destroyed now id d = elim (find_if (has_face_id id) (neighbors d.hello)) [
    | none ↦ d
    | some a ↦ with_hello (on_face_lost now id a d.hello) d
  ]

  unfoldable pub on_matching_face : F → ℕ → Adjacent N F D → Daemon N F D → Daemon N F D
  unfolding register_adjacency_prefixes
  on_matching_face uri id a d =
      let l =
        modify_if (has_face_uri uri) (λ (x : Adjacent N F D). record x { face_id = id })
          (neighbors d.hello) in
      if nat_beq a.face_id 0 || not (nat_beq a.face_id id)
      then emit (map commanded (register_adjacency_prefixes d.conf l (record a { face_id = id })))
          (with_hello (with_neighbors l d.hello) d)
      else d

  -- The FACE_EVENT_CREATED case; `none` is a remote URI that cannot be parsed.
  unfoldable pub on_face_created : Option F → ℕ → Daemon N F D → Daemon N F D
  unfolding on_matching_face find_face_uri
  on_face_created none id d = d
  on_face_created (some uri) id d = elim (find_face_uri (neighbors d.hello) uri) [
    | none ↦ d
    | some a ↦ on_matching_face uri id a d
  ]

  -- The inner loop of processFaceDataset, for the neighbour between `before` and `after`.
  unfoldable pub match_faces :
      DaemonConfig N
      → List (Adjacent N F D)
      → Adjacent N F D
      → List (Adjacent N F D)
      → List (FaceStatus F)
      → Adjacent N F D × List (Command N)
  unfolding register_adjacency_prefixes
  match_faces c before a after [] = (a, [])
  match_faces c before a after (s ∷ faces) =
      let found = record a { face_id = s.face_id } in
      let (last, commands) = match_faces c before found after faces in
      let unmatched = match_faces c before a after faces in
      if nat_beq a.face_id 0 && (a.face_uri == s.remote_uri)
      then (last, register_adjacency_prefixes c (before ++ found ∷ after) found ++ commands)
      else unmatched

  unfoldable pub match_neighbors :
      DaemonConfig N
      → List (Adjacent N F D)
      → List (Adjacent N F D)
      → List (FaceStatus F)
      → List (Adjacent N F D) × List (Command N)
  unfolding match_faces
  match_neighbors c before [] faces = (before, [])
  match_neighbors c before (a ∷ after) faces =
      let (matched, first) = match_faces c before a after faces in
      let (all, rest) = match_neighbors c (before ++ matched ∷ []) after faces in
      (all, first ++ rest)

  unfoldable pub process_face_dataset : List (FaceStatus F) → Daemon N F D → Daemon N F D
  unfolding match_neighbors
  process_face_dataset faces d =
      let (l, commands) = match_neighbors d.conf [] (neighbors d.hello) faces in
      emit
        (map commanded commands ++ dataset_fetch_scheduled d.conf.face_dataset_fetch_interval ∷ [])
        (with_hello (with_neighbors l d.hello) d)

  -- What the constructor connects to onInitialHelloDataValidated.
  unfoldable pub on_initial_hello_data_validated : N → Daemon N F D → Daemon N F D
  unfolding register_prefix find
  on_initial_hello_data_validated nb d = elim (find (neighbors d.hello) nb) [
    | none ↦ d
    | some a ↦
        emit
          (map commanded (
            register_prefix (neighbors d.hello) d.conf.sync_prefix a.face_uri
              (dd.truncated a.link_cost) d.conf.no_expiration d.conf.route_flag_capture 0))
          d
  ]

  -- What the constructor connects to onPrefixRegistrationSuccess.
  unfoldable pub on_prefix_registered : N → Daemon N F D → Daemon N F D
  unfolding send_hello_interest
  on_prefix_registered name d =
      let d = if name == d.conf.sync_prefix then emit (sync_triggered ∷ []) d else d in
      with_hello (send_hello_interest name d.hello) d

-- The answer to a failed fetch of the faces, with the failures before it (uint32_t).
unfoldable pub on_face_dataset_fetch_timeout :
    {N : Type 0} → DaemonConfig N → ℕ → List (DaemonEffect N)
on_face_dataset_fetch_timeout c retries =
    if ltb retries c.face_dataset_fetch_tries
    then dataset_fetched ((retries + 1) % u32_mod) ∷ []
    else dataset_fetch_scheduled c.face_dataset_fetch_interval ∷ []
