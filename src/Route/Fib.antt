-- ===== src/Route/Fib.antt =====
-- route/fib.hpp and route/fib.cpp: the table of name prefixes with their next hops, and the
-- commands that it sends to NFD. `sent` is the log of the commands given to the nfd::Controller,
-- oldest first; the answers come back as calls of the on_... functions. The table is a std::map,
-- a list in the order of its names. `none` as a refresh event is an event that is not pending.
-- Entry sequence numbers (int32_t) do not overflow.
pub mod Entry
pub mod Update
pub mod Valid
pub mod Commands
pub mod Log
pub mod Offers
pub mod Sent
pub mod Retries
use nlsr.Prelude.{
  Eq, ◌==◌, Ord, Double, length, take, erase_if, modify_if, ltb, nat_beq, if◌then◌else◌, is_some, ℕ,
  ◌+◌, Bool, not, ◌&&◌, Option, none, some, List, [], ◌∷◌, ◌++◌,
}
use nlsr.Prelude.Sets.{set_insert, set_difference, by_key, find_key}
use nlsr.Adjacency.{has_face_uri, find_face_uri, get_face_id, Adjacent, is_neighbor}
use nlsr.Route.NextHop.{get_route_cost_as_adjusted_integer, hop_uri_lt, NextHop}
use nlsr.Route.NexthopList.{add_all, remove_all}

pub record FibEntry (N F D : Type 0) : Type 0 where
  pub name : N
  pub refresh_event : Option ℕ
  pub seq_no : ℕ
  pub nexthop_set : List (NextHop F D)

pub data Command (N : Type 0) : Type 0 where
  -- name, face id, cost, expiration period, flags, failures so far
  register : N → ℕ → ℕ → ℕ → ℕ → ℕ → Command N
  unregister : N → ℕ → Command N
  -- name, strategy, failures so far
  set_strategy_choice : N → N → ℕ → Command N

-- `route_flag_capture` is ndn::nfd::ROUTE_FLAG_CAPTURE.
pub record Fib (N F D : Type 0) : Type 0 where
  pub refresh_time : ℕ
  pub max_faces_per_prefix : ℕ
  pub route_flag_capture : ℕ
  pub table : List (FibEntry N F D)
  pub sent : List (Command N)

abbrev pub grace_period : ℕ
grace_period = 10

abbrev pub entry_name : {N F D : Type 0} → FibEntry N F D → N
entry_name e = e.name

module _ {N F D : Type 0} ⦃f : Eq F⦄ where
  unfoldable pub register_prefix : List (Adjacent N F D) → N → F → ℕ → ℕ → ℕ → ℕ → List (Command N)
  register_prefix adj name uri cost timeout flags times =
      let face_id = get_face_id adj uri in
      if ltb 0 face_id then register name face_id cost timeout flags times ∷ [] else []

  unfoldable pub unregister_prefix : List (Adjacent N F D) → N → F → List (Command N)
  unregister_prefix adj name uri =
      let face_id : ℕ = elim (find_face_uri adj uri) [ none ↦ 0 | some a ↦ a.face_id ] in
      if ltb 0 face_id then unregister name face_id ∷ [] else []

  -- The face id that NFD answered with becomes the neighbour's.
  unfoldable pub on_registration_success : List (Adjacent N F D) → ℕ → F → List (Adjacent N F D)
  on_registration_success adj face_id uri =
      modify_if (has_face_uri uri) (λ a. record a { face_id = face_id }) adj

  -- The parameters that failed are the command's; a fifth attempt is never made.
  unfoldable pub on_registration_failure :
      List (Adjacent N F D) → N → ℕ → ℕ → ℕ → F → ℕ → List (Command N)
  unfolding register_prefix
  on_registration_failure adj name cost timeout flags uri times =
      if ltb times 3 then register_prefix adj name uri cost timeout flags (times + 1) else []

  pub unregister_all : List (Adjacent N F D) → N → List (NextHop F D) → List (Command N)
  unregister_all adj name [] = []
  unregister_all adj name (hop ∷ hops) =
      unregister_prefix adj name hop.uri ++ unregister_all adj name hops

unfoldable pub set_strategy : {N : Type 0} → N → N → ℕ → List (Command N)
set_strategy name strategy count = set_strategy_choice name strategy count ∷ []

unfoldable pub on_set_strategy_failure : {N : Type 0} → N → N → ℕ → List (Command N)
unfolding set_strategy
on_set_strategy_failure name strategy count =
    if ltb count 3 then set_strategy name strategy (count + 1) else []

module _ {N F D : Type 0} ⦃n : Eq N⦄ ⦃no : Ord N⦄ ⦃f : Eq F⦄ ⦃o : Ord F⦄ ⦃d : Double D⦄ where
  unfoldable pub get_number_of_faces_for_name : Fib N F D → List (NextHop F D) → ℕ
  get_number_of_faces_for_name fib hops =
      if nat_beq fib.max_faces_per_prefix 0
      then length hops
      else if ltb (length hops) fib.max_faces_per_prefix
      then length hops
      else fib.max_faces_per_prefix

  unfoldable pub is_not_neighbor : List (Adjacent N F D) → N → Bool
  is_not_neighbor adj name = not (is_neighbor adj name)

  pub register_hop : Fib N F D → List (Adjacent N F D) → N → NextHop F D → List (Command N)
  unfolding register_prefix
  register_hop fib adj name hop =
      register_prefix adj name hop.uri (get_route_cost_as_adjusted_integer hop)
        (fib.refresh_time + grace_period) fib.route_flag_capture 0

  pub register_all : Fib N F D → List (Adjacent N F D) → N → List (NextHop F D) → List (Command N)
  unfolding register_hop
  register_all fib adj name [] = []
  register_all fib adj name (hop ∷ hops) =
      register_hop fib adj name hop ++ register_all fib adj name hops

  -- The entry's set and the commands of one loop over the hops.
  pub add_next_hops_to_fib_entry_and_nfd :
      Fib N F D
      → List (Adjacent N F D)
      → FibEntry N F D
      → List (NextHop F D)
      → FibEntry N F D × List (Command N)
  unfolding register_all is_not_neighbor
  add_next_hops_to_fib_entry_and_nfd fib adj entry hops = (
    record entry { nexthop_set = add_all hop_uri_lt hops entry.nexthop_set },
    if is_not_neighbor adj entry.name then register_all fib adj entry.name hops else [],
  )

  unfoldable pub remove : Fib N F D → List (Adjacent N F D) → N → Fib N F D
  unfolding unregister_all is_not_neighbor
  remove fib adj name = elim (find_key entry_name name fib.table) [
    | none ↦ fib
    | some entry ↦
        if is_not_neighbor adj entry.name
        then record fib {
          table = erase_if (λ e. e.name == name) fib.table;
          sent = fib.sent ++ unregister_all adj entry.name entry.nexthop_set;
        }
        else fib
  ]

  -- scheduleEntryRefresh and scheduleLoop: the event that will call `refresh_entry`.
  unfoldable pub schedule_entry_refresh : Fib N F D → FibEntry N F D → FibEntry N F D
  schedule_entry_refresh fib entry = record entry { refresh_event = some fib.refresh_time }

  -- The last statement of `update`.
  pub refresh_if_due : Fib N F D → List (Adjacent N F D) → FibEntry N F D → FibEntry N F D
  unfolding schedule_entry_refresh is_not_neighbor
  refresh_if_due fib adj entry =
      if not (is_some entry.refresh_event) && is_not_neighbor adj entry.name
      then schedule_entry_refresh fib entry
      else entry

  -- The existing entry's branch: the new hops in, the hops of other faces out.
  pub update_entry :
      Fib N F D
      → List (Adjacent N F D)
      → FibEntry N F D
      → List (NextHop F D)
      → FibEntry N F D × List (Command N)
  unfolding add_next_hops_to_fib_entry_and_nfd unregister_all
  update_entry fib adj entry hops =
      let (added, registered) = add_next_hops_to_fib_entry_and_nfd fib adj entry hops in
      let gone = set_difference hop_uri_lt added.nexthop_set hops in
      (
        record added { nexthop_set = remove_all gone added.nexthop_set; seq_no = added.seq_no + 1 },
        registered
            ++ (if is_not_neighbor adj added.name then unregister_all adj added.name gone else []),
      )

  pub new_entry : N → FibEntry N F D
  new_entry name = record { name = name; refresh_event = none; seq_no = 1; nexthop_set = [] }

  pub hops_to_add : Fib N F D → List (NextHop F D) → List (NextHop F D)
  unfolding get_number_of_faces_for_name
  hops_to_add fib all = add_all hop_uri_lt (take (get_number_of_faces_for_name fib all) all) []

  -- `update` behind its computation of the hops to add.
  pub install : Fib N F D → List (Adjacent N F D) → N → List (NextHop F D) → Fib N F D
  unfolding remove refresh_if_due update_entry new_entry
  install fib adj name [] = remove fib adj name
  install fib adj name (hop ∷ hops) = elim (find_key entry_name name fib.table) [
    | none ↦
        let (entry, cmds) =
          add_next_hops_to_fib_entry_and_nfd fib adj (new_entry name) (hop ∷ hops) in
        record fib {
          table = set_insert (by_key entry_name) (refresh_if_due fib adj entry) fib.table;
          sent = fib.sent ++ cmds;
        }
    | some old ↦
        let (entry, cmds) = update_entry fib adj old (hop ∷ hops) in
        record fib {
          table = modify_if (λ e. e.name == name) (λ _. refresh_if_due fib adj entry) fib.table;
          sent = fib.sent ++ cmds;
        }
  ]

  unfoldable pub update : Fib N F D → List (Adjacent N F D) → N → List (NextHop F D) → Fib N F D
  unfolding install hops_to_add
  update fib adj name all = install fib adj name (hops_to_add fib all)

  pub clean_commands : List (Adjacent N F D) → List (FibEntry N F D) → List (Command N)
  unfolding unregister_all
  clean_commands adj [] = []
  clean_commands adj (e ∷ table) =
      unregister_all adj e.name e.nexthop_set ++ clean_commands adj table

  unfoldable pub clean : Fib N F D → List (Adjacent N F D) → Fib N F D
  unfolding clean_commands
  clean fib adj = record fib { sent = fib.sent ++ clean_commands adj fib.table }

  -- The refresh event of a name, with scheduleLoop as its callback.
  unfoldable pub refresh_entry : Fib N F D → List (Adjacent N F D) → N → Fib N F D
  unfolding register_all schedule_entry_refresh
  refresh_entry fib adj name = elim (find_key entry_name name fib.table) [
    | none ↦ fib
    | some entry ↦ record fib {
      table =
          modify_if (λ e. e.name == name)
            (λ _. schedule_entry_refresh fib (record entry { seq_no = entry.seq_no + 1 }))
            fib.table;
      sent = fib.sent ++ register_all fib adj entry.name entry.nexthop_set;
    }
  ]
