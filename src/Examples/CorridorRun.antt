-- ===== src/Examples/CorridorRun.antt =====
-- The corridor of router 10, which has the adjacency LSAs of 10 and 20 under the number 1, and is
-- told of the prefix 70 by its network 7.
use nlsr.Corridor.Associated.{was_queried}
use nlsr.Corridor.Follow.{on_available-queried}
use nlsr.Sequencing.{updated}
use nlsr.Lsa.{adjacency_lsa}
use nlsr.Corridor.{AdvertisementKey, availability_sent, replied, queried, Corridor}
use nlsr.Corridor.Advertise.{
  get_advertised_seq, has_advertised_face, get_branch_faces, new_corridor,
}
use nlsr.Lsdb.{Config, Lsdb}
use nlsr.Corridor.Events.{
  find_installed_lsa, BranchEntry, CorridorEvent, availability, query_answered, on_face_destroyed,
  snapshot_of, is_installed, on_query_answered,
}
use nlsr.Corridor.Names.{NameLibrary, encode_availability_name, parse_availability_name}
use nlsr.Corridor.Hooks.{on_available, on_lsdb_modified, corridor_step, corridor_run}
use nlsr.Corridor.RoundTrip.{parse_availability_name-encode_availability_name}
use nlsr.Corridor.Once.{was_sent, SentOnce, corridor_run-SentOnce}
use nlsr.Corridor.Installed.{key_installed, corridor_step-installed}
use nlsr.Corridor.Answers.{on_face_destroyed-gone, on_query_answered-advertised}
use nlsr.Examples.Values.{nat_ord, Tenths, tenths_double}
use nlsr.Examples.LsdbRun.{router_config, dirty}
use nlsr.Examples.LinkStateRun.{adj_lsa_of, own_neighbors}
use Prim.Native.String.{String}
use nlsr.Prelude.{
  is_in, nat_eq, nat_beq, ℕ, ◌≡◌, refl, Bool, true, false, ◌||◌, Option, none, some, List, [], ◌∷◌,
  arith,
}

data Component : Type 0 where
  text : String → Component
  count : ℕ → Component
  encoded : ℕ → Component

abbrev component_uri : Component → String
component_uri (text s) = s
component_uri (count k) = "%01"
component_uri (encoded name) = "%07"

abbrev counts : Component → Bool
counts (count k) = true
counts (text s) = false
counts (encoded name) = false

abbrev counted : Component → ℕ
counted (count k) = k
counted (text s) = 0
counted (encoded name) = 0

abbrev decoded : Component → Option ℕ
decoded (encoded name) = some name
decoded (text s) = none
decoded (count k) = none

-- A name is one component, and 0 is the empty name.
abbrev names_lib : NameLibrary ℕ Component
names_lib = record {
  components = λ name. text "ndn" ∷ [];
  generic = text;
  to_uri = component_uri;
  number = count;
  is_number = counts;
  to_number = counted;
  wire = encoded;
  unwired = decoded;
  is_empty = λ name. nat_beq name 0;
  uri_nlsr = refl;
  uri_optoflood = refl;
  uri_corridor = refl;
  uri_localhop = refl;
  uri_adjacency = refl;
  number-IsNumber = λ k h. refl;
  to_number-number = λ k h. refl;
  unwired-wire = λ name. refl;
}

parse_availability_name-encode_availability_name_example :
    parse_availability_name names_lib (encode_availability_name names_lib 7 adjacency_lsa 1 20 70)
    ≡ some (record { type = adjacency_lsa; seq = 1; origin = 20; prefix = 70 })
parse_availability_name-encode_availability_name_example =
    parse_availability_name-encode_availability_name names_lib 7 1 20 70 (omega arith) refl refl
      (refl, tt)

abbrev two_routers : Lsdb ℕ ℕ Tenths
two_routers = record dirty { lsdb = adj_lsa_of 10 own_neighbors ∷ adj_lsa_of 20 [] ∷ [] }

abbrev key_of_20 : AdvertisementKey ℕ
key_of_20 = record { origin = 20; type = adjacency_lsa; prefix = 70 }

abbrev answer : List (BranchEntry ℕ)
answer = record { branch_prefix = none; next_hop_faces = 300 ∷ 0 ∷ 301 ∷ [] } ∷ []

abbrev told : CorridorEvent ℕ ℕ Tenths Component
told = availability (encode_availability_name names_lib 7 adjacency_lsa 1 20 70) (some 302)

abbrev told_and_answered :
    List (Config ℕ ℕ Tenths × Lsdb ℕ ℕ Tenths × CorridorEvent ℕ ℕ Tenths Component)
told_and_answered =
    (router_config, two_routers, told)
    ∷ (router_config, two_routers, query_answered 70 answer)
    ∷ (router_config, two_routers, query_answered 70 answer)
    ∷ []

-- The second answer sends nothing.
told_and_answered_log :
    (corridor_run names_lib told_and_answered new_corridor).log
    ≡ availability_sent key_of_20 1 301
      ∷ availability_sent key_of_20 1 300
      ∷ queried 70
      ∷ replied (encode_availability_name names_lib 7 adjacency_lsa 1 20 70)
      ∷ []
unfolding corridor_run encode_availability_name
told_and_answered_log = refl

corridor_run-SentOnce_example : SentOnce (corridor_run names_lib told_and_answered new_corridor).log
corridor_run-SentOnce_example = corridor_run-SentOnce names_lib told_and_answered refl

abbrev associated : Corridor ℕ Component
associated = record {
  state = (key_of_20, record { seq = 1; advertised_faces = 300 ∷ [] }) ∷ [];
  branches = (70, 300 ∷ []) ∷ [];
  log = [];
}

corridor_step-installed_example :
    (was_sent key_of_20 1 301 associated.log || key_installed two_routers key_of_20 1) ≡ true
unfolding corridor_step
corridor_step-installed_example =
    corridor_step-installed router_config two_routers names_lib (query_answered 70 answer)
      associated key_of_20 1 301 refl

abbrev only_told : List (Config ℕ ℕ Tenths × Lsdb ℕ ℕ Tenths × CorridorEvent ℕ ℕ Tenths Component)
only_told = (router_config, two_routers, told) ∷ []

on_query_answered-advertised_example :
    let after =
      on_query_answered two_routers 70 answer (corridor_run names_lib only_told new_corridor) in
    (get_branch_faces 70 after ≡ 300 ∷ 301 ∷ [])
    × (has_advertised_face key_of_20 301 after ≡ true)
    × (was_sent key_of_20 1 301 after.log ≡ true)
unfolding corridor_run encode_availability_name snapshot_of get_advertised_seq is_installed
on_query_answered-advertised_example =
    on_query_answered-advertised two_routers names_lib only_told 70 answer key_of_20 301 refl

on_face_destroyed-gone_example :
    let after = on_face_destroyed 300 associated in
    (is_in 300 (get_branch_faces 70 after) ≡ false)
    × (has_advertised_face key_of_20 300 after ≡ false)
    × (get_advertised_seq key_of_20 after ≡ 1)
unfolding get_advertised_seq get_branch_faces has_advertised_face on_face_destroyed
on_face_destroyed-gone_example = on_face_destroyed-gone 300 associated 70 key_of_20 300

-- Between the availability and the LSA there is an answer.
on_available-queried_example :
    was_queried 70
      (on_lsdb_modified router_config two_routers (adj_lsa_of 20 []) updated (
        corridor_run names_lib
          ((router_config, record dirty { lsdb = [] }, query_answered 70 answer) ∷ [])
          (on_available
            (record dirty { lsdb = [] })
            (record { type = adjacency_lsa; seq = 1; origin = 20; prefix = 70 })
            302
            (new_corridor {C = Component})))).log
    ≡ true
unfolding find_installed_lsa get_advertised_seq is_installed corridor_run on_available
on_available-queried_example =
    on_available-queried router_config names_lib
      ((router_config, record dirty { lsdb = [] }, query_answered 70 answer) ∷ [])
      (record dirty { lsdb = [] }) two_routers (adj_lsa_of 20 []) updated 70 302
      (new_corridor {C = Component}) refl (omega arith) refl (omega arith) refl (omega arith) refl
      refl
