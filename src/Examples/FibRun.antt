-- ===== src/Examples/FibRun.antt =====
-- A FIB whose prefix 7 has the face 2, before and after updates.
use nlsr.Route.Fib.Log.{is_registered}
use nlsr.Route.Fib.Sent.{refresh-registers-old_cost}
use nlsr.Adjacency.{get_face_id, is_neighbor}
use nlsr.Prelude.Sets.{set_difference}
use nlsr.Route.NexthopList.{add_all, add_next_hop, remove_all}
use nlsr.Prelude.{nat_eq, ℕ, ◌≡◌, refl, true, false, some, List, [], ◌∷◌, ◌++◌, arith}
use nlsr.Examples.Values.{Tenths, tenths, nat_ord, tenths_double}
use nlsr.Examples.LinkStateRun.{own_neighbors}
use nlsr.Route.NextHop.{NextHop}
use nlsr.Route.NexthopList.Lookup.{lookup}
use nlsr.Route.Fib.{
  Command, FibEntry, get_number_of_faces_for_name, remove, update, refresh_entry, Fib,
}
use nlsr.Route.Fib.Update.{entry_of, hops_in, update-entries, IsValid}
use nlsr.Route.Fib.Valid.{operations-IsValid}

abbrev pub hop : ℕ → ℕ → NextHop ℕ Tenths
hop uri cost = record { uri = uri; route_cost = tenths cost; is_hyperbolic = false }

abbrev prefix_entry : FibEntry ℕ ℕ Tenths
prefix_entry = record {
  name = 7;
  refresh_event = some 100;
  seq_no = 1;
  nexthop_set = hop 2 21 ∷ [];
}

abbrev one_prefix : Fib ℕ ℕ Tenths
one_prefix = record {
  refresh_time = 100;
  max_faces_per_prefix = 0;
  route_flag_capture = 2;
  table = prefix_entry ∷ [];
  sent = [];
}

one_prefix-IsValid : IsValid one_prefix
one_prefix-IsValid = record { names = (tt, tt); sets = ((tt, tt), tt) }

abbrev dearer : List (NextHop ℕ Tenths)
dearer = hop 2 51 ∷ hop 3 61 ∷ []

updated_table :
    (update one_prefix own_neighbors 7 dearer).table
    ≡ record {
      name = 7;
      refresh_event = some 100;
      seq_no = 2;
      nexthop_set = hop 2 21 ∷ hop 3 61 ∷ [];
    }
      ∷ []
unfolding update add_all add_next_hop remove_all set_difference
updated_table = refl

update-entries_example :
    lookup 2 (hops_in (entry_of (update one_prefix own_neighbors 7 dearer) 7)) ≡ some (hop 2 21)
unfolding get_number_of_faces_for_name
update-entries_example =
    update-entries one_prefix own_neighbors 7 dearer 2 one_prefix-IsValid (refl, (refl, tt))
      (λ e. cc e)

operations-IsValid_example :
    IsValid (update one_prefix own_neighbors 7 dearer)
    × IsValid (remove one_prefix own_neighbors 7)
    × IsValid (refresh_entry one_prefix own_neighbors 7)
operations-IsValid_example = operations-IsValid one_prefix own_neighbors 7 dearer one_prefix-IsValid

refresh-registers-old_cost_example :
    let fib' = update one_prefix own_neighbors 7 dearer in
    (lookup 2 (hops_in (entry_of fib' 7)) ≡ some (hop 2 21))
    × ((cmds : List (Command ℕ)) × (fib'.sent ≡ [] ++ cmds)
        × (is_registered one_prefix own_neighbors 7 (hop 2 51) cmds ≡ true))
    × ((cmds : List (Command ℕ)) × ((refresh_entry fib' own_neighbors 7).sent ≡ fib'.sent ++ cmds)
        × (is_registered fib' own_neighbors 7 (hop 2 21) cmds ≡ true))
unfolding get_number_of_faces_for_name is_neighbor get_face_id
refresh-registers-old_cost_example =
    refresh-registers-old_cost one_prefix own_neighbors 7 dearer (hop 2 21) (hop 2 51)
      one_prefix-IsValid (refl, (refl, tt)) refl (omega arith) refl refl (omega arith)
