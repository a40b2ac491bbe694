-- ===== src/Daemon/NewPath.antt =====
-- nlsr.cpp: the announcement that a route calculation has taken up a router's new adjacency.
use nlsr.Prelude.Sets.{set_insert, by_key, find_key}
use nlsr.Lsa.{name_lsa, npl}
use nlsr.Lsdb.{Lsdb, find_lsa}
use nlsr.Sequencing.{increased}
use nlsr.Route.RoutingTable.{consume_after_routing_change_from_calculation}
use nlsr.Daemon.{
  Awaited, DaemonEffect, calculate_now_called, new_path_calculated, Daemon, origin_of, with_hello,
  emit,
}
use nlsr.Prelude.{
  Eq, ◌==◌, Ord, modify_if, ltb, if◌then◌else◌, is_some, ℕ, Bool, none, some, List, [], ◌∷◌, ◌++◌,
  map,
}

module _ {N : Type 0} ⦃n : Eq N⦄ ⦃no : Ord N⦄ where
  -- `m_awaitingNewPathCalc[origin] = barrier`
  unfoldable pub set_awaited : N → ℕ → List (Awaited N) → List (Awaited N)
  unfolding set_insert
  set_awaited origin barrier l =
      let new : Awaited N = record { origin = origin; barrier = barrier } in
      if is_some (find_key origin_of origin l)
      then modify_if (λ (e : Awaited N). e.origin == origin) (λ _. new) l
      else set_insert (by_key origin_of) new l

  abbrev pub is_absorbed : ℕ → Awaited N → Bool
  is_absorbed serial e = ltb e.barrier serial

  unfoldable pub still_awaited : ℕ → List (Awaited N) → List (Awaited N)
  still_awaited serial [] = []
  still_awaited serial (e ∷ l) =
      let rest = still_awaited serial l in if is_absorbed serial e then rest else e ∷ rest

  -- The routers whose calculation is done, in the order of the map.
  unfoldable pub absorbed_origins : ℕ → List (Awaited N) → List N
  absorbed_origins serial [] = []
  absorbed_origins serial (e ∷ l) =
      let rest = absorbed_origins serial l in if is_absorbed serial e then e.origin ∷ rest else rest

module _ {N F D : Type 0} ⦃n : Eq N⦄ ⦃no : Ord N⦄ where
  unfoldable pub await_new_path_calculation : N → Daemon N F D → Daemon N F D
  unfolding set_awaited
  await_new_path_calculation origin d =
      let barrier =
        if d.hello.routing_table.is_calculating
        then increased d.routing_calc_serial 1
        else d.routing_calc_serial in
      record d { awaiting_new_path_calc = set_awaited origin barrier d.awaiting_new_path_calc }

  -- What the constructor connects to originSettled.
  unfoldable pub on_origin_settled : N → Bool → Daemon N F D → Daemon N F D
  unfolding await_new_path_calculation
  on_origin_settled origin added d =
      emit (calculate_now_called ∷ []) (if added then await_new_path_calculation origin d else d)

  unfoldable pub announce_new_path_calculated : Lsdb N F D → N → ℕ → List (DaemonEffect N)
  unfolding find_lsa
  announce_new_path_calculated db origin serial = elim (find_lsa db origin name_lsa) [
    | none ↦ []
    | some l ↦ map (new_path_calculated serial) (npl l.body)
  ]

  unfoldable pub announce_all : Lsdb N F D → List N → ℕ → List (DaemonEffect N)
  unfolding announce_new_path_calculated
  announce_all db [] serial = []
  announce_all db (r ∷ rs) serial =
      announce_new_path_calculated db r serial ++ announce_all db rs serial

  unfoldable pub on_routing_calculation_completed : Daemon N F D → Daemon N F D
  unfolding consume_after_routing_change_from_calculation still_awaited absorbed_origins
      announce_all
  on_routing_calculation_completed d =
      let (from_calculation, table) =
        consume_after_routing_change_from_calculation d.hello.routing_table in
      let d = with_hello (record d.hello { routing_table = table }) d in
      let serial = increased d.routing_calc_serial 1 in
      if from_calculation
      then emit
          (announce_all d.hello.database (absorbed_origins serial d.awaiting_new_path_calc) serial)
          (record d {
            routing_calc_serial = serial;
            awaiting_new_path_calc = still_awaited serial d.awaiting_new_path_calc;
          })
      else d
