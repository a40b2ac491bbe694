-- ===== src/Daemon/Absorbed.antt =====
-- Which calculation lets a router's new adjacency be announced.
use nlsr.Sequencing.{increased}
use nlsr.Prelude.Sets.{set_insert, find_key, find_key-set_insert, find_key-modify_if}
use nlsr.Daemon.{Daemon, with_hello, Awaited, origin_of}
use nlsr.Daemon.NewPath.{
  await_new_path_calculation, on_routing_calculation_completed, set_awaited, is_absorbed,
  absorbed_origins,
}
use nlsr.Prelude.{
  Eq, ◌==◌, ==_refl, Ord, if◌then◌else◌, ℕ, ◌≡◌, refl, Bool, true, false, Option, none, some, List,
  arith,
}

module _ {N : Type 0} ⦃n : Eq N⦄ ⦃no : Ord N⦄ where
  find_key-set_awaited :
      (k r : N) (b : ℕ) (l : List (Awaited N))
      → find_key origin_of k (set_awaited r b l)
        ≡ (if r == k then some (record { origin = r; barrier = b }) else find_key origin_of k l)
  unfolding set_awaited set_insert
  find_key-set_awaited k r b l =
      let new : Awaited N = record { origin = r; barrier = b } in
      ground
        (arith, find_key-set_insert origin_of k new l, find_key-modify_if origin_of k r new l refl)

  -- Where the list has an entry for a router, what a calculation does depends on its barrier.
  abbrev passed : ℕ → Option (Awaited N) → Bool
  passed serial none = false
  passed serial (some e) = is_absorbed serial e

  abbrev left : ℕ → Option (Awaited N) → Option (Awaited N)
  left serial none = none
  left serial (some e) = if is_absorbed serial e then none else some e

module _ {N F D : Type 0} ⦃n : Eq N⦄ ⦃no : Ord N⦄ where
  -- A route calculation ends: its afterRoutingChange is marked as its own.
  unfoldable pub calculation_done : Daemon N F D → Daemon N F D
  unfolding on_routing_calculation_completed
  calculation_done d = on_routing_calculation_completed (
      with_hello
        (record d.hello {
          routing_table = record d.hello.routing_table { change_from_calculation = true };
        })
        d)

  -- The routers that the next end of a calculation announces.
  abbrev pub next_announced : Daemon N F D → List N
  next_announced d = absorbed_origins (increased d.routing_calc_serial 1) d.awaiting_new_path_calc

  abbrev pub awaited : N → Daemon N F D → Option (Awaited N)
  awaited r d = find_key origin_of r d.awaiting_new_path_calc

  abbrev barrier_now : Daemon N F D → ℕ
  barrier_now d =
      if d.hello.routing_table.is_calculating
      then increased d.routing_calc_serial 1
      else d.routing_calc_serial

  pub awaited-await :
      (r : N) (d : Daemon N F D)
      → awaited r (await_new_path_calculation r d)
        ≡ some (record { origin = r; barrier = barrier_now d })
  unfolding await_new_path_calculation
  awaited-await r d =
      ground (arith, find_key-set_awaited r r (barrier_now d) d.awaiting_new_path_calc, ==_refl r)
