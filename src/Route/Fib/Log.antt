-- ===== src/Route/Fib/Log.antt =====
-- fib.cpp: the log of the commands, read by name, face and cost.
-- The log has a first attempt to register the name for the face, at the cost and for the time.
use nlsr.Prelude.{
  Eq, ◌==◌, ==_refl, ==_iff, Ord, Double, nat_beq, ℕ, ◌+◌, ◌<◌, ◌≡◌, refl, Bool, true, false, ◌&&◌,
  ◌||◌, some, List, [], ◌∷◌, ◌++◌, arith,
}
use nlsr.Adjacency.{Adjacent, find_face_uri, get_face_id}
use nlsr.Route.NextHop.{NextHop, get_route_cost_as_adjusted_integer}
use nlsr.Route.NexthopList.Lookup.{lookup}
use nlsr.Route.Fib.{
  Command, register, unregister, set_strategy_choice, Fib, register_prefix, unregister_prefix,
  unregister_all, register_hop, register_all,
}

abbrev pub has_registered : {N : Type 0} ⦃n : Eq N⦄ → N → ℕ → ℕ → ℕ → ℕ → List (Command N) → Bool
has_registered name face cost time flags [] = false
has_registered name face cost time flags (register k i c t g times ∷ log) =
    (k == name
      && nat_beq i face
      && nat_beq c cost
      && nat_beq t time
      && nat_beq g flags
      && nat_beq times 0)
    || has_registered name face cost time flags log
has_registered name face cost time flags (unregister k i ∷ log) =
    has_registered name face cost time flags log
has_registered name face cost time flags (set_strategy_choice k s times ∷ log) =
    has_registered name face cost time flags log

abbrev pub has_unregistered : {N : Type 0} ⦃n : Eq N⦄ → N → ℕ → List (Command N) → Bool
has_unregistered name face [] = false
has_unregistered name face (register k i c t g times ∷ log) = has_unregistered name face log
has_unregistered name face (unregister k i ∷ log) =
    (k == name && nat_beq i face) || has_unregistered name face log
has_unregistered name face (set_strategy_choice k s times ∷ log) = has_unregistered name face log

module _ {N : Type 0} ⦃n : Eq N⦄ where
  pub has_registered-append :
      (name : N) (face cost time flags : ℕ) (log new : List (Command N))
      → has_registered name face cost time flags (log ++ new) ≡ (
          has_registered name face cost time flags log
          || has_registered name face cost time flags new)
  has_registered-append name face cost time flags [] new = refl
  has_registered-append name face cost time flags (register k i c t g times ∷ log) new =
      ground (arith, has_registered-append name face cost time flags log new)
  has_registered-append name face cost time flags (unregister k i ∷ log) new =
      has_registered-append name face cost time flags log new
  has_registered-append name face cost time flags (set_strategy_choice k s times ∷ log) new =
      has_registered-append name face cost time flags log new

  pub has_unregistered-append :
      (name : N) (face : ℕ) (log new : List (Command N))
      → has_unregistered name face (log ++ new)
        ≡ (has_unregistered name face log || has_unregistered name face new)
  has_unregistered-append name face [] new = refl
  has_unregistered-append name face (register k i c t g times ∷ log) new =
      has_unregistered-append name face log new
  has_unregistered-append name face (unregister k i ∷ log) new =
      ground (arith, has_unregistered-append name face log new)
  has_unregistered-append name face (set_strategy_choice k s times ∷ log) new =
      has_unregistered-append name face log new

module _ {N F D : Type 0} ⦃n : Eq N⦄ ⦃no : Ord N⦄ ⦃f : Eq F⦄ ⦃o : Ord F⦄ ⦃d : Double D⦄ where
  -- The hop is registered for the name, at its cost and longer than until the next refresh.
  abbrev pub is_registered :
      Fib N F D → List (Adjacent N F D) → N → NextHop F D → List (Command N) → Bool
  is_registered fib adj name hop log =
      has_registered name (get_face_id adj hop.uri) (get_route_cost_as_adjusted_integer hop)
        (fib.refresh_time + 10) fib.route_flag_capture log

  pub register_all-is_registered :
      (fib : Fib N F D) (adj : List (Adjacent N F D)) (name : N) (hops : List (NextHop F D)) (u : F)
      (hop : NextHop F D)
      → lookup u hops ≡ some hop
      → 0 < get_face_id adj u
      → is_registered fib adj name hop (register_all fib adj name hops) ≡ true
  unfolding register_all register_hop register_prefix
  register_all-is_registered fib adj name [] u hop h face = ground arith
  register_all-is_registered fib adj name (x ∷ xs) u hop h face = ground (
    arith,
    ==_iff x.uri u,
    ==_refl name,
    register_all-is_registered fib adj name xs u hop,
    has_registered-append name (get_face_id adj hop.uri) (get_route_cost_as_adjusted_integer hop)
        (fib.refresh_time + 10) fib.route_flag_capture (register_hop fib adj name x)
        (register_all fib adj name xs),
  )

  pub unregister_all-has :
      (adj : List (Adjacent N F D)) (name : N) (hops : List (NextHop F D)) (u : F)
      (hop : NextHop F D)
      → lookup u hops ≡ some hop
      → 0 < get_face_id adj u
      → has_unregistered name (get_face_id adj u) (unregister_all adj name hops) ≡ true
  unfolding unregister_all unregister_prefix get_face_id find_face_uri
  unregister_all-has adj name [] u hop h face = ground arith
  unregister_all-has adj name (x ∷ xs) u hop h face = ground (
    arith,
    ==_iff x.uri u,
    ==_refl name,
    unregister_all-has adj name xs u hop,
    has_unregistered-append name (get_face_id adj u) (unregister_prefix adj name x.uri)
        (unregister_all adj name xs),
  )
