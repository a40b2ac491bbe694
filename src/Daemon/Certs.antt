-- ===== src/Daemon/Certs.antt =====
-- registerStrategyForCerts of nlsr.cpp: the strategies for the names of a router's certificates. A
-- name is the list of its components.
use nlsr.Route.Fib.{Command, set_strategy}
use nlsr.Prelude.{
  Eq, ◌==◌, ==_iff, is_in, length, length-append, if◌then◌else◌, ◌+◌, ◌*◌, ◌≡◌, refl, Bool, true,
  false, not, ◌&&◌, ◌||◌, List, [], ◌∷◌, ◌++◌, arith,
}

pub record CertNames (C : Type 0) : Type 0 where
  pub key_component : C
  pub nlsr_component : C
  pub operator_component : C
  -- Whether a component marks a router: the marker that is compared with in the source.
  pub is_router : C → Bool
  pub best_route_strategy : List C

module _ {C : Type 0} (c : CertNames C) where
  -- The components before the router's.
  unfoldable pub site_of : List C → List C
  site_of [] = []
  site_of (x ∷ xs) = let rest = site_of xs in if c.is_router x then [] else x ∷ rest

  unfoldable pub cert_strategies : List C → List (Command (List C))
  unfolding set_strategy site_of
  cert_strategies origin =
      set_strategy (origin ++ c.key_component ∷ []) c.best_route_strategy 0
      ++ (set_strategy (origin ++ c.nlsr_component ∷ c.key_component ∷ []) c.best_route_strategy 0
          ++ (set_strategy (site_of origin ++ c.key_component ∷ []) c.best_route_strategy 0
              ++ set_strategy (site_of origin ++ c.operator_component ∷ []) c.best_route_strategy
                  0))

  module _ ⦃n : Eq (List C)⦄ where
    -- The routers whose strategies are set, and the commands.
    unfoldable pub register_strategy_for_certs :
        List C → List (List C) → List (List C) × List (Command (List C))
    unfolding cert_strategies
    register_strategy_for_certs origin done =
        if is_in origin done then (done, []) else (done ++ origin ∷ [], cert_strategies origin)

    -- One new LSA of another router after the other.
    unfoldable pub register_each :
        List (List C) → List (List C) → List (List C) × List (Command (List C))
    unfolding register_strategy_for_certs
    register_each [] done = (done, [])
    register_each (origin ∷ origins) done =
        let (now, first) = register_strategy_for_certs origin done in
        let (last, rest) = register_each origins now in (last, first ++ rest)

    -- No router stands twice in the list.
    abbrev pub all_different : List (List C) → Bool
    all_different [] = true
    all_different (x ∷ xs) = not (is_in x xs) && all_different xs

    is_in-append :
        (x y : List C) (xs : List (List C)) → is_in x (xs ++ y ∷ []) ≡ (is_in x xs || x == y)
    is_in-append x y [] = ground arith
    is_in-append x y (z ∷ xs) = ground (arith, is_in-append x y xs)

    all_different-append :
        (y : List C) (xs : List (List C))
        → is_in y xs ≡ false
        → all_different xs ≡ true
        → all_different (xs ++ y ∷ []) ≡ true
    all_different-append y [] out d = refl
    all_different-append y (x ∷ xs) out d =
        ground (arith, all_different-append y xs, is_in-append x y xs, ==_iff x y, ==_iff y x)

    register_one :
        (origin : List C) (done : List (List C)) (r : List C)
        → all_different done ≡ true
        → let (now, commands) = register_strategy_for_certs origin done in
          (all_different now ≡ true)
          × (is_in r now ≡ (is_in r done || r == origin))
          × (length commands + 4 * length done ≡ 4 * length now)
    unfolding register_strategy_for_certs cert_strategies set_strategy
    register_one origin done r d = (
      ground (arith, all_different-append origin done),
      ground (arith, is_in-append r origin done, ==_iff r origin),
      ground (arith, length-append done (origin ∷ [])),
    )

    -- Four strategies are set for each router that is told of, once: however often a router's LSAs are
    -- told of, it stands once in the list of those that are done, and the list holds the routers that
    -- were told of and those that it held before.
    pub register_each-once :
        (origins done : List (List C)) (r : List C)
        → all_different done ≡ true
        → let (last, commands) = register_each origins done in
          (all_different last ≡ true)
          × (is_in r last ≡ (is_in r done || is_in r origins))
          × (length commands + 4 * length done ≡ 4 * length last)
    unfolding register_each
    register_each-once [] done r d = (d, ground arith, omega arith)
    register_each-once (origin ∷ origins) done r d =
        let (now, commands) = register_strategy_for_certs origin done in
        let (one, first, count) = register_one origin done r d in
        let (all, then_others, counts) = register_each-once origins now r one in
        let sizes = length-append commands (register_each origins now).1 in
        (all, ground arith, omega (arith, count, counts, sizes))
