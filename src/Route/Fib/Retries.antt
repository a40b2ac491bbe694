-- ===== src/Route/Fib/Retries.antt =====
-- The retries of commands that NFD refuses.
use nlsr.Adjacency.{Adjacent, get_face_id}
use nlsr.Route.Fib.{
  Command, register, unregister, set_strategy_choice, register_prefix, on_registration_failure,
  set_strategy, on_set_strategy_failure,
}
use nlsr.Prelude.{Eq, length, ℕ, zero, suc, ◌+◌, ◌-◌, ◌≤◌, ◌≡◌, refl, List, [], ◌∷◌, ◌++◌, arith}

module _ {N F D : Type 0} ⦃f : Eq F⦄ (adj : ℕ → List (Adjacent N F D)) (uri : F) where
  -- What goes to NFD while each command is refused; before the retry of a command that failed `k` times
  -- the neighbours are `adj k`.
  unfoldable pub refused : ℕ → List (Command N) → List (Command N)
  unfolding on_registration_failure on_set_strategy_failure
  refused zero commands = commands
  refused (suc fuel) [] = []
  refused (suc fuel) (register name id cost timeout flags times ∷ commands) =
      register name id cost timeout flags times
      ∷ refused fuel
          (on_registration_failure (adj times) name cost timeout flags uri times ++ commands)
  refused (suc fuel) (set_strategy_choice name strategy count ∷ commands) =
      set_strategy_choice name strategy count
      ∷ refused fuel (on_set_strategy_failure name strategy count ++ commands)
  refused (suc fuel) (unregister name id ∷ commands) = unregister name id ∷ refused fuel commands

  refused-nil : (fuel : ℕ) → refused fuel [] ≡ []
  unfolding refused
  refused-nil zero = refl
  refused-nil (suc fuel) = refl

  refused-register :
      (fuel : ℕ) (name : N) (id cost timeout flags times : ℕ)
      → times ≤ 3
      → length (refused fuel (register name id cost timeout flags times ∷ [])) ≤ 4 - times
  unfolding refused on_registration_failure register_prefix
  refused-register zero name id cost timeout flags times h = omega arith
  refused-register (suc fuel) name id cost timeout flags times h =
      let face = get_face_id (adj times) uri in
      let again = refused-register fuel name face cost timeout flags (times + 1) in
      ground (arith, again, refused-nil fuel)

  refused-strategy :
      (fuel : ℕ) (name strategy : N) (count : ℕ)
      → count ≤ 3
      → length (refused fuel (set_strategy_choice name strategy count ∷ [])) ≤ 4 - count
  unfolding refused on_set_strategy_failure set_strategy
  refused-strategy zero name strategy count h = omega arith
  refused-strategy (suc fuel) name strategy count h =
      let again = refused-strategy fuel name strategy (count + 1) in
      ground (arith, again, refused-nil fuel)

  -- A registration, and the choice of a strategy, is sent at most four times however often NFD
  -- refuses it, whatever becomes of the neighbours' faces in between.
  pub refused-at_most_four :
      (fuel : ℕ) (now : List (Adjacent N F D)) (name strategy : N) (cost timeout flags : ℕ)
      → (length (refused fuel (register_prefix now name uri cost timeout flags 0)) ≤ 4)
        × (length (refused fuel (set_strategy name strategy 0)) ≤ 4)
  unfolding register_prefix set_strategy
  refused-at_most_four fuel now name strategy cost timeout flags =
      let face = get_face_id now uri in
      let registered = refused-register fuel name face cost timeout flags 0 (omega arith) in
      let chosen = refused-strategy fuel name strategy 0 (omega arith) in
      (ground (arith, registered, refused-nil fuel), ground (arith, chosen))
