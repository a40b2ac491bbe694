-- ===== src/Route/Fib/Offers.antt =====
-- fib.cpp: the registrations of a list of next hops are among what the list offers.
use nlsr.Prelude.{
  Eq, Ord, Double, take, erase_if, nat_beq, ℕ, ◌≡◌, refl, Bool, true, false, ◌&&◌, ◌||◌, List, [],
  ◌∷◌, arith,
}
use nlsr.Adjacency.{Adjacent, get_face_id}
use nlsr.Route.NextHop.{NextHop, get_route_cost_as_adjusted_integer, hop_uri_lt}
use nlsr.Route.NexthopList.{has_uri, add_next_hop, add_all}
use nlsr.Route.Fib.{
  Fib, register_prefix, unregister_prefix, unregister_all, get_number_of_faces_for_name,
  register_hop, register_all, hops_to_add,
}
use nlsr.Prelude.Sets.{set_insert}
use nlsr.Route.Fib.Log.{has_registered, has_registered-append}

module _ {N F D : Type 0} ⦃n : Eq N⦄ ⦃no : Ord N⦄ ⦃f : Eq F⦄ ⦃o : Ord F⦄ ⦃d : Double D⦄ where
  -- Some hop of the list goes through the face at the cost.
  abbrev pub any_offer : List (Adjacent N F D) → ℕ → ℕ → List (NextHop F D) → Bool
  any_offer adj face cost [] = false
  any_offer adj face cost (x ∷ xs) =
      (nat_beq (get_face_id adj x.uri) face && nat_beq (get_route_cost_as_adjusted_integer x) cost)
      || any_offer adj face cost xs

  pub register_all-only :
      (fib : Fib N F D) (adj : List (Adjacent N F D)) (name : N) (hops : List (NextHop F D))
      (face cost time flags : ℕ)
      → has_registered name face cost time flags (register_all fib adj name hops) ≡ true
      → any_offer adj face cost hops ≡ true
  unfolding register_all register_hop register_prefix
  register_all-only fib adj name [] face cost time flags h = ground arith
  register_all-only fib adj name (x ∷ xs) face cost time flags h = ground (
    arith,
    register_all-only fib adj name xs face cost time flags,
    has_registered-append name face cost time flags (register_hop fib adj name x)
        (register_all fib adj name xs),
  )

  pub unregister_all-only :
      (adj : List (Adjacent N F D)) (name k : N) (hops : List (NextHop F D))
      (face cost time flags : ℕ)
      → has_registered name face cost time flags (unregister_all adj k hops) ≡ false
  unfolding unregister_all unregister_prefix
  unregister_all-only adj name k [] face cost time flags = refl
  unregister_all-only adj name k (x ∷ xs) face cost time flags = ground (
    arith,
    unregister_all-only adj name k xs face cost time flags,
    has_registered-append name face cost time flags (unregister_prefix adj k x.uri)
        (unregister_all adj k xs),
  )

  any_offer-set_insert :
      (adj : List (Adjacent N F D)) (face cost : ℕ) (hop : NextHop F D) (set : List (NextHop F D))
      → any_offer adj face cost (set_insert hop_uri_lt hop set) ≡ true
      → any_offer adj face cost (hop ∷ set) ≡ true
  unfolding set_insert
  any_offer-set_insert adj face cost hop [] h = h
  any_offer-set_insert adj face cost hop (x ∷ xs) h =
      ground (arith, any_offer-set_insert adj face cost hop xs)

  any_offer-erase_if :
      (adj : List (Adjacent N F D)) (face cost : ℕ) (p : NextHop F D → Bool)
      (set : List (NextHop F D))
      → any_offer adj face cost (erase_if p set) ≡ true
      → any_offer adj face cost set ≡ true
  any_offer-erase_if adj face cost p [] h = h
  any_offer-erase_if adj face cost p (x ∷ xs) h =
      ground (arith, any_offer-erase_if adj face cost p xs)

  any_offer-add_next_hop :
      (adj : List (Adjacent N F D)) (face cost : ℕ) (hop : NextHop F D) (set : List (NextHop F D))
      → any_offer adj face cost (add_next_hop hop_uri_lt hop set) ≡ true
      → any_offer adj face cost (hop ∷ set) ≡ true
  unfolding add_next_hop
  any_offer-add_next_hop adj face cost hop set h = ground (
    arith,
    any_offer-set_insert adj face cost hop set,
    any_offer-set_insert adj face cost hop (erase_if (has_uri hop.uri) set),
    any_offer-erase_if adj face cost (has_uri hop.uri) set,
  )

  any_offer-add_all :
      (adj : List (Adjacent N F D)) (face cost : ℕ) (hops set : List (NextHop F D))
      → any_offer adj face cost (add_all hop_uri_lt hops set) ≡ true
      → (any_offer adj face cost hops || any_offer adj face cost set) ≡ true
  unfolding add_all
  any_offer-add_all adj face cost [] set h = h
  any_offer-add_all adj face cost (hop ∷ hops) set h = ground (
    arith,
    any_offer-add_all adj face cost hops (add_next_hop hop_uri_lt hop set),
    any_offer-add_next_hop adj face cost hop set,
  )

  pub any_offer-hops_to_add :
      (fib : Fib N F D) (adj : List (Adjacent N F D)) (face cost : ℕ) (all : List (NextHop F D))
      → any_offer adj face cost (hops_to_add fib all) ≡ true
      → any_offer adj face cost (take (get_number_of_faces_for_name fib all) all) ≡ true
  unfolding hops_to_add
  any_offer-hops_to_add fib adj face cost all h =
      ground (
        arith,
        any_offer-add_all adj face cost (take (get_number_of_faces_for_name fib all) all) [],
      )
