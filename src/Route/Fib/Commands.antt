-- ===== src/Route/Fib/Commands.antt =====
-- The commands that the FIB sends to NFD.
use mathlib.Core.List.{append-nil}
use nlsr.Prelude.Sets.{set_difference, find_key-erase_if}
use nlsr.Route.Fib.Update.{entry_of, hops_in, IsValid, entry_name-found, hops_to_add-ne-nil}
use nlsr.Route.NexthopList.Lookup.{lookup, UniqueUris}
use nlsr.Route.NexthopList.{add_all}
use nlsr.Prelude.{
  Eq, ◌==◌, ==_iff, Ord, Double, take-nil, if◌then◌else◌, Bool-cases, Option-cases, ◌≡◌, refl, ◌≢◌,
  inl, inr, true, false, not, ◌&&◌, Option, none, some, List, [], ◌∷◌, ◌++◌, arith,
}
use nlsr.Adjacency.{is_neighbor, Adjacent}
use nlsr.Route.NextHop.{hop_uri_lt, NextHop}
use nlsr.Route.Fib.{
  FibEntry, Command, entry_name, unregister_all, is_not_neighbor, register_all,
  add_next_hops_to_fib_entry_and_nfd, update_entry, new_entry, hops_to_add, install, refresh_entry,
  remove, update, Fib,
}

module _ {N F D : Type 0} ⦃n : Eq N⦄ ⦃no : Ord N⦄ ⦃f : Eq F⦄ ⦃o : Ord F⦄ ⦃d : Double D⦄ where
  remove-neighbor :
      (fib : Fib N F D) (adj : List (Adjacent N F D)) (name : N)
      → is_neighbor adj name ≡ true
      → remove fib adj name ≡ fib
  unfolding remove is_not_neighbor
  remove-neighbor fib adj name h = elim (Option-cases (entry_of fib name)) [
    | inl e ↦ rw (e, remove)
    | inr (old, e) ↦ rw (e, remove) (ground (arith, entry_name-found name fib.table old e))
  ]

  remove-other :
      (fib : Fib N F D) (adj : List (Adjacent N F D)) (name k : N)
      → IsValid fib
      → is_neighbor adj name ≡ false
      → (entry_of (remove fib adj name) k ≡ (if name == k then none else entry_of fib k))
        × ((remove fib adj name).sent
            ≡ fib.sent ++ unregister_all adj name (hops_in (entry_of fib name)))
  unfolding remove is_not_neighbor unregister_all
  remove-other fib adj name k v h = elim (Option-cases (entry_of fib name)) [
    | inl e ↦
        rw (e, remove) (ground (arith, e, ==_iff name k), ground (arith, e, append-nil fib.sent))
    | inr (old, e) ↦
        rw (e, remove)
          (
            ground (
              arith,
              e,
              entry_name-found name fib.table old e,
              find_key-erase_if entry_name k name fib.table v.names,
            ),
            ground (arith, e, entry_name-found name fib.table old e),
          )
  ]

  -- The faces of an existing entry that the new hops do not have.
  abbrev pub outgoing : FibEntry N F D → List (NextHop F D) → List (NextHop F D)
  outgoing old hops = set_difference hop_uri_lt (add_all hop_uri_lt hops old.nexthop_set) hops

  -- What `update` sends for a name that is not a neighbour's, once the hops are chosen.
  abbrev pub commands_for :
      Fib N F D
      → List (Adjacent N F D)
      → N
      → List (NextHop F D)
      → Option (FibEntry N F D)
      → List (Command N)
  commands_for fib adj name hops none = register_all fib adj name hops
  commands_for fib adj name hops (some old) =
      register_all fib adj name hops ++ unregister_all adj name (outgoing old hops)

  install-sent :
      (fib : Fib N F D) (adj : List (Adjacent N F D)) (name : N) (hop : NextHop F D)
      (hops : List (NextHop F D))
      → (install fib adj name (hop ∷ hops)).sent ≡ (
          if is_neighbor adj name
          then fib.sent
          else fib.sent ++ commands_for fib adj name (hop ∷ hops) (entry_of fib name))
  unfolding install update_entry add_next_hops_to_fib_entry_and_nfd new_entry is_not_neighbor
  install-sent fib adj name hop hops = elim (Option-cases (entry_of fib name)) [
    | inl e ↦ rw (e, install) (ground (arith, e, append-nil fib.sent))
    | inr (old, e) ↦
        rw (e, install)
          (ground (arith, e, entry_name-found name fib.table old e, append-nil fib.sent))
  ]

  -- What `update` sends, by the functions that make the commands.
  pub update-commands :
      (fib : Fib N F D) (adj : List (Adjacent N F D)) (name : N) (all : List (NextHop F D))
      → UniqueUris all
      → all ≢ []
      → (update fib adj name all).sent ≡ (
          if is_neighbor adj name
          then fib.sent
          else fib.sent ++ commands_for fib adj name (hops_to_add fib all) (entry_of fib name))
  unfolding update
  update-commands fib adj name all q nonempty =
      from_hops (hops_to_add fib all) (hops_to_add-ne-nil fib all q nonempty)
    where
      from_hops :
          (hops : List (NextHop F D))
          → hops ≢ []
          → (install fib adj name hops).sent ≡ (
              if is_neighbor adj name
              then fib.sent
              else fib.sent ++ commands_for fib adj name hops (entry_of fib name))
      from_hops [] h = absurd (h refl)
      from_hops (hop ∷ hops) h = install-sent fib adj name hop hops

  -- Without next hops `update` takes the entry of a name that is not a neighbour's out of a valid
  -- table, keeps the entries of the other names, and unregisters each face of the entry; for the
  -- name of a neighbour it keeps the entry and sends nothing.
  pub update-no_hops :
      (fib : Fib N F D) (adj : List (Adjacent N F D)) (name k : N)
      → IsValid fib
      → (entry_of (update fib adj name []) k
          ≡ (if name == k && not (is_neighbor adj name) then none else entry_of fib k))
        × ((update fib adj name []).sent ≡ (
            if is_neighbor adj name
            then fib.sent
            else fib.sent ++ unregister_all adj name (hops_in (entry_of fib name))))
  unfolding update hops_to_add install add_all
  update-no_hops fib adj name k v = elim (Bool-cases (is_neighbor adj name)) [
    | inl near ↦ let same = remove-neighbor fib adj name near in rw (take-nil, same) (ground arith)
    | inr far ↦ let other = remove-other fib adj name k v far in ground arith
  ]

  -- The refresh event registers the hops that the entry holds.
  pub refreshed :
      (fib : Fib N F D) (adj : List (Adjacent N F D)) (name : N) (hop : NextHop F D) (u : F)
      → lookup u (hops_in (entry_of fib name)) ≡ some hop
      → (refresh_entry fib adj name).sent
        ≡ fib.sent ++ register_all fib adj name (hops_in (entry_of fib name))
  unfolding refresh_entry
  refreshed fib adj name hop u h = elim (Option-cases (entry_of fib name)) [
    | inl e ↦ absurd (ground (arith, e))
    | inr (old, e) ↦
        rw (e, refresh_entry) (ground (arith, e, entry_name-found name fib.table old e))
  ]
