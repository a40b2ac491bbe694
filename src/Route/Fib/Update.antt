-- ===== src/Route/Fib/Update.antt =====
-- What `update` and `remove` do to the table: the entry of the name, and the others.
use nlsr.Prelude.{
  Eq, ◌==◌, ==_refl, ==_iff, Ord, Double, take, if◌then◌else◌, Option-cases, is_some, ◌<◌, ◌≡◌,
  refl, ◌∙◌, ◌≢◌, inl, inr, Option, none, some, List, [], ◌∷◌, arith,
}
use nlsr.Prelude.Sets.{find_key-modify_if, find_key-set_insert, IsSorted, find_key}
use nlsr.Adjacency.{Adjacent}
use nlsr.Route.NextHop.{NextHop}
use nlsr.Route.NexthopList.Lookup.{lookup-take_first, lookup, UniqueUris, offered, IsUriSorted}
use nlsr.Route.Fib.Entry.{
  lookup-update_entry, hops_to_add-IsUriSorted, lookup-hops_to_add, lookup-new_entry,
}
use nlsr.Route.Fib.{
  hops_to_add, get_number_of_faces_for_name, update, add_next_hops_to_fib_entry_and_nfd,
  refresh_if_due, update_entry, new_entry, FibEntry, Fib, entry_name, install,
}

module _ {N F D : Type 0} ⦃n : Eq N⦄ ⦃no : Ord N⦄ ⦃f : Eq F⦄ ⦃o : Ord F⦄ ⦃d : Double D⦄ where
  abbrev pub entry_of : Fib N F D → N → Option (FibEntry N F D)
  entry_of fib name = find_key entry_name name fib.table

  -- The next hops that the table holds for a name, none where it has no entry.
  abbrev pub hops_in : Option (FibEntry N F D) → List (NextHop F D)
  hops_in none = []
  hops_in (some e) = e.nexthop_set

  abbrev pub SetsSorted : List (FibEntry N F D) → Type 0
  SetsSorted [] = Unit {0}
  SetsSorted (e ∷ es) = IsUriSorted e.nexthop_set × SetsSorted es

  -- The table is a map, and each entry's next hops are a set ordered by URI.
  pub record IsValid (fib : Fib N F D) : Type 0 where
    pub names : IsSorted entry_name fib.table
    pub sets : SetsSorted fib.table

  pub hops_in-IsUriSorted :
      (name : N) (table : List (FibEntry N F D))
      → SetsSorted table
      → IsUriSorted (hops_in (find_key entry_name name table))
  hops_in-IsUriSorted name [] s = tt
  hops_in-IsUriSorted name (e ∷ es) s = ground (arith, hops_in-IsUriSorted name es s.1)

  pub entry_name-found :
      (name : N) (table : List (FibEntry N F D)) (e : FibEntry N F D)
      → find_key entry_name name table ≡ some e
      → e.name ≡ name
  entry_name-found name [] e h = cc
  entry_name-found name (x ∷ xs) e h =
      ground (arith, entry_name-found name xs e, ==_iff x.name name)

  pub refresh_if_due-name :
      (fib : Fib N F D) (adj : List (Adjacent N F D)) (e : FibEntry N F D)
      → (refresh_if_due fib adj e).name ≡ e.name
  unfolding refresh_if_due
  refresh_if_due-name fib adj e = ground arith

  pub refresh_if_due-nexthop_set :
      (fib : Fib N F D) (adj : List (Adjacent N F D)) (e : FibEntry N F D)
      → (refresh_if_due fib adj e).nexthop_set ≡ e.nexthop_set
  unfolding refresh_if_due
  refresh_if_due-nexthop_set fib adj e = ground arith

  -- The entry that `install` leaves for the name, by the entry that it found.
  unfoldable pub entry_after :
      Fib N F D
      → List (Adjacent N F D)
      → N
      → List (NextHop F D)
      → Option (FibEntry N F D)
      → FibEntry N F D
  entry_after fib adj name hops none =
      refresh_if_due fib adj (add_next_hops_to_fib_entry_and_nfd fib adj (new_entry name) hops).0
  entry_after fib adj name hops (some old) =
      refresh_if_due fib adj (update_entry fib adj old hops).0

  pub entry_after-name :
      (fib : Fib N F D) (adj : List (Adjacent N F D)) (name : N) (hops : List (NextHop F D))
      (found : Option (FibEntry N F D))
      → ((e : FibEntry N F D) → found ≡ some e → e.name ≡ name)
      → (entry_after fib adj name hops found).name ≡ name
  unfolding entry_after add_next_hops_to_fib_entry_and_nfd new_entry update_entry
  entry_after-name fib adj name hops none h = refresh_if_due-name fib adj _
  entry_after-name fib adj name hops (some old) h = refresh_if_due-name fib adj _ ∙ h old refl

  pub entry_of-install :
      (fib : Fib N F D) (adj : List (Adjacent N F D)) (name k : N) (hop : NextHop F D)
      (hops : List (NextHop F D))
      → entry_of (install fib adj name (hop ∷ hops)) k ≡ (
          if name == k
          then some (entry_after fib adj name (hop ∷ hops) (entry_of fib name))
          else entry_of fib k)
  unfolding install entry_after
  entry_of-install fib adj name k hop hops = elim (Option-cases (entry_of fib name)) [
    | inl e ↦
        rw (e, install, entry_after)
          (ground (
            arith,
            find_key-set_insert entry_name k (entry_after fib adj name (hop ∷ hops) none) fib.table,
            entry_after-name fib adj name (hop ∷ hops) none (λ x h. cc),
          ))
    | inr (old, e) ↦
        rw (e, install, entry_after)
          (ground (
            arith,
            e,
            find_key-modify_if entry_name k name (entry_after fib adj name (hop ∷ hops) (some old))
                fib.table,
            entry_after-name fib adj name (hop ∷ hops) (some old)
                (λ x h. entry_name-found name fib.table x (e ∙ h)),
          ))
  ]

  lookup-entry_after :
      (fib : Fib N F D) (adj : List (Adjacent N F D)) (name : N) (hops : List (NextHop F D))
      (found : Option (FibEntry N F D)) (u : F)
      → IsUriSorted (hops_in found)
      → IsUriSorted hops
      → lookup u (entry_after fib adj name hops found).nexthop_set ≡ (
          if is_some (lookup u hops)
          then offered (lookup u hops) (lookup u (hops_in found))
          else none)
  unfolding entry_after
  lookup-entry_after fib adj name hops none u s k = ground (
    arith,
    refresh_if_due-nexthop_set fib adj
        (add_next_hops_to_fib_entry_and_nfd fib adj (new_entry name) hops).0,
    lookup-new_entry fib adj name hops u k,
  )
  lookup-entry_after fib adj name hops (some old) u s k = ground (
    arith,
    refresh_if_due-nexthop_set fib adj (update_entry fib adj old hops).0,
    lookup-update_entry fib adj old hops u s k,
  )

  get_number_of_faces_for_name-pos :
      (fib : Fib N F D) (hop : NextHop F D) (hops : List (NextHop F D))
      → 0 < get_number_of_faces_for_name fib (hop ∷ hops)
  unfolding get_number_of_faces_for_name
  get_number_of_faces_for_name-pos fib hop hops = ground arith

  pub hops_to_add-ne-nil :
      (fib : Fib N F D) (all : List (NextHop F D))
      → UniqueUris all
      → all ≢ []
      → hops_to_add fib all ≢ []
  hops_to_add-ne-nil fib [] q h e = h refl
  hops_to_add-ne-nil fib (x ∷ xs) q h e = cc (
    lookup-hops_to_add fib (x ∷ xs) x.uri q,
    lookup-take_first (get_number_of_faces_for_name fib (x ∷ xs)) x xs
        (get_number_of_faces_for_name-pos fib x xs),
  )

  install-entries :
      (fib : Fib N F D) (adj : List (Adjacent N F D)) (name k : N) (hops : List (NextHop F D))
      (u : F)
      → IsValid fib
      → IsUriSorted hops
      → hops ≢ []
      → (lookup u (hops_in (entry_of (install fib adj name hops) name)) ≡ (
          if is_some (lookup u hops)
          then offered (lookup u hops) (lookup u (hops_in (entry_of fib name)))
          else none))
        × (name ≢ k → entry_of (install fib adj name hops) k ≡ entry_of fib k)
  install-entries fib adj name k [] u v s h = absurd (h refl)
  install-entries fib adj name k (hop ∷ hops) u v s h = (
    ground (
      arith,
      entry_of-install fib adj name name hop hops,
      ==_refl name,
      lookup-entry_after fib adj name (hop ∷ hops) (entry_of fib name) u
          (hops_in-IsUriSorted name fib.table v.sets) s,
    ),
    λ ne. ground (arith, ne, entry_of-install fib adj name k hop hops, ==_iff name k),
  )

  -- What `update-entries` and `update-other_entries` state.
  pub update_lem :
      (fib : Fib N F D) (adj : List (Adjacent N F D)) (name k : N) (all : List (NextHop F D))
      (u : F)
      → IsValid fib
      → UniqueUris all
      → all ≢ []
      → let new = lookup u (take (get_number_of_faces_for_name fib all) all) in
        (lookup u (hops_in (entry_of (update fib adj name all) name))
          ≡ (if is_some new then offered new (lookup u (hops_in (entry_of fib name))) else none))
        × (name ≢ k → entry_of (update fib adj name all) k ≡ entry_of fib k)
  unfolding update
  update_lem fib adj name k all u v q nonempty = rw (← lookup-hops_to_add fib all u q) (
      install-entries fib adj name k (hops_to_add fib all) u v (hops_to_add-IsUriSorted fib all)
        (hops_to_add-ne-nil fib all q nonempty))

  -- With at least one next hop, `update` leaves the name with the faces of the first hops of the
  -- list, as many as the configuration allows, each at the cheaper of its old and new hop. The
  -- table must be valid, and the list must offer each face once.
  pub update-entries :
      (fib : Fib N F D) (adj : List (Adjacent N F D)) (name : N) (all : List (NextHop F D)) (u : F)
      → IsValid fib
      → UniqueUris all
      → all ≢ []
      → let new = lookup u (take (get_number_of_faces_for_name fib all) all) in
        lookup u (hops_in (entry_of (update fib adj name all) name))
        ≡ (if is_some new then offered new (lookup u (hops_in (entry_of fib name))) else none)
  update-entries fib adj name all u v q nonempty =
      (update_lem fib adj name name all u v q nonempty).0

  -- With at least one next hop, `update` leaves the entries of all other names as they were. The
  -- table must be valid, and the list must offer each face once.
  pub update-other_entries :
      (fib : Fib N F D) (adj : List (Adjacent N F D)) (name k : N) (all : List (NextHop F D))
      → IsValid fib
      → UniqueUris all
      → all ≢ []
      → name ≢ k
      → entry_of (update fib adj name all) k ≡ entry_of fib k
  update-other_entries fib adj name k [] v q nonempty ne = absurd (nonempty refl)
  update-other_entries fib adj name k (hop ∷ hops) v q nonempty ne =
      (update_lem fib adj name k (hop ∷ hops) hop.uri v q nonempty).1 ne
