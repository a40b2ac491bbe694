-- ===== src/Route/NexthopList/Lookup.antt =====
-- A NexthopList seen as a map from face URIs to the cheapest hop offered for each.
use nlsr.Prelude.{
  Eq, ◌==◌, ==_refl, ==_iff, Ord, Double, cost_lt, take, find_if, erase_if, if◌then◌else◌,
  Option-cases, is_some, ℕ, zero, suc, ◌<◌, ◌≡◌, refl, Bool, Option, none, some, List, [], ◌∷◌,
  arith,
}
use nlsr.Prelude.Sets.{
  set_difference, IsSorted, IsSorted-set_insert, IsSorted-set_difference, IsSorted-erase_if,
  find_key-Above, find_key-set_difference, set_insert,
}
use nlsr.Route.NextHop.{hop_uri_lt, same_hop, same_hop_refl, same_hop-uri, NextHop, SplitsUris}
use nlsr.Route.NexthopList.{remove_next_hop, add_all, remove_all, add_next_hop, has_uri}

module _ {F D : Type 0} ⦃f : Eq F⦄ where
  abbrev pub lookup : F → List (NextHop F D) → Option (NextHop F D)
  lookup u hops = find_if (λ nh. nh.uri == u) hops

  -- No two hops of the list go through one face.
  abbrev pub UniqueUris : List (NextHop F D) → Type 0
  UniqueUris [] = Unit {0}
  UniqueUris (x ∷ xs) = (lookup x.uri xs ≡ none) × UniqueUris xs

module _ {F D : Type 0} ⦃f : Eq F⦄ ⦃d : Double D⦄ where
  -- The hop of the lower cost, the old one where they are equal.
  abbrev pub cheaper : Option (NextHop F D) → NextHop F D → NextHop F D
  cheaper none nh = nh
  cheaper (some old) nh = if cost_lt nh.route_cost old.route_cost then nh else old

  lookup-set_insert :
      (lt : NextHop F D → NextHop F D → Bool)
      → SplitsUris lt
      → (nh : NextHop F D) (u : F) (hops : List (NextHop F D)) → lookup nh.uri hops ≡ none
      → lookup u (set_insert lt nh hops) ≡ (if nh.uri == u then some nh else lookup u hops)
  unfolding set_insert
  lookup-set_insert lt s nh u [] h = refl
  lookup-set_insert lt s nh u (x ∷ xs) h = ground (
    arith,
    lookup-set_insert lt s nh u xs,
    s nh x,
    ==_iff x.uri nh.uri,
    ==_iff nh.uri u,
    ==_iff x.uri u,
  )

  UniqueUris-set_insert :
      (lt : NextHop F D → NextHop F D → Bool)
      → SplitsUris lt
      → (nh : NextHop F D) (hops : List (NextHop F D)) → lookup nh.uri hops ≡ none
      → UniqueUris hops
      → UniqueUris (set_insert lt nh hops)
  unfolding set_insert
  UniqueUris-set_insert lt s nh [] h q = (refl, tt)
  UniqueUris-set_insert lt s nh (x ∷ xs) h q = ground (
    arith,
    UniqueUris-set_insert lt s nh xs,
    lookup-set_insert lt s nh x.uri xs,
    s nh x,
    ==_iff x.uri nh.uri,
    ==_iff nh.uri x.uri,
  )

  lookup-erase_if :
      (v u : F) (hops : List (NextHop F D))
      → UniqueUris hops
      → lookup u (erase_if (has_uri v) hops) ≡ (if v == u then none else lookup u hops)
  lookup-erase_if v u [] q = ground arith
  lookup-erase_if v u (x ∷ xs) q =
      ground (arith, lookup-erase_if v u xs, ==_iff x.uri v, ==_iff v u, ==_iff x.uri u)

  lookup-none-erase_if :
      (p : NextHop F D → Bool) (u : F) (hops : List (NextHop F D))
      → lookup u hops ≡ none
      → lookup u (erase_if p hops) ≡ none
  lookup-none-erase_if p u [] h = refl
  lookup-none-erase_if p u (x ∷ xs) h = ground (arith, lookup-none-erase_if p u xs)

  UniqueUris-erase_if :
      (p : NextHop F D → Bool) (hops : List (NextHop F D))
      → UniqueUris hops
      → UniqueUris (erase_if p hops)
  UniqueUris-erase_if p [] q = tt
  UniqueUris-erase_if p (x ∷ xs) q =
      ground (arith, UniqueUris-erase_if p xs q.1, lookup-none-erase_if p x.uri xs q.0)

  -- Adding a hop changes the answer for its own face only, to the cheaper of the hop and what the
  -- list had, for each comparator that tells hops of different faces apart.
  pub lookup-add_next_hop :
      (lt : NextHop F D → NextHop F D → Bool)
      → SplitsUris lt
      → (nh : NextHop F D) (u : F) (hops : List (NextHop F D)) → UniqueUris hops
      → lookup u (add_next_hop lt nh hops)
        ≡ (if nh.uri == u then some (cheaper (lookup nh.uri hops) nh) else lookup u hops)
  unfolding add_next_hop
  lookup-add_next_hop lt s nh u hops q = ground (
    arith,
    lookup-set_insert lt s nh u hops,
    lookup-set_insert lt s nh u (erase_if (has_uri nh.uri) hops),
    lookup-erase_if nh.uri u hops q,
    lookup-erase_if nh.uri nh.uri hops q,
    ==_refl nh.uri,
    ==_iff nh.uri u,
  )

  pub UniqueUris-add_next_hop :
      (lt : NextHop F D → NextHop F D → Bool)
      → SplitsUris lt
      → (nh : NextHop F D) (hops : List (NextHop F D)) → UniqueUris hops
      → UniqueUris (add_next_hop lt nh hops)
  unfolding add_next_hop
  UniqueUris-add_next_hop lt s nh hops q = ground (
    arith,
    UniqueUris-set_insert lt s nh hops,
    UniqueUris-set_insert lt s nh (erase_if (has_uri nh.uri) hops),
    UniqueUris-erase_if (has_uri nh.uri) hops q,
    lookup-erase_if nh.uri nh.uri hops q,
    ==_refl nh.uri,
  )

  -- What a face is offered by the hops, joined to what the set had for it.
  abbrev pub offered : Option (NextHop F D) → Option (NextHop F D) → Option (NextHop F D)
  offered none old = old
  offered (some nh) old = some (cheaper old nh)

  pub UniqueUris-add_all :
      (lt : NextHop F D → NextHop F D → Bool)
      → SplitsUris lt
      → (hops set : List (NextHop F D)) → UniqueUris set
      → UniqueUris (add_all lt hops set)
  unfolding add_all
  UniqueUris-add_all lt s [] set q = q
  UniqueUris-add_all lt s (hop ∷ hops) set q =
      UniqueUris-add_all lt s hops (add_next_hop lt hop set)
        (UniqueUris-add_next_hop lt s hop set q)

  pub lookup-add_all :
      (lt : NextHop F D → NextHop F D → Bool)
      → SplitsUris lt
      → (u : F) (hops set : List (NextHop F D)) → UniqueUris hops
      → UniqueUris set
      → lookup u (add_all lt hops set) ≡ offered (lookup u hops) (lookup u set)
  unfolding add_all
  lookup-add_all lt s u [] set p q = refl
  lookup-add_all lt s u (hop ∷ hops) set p q = ground (
    arith,
    lookup-add_all lt s u hops (add_next_hop lt hop set) p.1
        (UniqueUris-add_next_hop lt s hop set q),
    lookup-add_next_hop lt s hop u set q,
    ==_iff hop.uri u,
  )

  erase_if-same_hop :
      (hop : NextHop F D) (set : List (NextHop F D))
      → lookup hop.uri set ≡ some hop
      → erase_if (λ item. same_hop item hop) set ≡ erase_if (has_uri hop.uri) set
  erase_if-same_hop hop [] h = refl
  erase_if-same_hop hop (x ∷ xs) h =
      ground (
        arith,
        erase_if-same_hop hop xs,
        same_hop_refl hop,
        same_hop-uri x hop,
        ==_iff x.uri hop.uri,
      )

  -- Taking out hops that the set holds leaves what the set has for the other faces.
  pub lookup-remove_all :
      (u : F) (gone set : List (NextHop F D))
      → UniqueUris gone
      → UniqueUris set
      → ((v : F) (hop : NextHop F D) → lookup v gone ≡ some hop → lookup v set ≡ some hop)
      → lookup u (remove_all gone set) ≡ (if is_some (lookup u gone) then none else lookup u set)
  unfolding remove_all remove_next_hop
  lookup-remove_all u [] set p q within = refl
  lookup-remove_all u (hop ∷ gone) set p q within = rw (erase_if-same_hop hop set here) (
      ground (
        arith,
        lookup-remove_all u gone (erase_if (has_uri hop.uri) set) p.1
            (UniqueUris-erase_if (has_uri hop.uri) set q) kept,
        lookup-erase_if hop.uri u set q,
        ==_iff hop.uri u,
      ))
    where
      here : lookup hop.uri set ≡ some hop
      here = within hop.uri hop (ground (arith, ==_refl hop.uri))

      kept :
          (v : F) (k : NextHop F D)
          → lookup v gone ≡ some k
          → lookup v (erase_if (has_uri hop.uri) set) ≡ some k
      kept v k e = ground (arith, within v k, lookup-erase_if hop.uri v set q, ==_iff hop.uri v)

module _ {F D : Type 0} ⦃f : Eq F⦄ where
  lookup-none-take :
      (k : ℕ) (u : F) (hops : List (NextHop F D))
      → lookup u hops ≡ none
      → lookup u (take k hops) ≡ none
  lookup-none-take zero u hops h = refl
  lookup-none-take (suc k) u [] h = refl
  lookup-none-take (suc k) u (x ∷ xs) h = ground (arith, lookup-none-take k u xs)

  pub UniqueUris-take :
      (k : ℕ) (hops : List (NextHop F D)) → UniqueUris hops → UniqueUris (take k hops)
  UniqueUris-take zero hops q = tt
  UniqueUris-take (suc k) [] q = tt
  UniqueUris-take (suc k) (x ∷ xs) q = (lookup-none-take k x.uri xs q.0, UniqueUris-take k xs q.1)

  pub lookup-take_first :
      (m : ℕ) (hop : NextHop F D) (hops : List (NextHop F D))
      → 0 < m
      → lookup hop.uri (take m (hop ∷ hops)) ≡ some hop
  lookup-take_first zero hop hops h = elim h [ ]
  lookup-take_first (suc m) hop hops h = ground (arith, ==_refl hop.uri)

-- The sets ordered by URI, which FIB entries keep.
module _ {F D : Type 0} ⦃f : Eq F⦄ ⦃o : Ord F⦄ ⦃d : Double D⦄ where
  abbrev pub hop_uri : NextHop F D → F
  hop_uri nh = nh.uri

  abbrev pub IsUriSorted : List (NextHop F D) → Type 0
  IsUriSorted = IsSorted hop_uri

  pub IsUriSorted-unique : (hops : List (NextHop F D)) → IsUriSorted hops → UniqueUris hops
  IsUriSorted-unique [] s = tt
  IsUriSorted-unique (x ∷ xs) s = (find_key-Above hop_uri x.uri xs s.0, IsUriSorted-unique xs s.1)

  IsUriSorted-add_next_hop :
      (hop : NextHop F D) (set : List (NextHop F D))
      → IsUriSorted set
      → IsUriSorted (add_next_hop hop_uri_lt hop set)
  unfolding add_next_hop
  IsUriSorted-add_next_hop hop set s = ground (
    arith,
    IsSorted-set_insert hop_uri hop set s,
    IsSorted-set_insert hop_uri hop (erase_if (has_uri hop.uri) set),
    IsSorted-erase_if hop_uri (has_uri hop.uri) set s,
  )

  pub IsUriSorted-add_all :
      (hops set : List (NextHop F D)) → IsUriSorted set → IsUriSorted (add_all hop_uri_lt hops set)
  unfolding add_all
  IsUriSorted-add_all [] set s = s
  IsUriSorted-add_all (hop ∷ hops) set s =
      IsUriSorted-add_all hops (add_next_hop hop_uri_lt hop set)
        (IsUriSorted-add_next_hop hop set s)

  pub IsUriSorted-remove_all :
      (gone set : List (NextHop F D)) → IsUriSorted set → IsUriSorted (remove_all gone set)
  unfolding remove_all remove_next_hop
  IsUriSorted-remove_all [] set s = s
  IsUriSorted-remove_all (hop ∷ gone) set s =
      IsUriSorted-remove_all gone (erase_if (λ item. same_hop item hop) set)
        (IsSorted-erase_if hop_uri (λ item. same_hop item hop) set s)

  -- Taking out the hops whose face `keep` does not have leaves those that it has.
  pub lookup-remove_difference :
      (u : F) (set keep : List (NextHop F D))
      → IsUriSorted set
      → IsUriSorted keep
      → lookup u (remove_all (set_difference hop_uri_lt set keep) set)
        ≡ (if is_some (lookup u keep) then lookup u set else none)
  lookup-remove_difference u set keep s k = ground (
    arith,
    lookup-remove_all u gone set
        (IsUriSorted-unique gone (IsSorted-set_difference hop_uri set keep s))
        (IsUriSorted-unique set s) within,
    find_key-set_difference hop_uri u set keep s k,
    Option-cases (lookup u set),
  )
    where
      gone : List (NextHop F D)
      gone = set_difference hop_uri_lt set keep

      within : (v : F) (hop : NextHop F D) → lookup v gone ≡ some hop → lookup v set ≡ some hop
      within v hop e = ground (arith, find_key-set_difference hop_uri v set keep s k)
