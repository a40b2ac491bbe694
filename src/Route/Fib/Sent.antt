-- ===== src/Route/Fib/Sent.antt =====
-- fib.cpp: which faces `update` and the refresh register in NFD, at which cost, and which they
-- unregister, told by the face and not by the functions that make the commands.
use nlsr.Prelude.{
  Eq, Ord, Double, take, take-nil, if◌then◌else◌, is_some, ℕ, ◌+◌, ◌<◌, ◌≡◌, refl, ap, subst, ◌≢◌,
  true, false, not, ◌||◌, Option, none, some, List, [], ◌++◌, arith,
}
use nlsr.Adjacency.{Adjacent, is_neighbor, get_face_id}
use nlsr.Route.NextHop.{
  NextHop, get_route_cost_as_adjusted_integer, hop_uri_lt, hop_uri_lt-SplitsUris,
}
use nlsr.Route.NexthopList.{add_all}
use nlsr.Route.NexthopList.Lookup.{
  lookup, UniqueUris, lookup-add_all, hop_uri, IsUriSorted, IsUriSorted-unique, IsUriSorted-add_all,
}
use nlsr.Route.Fib.{
  FibEntry, Command, Fib, unregister_all, get_number_of_faces_for_name, register_all, hops_to_add,
  update, refresh_entry,
}
use nlsr.Route.Fib.Update.{entry_of, hops_in, IsValid, hops_in-IsUriSorted, update-entries}
use nlsr.Route.Fib.Commands.{outgoing, commands_for, update-commands, refreshed}
use nlsr.Route.Fib.Entry.{hops_to_add-IsUriSorted, lookup-hops_to_add}
use nlsr.Prelude.Sets.{find_key-set_difference}
use nlsr.Route.Fib.Log.{
  has_registered, has_unregistered, has_registered-append, has_unregistered-append, is_registered,
  register_all-is_registered, unregister_all-has,
}
use nlsr.Route.Fib.Offers.{any_offer, register_all-only, unregister_all-only, any_offer-hops_to_add}

module _ {N F D : Type 0} ⦃n : Eq N⦄ ⦃no : Ord N⦄ ⦃f : Eq F⦄ ⦃o : Ord F⦄ ⦃d : Double D⦄ where
  -- What the commands are to do for a face, by what it is offered and what the entry had for it:
  -- an offer is registered, and a face without one is unregistered where the entry had it.
  abbrev pub IsTold :
      Fib N F D
      → List (Adjacent N F D)
      → N
      → F
      → Option (NextHop F D)
      → Option (NextHop F D)
      → List (Command N)
      → Type 0
  IsTold fib adj name u (some hop) old cmds = is_registered fib adj name hop cmds ≡ true
  IsTold fib adj name u none (some old) cmds = has_unregistered name (get_face_id adj u) cmds ≡ true
  IsTold fib adj name u none none cmds = Unit {0}

  lookup-outgoing :
      (old : FibEntry N F D) (hops : List (NextHop F D)) (u : F)
      → IsUriSorted old.nexthop_set
      → IsUriSorted hops
      → lookup u (outgoing old hops)
        ≡ (if is_some (lookup u hops) then none else lookup u old.nexthop_set)
  lookup-outgoing old hops u s k = ground (
    arith,
    find_key-set_difference hop_uri u (add_all hop_uri_lt hops old.nexthop_set) hops
        (IsUriSorted-add_all hops old.nexthop_set s) k,
    lookup-add_all hop_uri_lt hop_uri_lt-SplitsUris u hops old.nexthop_set
        (IsUriSorted-unique hops k) (IsUriSorted-unique old.nexthop_set s),
  )

  commands_for-IsTold :
      (fib : Fib N F D) (adj : List (Adjacent N F D)) (name : N) (u : F) (hops : List (NextHop F D))
      (found : Option (FibEntry N F D)) (offer had : Option (NextHop F D))
      → IsUriSorted (hops_in found)
      → IsUriSorted hops
      → 0 < get_face_id adj u
      → lookup u hops ≡ offer
      → lookup u (hops_in found) ≡ had
      → IsTold fib adj name u offer had (commands_for fib adj name hops found)
  commands_for-IsTold fib adj name u hops none (some hop) had s k face e g =
      register_all-is_registered fib adj name hops u hop e face
  commands_for-IsTold fib adj name u hops none none (some hop) s k face e g = absurd (cc g)
  commands_for-IsTold fib adj name u hops none none none s k face e g = tt
  commands_for-IsTold fib adj name u hops (some old) (some hop) had s k face e g = ground (
    arith,
    register_all-is_registered fib adj name hops u hop e face,
    has_registered-append name (get_face_id adj hop.uri) (get_route_cost_as_adjusted_integer hop)
        (fib.refresh_time + 10) fib.route_flag_capture (register_all fib adj name hops)
        (unregister_all adj name (outgoing old hops)),
  )
  commands_for-IsTold fib adj name u hops (some old) none (some hop) s k face e g = ground (
    arith,
    unregister_all-has adj name (outgoing old hops) u hop
        (ground (arith, lookup-outgoing old hops u s k, e, g)) face,
    has_unregistered-append name (get_face_id adj u) (register_all fib adj name hops)
        (unregister_all adj name (outgoing old hops)),
  )
  commands_for-IsTold fib adj name u hops (some old) none none s k face e g = tt

  commands_for-only :
      (fib : Fib N F D) (adj : List (Adjacent N F D)) (name : N) (hops : List (NextHop F D))
      (found : Option (FibEntry N F D)) (face cost time flags : ℕ)
      → has_registered name face cost time flags (commands_for fib adj name hops found) ≡ true
      → any_offer adj face cost hops ≡ true
  commands_for-only fib adj name hops none face cost time flags h =
      register_all-only fib adj name hops face cost time flags h
  commands_for-only fib adj name hops (some old) face cost time flags h = ground (
    arith,
    register_all-only fib adj name hops face cost time flags,
    unregister_all-only adj name name (outgoing old hops) face cost time flags,
    has_registered-append name face cost time flags (register_all fib adj name hops)
        (unregister_all adj name (outgoing old hops)),
  )

  pub update-sent :
      (fib : Fib N F D) (adj : List (Adjacent N F D)) (name : N) (all : List (NextHop F D)) (u : F)
      (face cost time flags : ℕ)
      → IsValid fib
      → UniqueUris all
      → all ≢ []
      → 0 < get_face_id adj u
      → let allowed = take (get_number_of_faces_for_name fib all) all in
        (cmds : List (Command N)) × ((update fib adj name all).sent
          ≡ (if is_neighbor adj name then fib.sent else fib.sent ++ cmds))
        × IsTold fib adj name u (lookup u allowed) (lookup u (hops_in (entry_of fib name))) cmds
        × ((not (has_registered name face cost time flags cmds) || any_offer adj face cost allowed)
            ≡ true)
  update-sent fib adj name all u face cost time flags v q nonempty known =
      let hops = hops_to_add fib all in
      let cmds = commands_for fib adj name hops (entry_of fib name) in
      (
        cmds,
        update-commands fib adj name all q nonempty,
        commands_for-IsTold fib adj name u hops (entry_of fib name) _ _
            (hops_in-IsUriSorted name fib.table v.sets) (hops_to_add-IsUriSorted fib all) known
            (lookup-hops_to_add fib all u q) refl,
        ground (
          arith,
          commands_for-only fib adj name hops (entry_of fib name) face cost time flags,
          any_offer-hops_to_add fib adj face cost all,
        ),
      )

  -- After the cost of the hop of a face has grown, `update` registers the new cost in NFD but keeps
  -- the old hop in the entry, and the next refresh registers the old cost again. The name is not a
  -- neighbour's, NFD knows the face, the table is valid, the list offers each face once, and the
  -- new hop is among the first ones of the list, as many as faces are allowed.
  pub refresh-registers-old_cost :
      (fib : Fib N F D) (adj : List (Adjacent N F D)) (name : N) (all : List (NextHop F D))
      (old new : NextHop F D)
      → IsValid fib
      → UniqueUris all
      → is_neighbor adj name ≡ false
      → 0 < get_face_id adj new.uri
      → lookup new.uri (take (get_number_of_faces_for_name fib all) all) ≡ some new
      → lookup new.uri (hops_in (entry_of fib name)) ≡ some old
      → d.rank old.route_cost < d.rank new.route_cost
      → let fib' = update fib adj name all in
        (lookup new.uri (hops_in (entry_of fib' name)) ≡ some old)
        × ((cmds : List (Command N)) × (fib'.sent ≡ fib.sent ++ cmds)
            × (is_registered fib adj name new cmds ≡ true))
        × ((cmds : List (Command N)) × ((refresh_entry fib' adj name).sent ≡ fib'.sent ++ cmds)
            × (is_registered fib' adj name old cmds ≡ true))
  refresh-registers-old_cost fib adj name all old new v q h known offer had grown =
      let fib' = update fib adj name all in
      let (cmds, sent, told, _) = update-sent fib adj name all new.uri 0 0 0 0 v q nonempty known in
      (
        kept,
        (
          cmds,
          ground (arith, sent),
          subst
              (λ x.
                IsTold fib adj name new.uri x (lookup new.uri (hops_in (entry_of fib name))) cmds)
              offer told,
        ),
        (
          register_all fib' adj name (hops_in (entry_of fib' name)),
          refreshed fib' adj name old new.uri kept,
          register_all-is_registered fib' adj name (hops_in (entry_of fib' name)) new.uri old kept
              known,
        ),
      )
    where
      nonempty : all ≢ []
      nonempty e = cc (
        ap (λ l. lookup new.uri (take (get_number_of_faces_for_name fib all) l)) e,
        ap (lookup new.uri) (take-nil (get_number_of_faces_for_name fib all)),
      )

      kept : lookup new.uri (hops_in (entry_of (update fib adj name all) name)) ≡ some old
      kept = ground (arith, update-entries fib adj name all new.uri v q nonempty, offer, had)
