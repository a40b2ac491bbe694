-- ===== src/Route/Hyperbolic/Tables.antt =====
-- route/routing-calculator-hyperbolic.cpp: which tables and which destinations are changed.
use nlsr.Adjacency.{Adjacent}
use nlsr.Route.NameMap.Bijection.{Numbered, lookups-inverse}
use nlsr.Route.Hyperbolic.{
  then_table, from_neighbor, is_used, calculate_path, Trigonometry, get_hyperbolic_distance,
  add_hyperbolic_hop, add_at_distance, add_destination, add_destinations,
}
use nlsr.Lsdb.{Lsdb}
use nlsr.Route.RoutingTable.{RoutingTable}
use nlsr.Route.NameMap.{get_mapping_no_by_router_name, get_router_name_by_mapping_no}
use nlsr.Prelude.{
  Eq, ◌==◌, ==_eq, Ord, Double, cost_eq, length, nat_beq, if◌then◌else◌, Bool-cases, ℕ, zero, suc,
  ◌≡◌, refl, sym, subst, ◌∙◌, inl, inr, Bool, true, false, ◌||◌, Option, none, some, List, [], ◌∷◌,
  arith,
}

module _ {N F D : Type 0} ⦃n : Eq N⦄ ⦃f : Eq F⦄ ⦃o : Ord F⦄ ⦃d : Double D⦄ where
  -- A relation of the tables before and after, where there is a result.
  abbrev pub Result : (RoutingTable N F D → Type 0) → Option (RoutingTable N F D) → Type 0
  Result Q none = Unit {0}
  Result Q (some rt) = Q rt

  Result-then :
      (Q : RoutingTable N F D → Type 0) (r : Option (RoutingTable N F D))
      (g : RoutingTable N F D → Option (RoutingTable N F D))
      → Result Q r
      → ((rt : RoutingTable N F D) → Q rt → Result Q (g rt))
      → Result Q (then_table r g)
  Result-then Q none g h k = tt
  Result-then Q (some rt) g h k = k rt h

  Result-if :
      (Q : RoutingTable N F D → Type 0) (b : Bool) (r s : Option (RoutingTable N F D))
      → (b ≡ true → Result Q r)
      → (b ≡ false → Result Q s)
      → Result Q (if b then r else s)
  Result-if Q true r s h k = h refl
  Result-if Q false r s h k = k refl

module _ {N F D : Type 0} ⦃n : Eq N⦄ ⦃f : Eq F⦄ ⦃o : Ord F⦄ ⦃d : Double D⦄ (m : Trigonometry D)
    (is_dry_run : Bool) (Q : RoutingTable N F D → Type 0) (this_router_name : N)
    (kept : (dest : N) (uri : F) (cost : D) (rt : RoutingTable N F D)
      → (dest == this_router_name) ≡ false
      → Q rt
      → Q (add_hyperbolic_hop m is_dry_run dest uri cost rt)) where
  add_at_distance-kept :
      (dest : N) (uri : F) (distance : Option D) (rt : RoutingTable N F D)
      → (dest == this_router_name) ≡ false
      → Q rt
      → Result Q (add_at_distance m is_dry_run dest uri distance rt)
  unfolding add_at_distance
  add_at_distance-kept dest uri none rt h q = tt
  add_at_distance-kept dest uri (some distance) rt h q =
      Result-if Q (cost_eq distance m.unknown_distance) (some rt) _ (λ _. q)
        (λ _. kept dest uri distance rt h q)

  add_destination-kept :
      (db : Lsdb N F D) (src : N) (uri : F) (found : Option N) (rt : RoutingTable N F D)
      → ((dest : N) → found ≡ some dest → (dest == this_router_name) ≡ false)
      → Q rt
      → Result Q (add_destination m is_dry_run db src uri found rt)
  unfolding add_destination
  add_destination-kept db src uri none rt other q = q
  add_destination-kept db src uri (some dest) rt other q =
      add_at_distance-kept dest uri (get_hyperbolic_distance m db src dest) rt (other dest refl) q

  add_destinations-kept :
      (db : Lsdb N F D) (names : List (N × ℕ)) (this src_no : ℕ) (src : N) (uri : F)
      (rounds dest : ℕ) (rt : RoutingTable N F D)
      → ((i : ℕ) (name : N)
          → get_router_name_by_mapping_no names i ≡ some name
          → nat_beq i this ≡ false
          → (name == this_router_name) ≡ false)
      → Q rt
      → Result Q (add_destinations m is_dry_run db names this src_no src uri rounds dest rt)
  unfolding add_destinations
  add_destinations-kept db names this src_no src uri zero dest rt other q = q
  add_destinations-kept db names this src_no src uri (suc rounds) dest rt other q =
      Result-then Q _ (add_destinations m is_dry_run db names this src_no src uri rounds (suc dest))
        (Result-if Q (nat_beq dest this || nat_beq dest src_no) (some rt) _ (λ _. q)
          (λ h.
            add_destination-kept db src uri (get_router_name_by_mapping_no names dest) rt
              (λ name found. other dest name found (ground (arith, h))) q))
        (λ rt q. add_destinations-kept db names this src_no src uri rounds (suc dest) rt other q)

  from_neighbor-kept :
      (db : Lsdb N F D) (names : List (N × ℕ)) (this src_no : Option ℕ) (src : N) (uri : F)
      (rt : RoutingTable N F D)
      → ((own i : ℕ) (name : N)
          → this ≡ some own
          → get_router_name_by_mapping_no names i ≡ some name
          → nat_beq i own ≡ false
          → (name == this_router_name) ≡ false)
      → Q rt
      → Result Q (from_neighbor m is_dry_run db names this src_no src uri rt)
  unfolding from_neighbor
  from_neighbor-kept db names this none src uri rt other q = q
  from_neighbor-kept db names none (some src_no) src uri rt other q = q
  from_neighbor-kept db names (some this) (some src_no) src uri rt other q =
      add_destinations-kept db names this src_no src uri (length names) 0 rt
        (λ i name. other this i name refl) q

  -- With a name map that is numbered from zero on, only this router has its number.
  other_names :
      (names : List (N × ℕ)) (own i : ℕ) (name : N)
      → Numbered 0 names
      → get_mapping_no_by_router_name names this_router_name ≡ some own
      → get_router_name_by_mapping_no names i ≡ some name
      → nat_beq i own ≡ false
      → (name == this_router_name) ≡ false
  other_names names own i name v mine his other = elim (Bool-cases (name == this_router_name)) [
    | inl same ↦
        let number = (lookups-inverse names name i v).1 his in
        let as_mine =
          subst (λ r. get_mapping_no_by_router_name names r ≡ some i)
            (==_eq name this_router_name same) number in
        let numbers : some i ≡ some own = sym as_mine ∙ mine in ground (arith, numbers, other)
    | inr differs ↦ differs
  ]

  pub calculate_path-kept :
      (db : Lsdb N F D) (names : List (N × ℕ)) (adjacencies : List (Adjacent N F D))
      (rt : RoutingTable N F D)
      → Numbered 0 names
      → Q rt
      → Result Q (calculate_path m is_dry_run db names this_router_name adjacencies rt)
  unfolding calculate_path
  calculate_path-kept db names [] rt v q = q
  calculate_path-kept db names (a ∷ adjacencies) rt v q =
      let this_no = get_mapping_no_by_router_name names this_router_name in
      let rest = calculate_path m is_dry_run db names this_router_name adjacencies in
      let hop = add_hyperbolic_hop m is_dry_run a.name a.face_uri d.zero_cost rt in
      let from_it =
        from_neighbor m is_dry_run db names this_no (get_mapping_no_by_router_name names a.name)
          a.name a.face_uri hop in
      Result-if Q (is_used m is_dry_run this_router_name a) (then_table from_it rest) (rest rt)
        (λ used.
          Result-then Q from_it rest
            (from_neighbor-kept db names this_no (get_mapping_no_by_router_name names a.name) a.name
              a.face_uri hop (λ own i name. other_names names own i name v)
              (kept a.name a.face_uri d.zero_cost rt (ground (arith, used)) q))
            (λ rt q. calculate_path-kept db names adjacencies rt v q))
        (λ _. calculate_path-kept db names adjacencies rt v q)
