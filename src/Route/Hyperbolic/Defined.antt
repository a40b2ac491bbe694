-- ===== src/Route/Hyperbolic/Defined.antt =====
-- route/routing-calculator-hyperbolic.cpp: when the calculation has a result.
use nlsr.Route.Hyperbolic.{
  Trigonometry, distance_of, calculate_angular_distance, with_angular_distance, radius, theta,
  distance_between, then_table, get_hyperbolic_distance, add_hyperbolic_hop, add_at_distance,
  add_destination, add_destinations, from_neighbor, is_used, calculate_path,
}
use nlsr.Lsdb.{Lsdb, find_lsa}
use nlsr.Route.RoutingTable.{RoutingTable}
use nlsr.Route.NameMap.{get_router_name_by_mapping_no, get_mapping_no_by_router_name}
use nlsr.Adjacency.{Adjacent}
use nlsr.Lsa.{coordinate_lsa, Lsa}
use nlsr.Prelude.{
  Eq, Ord, Double, cost_eq, length, nat_beq, if◌then◌else◌, is_some, ℕ, zero, suc, ◌≡◌, refl, Bool,
  true, false, ◌||◌, Option, none, some, List, [], ◌∷◌, arith,
}

module _ {D : Type 0} ⦃d : Double D⦄ (m : Trigonometry D) where
  abbrev pub has_angle : List D → Bool
  has_angle [] = false
  has_angle (a ∷ l) = true

  calculate_angular_distance-defined :
      (i j : List D)
      → has_angle i ≡ true
      → has_angle j ≡ true
      → is_some (calculate_angular_distance m i j) ≡ true
  unfolding calculate_angular_distance distance_of
  calculate_angular_distance-defined [] j h k = ground arith
  calculate_angular_distance-defined (a ∷ i) [] h k = ground arith
  calculate_angular_distance-defined (a ∷ i) (b ∷ j) h k = ground arith

  with_angular_distance-defined :
      (ri rj : D) (delta : Option D)
      → is_some delta ≡ true
      → is_some (with_angular_distance m ri rj delta) ≡ true
  unfolding with_angular_distance
  with_angular_distance-defined ri rj none h = ground arith
  with_angular_distance-defined ri rj (some delta) h = ground arith

  -- An LSA, if there is one, has an angle.
  abbrev pub has_angles : {N F : Type 0} → Option (Lsa N F D) → Bool
  has_angles none = true
  has_angles (some l) = has_angle (theta m l.body)

  distance_between-defined :
      {N F : Type 0} (src dest : Option (Lsa N F D))
      → has_angles src ≡ true
      → has_angles dest ≡ true
      → is_some (distance_between m src dest) ≡ true
  unfolding distance_between
  distance_between-defined none dest h k = refl
  distance_between-defined (some src) none h k = refl
  distance_between-defined (some src) (some dest) h k =
      with_angular_distance-defined (radius m src.body) (radius m dest.body)
        (calculate_angular_distance m (theta m src.body) (theta m dest.body))
        (calculate_angular_distance-defined (theta m src.body) (theta m dest.body) h k)

module _ {N F D : Type 0} where
  is_some-then :
      (r : Option (RoutingTable N F D)) (g : RoutingTable N F D → Option (RoutingTable N F D))
      → is_some r ≡ true
      → ((rt : RoutingTable N F D) → is_some (g rt) ≡ true)
      → is_some (then_table r g) ≡ true
  is_some-then none g h k = ground arith
  is_some-then (some rt) g h k = k rt

  is_some-if :
      (b : Bool) (r s : Option (RoutingTable N F D))
      → is_some r ≡ true
      → is_some s ≡ true
      → is_some (if b then r else s) ≡ true
  is_some-if true r s h k = h
  is_some-if false r s h k = k

module _ {N F D : Type 0} ⦃n : Eq N⦄ ⦃f : Eq F⦄ ⦃o : Ord F⦄ ⦃d : Double D⦄ (m : Trigonometry D)
    (is_dry_run : Bool) (db : Lsdb N F D)
    (angled : (router : N) → has_angles m (find_lsa db router coordinate_lsa) ≡ true) where
  add_at_distance-defined :
      (dest : N) (uri : F) (distance : Option D) (rt : RoutingTable N F D)
      → is_some distance ≡ true
      → is_some (add_at_distance m is_dry_run dest uri distance rt) ≡ true
  unfolding add_at_distance
  add_at_distance-defined dest uri none rt h = ground arith
  add_at_distance-defined dest uri (some distance) rt h =
      is_some-if (cost_eq distance m.unknown_distance) (some rt) _ refl refl

  add_destination-defined :
      (src : N) (uri : F) (dest : Option N) (rt : RoutingTable N F D)
      → is_some (add_destination m is_dry_run db src uri dest rt) ≡ true
  unfolding add_destination get_hyperbolic_distance
  add_destination-defined src uri none rt = refl
  add_destination-defined src uri (some dest) rt =
      add_at_distance-defined dest uri (get_hyperbolic_distance m db src dest) rt (
        distance_between-defined m (find_lsa db src coordinate_lsa)
          (find_lsa db dest coordinate_lsa) (angled src) (angled dest))

  add_destinations-defined :
      (names : List (N × ℕ)) (this src_no : ℕ) (src : N) (uri : F) (rounds dest : ℕ)
      (rt : RoutingTable N F D)
      → is_some (add_destinations m is_dry_run db names this src_no src uri rounds dest rt) ≡ true
  unfolding add_destinations
  add_destinations-defined names this src_no src uri zero dest rt = refl
  add_destinations-defined names this src_no src uri (suc rounds) dest rt =
      is_some-then _ (add_destinations m is_dry_run db names this src_no src uri rounds (suc dest))
        (is_some-if (nat_beq dest this || nat_beq dest src_no) (some rt) _ refl
          (add_destination-defined src uri (get_router_name_by_mapping_no names dest) rt))
        (add_destinations-defined names this src_no src uri rounds (suc dest))

  from_neighbor-defined :
      (names : List (N × ℕ)) (this src_no : Option ℕ) (src : N) (uri : F) (rt : RoutingTable N F D)
      → is_some (from_neighbor m is_dry_run db names this src_no src uri rt) ≡ true
  unfolding from_neighbor
  from_neighbor-defined names this none src uri rt = refl
  from_neighbor-defined names none (some src_no) src uri rt = refl
  from_neighbor-defined names (some this) (some src_no) src uri rt =
      add_destinations-defined names this src_no src uri (length names) 0 rt

  -- If every coordinate LSA in the database has an angle, then the calculation has a result:
  -- no element of an empty vector is read.
  pub calculate_path-defined :
      (names : List (N × ℕ)) (this_router_name : N) (adjacencies : List (Adjacent N F D))
      (rt : RoutingTable N F D)
      → is_some (calculate_path m is_dry_run db names this_router_name adjacencies rt) ≡ true
  unfolding calculate_path
  calculate_path-defined names this_router_name [] rt = refl
  calculate_path-defined names this_router_name (a ∷ adjacencies) rt =
      is_some-if (is_used m is_dry_run this_router_name a) _ _
        (is_some-then
          (from_neighbor m is_dry_run db names
            (get_mapping_no_by_router_name names this_router_name)
            (get_mapping_no_by_router_name names a.name) a.name a.face_uri
            (add_hyperbolic_hop m is_dry_run a.name a.face_uri d.zero_cost rt))
          (calculate_path m is_dry_run db names this_router_name adjacencies)
          (from_neighbor-defined names _ _ a.name a.face_uri _)
          (calculate_path-defined names this_router_name adjacencies))
        (calculate_path-defined names this_router_name adjacencies rt)
