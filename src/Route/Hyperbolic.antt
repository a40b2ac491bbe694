-- ===== src/Route/Hyperbolic.antt =====
-- route/routing-calculator-hyperbolic.cpp: next hops by the distance of coordinates. The functions
-- of <cmath> are a parameter, and a NaN, which they give outside their domains, is left out.
-- `none` is undefined behaviour: an element of an empty vector of angles.
pub mod Ranges
pub mod Tables
pub mod Untouched
pub mod Defined
use nlsr.Lsa.{coordinate_lsa, Body, adj_body, cor_body, name_body, Lsa}
use nlsr.Adjacency.{Adjacent}
use nlsr.Lsdb.{Lsdb, find_lsa}
use nlsr.Route.NextHop.{NextHop}
use nlsr.Route.NameMap.{get_router_name_by_mapping_no, get_mapping_no_by_router_name}
use nlsr.Route.RoutingTable.{RoutingTable, add_next_hop_to_table, add_next_hop_to_dry_table}
use nlsr.Hello.{is_inactive}
use nlsr.Prelude.{
  Eq, ◌==◌, Ord, Double, cost_lt, cost_le, cost_eq, length, nat_beq, if◌then◌else◌, ℕ, zero, suc,
  Bool, true, false, not, ◌&&◌, ◌||◌, Option, none, some, List, [], ◌∷◌, ◌++◌,
}

-- M_PI, 2 * M_PI, -1.0 (both unknown distance and unknown radius), 1, and <cmath>.
pub record Trigonometry (D : Type 0) : Type 0 where
  pub pi : D
  pub two_pi : D
  pub unknown_distance : D
  pub one : D
  pub times : D → D → D
  pub minus : D → D → D
  pub divide : D → D → D
  pub cos : D → D
  pub sin : D → D
  pub acos : D → D
  pub cosh : D → D
  pub sinh : D → D
  pub acosh : D → D

module _ {D : Type 0} ⦃d : Double D⦄ (m : Trigonometry D) where
  -- `angle > M_PI && angle < 0.0`
  abbrev pub is_outside : D → Bool
  is_outside angle = cost_lt m.pi angle && cost_lt angle d.zero_cost

  -- The loop over all angles but the last.
  unfoldable pub any_outside : List D → List D → Bool
  any_outside (a ∷ a' ∷ i) (b ∷ b' ∷ j) =
      is_outside a || is_outside b || any_outside (a' ∷ i) (b' ∷ j)
  any_outside _ _ = false

  -- `x *= std::sin(angle)` for each angle
  unfoldable pub times_sines : D → List D → D
  times_sines x [] = x
  times_sines x (angle ∷ angles) = times_sines (m.times x (m.sin angle)) angles

  -- The last angle, and those before it.
  abbrev pub last_angle : D → List D → D
  last_angle a [] = a
  last_angle a (b ∷ l) = last_angle b l

  abbrev pub first_angles : D → List D → List D
  first_angles a [] = []
  first_angles a (b ∷ l) = a ∷ first_angles b l

  -- The loop over the further coordinates, with the angles before each.
  unfoldable pub add_coordinates : List D → List D → List D → List D → D → D
  unfolding times_sines
  add_coordinates before_i (a ∷ i) before_j (b ∷ j) product =
      add_coordinates (before_i ++ a ∷ []) i (before_j ++ b ∷ []) j
        (d.plus product (m.times (times_sines (m.cos a) before_i) (times_sines (m.cos b) before_j)))
  add_coordinates before_i _ before_j _ product = product

  unfoldable pub inner_product : D → List D → D → List D → D
  unfolding add_coordinates times_sines
  inner_product a i b j =
      let x0 = m.times (m.cos a) (m.cos b) in
      let xni = times_sines (m.sin (last_angle a i)) (first_angles a i) in
      let xnj = times_sines (m.sin (last_angle b j)) (first_angles b j) in
      add_coordinates (a ∷ []) i (b ∷ []) j (d.plus d.zero_cost (d.plus x0 (m.times xni xnj)))

  -- The test on the last angle, which is written twice for the first vector.
  abbrev pub is_not_within : D → Bool
  is_not_within angle = cost_lt m.two_pi angle || cost_lt angle d.zero_cost

  unfoldable pub distance_of : List D → List D → Option D
  unfolding inner_product
  distance_of [] _ = none
  distance_of (a ∷ i) [] = none
  distance_of (a ∷ i) (b ∷ j) =
      if is_not_within (last_angle a i)
      then some m.unknown_distance
      else if is_not_within (last_angle a i)
      then some m.unknown_distance
      else some (m.acos (inner_product a i b j))

  unfoldable pub calculate_angular_distance : List D → List D → Option D
  unfolding distance_of any_outside
  calculate_angular_distance i j =
      if not (nat_beq (length i) (length j))
      then some m.unknown_distance
      else if any_outside i j
      then some m.unknown_distance
      else distance_of i j

  unfoldable pub calculate_hyperbolic_distance : D → D → D → D
  calculate_hyperbolic_distance ri rj delta =
      let zeta = m.one in
      let zi = m.times zeta ri in
      let zj = m.times zeta rj in
      if cost_eq delta m.unknown_distance
      then m.unknown_distance
      else if cost_le delta d.zero_cost || cost_le ri d.zero_cost || cost_le rj d.zero_cost
      then m.unknown_distance
      else m.times (m.divide m.one zeta) (
          m.acosh (
            m.minus (m.times (m.cosh zi) (m.cosh zj))
              (m.times (m.times (m.sinh zi) (m.sinh zj)) (m.cos delta))))

  unfoldable pub with_angular_distance : D → D → Option D → Option D
  unfolding calculate_hyperbolic_distance
  with_angular_distance ri rj none = none
  with_angular_distance ri rj (some delta) =
      if cost_eq ri m.unknown_distance
        || cost_eq rj m.unknown_distance
        || cost_eq delta m.unknown_distance
      then some m.unknown_distance
      else some (calculate_hyperbolic_distance ri rj delta)

  -- CoordinateLsa::getRadius and getTheta, on an LSA of that type.
  abbrev pub radius : {N F : Type 0} → Body N F D → D
  radius (cor_body r angles) = r
  radius (adj_body l) = d.zero_cost
  radius (name_body l) = d.zero_cost

  abbrev pub theta : {N F : Type 0} → Body N F D → List D
  theta (cor_body r angles) = angles
  theta (adj_body l) = []
  theta (name_body l) = []

  unfoldable pub distance_between :
      {N F : Type 0} → Option (Lsa N F D) → Option (Lsa N F D) → Option D
  unfolding calculate_angular_distance with_angular_distance
  distance_between none _ = some m.unknown_distance
  distance_between (some src) none = some m.unknown_distance
  distance_between (some src) (some dest) =
      with_angular_distance (radius src.body) (radius dest.body)
        (calculate_angular_distance (theta src.body) (theta dest.body))

module _ {N F D : Type 0} where
  abbrev pub then_table :
      Option (RoutingTable N F D)
      → (RoutingTable N F D → Option (RoutingTable N F D))
      → Option (RoutingTable N F D)
  then_table none f = none
  then_table (some rt) f = f rt

module _ {N F D : Type 0} ⦃n : Eq N⦄ ⦃f : Eq F⦄ ⦃o : Ord F⦄ ⦃d : Double D⦄
    (m : Trigonometry D) where
  unfoldable pub get_hyperbolic_distance : Lsdb N F D → N → N → Option D
  unfolding distance_between find_lsa
  get_hyperbolic_distance db src dest =
      distance_between m (find_lsa db src coordinate_lsa) (find_lsa db dest coordinate_lsa)

module _ {N F D : Type 0} ⦃n : Eq N⦄ ⦃f : Eq F⦄ ⦃o : Ord F⦄ ⦃d : Double D⦄ (m : Trigonometry D)
    (is_dry_run : Bool) where
  unfoldable pub add_hyperbolic_hop : N → F → D → RoutingTable N F D → RoutingTable N F D
  unfolding add_next_hop_to_dry_table add_next_hop_to_table
  add_hyperbolic_hop dest uri cost rt =
      let hop : NextHop F D = record { uri = uri; route_cost = cost; is_hyperbolic = true } in
      if is_dry_run
      then add_next_hop_to_dry_table rt dest hop
      else add_next_hop_to_table rt dest hop

  -- A distance that was computed; `none` stays undefined.
  unfoldable pub add_at_distance :
      N → F → Option D → RoutingTable N F D → Option (RoutingTable N F D)
  unfolding add_hyperbolic_hop
  add_at_distance dest uri none rt = none
  add_at_distance dest uri (some distance) rt =
      if cost_eq distance m.unknown_distance
      then some rt
      else some (add_hyperbolic_hop dest uri distance rt)

  -- The body of the loop over the destinations.
  unfoldable pub add_destination :
      Lsdb N F D → N → F → Option N → RoutingTable N F D → Option (RoutingTable N F D)
  unfolding add_at_distance get_hyperbolic_distance
  add_destination db src uri none rt = some rt
  add_destination db src uri (some dest) rt =
      add_at_distance dest uri (get_hyperbolic_distance m db src dest) rt

  -- The loop: the rounds that are left, and the destination. Without a number of this router it
  -- does nothing.
  unfoldable pub add_destinations :
      Lsdb N F D
      → List (N × ℕ)
      → ℕ
      → ℕ
      → N
      → F
      → ℕ
      → ℕ
      → RoutingTable N F D
      → Option (RoutingTable N F D)
  unfolding add_destination get_router_name_by_mapping_no
  add_destinations db names this src_no src uri zero dest rt = some rt
  add_destinations db names this src_no src uri (suc rounds) dest rt =
      let added =
        if nat_beq dest this || nat_beq dest src_no
        then some rt
        else add_destination db src uri (get_router_name_by_mapping_no names dest) rt in
      then_table added (add_destinations db names this src_no src uri rounds (suc dest))

  unfoldable pub from_neighbor :
      Lsdb N F D
      → List (N × ℕ)
      → Option ℕ
      → Option ℕ
      → N
      → F
      → RoutingTable N F D
      → Option (RoutingTable N F D)
  unfolding add_destinations
  from_neighbor db names this none src uri rt = some rt
  from_neighbor db names none (some src_no) src uri rt = some rt
  from_neighbor db names (some this) (some src_no) src uri rt =
      add_destinations db names this src_no src uri (length names) 0 rt

  -- The first tests of the loop over the neighbours.
  abbrev pub is_used : N → Adjacent N F D → Bool
  is_used this_router_name a = not (is_inactive a.status) && not (a.name == this_router_name)

  unfoldable pub calculate_path :
      Lsdb N F D
      → List (N × ℕ)
      → N
      → List (Adjacent N F D)
      → RoutingTable N F D
      → Option (RoutingTable N F D)
  unfolding from_neighbor add_hyperbolic_hop get_mapping_no_by_router_name
  calculate_path db names this_router_name [] rt = some rt
  calculate_path db names this_router_name (a ∷ adjacencies) rt =
      let skipped = calculate_path db names this_router_name adjacencies rt in
      let used =
        then_table
          (from_neighbor db names (get_mapping_no_by_router_name names this_router_name)
            (get_mapping_no_by_router_name names a.name) a.name a.face_uri
            (add_hyperbolic_hop a.name a.face_uri d.zero_cost rt))
          (calculate_path db names this_router_name adjacencies) in
      if is_used this_router_name a then used else skipped
