-- ===== src/Examples/HyperbolicRun.antt =====
-- Router 10 with the neighbours 20 and 30, whose coordinates are in the database; the functions of
-- <cmath> are simple ones on tenths.
use nlsr.Route.NextHop.{get_route_cost_as_adjusted_integer, hop_lt}
use nlsr.Route.NexthopList.{add_next_hop}
use nlsr.Lsa.{coordinate_lsa, cor_body, Lsa}
use nlsr.Lsdb.{Lsdb, find_lsa}
use nlsr.Route.Hyperbolic.{Trigonometry, inner_product, calculate_angular_distance, calculate_path}
use nlsr.Route.Hyperbolic.Ranges.{calculate_angular_distance-last_angle}
use nlsr.Route.Hyperbolic.Tables.{Result}
use nlsr.Route.Hyperbolic.Untouched.{LeavesAlone, calculate_path-LeavesAlone}
use nlsr.Route.Hyperbolic.Defined.{has_angles, calculate_path-defined}
use nlsr.Examples.Values.{nat_ord, Tenths, tenths, tenths_double}
use nlsr.Examples.LsdbRun.{dirty}
use nlsr.Examples.LinkStateRun.{own_neighbors, empty_table}
use nlsr.Prelude.{nat_eq, is_some, ℕ, ◌≡◌, refl, true, false, none, some, List, [], ◌∷◌, arith}

abbrev simple_functions : Trigonometry Tenths
simple_functions = record {
  pi = tenths 32;
  two_pi = tenths 64;
  unknown_distance = tenths 0;
  one = tenths 11;
  times = λ a b. a;
  minus = λ a b. a;
  divide = λ a b. a;
  cos = λ a. a;
  sin = λ a. a;
  acos = λ a. a;
  cosh = λ a. a;
  sinh = λ a. a;
  acosh = λ a. a;
}

abbrev coordinates_of : ℕ → Tenths → Lsa ℕ ℕ Tenths
coordinates_of router angle = record {
  origin_router = router;
  seq_no = 1;
  expiration_time_point = 100;
  body = cor_body (tenths 21) (angle ∷ []);
}

abbrev with_coordinates_of_two : Lsdb ℕ ℕ Tenths
with_coordinates_of_two = record dirty {
  lsdb = coordinates_of 20 (tenths 5) ∷ coordinates_of 30 (tenths 9) ∷ [];
}

abbrev three_names : List (ℕ × ℕ)
three_names = (10, 0) ∷ (20, 1) ∷ (30, 2) ∷ []

-- Each neighbour is reached at cost 0, and through the other one at their distance.
hyperbolic_routes :
    (elim (calculate_path simple_functions false with_coordinates_of_two three_names 10
      own_neighbors empty_table) [ none ↦ [] | some rt ↦ rt.r_table ])
    ≡ record {
      destination = 20;
      nexthop_list =
          record { uri = 2; route_cost = tenths 1; is_hyperbolic = true }
          ∷ record { uri = 3; route_cost = tenths 11; is_hyperbolic = true }
          ∷ [];
    }
      ∷ record {
        destination = 30;
        nexthop_list =
            record { uri = 3; route_cost = tenths 1; is_hyperbolic = true }
            ∷ record { uri = 2; route_cost = tenths 11; is_hyperbolic = true }
            ∷ [];
      }
      ∷ []
unfolding calculate_path add_next_hop hop_lt get_route_cost_as_adjusted_integer
hyperbolic_routes = refl

-- An angle of the second vector that is above 2 pi is taken as it is.
calculate_angular_distance-last_angle_example :
    calculate_angular_distance simple_functions (tenths 5 ∷ []) (tenths 99 ∷ [])
    ≡ some (inner_product simple_functions (tenths 5) [] (tenths 99) [])
calculate_angular_distance-last_angle_example =
    calculate_angular_distance-last_angle simple_functions (tenths 5) [] (tenths 99) [] refl
      (omega arith)

calculate_path-LeavesAlone_example : Result (LeavesAlone true 10 empty_table) (
    calculate_path simple_functions true with_coordinates_of_two three_names 10 own_neighbors
      empty_table)
calculate_path-LeavesAlone_example =
    calculate_path-LeavesAlone simple_functions true with_coordinates_of_two three_names 10
      own_neighbors empty_table (refl, refl, (refl, refl, (refl, refl, tt)))

two-angled :
    (router : ℕ)
    → has_angles simple_functions (find_lsa with_coordinates_of_two router coordinate_lsa) ≡ true
unfolding find_lsa
two-angled router = ground arith

calculate_path-defined_example :
    is_some (
      calculate_path simple_functions false with_coordinates_of_two three_names 10 own_neighbors
        empty_table)
    ≡ true
calculate_path-defined_example =
    calculate_path-defined simple_functions false with_coordinates_of_two two-angled three_names 10
      own_neighbors empty_table
