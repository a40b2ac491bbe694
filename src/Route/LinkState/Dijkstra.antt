-- ===== src/Route/LinkState/Dijkstra.antt =====
-- DijkstraResult, sortQueueByDistance, isNotExplored and calculateDijkstraPath. Routers are their
-- mapping numbers below `size`; a vector indexed by them is a function, read and written at such
-- numbers only. The queue is the part of the vector q from `head` on: nothing reads the part
-- before it. `none` as a parent is EMPTY_PARENT.
pub mod Queue
pub mod Relax
pub mod Optimal
pub mod Tree
pub mod NextHops
use nlsr.Prelude.{
  Double, cost_lt, cost_le, cost_eq, length, for_up, nat_beq, if◌then◌else◌, ℕ, zero, suc, Bool,
  true, false, ◌&&◌, Option, none, some, List, [], ◌∷◌,
}

pub record AdjMatrix (D : Type 0) : Type 0 where
  pub size : ℕ
  pub cell : ℕ → ℕ → D

pub record DijkstraResult (D : Type 0) : Type 0 where
  pub parent : ℕ → Option ℕ
  pub distance : ℕ → D

-- v[i] = x
abbrev pub write {ℓ} : {A : Type ℓ} → (ℕ → A) → ℕ → A → ℕ → A
write f i x j = if nat_beq j i then x else f j

unfoldable pub is_not_explored : List ℕ → ℕ → Bool
is_not_explored [] u = false
is_not_explored (x ∷ q) u = if nat_beq x u then true else is_not_explored q u

-- The numbers from `i` on, as many as the count.
abbrev pub count_up : ℕ → ℕ → List ℕ
count_up i zero = []
count_up i (suc k) = i ∷ count_up (suc i) k

-- getNextHop. The fuel bounds the steps along the parents; the outer `none` is running out of
-- it, the inner one NO_NEXT_HOP.
unfoldable pub follow : (ℕ → Option ℕ) → ℕ → ℕ → Option ℕ → Option (ℕ × Option ℕ)
follow parent zero dest next_hop = none
follow parent (suc k) dest next_hop = elim (parent dest) [
  | none ↦ some (dest, next_hop)
  | some p ↦ follow parent k p (some dest)
]

module _ {D : Type 0} ⦃d : Double D⦄ where
  -- The inner loop: `x` stands at position i, and changes places with each nearer router that
  -- the loop meets. The result is what stands at i in the end, and the rest.
  unfoldable pub sift : (ℕ → D) → ℕ → List ℕ → ℕ × List ℕ
  sift dist x [] = (x, [])
  sift dist x (y ∷ ys) =
      let (m, r) = sift dist (if cost_lt (dist y) (dist x) then y else x) ys in
      (m, (if cost_lt (dist y) (dist x) then x else y) ∷ r)

  -- The outer loop, by the rounds left.
  unfoldable pub sort_rounds : (ℕ → D) → ℕ → List ℕ → List ℕ
  unfolding sift
  sort_rounds dist zero q = q
  sort_rounds dist (suc k) [] = []
  sort_rounds dist (suc k) (x ∷ xs) = let (m, r) = sift dist x xs in m ∷ sort_rounds dist k r

  unfoldable pub sort_queue_by_distance : (ℕ → D) → List ℕ → List ℕ
  unfolding sort_rounds
  sort_queue_by_distance dist q = sort_rounds dist (length q) q

  -- The body of the loop over the routers `v`; `rest` is the queue behind its head `u`.
  unfoldable pub relax : (ℕ → ℕ → D) → ℕ → List ℕ → ℕ → DijkstraResult D → DijkstraResult D
  unfolding is_not_explored
  relax matrix u rest v s =
      let new_distance = d.plus (s.distance u) (matrix u v) in
      if cost_le d.zero_cost (matrix u v) && is_not_explored rest v
      then (if cost_lt new_distance (s.distance v)
          then record s {
            parent = write s.parent v (some u);
            distance = write s.distance v new_distance;
          }
          else s)
      else s

  unfoldable pub relax_all : AdjMatrix D → ℕ → List ℕ → DijkstraResult D → DijkstraResult D
  unfolding relax
  relax_all m u rest s = for_up m.size 0 (relax m.cell u rest) s

  -- `while (head < nRouters)`, by the rounds left.
  unfoldable pub dijkstra_loop : AdjMatrix D → ℕ → List ℕ → DijkstraResult D → DijkstraResult D
  unfolding relax_all sort_queue_by_distance
  dijkstra_loop m zero q s = s
  dijkstra_loop m (suc k) [] s = s
  dijkstra_loop m (suc k) (u ∷ rest) s =
      let s' = relax_all m u rest s in
      let go_on = dijkstra_loop m k (sort_queue_by_distance s'.distance rest) s' in
      if cost_eq (s.distance u) d.inf_distance then s else go_on

  unfoldable pub initial : ℕ → DijkstraResult D
  initial source = record {
    parent = λ _. none;
    distance = write (λ _. d.inf_distance) source d.zero_cost;
  }

  unfoldable pub calculate_dijkstra_path : AdjMatrix D → ℕ → DijkstraResult D
  unfolding dijkstra_loop initial
  calculate_dijkstra_path m source =
      let s = initial source in
      dijkstra_loop m m.size (sort_queue_by_distance s.distance (count_up 0 m.size)) s

  unfoldable pub get_next_hop : DijkstraResult D → ℕ → ℕ → ℕ → Option (Option ℕ)
  unfolding follow
  get_next_hop r fuel dest source = elim (follow r.parent fuel dest none) [
    | none ↦ none
    | some (last, next_hop) ↦ if nat_beq last source then some next_hop else some none
  ]
