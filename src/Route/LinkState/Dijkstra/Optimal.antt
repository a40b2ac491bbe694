-- ===== src/Route/LinkState/Dijkstra/Optimal.antt =====
-- No walk is cheaper than the distance that is computed.
use nlsr.Route.LinkState.Dijkstra.Relax.{relax_all_lem, relax_all-head}
use nlsr.Prelude.{
  Double, cost_eq, length, nat_beq, nat_beq_eq, Bool-cases, ℕ, zero, suc, ◌≤◌, ◌<◌, ◌≡◌, refl, sym,
  ap, subst, ◌∙◌, ◌≢◌, inl, inr, true, false, List, [], ◌∷◌, arith,
}
use nlsr.Route.LinkState.Dijkstra.{
  count_up, initial, calculate_dijkstra_path, sort_queue_by_distance, dijkstra_loop, relax_all,
  DijkstraResult, is_not_explored, AdjMatrix,
}
use nlsr.Route.LinkState.Dijkstra.Queue.{
  count_up-member, length-count_up, sort_queue_by_distance_lem, Ascending,
}

-- A walk along links that are up, and its cost as the program adds it up, from the source on.
pub data Walk {D : Type 0} ⦃d : Double D⦄ (m : AdjMatrix D) (source : ℕ) : ℕ → D → Type 0 where
  start : Walk m source source d.zero_cost
  step :
      {v : ℕ} {c : D}
      → Walk m source v c
      → v < m.size
      → (w : ℕ) → w < m.size
      → d.rank d.zero_cost ≤ d.rank (m.cell v w)
      → Walk m source w (d.plus c (m.cell v w))

module _ {D : Type 0} ⦃d : Double D⦄ (m : AdjMatrix D) (source : ℕ) where
  abbrev pub Up : ℕ → ℕ → Type 0
  Up v w = (v < m.size) × (w < m.size) × (d.rank d.zero_cost ≤ d.rank (m.cell v w))

  -- The links from `v` improve nothing any more.
  abbrev pub Exhausted : DijkstraResult D → ℕ → Type 0
  Exhausted s v =
      (w : ℕ) → Up v w → d.rank (s.distance w) ≤ d.rank (d.plus (s.distance v) (m.cell v w))

  pub record Inv (q : List ℕ) (s : DijkstraResult D) : Type 0 where
    pub explored :
        (v : ℕ)
        → v < m.size
        → is_not_explored q v ≡ false
        → Exhausted s v
          × ((y : ℕ) → is_not_explored q y ≡ true → d.rank (s.distance v) ≤ d.rank (s.distance y))
    pub sorted : Ascending s.distance q
    pub at_source : s.distance source ≡ d.zero_cost
    pub nonneg : (v : ℕ) → d.rank d.zero_cost ≤ d.rank (s.distance v)
    pub capped : (v : ℕ) → d.rank (s.distance v) ≤ d.rank d.inf_distance

  -- Once no link improves a distance, the distances are below the cost of every walk.
  Walk-le :
      (s : DijkstraResult D)
      → s.distance source ≡ d.zero_cost
      → ((v : ℕ) → Exhausted s v)
      → {v : ℕ} {c : D} → Walk m source v c
      → d.rank (s.distance v) ≤ d.rank c
  Walk-le s at_source exhausted start = omega (arith, ap d.rank at_source)
  Walk-le s at_source exhausted (step {v} {c} walk hv w hw up) = omega (
    arith,
    exhausted v w (hv, hw, up),
    d.plus_mono (s.distance v) c (m.cell v w) (Walk-le s at_source exhausted walk),
  )

  module _ (u : ℕ) (rest : List ℕ) (s : DijkstraResult D) (inv : Inv (u ∷ rest) s) where
    abbrev pub next : DijkstraResult D
    next = relax_all m u rest s

    next-le : (w : ℕ) → d.rank (next.distance w) ≤ d.rank (s.distance w)
    next-le w = ground (arith, relax_all_lem m u rest s w)

    pub next-explored : (w : ℕ) → is_not_explored rest w ≡ false → next.distance w ≡ s.distance w
    next-explored w h = ground (arith, relax_all_lem m u rest s w)

    -- What is at least as far as the head stays so.
    pub next-ge :
        (w : ℕ)
        → d.rank (s.distance u) ≤ d.rank (s.distance w)
        → d.rank (s.distance u) ≤ d.rank (next.distance w)
    next-ge w h =
        ground (arith, relax_all_lem m u rest s w, d.plus_grows (s.distance u) (m.cell u w))

    pub head_le :
        (y : ℕ)
        → is_not_explored (u ∷ rest) y ≡ true
        → d.rank (s.distance u) ≤ d.rank (s.distance y)
    unfolding is_not_explored
    head_le y h = ground (arith, inv.sorted.0 y)

    pub member-tail : (y : ℕ) → is_not_explored rest y ≡ true → is_not_explored (u ∷ rest) y ≡ true
    unfolding is_not_explored
    member-tail y h = ground arith

    member-head :
        (y : ℕ) → is_not_explored (u ∷ rest) y ≡ true → y ≢ u → is_not_explored rest y ≡ true
    unfolding is_not_explored
    member-head y h ne = ground arith

    explored_before :
        (v : ℕ)
        → is_not_explored rest v ≡ false
        → nat_beq v u ≡ false
        → is_not_explored (u ∷ rest) v ≡ false
    unfolding is_not_explored
    explored_before v h ne = ground arith

    pub head-member : is_not_explored (u ∷ rest) u ≡ true
    unfolding is_not_explored
    head-member = ground arith

    -- The links of the head improve nothing after its round.
    head-Exhausted : Exhausted next u
    head-Exhausted w up = elim (Bool-cases (is_not_explored rest w)) [
      | inl waiting ↦ ground (arith, relax_all_lem m u rest s w, relax_all-head m u rest s)
      | inr done ↦ elim (Bool-cases (is_not_explored (u ∷ rest) w)) [
        | inl is_head ↦ ground (
          arith,
          next-explored w done,
          relax_all-head m u rest s,
          member-head w is_head,
          d.plus_grows (s.distance u) (m.cell u w),
        )
        | inr before ↦ ground (
          arith,
          next-explored w done,
          relax_all-head m u rest s,
          (inv.explored w up.1 before).1 u head-member,
          d.plus_grows (s.distance u) (m.cell u w),
        )
      ]
    ]

    explored-Exhausted : (v : ℕ) → is_not_explored rest v ≡ false → Exhausted next v
    explored-Exhausted v h = elim (Bool-cases (nat_beq v u)) [
      | inl is_head ↦ subst (Exhausted next) (sym (nat_beq_eq v u is_head)) head-Exhausted
      | inr other ↦ λ w up. ground (
        arith,
        (inv.explored v up.0 (explored_before v h other)).0 w up,
        next-le w,
        next-explored v h,
      )
    ]

    explored-le :
        (v y : ℕ)
        → v < m.size
        → is_not_explored rest v ≡ false
        → is_not_explored rest y ≡ true
        → d.rank (next.distance v) ≤ d.rank (next.distance y)
    explored-le v y lt h k = elim (Bool-cases (nat_beq v u)) [
      | inl is_head ↦
          ground (arith, relax_all-head m u rest s, next-ge y, head_le y (member-tail y k))
      | inr other ↦ ground (
        arith,
        next-explored v h,
        (inv.explored v lt (explored_before v h other)).1 u head-member,
        next-ge y,
        head_le y (member-tail y k),
      )
    ]

    pub next-Inv : Inv (sort_queue_by_distance next.distance rest) next
    next-Inv = record {
      explored = λ v lt h. next_explored v lt (sym (sorted_rest.1 v) ∙ h);
      sorted = sorted_rest.0;
      at_source = ground (
        arith,
        relax_all_lem m u rest s source,
        inv.at_source,
        inv.nonneg u,
        d.plus_grows (s.distance u) (m.cell u source),
      );
      nonneg = λ v. ground (
        arith,
        relax_all_lem m u rest s v,
        inv.nonneg u,
        inv.nonneg v,
        d.plus_grows (s.distance u) (m.cell u v),
      );
      capped = λ v. omega (arith, next-le v, inv.capped v);
    }
      where
        sorted_rest :
            Ascending next.distance (sort_queue_by_distance next.distance rest)
            × ((v : ℕ)
                → is_not_explored (sort_queue_by_distance next.distance rest) v
                  ≡ is_not_explored rest v)
            × (length (sort_queue_by_distance next.distance rest) ≡ length rest)
        sorted_rest = sort_queue_by_distance_lem next.distance rest

        next_explored :
            (v : ℕ)
            → v < m.size
            → is_not_explored rest v ≡ false
            → Exhausted next v
              × ((y : ℕ)
                  → is_not_explored (sort_queue_by_distance next.distance rest) y ≡ true
                  → d.rank (next.distance v) ≤ d.rank (next.distance y))
        next_explored v lt h =
            (explored-Exhausted v h, λ y k. explored-le v y lt h (sym (sorted_rest.1 y) ∙ k))

  -- When the head is out of reach, so is all that waits behind it.
  stopped :
      (u : ℕ) (rest : List ℕ) (s : DijkstraResult D)
      → Inv (u ∷ rest) s
      → cost_eq (s.distance u) d.inf_distance ≡ true
      → (v : ℕ) → Exhausted s v
  stopped u rest s inv h v = elim (Bool-cases (is_not_explored (u ∷ rest) v)) [
    | inl waiting ↦ λ w up. ground (
      arith,
      head_le u rest s inv v waiting,
      inv.capped w,
      d.plus_grows (s.distance v) (m.cell v w),
    )
    | inr done ↦ λ w up. (inv.explored v up.0 done).0 w up
  ]

  -- The loop ends with no link that improves a distance.
  dijkstra_loop-Exhausted :
      (k : ℕ) (q : List ℕ) (s : DijkstraResult D)
      → length q ≤ k
      → Inv q s
      → let r = dijkstra_loop m k q s in
        (r.distance source ≡ d.zero_cost) × ((v : ℕ) → Exhausted r v)
  unfolding dijkstra_loop is_not_explored
  dijkstra_loop-Exhausted zero [] s h inv =
      (inv.at_source, λ v w up. (inv.explored v up.0 refl).0 w up)
  dijkstra_loop-Exhausted zero (u ∷ rest) s h inv = absurd (omega arith)
  dijkstra_loop-Exhausted (suc k) [] s h inv =
      (inv.at_source, λ v w up. (inv.explored v up.0 refl).0 w up)
  dijkstra_loop-Exhausted (suc k) (u ∷ rest) s h inv =
      elim (Bool-cases (cost_eq (s.distance u) d.inf_distance)) [
        | inl unreachable ↦ rw unreachable (inv.at_source, stopped u rest s inv unreachable)
        | inr reachable ↦ rw reachable (
            dijkstra_loop-Exhausted k (sort_queue_by_distance (relax_all m u rest s).distance rest)
              (relax_all m u rest s)
              (omega (arith, (sort_queue_by_distance_lem (relax_all m u rest s).distance rest).2))
              (next-Inv u rest s inv))
      ]

  pub initial-Inv :
      source < m.size
      → Inv
          (sort_queue_by_distance (initial {D = D} source).distance (count_up 0 m.size))
          (initial source)
  unfolding initial
  initial-Inv h = record {
    explored = λ v lt e. absurd (ground (arith, sorted_all.1 v, count_up-member 0 m.size v, e));
    sorted = sorted_all.0;
    at_source = ground arith;
    nonneg = λ v. ground (arith, d.inf_pos);
    capped = λ v. ground (arith, d.inf_pos);
  }
    where
      sorted_all :
          Ascending
            (initial {D = D} source).distance
            (sort_queue_by_distance (initial {D = D} source).distance (count_up 0 m.size))
          × ((v : ℕ)
              → is_not_explored
                  (sort_queue_by_distance (initial {D = D} source).distance (count_up 0 m.size))
                  v
                ≡ is_not_explored (count_up 0 m.size) v)
          × (length (sort_queue_by_distance (initial {D = D} source).distance (count_up 0 m.size))
              ≡ length (count_up 0 m.size))
      sorted_all = sort_queue_by_distance_lem (initial {D = D} source).distance (count_up 0 m.size)

  pub calculate_dijkstra_path-Exhausted :
      source < m.size
      → ((calculate_dijkstra_path m source).distance source ≡ d.zero_cost)
        × ((v : ℕ) → Exhausted (calculate_dijkstra_path m source) v)
  unfolding calculate_dijkstra_path
  calculate_dijkstra_path-Exhausted h =
      let s : DijkstraResult D = initial source in
      let q = sort_queue_by_distance s.distance (count_up 0 m.size) in
      dijkstra_loop-Exhausted m.size q s
        (omega (
          arith,
          (sort_queue_by_distance_lem s.distance (count_up 0 m.size)).2,
          length-count_up 0 m.size,
        ))
        (initial-Inv h)

  -- The distance to a router is at most the cost of every walk to it from the source, where the
  -- source is a row of the matrix.
  pub distance-le-Walk :
      source < m.size
      → {v : ℕ} {c : D} → Walk m source v c
      → d.rank ((calculate_dijkstra_path m source).distance v) ≤ d.rank c
  distance-le-Walk h walk =
      let (at_source, exhausted) = calculate_dijkstra_path-Exhausted h in
      Walk-le (calculate_dijkstra_path m source) at_source exhausted walk
