-- ===== src/Route/LinkState/Dijkstra/Tree.antt =====
-- The parents form a tree: from each router that has one they lead to the source, in at most as
-- many steps as there are routers, and the distances add up along the way.
use nlsr.Prelude.{
  Double, cost_eq, nat_beq, nat_beq_eq, Bool-cases, ℕ, zero, suc, ◌+◌, ◌≤◌, ◌<◌, ◌≡◌, refl, sym,
  ◌∙◌, ◌≢◌, ◌⊎◌, inl, inr, true, false, none, some, List, [], ◌∷◌, arith,
}
use nlsr.Route.LinkState.Dijkstra.{
  count_up, initial, DijkstraResult, is_not_explored, sort_queue_by_distance, relax_all,
  dijkstra_loop, calculate_dijkstra_path, AdjMatrix,
}
use nlsr.Route.LinkState.Dijkstra.Queue.{count_up-member, sort_queue_by_distance_lem, Nearest}
use nlsr.Route.LinkState.Dijkstra.Relax.{improves, relax_all-head, relax_all_lem}
use nlsr.Route.LinkState.Dijkstra.Optimal.{
  initial-Inv, Inv, next-ge, head_le, member-tail, head-member, next-Inv, Up,
}

module _ {D : Type 0} ⦃d : Double D⦄ (m : AdjMatrix D) (source : ℕ) where
  -- The parents lead from a router to the source in so many steps, through routers that are at
  -- most as far as all that still wait in the queue.
  pub data Chain (s : DijkstraResult D) (q : List ℕ) : ℕ → ℕ → Type 0 where
    root : {v k : ℕ} → v ≡ source → k ≡ 0 → s.parent v ≡ none → Chain s q v k
    via :
        {v k : ℕ} (p j : ℕ)
        → k ≡ suc j
        → Chain s q p j
        → Nearest s.distance p q
        → s.parent v ≡ some p
        → Up m source p v
        → s.distance v ≡ d.plus (s.distance p) (m.cell p v)
        → Chain s q v k

  abbrev pub Placed : DijkstraResult D → List ℕ → ℕ → ℕ → Type 0
  Placed s q r v =
      ((s.parent v ≡ none) × (s.distance v ≡ d.inf_distance)) ⊎ ((k : ℕ) × Chain s q v k × (k ≤ r))

  module _ (u : ℕ) (rest : List ℕ) (s : DijkstraResult D) (inv : Inv m source (u ∷ rest) s) where
    abbrev after : DijkstraResult D
    after = relax_all m u rest s

    abbrev queue_after : List ℕ
    queue_after = sort_queue_by_distance after.distance rest

    member-after : (y : ℕ) → is_not_explored queue_after y ≡ true → is_not_explored rest y ≡ true
    member-after y h = sym ((sort_queue_by_distance_lem after.distance rest).1 y) ∙ h

    settled-keeps :
        (p : ℕ) → d.rank (s.distance p) ≤ d.rank (s.distance u) → improves m.cell u rest s p ≡ false
    settled-keeps p h = ground (arith, d.plus_grows (s.distance u) (m.cell u p))

    settled-after :
        (p : ℕ)
        → d.rank (s.distance p) ≤ d.rank (s.distance u)
        → Nearest after.distance p queue_after
    settled-after p h y k = ground (
      arith,
      relax_all_lem m u rest s p,
      settled-keeps p h,
      next-ge m source u rest s inv y,
      head_le m source u rest s inv y (member-tail m source u rest s inv y (member-after y k)),
    )

    -- A chain to a router that the round does not improve stays.
    Chain-after :
        (v k : ℕ)
        → Chain s (u ∷ rest) v k
        → improves m.cell u rest s v ≡ false
        → Chain after queue_after v k
    Chain-after v k (root e z none_yet) h = root e z (ground (arith, relax_all_lem m u rest s v))
    Chain-after v k (via p j z chain settled parent up sum) h =
        let near = settled u (head-member m source u rest s inv) in
        via p j z (Chain-after p j chain (settled-keeps p near)) (settled-after p near)
          (ground (arith, relax_all_lem m u rest s v)) up
          (ground
            (arith, relax_all_lem m u rest s v, relax_all_lem m u rest s p, settled-keeps p near))

    Placed-after :
        (r : ℕ)
        → u < m.size
        → s.distance u ≢ d.inf_distance
        → ((v : ℕ) → v < m.size → Placed s (u ∷ rest) r v)
        → (v : ℕ) → v < m.size
        → Placed after queue_after (suc r) v
    Placed-after r hu reachable placed v hv = elim (Bool-cases (improves m.cell u rest s v)) [
      | inl better ↦ elim (placed u hu) [
        | inl (_, far) ↦ absurd (reachable far)
        | inr (k, chain, short) ↦ inr (
          suc k,
          via u k refl (Chain-after u k chain (settled-keeps u (omega arith)))
              (settled-after u (omega arith)) (ground (arith, relax_all_lem m u rest s v))
              (hu, hv, ground arith)
              (ground (arith, relax_all_lem m u rest s v, relax_all-head m u rest s)),
          omega arith,
        )
      ]
      | inr same ↦ elim (placed v hv) [
        | inl (alone, far) ↦
            inl (
              ground (arith, relax_all_lem m u rest s v),
              ground (arith, relax_all_lem m u rest s v),
            )
        | inr (k, chain, short) ↦ inr (k, Chain-after v k chain same, omega arith)
      ]
    ]

  -- Once the queue does not matter any more.
  forget : (s : DijkstraResult D) (q : List ℕ) (v k : ℕ) → Chain s q v k → Chain s [] v k
  unfolding is_not_explored
  forget s q v k (root e z none_yet) = root e z none_yet
  forget s q v k (via p j z chain settled parent up sum) =
      via p j z (forget s q p j chain) (λ y h. cc) parent up sum

  forget-Placed :
      (s : DijkstraResult D) (q : List ℕ) (r t v : ℕ) → r ≤ t → Placed s q r v → Placed s [] t v
  forget-Placed s q r t v h (inl far) = inl far
  forget-Placed s q r t v h (inr (k, chain, short)) = inr (k, forget s q v k chain, omega arith)

  dijkstra_loop-Placed :
      (k r : ℕ) (q : List ℕ) (s : DijkstraResult D)
      → Inv m source q s
      → ((v : ℕ) → is_not_explored q v ≡ true → v < m.size)
      → ((v : ℕ) → v < m.size → Placed s q r v)
      → (v : ℕ) → v < m.size
      → Placed (dijkstra_loop m k q s) [] (r + k) v
  unfolding dijkstra_loop
  dijkstra_loop-Placed zero r q s inv below placed v hv =
      forget-Placed s q r (r + 0) v (omega arith) (placed v hv)
  dijkstra_loop-Placed (suc k) r [] s inv below placed v hv =
      forget-Placed s [] r (r + suc k) v (omega arith) (placed v hv)
  dijkstra_loop-Placed (suc k) r (u ∷ rest) s inv below placed v hv =
      elim (Bool-cases (cost_eq (s.distance u) d.inf_distance)) [
        | inl unreachable ↦
            rw unreachable (forget-Placed s (u ∷ rest) r (r + suc k) v (omega arith) (placed v hv))
        | inr reachable ↦
            rw (reachable, add_suc_shift r k)
              (dijkstra_loop-Placed k (suc r) (queue_after u rest s inv) (after u rest s inv)
                (next-Inv m source u rest s inv)
                (λ y h.
                  below y (member-tail m source u rest s inv y (member-after u rest s inv y h)))
                (Placed-after u rest s inv r (below u (head-member m source u rest s inv))
                  (λ far. ground (arith, far)) placed)
                v hv)
      ]
    where
      add_suc_shift : (a b : ℕ) → a + suc b ≡ suc a + b
      add_suc_shift a b = omega arith

  -- In the result each router is out of reach and without a parent, or its parents lead to the
  -- source in at most as many steps as there are routers.
  pub calculate_dijkstra_path-Placed :
      source < m.size → (v : ℕ) → v < m.size → Placed (calculate_dijkstra_path m source) [] m.size v
  unfolding calculate_dijkstra_path initial
  calculate_dijkstra_path-Placed h v hv =
      forget-Placed (calculate_dijkstra_path m source) [] (0 + m.size) m.size v (omega arith) (
        dijkstra_loop-Placed m.size 0 (sort_queue_by_distance s.distance (count_up 0 m.size)) s
          (initial-Inv m source h) below placed v hv)
    where
      s : DijkstraResult D
      s = initial source

      below :
          (y : ℕ)
          → is_not_explored (sort_queue_by_distance s.distance (count_up 0 m.size)) y ≡ true
          → y < m.size
      below y k = ground (
        arith,
        (sort_queue_by_distance_lem s.distance (count_up 0 m.size)).1 y,
        count_up-member 0 m.size y,
      )

      placed :
          (y : ℕ)
          → y < m.size
          → Placed s (sort_queue_by_distance s.distance (count_up 0 m.size)) 0 y
      placed y hy = elim (Bool-cases (nat_beq y source)) [
        | inl here ↦ inr (0, root (nat_beq_eq y source here) refl refl, omega arith)
        | inr there ↦ inl (refl, ground arith)
      ]
