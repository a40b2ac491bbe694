-- ===== src/Route/LinkState/Dijkstra/Relax.antt =====
-- What one round of the loop does to the distances and the parents.
use nlsr.Prelude.{
  Double, cost_lt, cost_le, for_up, ltb, leb, nat_beq, if◌then◌else◌, Bool-cases, ℕ, zero, suc, ◌+◌,
  ◌≡◌, ◌≢◌, inl, inr, Bool, ◌&&◌, some, List, arith,
}
use nlsr.Route.LinkState.Dijkstra.{DijkstraResult, is_not_explored, relax, relax_all, AdjMatrix}

module _ {D : Type 0} ⦃d : Double D⦄ (matrix : ℕ → ℕ → D) (u : ℕ) (rest : List ℕ) where
  -- The test under which router `v` gets a new distance and `u` as its parent.
  abbrev pub improves : DijkstraResult D → ℕ → Bool
  improves s v =
      cost_le d.zero_cost (matrix u v)
      && is_not_explored rest v
      && cost_lt (d.plus (s.distance u) (matrix u v)) (s.distance v)

  abbrev pub through : DijkstraResult D → ℕ → D
  through s v = d.plus (s.distance u) (matrix u v)

  -- The head itself never improves.
  relax-head :
      (v : ℕ) (s : DijkstraResult D)
      → ((relax matrix u rest v s).distance u ≡ s.distance u)
        × ((relax matrix u rest v s).parent u ≡ s.parent u)
  unfolding relax
  relax-head v s = ground (arith, d.plus_grows (s.distance u) (matrix u v))

  relax-here :
      (v : ℕ) (s : DijkstraResult D)
      → ((relax matrix u rest v s).distance v
          ≡ (if improves s v then through s v else s.distance v))
        × ((relax matrix u rest v s).parent v ≡ (if improves s v then some u else s.parent v))
  unfolding relax
  relax-here v s = ground arith

  relax-elsewhere :
      (v w : ℕ) (s : DijkstraResult D)
      → v ≢ w
      → ((relax matrix u rest v s).distance w ≡ s.distance w)
        × ((relax matrix u rest v s).parent w ≡ s.parent w)
  unfolding relax
  relax-elsewhere v w s ne = ground arith

  abbrev pub inside : ℕ → ℕ → ℕ → Bool
  inside i k w = leb i w && ltb w (i + k)

  relax-for_up :
      (k i w : ℕ) (s : DijkstraResult D)
      → ((for_up k i (relax matrix u rest) s).distance w
          ≡ (if inside i k w && improves s w then through s w else s.distance w))
        × ((for_up k i (relax matrix u rest) s).parent w
            ≡ (if inside i k w && improves s w then some u else s.parent w))
  relax-for_up zero i w s = ground arith
  relax-for_up (suc k) i w s = elim (Bool-cases (nat_beq i w)) [
    | inl here ↦
        ground (
          arith,
          relax-for_up k (suc i) w (relax matrix u rest i s),
          relax-here i s,
          relax-head i s,
        )
    | inr there ↦ ground (
      arith,
      relax-for_up k (suc i) w (relax matrix u rest i s),
      relax-elsewhere i w s,
      relax-head i s,
    )
  ]

module _ {D : Type 0} ⦃d : Double D⦄ (m : AdjMatrix D) (u : ℕ) (rest : List ℕ) where
  -- One round: each router that improves gets the distance through the head and the head as its
  -- parent; the others keep theirs.
  pub relax_all_lem :
      (s : DijkstraResult D) (w : ℕ)
      → ((relax_all m u rest s).distance w ≡ (
          if ltb w m.size && improves m.cell u rest s w
          then through m.cell u rest s w
          else s.distance w))
        × ((relax_all m u rest s).parent w
            ≡ (if ltb w m.size && improves m.cell u rest s w then some u else s.parent w))
  unfolding relax_all
  relax_all_lem s w = ground (arith, relax-for_up m.cell u rest m.size 0 w s)

  pub relax_all-head : (s : DijkstraResult D) → (relax_all m u rest s).distance u ≡ s.distance u
  relax_all-head s = ground (arith, relax_all_lem s u, d.plus_grows (s.distance u) (m.cell u u))
