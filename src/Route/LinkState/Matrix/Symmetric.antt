-- ===== src/Route/LinkState/Matrix/Symmetric.antt =====
-- The correction in place gives each pair of routers one cost, computed from the two that were
-- announced.
use nlsr.Prelude.{
  Eq, Double, cost_eq, cost_eq_iff, length, for_up, nat_beq, if◌then◌else◌, nat_beq_eq, Bool-cases,
  ℕ, zero, suc, ◌+◌, ◌≤◌, ◌<◌, ◌≡◌, refl, ◌∙◌, inl, inr, Bool, true, false, ◌&&◌, ◌||◌, List, [],
  ◌∷◌, arith,
}
use nlsr.Adjacency.{Adjacent}
use nlsr.Lsa.{adl, Lsa}
use nlsr.Route.LinkState.Dijkstra.{AdjMatrix}
use nlsr.Route.LinkState.Matrix.{
  fill_cell, fill_row, corrected_cost, correct_row, correct_all, unconnected, fill, make_adj_matrix,
  correct,
}

abbrev either : (ℕ → ℕ → Bool) → (ℕ → ℕ → Bool) → ℕ → ℕ → Bool
either h k i j = h i j || k i j

abbrev at_pair : ℕ → ℕ → ℕ → ℕ → Bool
at_pair row col i j = (nat_beq i row && nat_beq j col) || (nat_beq i col && nat_beq j row)

-- A loop whose rounds each correct some pairs.
abbrev hits : (ℕ → ℕ → ℕ → Bool) → ℕ → ℕ → ℕ → ℕ → Bool
hits h zero from i j = false
hits h (suc k) from i j = h from i j || hits h k (suc from) i j

hits-true :
    (h : ℕ → ℕ → ℕ → Bool) (k from x i j : ℕ)
    → from ≤ x
    → x < from + k
    → h x i j ≡ true
    → hits h k from i j ≡ true
hits-true h zero from x i j a b t = absurd (omega arith)
hits-true h (suc k) from x i j a b t = elim (Bool-cases (nat_beq from x)) [
  | inl here ↦ ground (arith, t, nat_beq_eq from x here)
  | inr there ↦ ground (arith, hits-true h k (suc from) x i j (ground arith) (omega arith) t)
]

module _ {D : Type 0} ⦃d : Double D⦄ where
  -- What the comment in the source asks for: equal costs stay; of two costs that are both up the
  -- larger one; otherwise the link is broken.
  abbrev pub link_cost : D → D → D
  link_cost to from = if cost_eq from to then to else corrected_cost to from

  abbrev pub between : AdjMatrix D → ℕ → ℕ → D
  between m i j = link_cost (m.cell i j) (m.cell j i)

  link_cost_symm : (to from : D) → link_cost to from ≡ link_cost from to
  unfolding corrected_cost
  link_cost_symm to from = ground (arith, cost_eq_iff from to)

  link_cost_self : (c : D) → link_cost c c ≡ c
  link_cost_self c = ground arith

  -- The pairs that are hit have the corrected cost, the others their old one.
  abbrev Corrects : (ℕ → ℕ → Bool) → AdjMatrix D → AdjMatrix D → Type 0
  Corrects hit m m' =
      (i j : ℕ)
      → (m'.cell i j ≡ (if hit i j then between m i j else m.cell i j)) × (hit i j ≡ hit j i)

  Corrects-trans :
      (h k : ℕ → ℕ → Bool) (m m' m'' : AdjMatrix D)
      → Corrects h m m'
      → Corrects k m' m''
      → Corrects (either h k) m m''
  Corrects-trans h k m m' m'' a b i j = ground (
    arith,
    a i j,
    a j i,
    b i j,
    link_cost_symm (m.cell i j) (m.cell j i),
    link_cost_self (between m i j),
  )

  correct-Corrects :
      (row col : ℕ) (m : AdjMatrix D) → Corrects (at_pair row col) m (correct row col m)
  unfolding correct
  correct-Corrects row col m i j = ground (
    arith,
    cost_eq_iff (m.cell col row) (m.cell row col),
    link_cost_symm (m.cell i j) (m.cell j i),
  )

  for_up-Corrects :
      (h : ℕ → ℕ → ℕ → Bool) (body : ℕ → AdjMatrix D → AdjMatrix D)
      → ((x : ℕ) (m : AdjMatrix D) → Corrects (h x) m (body x m))
      → (k from : ℕ) (m : AdjMatrix D) → Corrects (hits h k from) m (for_up k from body m)
  for_up-Corrects h body c zero from m = λ i j. (refl, refl)
  for_up-Corrects h body c (suc k) from m =
      Corrects-trans (h from) (hits h k (suc from)) m (body from m)
        (for_up k (suc from) body (body from m)) (c from m)
        (for_up-Corrects h body c k (suc from) (body from m))

  correct_all-Corrects :
      (n : ℕ) (m : AdjMatrix D)
      → Corrects (hits (λ row. hits (at_pair row) n 0) n 0) m (correct_all n m)
  unfolding correct_all correct_row
  correct_all-Corrects n m =
      for_up-Corrects (λ row. hits (at_pair row) n 0) (correct_row n)
        (λ row m. for_up-Corrects (at_pair row) (correct row) (correct-Corrects row) n 0 m) n 0 m

  pub correct_all_lem :
      (n i j : ℕ) (m : AdjMatrix D) → i < n → j < n → (correct_all n m).cell i j ≡ between m i j
  correct_all_lem n i j m hi hj = ground (
    arith,
    correct_all-Corrects n m i j,
    hits-true (λ row. hits (at_pair row) n 0) n 0 i i j (omega arith) (omega arith)
        (hits-true (at_pair i) n 0 j i j (omega arith) (omega arith) (ground arith)),
  )

  for_up-size :
      (body : ℕ → AdjMatrix D → AdjMatrix D)
      → ((x : ℕ) (m : AdjMatrix D) → (body x m).size ≡ m.size)
      → (k from : ℕ) (m : AdjMatrix D) → (for_up k from body m).size ≡ m.size
  for_up-size body keeps zero from m = refl
  for_up-size body keeps (suc k) from m =
      for_up-size body keeps k (suc from) (body from m) ∙ keeps from m

  correct_all-size : (n : ℕ) (m : AdjMatrix D) → (correct_all n m).size ≡ m.size
  unfolding correct_all correct_row correct
  correct_all-size n m =
      for_up-size (correct_row n) (λ row m. for_up-size (correct row) (λ col m. ground arith) n 0 m)
        n 0 m

module _ {N F D : Type 0} ⦃n : Eq N⦄ ⦃d : Double D⦄ where
  -- In the matrix of an LSDB each pair of routers with numbers below the size has the one cost that
  -- its two announced costs give, the same in both directions.
  pub make_adj_matrix-cell :
      (lsas : List (Lsa N F D)) (names : List (N × ℕ)) (i j : ℕ)
      → i < length names
      → j < length names
      → let announced = fill names (length names) lsas (unconnected (length names)) in
        let m = make_adj_matrix lsas names in
        (m.cell i j ≡ link_cost (announced.cell i j) (announced.cell j i))
        × (m.cell i j ≡ m.cell j i)
  unfolding make_adj_matrix
  make_adj_matrix-cell lsas names i j hi hj = ground (
    arith,
    correct_all_lem (length names) i j (fill names (length names) lsas (unconnected (length names)))
        hi hj,
    correct_all_lem (length names) j i (fill names (length names) lsas (unconnected (length names)))
        hj hi,
    link_cost_symm ((fill names (length names) lsas (unconnected (length names))).cell i j)
        ((fill names (length names) lsas (unconnected (length names))).cell j i),
  )

  fill_cell-size :
      (names : List (N × ℕ)) (k : ℕ) (origin : N) (a : Adjacent N F D) (m : AdjMatrix D)
      → (fill_cell names k origin a m).size ≡ m.size
  unfolding fill_cell
  fill_cell-size names k origin a m = ground arith

  fill_row-size :
      (names : List (N × ℕ)) (k : ℕ) (origin : N) (l : List (Adjacent N F D)) (m : AdjMatrix D)
      → (fill_row names k origin l m).size ≡ m.size
  unfolding fill_row
  fill_row-size names k origin [] m = refl
  fill_row-size names k origin (a ∷ l) m =
      fill_row-size names k origin l (fill_cell names k origin a m)
      ∙ fill_cell-size names k origin a m

  fill-size :
      (names : List (N × ℕ)) (k : ℕ) (lsas : List (Lsa N F D)) (m : AdjMatrix D)
      → (fill names k lsas m).size ≡ m.size
  unfolding fill
  fill-size names k [] m = refl
  fill-size names k (l ∷ lsas) m =
      fill-size names k lsas (fill_row names k l.origin_router (adl l.body) m)
      ∙ fill_row-size names k l.origin_router (adl l.body) m

  pub make_adj_matrix-size :
      (lsas : List (Lsa N F D)) (names : List (N × ℕ))
      → (make_adj_matrix lsas names).size ≡ length names
  unfolding make_adj_matrix unconnected
  make_adj_matrix-size lsas names =
      correct_all-size (length names) (fill names (length names) lsas (unconnected (length names)))
      ∙ fill-size names (length names) lsas (unconnected (length names))
