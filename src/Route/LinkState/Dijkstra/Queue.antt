-- ===== src/Route/LinkState/Dijkstra/Queue.antt =====
-- Sorting the queue keeps its members and puts the nearest first.
use nlsr.Prelude.{
  Double, cost_lt, length, ltb, leb, if◌then◌else◌, ℕ, zero, suc, ◌+◌, ◌≤◌, ◌≡◌, refl, sym, ◌∙◌,
  true, ◌&&◌, List, [], ◌∷◌, arith,
}
use nlsr.Route.LinkState.Dijkstra.{
  is_not_explored, count_up, sift, sort_rounds, sort_queue_by_distance,
}

module _ {D : Type 0} ⦃d : Double D⦄ where
  -- No router of the queue is nearer than `m`.
  abbrev pub Nearest : (ℕ → D) → ℕ → List ℕ → Type 0
  Nearest dist m q = (v : ℕ) → is_not_explored q v ≡ true → d.rank (dist m) ≤ d.rank (dist v)

  abbrev pub Ascending : (ℕ → D) → List ℕ → Type 0
  Ascending dist [] = Unit {0}
  Ascending dist (x ∷ q) = Nearest dist x q × Ascending dist q

  sift-member :
      (dist : ℕ → D) (x : ℕ) (ys : List ℕ) (v : ℕ)
      → is_not_explored ((sift dist x ys).0 ∷ (sift dist x ys).1) v ≡ is_not_explored (x ∷ ys) v
  unfolding is_not_explored sift
  sift-member dist x [] v = refl
  sift-member dist x (y ∷ ys) v =
      ground (arith, sift-member dist (if cost_lt (dist y) (dist x) then y else x) ys v)

  sift-le :
      (dist : ℕ → D) (x : ℕ) (ys : List ℕ) → d.rank (dist (sift dist x ys).0) ≤ d.rank (dist x)
  unfolding sift
  sift-le dist x [] = omega arith
  sift-le dist x (y ∷ ys) =
      ground (arith, sift-le dist (if cost_lt (dist y) (dist x) then y else x) ys)

  sift-Nearest :
      (dist : ℕ → D) (x : ℕ) (ys : List ℕ) → Nearest dist (sift dist x ys).0 (sift dist x ys).1
  unfolding is_not_explored sift
  sift-Nearest dist x [] v h = cc
  sift-Nearest dist x (y ∷ ys) v h = ground (
    arith,
    sift-Nearest dist (if cost_lt (dist y) (dist x) then y else x) ys v,
    sift-le dist (if cost_lt (dist y) (dist x) then y else x) ys,
  )

  sort_rounds-member :
      (dist : ℕ → D) (k : ℕ) (q : List ℕ) (v : ℕ)
      → is_not_explored (sort_rounds dist k q) v ≡ is_not_explored q v
  unfolding is_not_explored sort_rounds
  sort_rounds-member dist zero q v = refl
  sort_rounds-member dist (suc k) [] v = refl
  sort_rounds-member dist (suc k) (x ∷ xs) v =
      ground (arith, sort_rounds-member dist k (sift dist x xs).1 v, sift-member dist x xs v)

  length-sift : (dist : ℕ → D) (x : ℕ) (ys : List ℕ) → length (sift dist x ys).1 ≡ length ys
  unfolding sift
  length-sift dist x [] = refl
  length-sift dist x (y ∷ ys) =
      omega (arith, length-sift dist (if cost_lt (dist y) (dist x) then y else x) ys)

  length-sort_rounds :
      (dist : ℕ → D) (k : ℕ) (q : List ℕ) → length (sort_rounds dist k q) ≡ length q
  unfolding sort_rounds
  length-sort_rounds dist zero q = refl
  length-sort_rounds dist (suc k) [] = refl
  length-sort_rounds dist (suc k) (x ∷ xs) =
      omega (arith, length-sort_rounds dist k (sift dist x xs).1, length-sift dist x xs)

  sort_rounds-Ascending :
      (dist : ℕ → D) (k : ℕ) (q : List ℕ) → length q ≤ k → Ascending dist (sort_rounds dist k q)
  unfolding sort_rounds
  sort_rounds-Ascending dist zero [] h = tt
  sort_rounds-Ascending dist zero (x ∷ xs) h = absurd (omega arith)
  sort_rounds-Ascending dist (suc k) [] h = tt
  sort_rounds-Ascending dist (suc k) (x ∷ xs) h = (
    λ v m. sift-Nearest dist x xs v (sym (sort_rounds-member dist k (sift dist x xs).1 v) ∙ m),
    sort_rounds-Ascending dist k (sift dist x xs).1 (omega (arith, length-sift dist x xs)),
  )

  -- Sorting leaves the same routers, as many, in the order of their distances.
  pub sort_queue_by_distance_lem :
      (dist : ℕ → D) (q : List ℕ)
      → Ascending dist (sort_queue_by_distance dist q)
        × ((v : ℕ) → is_not_explored (sort_queue_by_distance dist q) v ≡ is_not_explored q v)
        × (length (sort_queue_by_distance dist q) ≡ length q)
  unfolding sort_queue_by_distance
  sort_queue_by_distance_lem dist q = (
    sort_rounds-Ascending dist (length q) q (omega arith),
    sort_rounds-member dist (length q) q,
    length-sort_rounds dist (length q) q,
  )

pub count_up-member : (i k v : ℕ) → is_not_explored (count_up i k) v ≡ leb i v && ltb v (i + k)
unfolding is_not_explored
count_up-member i zero v = ground arith
count_up-member i (suc k) v = ground (arith, count_up-member (suc i) k v)

pub length-count_up : (i k : ℕ) → length (count_up i k) ≡ k
length-count_up i zero = refl
length-count_up i (suc k) = omega (arith, length-count_up (suc i) k)
