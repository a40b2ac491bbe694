-- ===== src/Route/NameMap/Bijection.antt =====
-- Names and numbers correspond one to one, and the numbers are those below the size.
use nlsr.Lsa.{Lsa, adl}
use nlsr.Prelude.{
  Eq, ◌==◌, ==_iff, length, find_if, nat_beq, Bool-cases, ℕ, suc, ◌+◌, ◌≤◌, ◌<◌, ◌≡◌, refl, subst,
  ◌↔◌, ◌⊎◌, inl, inr, false, none, some, List, [], ◌∷◌, ◌++◌, arith,
}
use nlsr.Route.NameMap.{
  add_entries, adjacent_names, create_from_adj_lsdb, create_from_coordinate_lsdb, has_router,
  has_number, get_router_name_by_mapping_no, get_mapping_no_by_router_name, add_entry,
}

module _ {N : Type 0} ⦃n : Eq N⦄ where
  -- The pairs are numbered from `i` on, and no name comes twice.
  abbrev pub Numbered : ℕ → List (N × ℕ) → Type 0
  Numbered i [] = Unit {0}
  Numbered i ((r, j) ∷ m) = (j ≡ i) × (find_if (has_router r) m ≡ none) × Numbered (suc i) m

  number-none :
      (i j : ℕ) (m : List (N × ℕ))
      → Numbered i m
      → (j < i) ⊎ (i + length m ≤ j)
      → find_if (has_number j) m ≡ none
  number-none i j [] v h = refl
  number-none i j ((r, k) ∷ m) v h = ground (arith, number-none (suc i) j m v.2)

  router-append :
      (name r : N) (k : ℕ) (m : List (N × ℕ))
      → find_if (has_router name) m ≡ none
      → (r == name) ≡ false
      → find_if (has_router name) (m ++ (r, k) ∷ []) ≡ none
  router-append name r k [] h ne = ground arith
  router-append name r k ((s, j) ∷ m) h ne = ground (arith, router-append name r k m)

  Numbered-append :
      (i : ℕ) (r : N) (m : List (N × ℕ))
      → Numbered i m
      → find_if (has_router r) m ≡ none
      → Numbered i (m ++ (r, i + length m) ∷ [])
  Numbered-append i r [] v h = (omega arith, refl, tt)
  Numbered-append i r ((s, j) ∷ m) v h = (
    v.0,
    router-append s r (i + suc (length m)) m v.1 (ground (arith, ==_iff s r, ==_iff r s)),
    subst (λ (k : ℕ). Numbered (suc i) (m ++ (r, k) ∷ [])) (omega arith)
        (Numbered-append (suc i) r m v.2 (ground arith)),
  )

  add_entry-Numbered : (m : List (N × ℕ)) (name : N) → Numbered 0 m → Numbered 0 (add_entry m name)
  unfolding add_entry
  add_entry-Numbered m name v =
      ground (arith, Numbered-append 0 name m v, number-none 0 (length m) m v)

  by_router :
      (k : ℕ) (m : List (N × ℕ)) (name : N) (i : ℕ)
      → Numbered k m
      → get_mapping_no_by_router_name m name ≡ some i
      → (get_router_name_by_mapping_no m i ≡ some name) × (i < k + length m) × (k ≤ i)
  unfolding get_mapping_no_by_router_name get_router_name_by_mapping_no
  by_router k [] name i v h = cc
  by_router k ((r, j) ∷ m) name i v h =
      ground (arith, by_router (suc k) m name i v.2, ==_iff r name)

  by_number :
      (k : ℕ) (m : List (N × ℕ)) (name : N) (i : ℕ)
      → Numbered k m
      → get_router_name_by_mapping_no m i ≡ some name
      → (get_mapping_no_by_router_name m name ≡ some i) × (k ≤ i)
  unfolding get_mapping_no_by_router_name get_router_name_by_mapping_no
  by_number k [] name i v h = cc
  by_number k ((r, j) ∷ m) name i v h =
      ground (arith, by_number (suc k) m name i v.2, ==_iff r name)

  Numbered-found :
      (k : ℕ) (m : List (N × ℕ)) (i : ℕ)
      → Numbered k m
      → k ≤ i
      → i < k + length m
      → (r : N) × (get_router_name_by_mapping_no m i ≡ some r)
  unfolding get_router_name_by_mapping_no
  Numbered-found k [] i v h lt = absurd (omega arith)
  Numbered-found k ((r, j) ∷ m) i v h lt = elim (Bool-cases (nat_beq j i)) [
    | inl here ↦ (r, ground arith)
    | inr there ↦
        let (s, e) = Numbered-found (suc k) m i v.2 (ground arith) (omega arith) in
        (s, ground (arith, e))
  ]

  add_entries-Numbered :
      (names : List N) (m : List (N × ℕ)) → Numbered 0 m → Numbered 0 (add_entries names m)
  unfolding add_entries
  add_entries-Numbered [] m v = v
  add_entries-Numbered (name ∷ names) m v =
      add_entries-Numbered names (add_entry m name) (add_entry-Numbered m name v)

  -- The name map of the adjacency LSAs, added to a map that is numbered from zero on without gaps,
  -- each router once, is numbered in the same way.
  pub create_from_adj_lsdb-Numbered :
      {F D : Type 0} (lsas : List (Lsa N F D)) (m : List (N × ℕ))
      → Numbered 0 m
      → Numbered 0 (create_from_adj_lsdb lsas m)
  unfolding create_from_adj_lsdb
  create_from_adj_lsdb-Numbered [] m v = v
  create_from_adj_lsdb-Numbered (l ∷ lsas) m v =
      create_from_adj_lsdb-Numbered lsas
        (add_entries (adjacent_names (adl l.body)) (add_entry m l.origin_router))
        (add_entries-Numbered (adjacent_names (adl l.body)) (add_entry m l.origin_router)
          (add_entry-Numbered m l.origin_router v))

  -- The name map of the coordinate LSAs, added to a map that is numbered from zero on without gaps,
  -- each router once, is numbered in the same way.
  pub create_from_coordinate_lsdb-Numbered :
      {F D : Type 0} (lsas : List (Lsa N F D)) (m : List (N × ℕ))
      → Numbered 0 m
      → Numbered 0 (create_from_coordinate_lsdb lsas m)
  unfolding create_from_coordinate_lsdb
  create_from_coordinate_lsdb-Numbered [] m v = v
  create_from_coordinate_lsdb-Numbered (l ∷ lsas) m v =
      create_from_coordinate_lsdb-Numbered lsas (add_entry m l.origin_router)
        (add_entry-Numbered m l.origin_router v)

  -- Both lookups are inverse to each other; each number below the size has a router, and only
  -- those are found.
  pub lookups_lem :
      (m : List (N × ℕ)) (name : N) (i : ℕ)
      → Numbered 0 m
      → ((get_mapping_no_by_router_name m name ≡ some i)
          ↔ (get_router_name_by_mapping_no m i ≡ some name))
        × (get_mapping_no_by_router_name m name ≡ some i → i < length m)
        × (i < length m → (r : N) × (get_router_name_by_mapping_no m i ≡ some r))
  unfolding get_mapping_no_by_router_name get_router_name_by_mapping_no
  lookups_lem m name i v = (
    (λ h. (by_router 0 m name i v h).0, λ h. (by_number 0 m name i v h).0),
    λ h. omega (arith, (by_router 0 m name i v h).1),
    λ h. Numbered-found 0 m i v (omega arith) (omega arith),
  )

  -- In a name map that is numbered from zero on, the lookup by router and the lookup by number are
  -- inverse to each other: a router has a number exactly if the number has that router.
  pub lookups-inverse :
      (m : List (N × ℕ)) (name : N) (i : ℕ)
      → Numbered 0 m
      → (get_mapping_no_by_router_name m name ≡ some i)
        ↔ (get_router_name_by_mapping_no m i ≡ some name)
  lookups-inverse m name i v = (lookups_lem m name i v).0
