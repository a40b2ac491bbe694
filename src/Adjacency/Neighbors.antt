-- ===== src/Adjacency/Neighbors.antt =====
-- The list of neighbours: when an adjacency LSA can be built, and what a change of a status does.
use nlsr.Prelude.{
  Eq, ◌==◌, ==_iff, length, find_if, modify_if, ltb, nat_beq, if◌then◌else◌, ℕ, suc, ◌+◌, ◌≡◌, refl,
  ◌&&◌, ◌||◌, none, some, List, [], ◌∷◌, arith,
}
use nlsr.Adjacency.{
  Status, has_name, find, is_neighbor, get_status_of_neighbor, set_status_of_neighbor, n_timed_out,
  count_timed_out, is_adj_lsa_buildable, get_num_of_active_neighbor, Adjacent,
}

module _ {N F D : Type 0} where
  count_timed_out_lem :
      (retry : ℕ) (l : List (Adjacent N F D)) (k : ℕ)
      → count_timed_out retry l k
        ≡ (if ltb 0 (get_num_of_active_neighbor l) then none else some (k + n_timed_out retry l))
  unfolding count_timed_out get_num_of_active_neighbor
  count_timed_out_lem retry [] k = ground arith
  count_timed_out_lem retry (a ∷ l) k =
      let later = count_timed_out_lem retry l (suc k) in
      let same = count_timed_out_lem retry l k in ground arith

  -- An adjacency LSA can be built exactly if some neighbour is active, or every neighbour has
  -- timed out at least as often as the configuration says.
  pub is_adj_lsa_buildable_lem :
      (l : List (Adjacent N F D)) (retry : ℕ)
      → is_adj_lsa_buildable l retry
        ≡ (ltb 0 (get_num_of_active_neighbor l) || nat_beq (n_timed_out retry l) (length l))
  unfolding is_adj_lsa_buildable
  is_adj_lsa_buildable_lem l retry = ground (arith, count_timed_out_lem retry l 0)

module _ {N F D : Type 0} ⦃n : Eq N⦄ where
  find-modify_status :
      (l : List (Adjacent N F D)) (an k : N) (s : Status)
      → find_if (has_name k) (modify_if (has_name an) (λ a. record a { status = s }) l)
        ≡ elim (find_if (has_name k) l) [
          | none ↦ none
          | some a ↦ some (if an == k then record a { status = s } else a)
        ]
  find-modify_status [] an k s = refl
  find-modify_status (a ∷ l) an k s =
      let rest = find-modify_status l an k s in
      ground (arith, ==_iff a.name an, ==_iff a.name k, ==_iff an k)

  -- Setting a neighbour's status changes the status of that neighbour only, and of no other name.
  pub status-set_status :
      (l : List (Adjacent N F D)) (an k : N) (s : Status)
      → get_status_of_neighbor (set_status_of_neighbor l an s) k
        ≡ (if an == k && is_neighbor l k then s else get_status_of_neighbor l k)
  unfolding get_status_of_neighbor set_status_of_neighbor is_neighbor find
  status-set_status l an k s = ground (arith, find-modify_status l an k s)
