-- ===== src/Lsa/Names.antt =====
-- NameLsa::update: what becomes of the names.
use nlsr.Lsa.{name_lsa, Body, adj_body, cor_body, name_body, type_of_body, type_eq, npl}
use nlsr.Prelude.Sets.{
  itself, set_insert, set_difference, Above, IsSorted, IsSorted-set_insert, IsSorted-erase_if,
  find_key, find_key-set_difference,
}
use nlsr.Lsa.Update.{update_body, insert_each, erase_each}
use nlsr.Prelude.{
  Eq, ◌==◌, ==_iff, is_in, Ord, less, Double, erase_if, is_some, ◌≡◌, refl, true, false, not, ◌&&◌,
  ◌||◌, List, [], ◌∷◌, arith,
}

module _ {N : Type 0} ⦃n : Eq N⦄ ⦃no : Ord N⦄ where
  is_in-find_key : (k : N) (xs : List N) → is_in k xs ≡ is_some (find_key itself k xs)
  is_in-find_key k [] = refl
  is_in-find_key k (x ∷ xs) = ground (arith, is_in-find_key k xs, ==_iff k x, ==_iff x k)

  is_in-difference :
      (k : N) (xs ys : List N)
      → IsSorted itself xs
      → IsSorted itself ys
      → is_in k (set_difference less xs ys) ≡ (is_in k xs && not (is_in k ys))
  is_in-difference k xs ys s t = ground (
    arith,
    is_in-find_key k xs,
    is_in-find_key k ys,
    is_in-find_key k (set_difference less xs ys),
    find_key-set_difference itself k xs ys s t,
  )

  pub is_in-set_insert :
      (s x : N) (xs : List N) → is_in s (set_insert less x xs) ≡ (is_in s xs || s == x)
  unfolding set_insert
  is_in-set_insert s x [] = ground arith
  is_in-set_insert s x (y ∷ ys) =
      ground (arith, is_in-set_insert s x ys, no.lt_total x y, ==_iff s y, ==_iff s x)

  is_in-Above : (s : N) (xs : List N) → Above itself s xs → is_in s xs ≡ false
  is_in-Above s [] a = refl
  is_in-Above s (x ∷ xs) a = ground (arith, is_in-Above s xs a.1, ==_iff s x, no.lt_irrefl s)

  pub is_in-erase_if :
      (s x : N) (xs : List N)
      → IsSorted itself xs
      → is_in s (erase_if (λ (y : N). y == x) xs) ≡ (is_in s xs && not (s == x))
  is_in-erase_if s x [] h = refl
  is_in-erase_if s x (y ∷ ys) h =
      ground
        (arith, is_in-erase_if s x ys h.1, is_in-Above y ys h.0, ==_iff s x, ==_iff y x, ==_iff s y)

  is_in-insert_each :
      (k : N) (xs set : List N) → is_in k (insert_each less xs set) ≡ (is_in k set || is_in k xs)
  is_in-insert_each k [] set = ground arith
  is_in-insert_each k (x ∷ xs) set =
      ground (arith, is_in-insert_each k xs (set_insert less x set), is_in-set_insert k x set)

  IsSorted-insert_each :
      (xs set : List N) → IsSorted itself set → IsSorted itself (insert_each less xs set)
  IsSorted-insert_each [] set s = s
  IsSorted-insert_each (x ∷ xs) set s =
      IsSorted-insert_each xs (set_insert less x set) (IsSorted-set_insert itself x set s)

  is_in-erase_each :
      (k : N) (xs set : List N)
      → IsSorted itself set
      → (is_in k (erase_each xs set) ≡ (is_in k set && not (is_in k xs)))
        × IsSorted itself (erase_each xs set)
  is_in-erase_each k [] set s = (ground arith, s)
  is_in-erase_each k (x ∷ xs) set s =
      let without = erase_if (λ (y : N). y == x) set in
      let t = IsSorted-erase_if itself (λ (y : N). y == x) set s in
      let (rest, sorted) = is_in-erase_each k xs without t in
      (ground (arith, is_in-erase_if k x set s), sorted)

module _ {N F D : Type 0} ⦃n : Eq N⦄ ⦃no : Ord N⦄ ⦃f : Eq F⦄ ⦃d : Double D⦄ where
  -- An update gives a name LSA the names of the new one, in order.
  pub update_body-names :
      (k : N) (old : Body N F D) (names : List N)
      → type_eq (type_of_body old) name_lsa ≡ true
      → IsSorted itself (npl old)
      → IsSorted itself names
      → let new = (update_body old (name_body names)).new_body in
        (is_in k (npl new) ≡ is_in k names) × IsSorted itself (npl new)
  unfolding update_body
  update_body-names k (adj_body l) names h s t = cc h
  update_body-names k (cor_body r angles) names h s t = cc h
  update_body-names k (name_body old) names h s t =
      let more = set_difference less names old in
      let fewer = set_difference less old names in
      let all = insert_each less more old in
      let (left, sorted) = is_in-erase_each k fewer all (IsSorted-insert_each more old s) in
      let put = is_in-insert_each k more old in
      let added = is_in-difference k names old t s in
      let removed = is_in-difference k old names s t in (ground arith, sorted)
