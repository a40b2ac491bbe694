-- ===== src/Prelude/Sets.antt =====
-- std::set as the sorted list of its elements, and std::set_difference over two such lists. An
-- element is compared by a key: a name by itself, a next hop by its face URI.
use mathlib.Core.Path.{◌≡◌, refl}
use mathlib.Core.Logic.{inl, inr}
use mathlib.Core.Bool.{Bool, true, ◌&&◌}
use mathlib.Core.List.{List, [], ◌∷◌}
use mathlib.Core.Option.{Option, none, some}
use native.Mathlib.Omega.{arith}
use nlsr.Prelude.Tests.{if◌then◌else◌, is_some, Bool-cases}
use nlsr.Prelude.Classes.{Eq, ◌==◌, ==_iff, Ord, less}
use nlsr.Prelude.Lists.{find_if, erase_if, modify_if}

-- std::set::insert: an element that is equivalent to one in the set is not inserted.
unfoldable pub set_insert {ℓ} : {A : Type ℓ} → (A → A → Bool) → A → List A → List A
set_insert lt x [] = x ∷ []
set_insert lt x (y ∷ ys) =
    let rest = set_insert lt x ys in
    if lt x y then x ∷ y ∷ ys else if lt y x then y ∷ rest else y ∷ ys

-- std::set_difference, on two sorted ranges.
unfoldable pub set_difference {ℓ} : {A : Type ℓ} → (A → A → Bool) → List A → List A → List A
set_difference lt [] ys = []
set_difference lt (x ∷ xs) [] = x ∷ xs
set_difference lt (x ∷ xs) (y ∷ ys) =
    let first = set_difference lt xs (y ∷ ys) in
    let second = set_difference lt (x ∷ xs) ys in
    let both = set_difference lt xs ys in
    if lt x y then x ∷ first else if lt y x then second else both

-- The key of an element that is compared by itself.
abbrev pub itself : {A : Type 0} → A → A
itself x = x

module _ {A K : Type 0} (key : A → K) ⦃o : Ord K⦄ where
  abbrev pub by_key : A → A → Bool
  by_key x y = less (key x) (key y)

  -- Every key of the list is above `k`.
  abbrev pub Above : K → List A → Type 0
  Above k [] = Unit {0}
  Above k (x ∷ xs) = (less k (key x) ≡ true) × Above k xs

  abbrev pub IsSorted : List A → Type 0
  IsSorted [] = Unit {0}
  IsSorted (x ∷ xs) = Above (key x) xs × IsSorted xs

  Above-mono : (j k : K) (xs : List A) → less j k ≡ true → Above k xs → Above j xs
  Above-mono j k [] h a = tt
  Above-mono j k (x ∷ xs) h a = (o.lt_trans j k (key x) h a.0, Above-mono j k xs h a.1)

  Above-set_insert :
      (k : K) (x : A) (xs : List A)
      → less k (key x) ≡ true
      → Above k xs
      → Above k (set_insert by_key x xs)
  unfolding set_insert
  Above-set_insert k x [] h a = (h, tt)
  Above-set_insert k x (y ∷ ys) h a = ground (arith, Above-set_insert k x ys h a.1)

  pub IsSorted-set_insert : (x : A) (xs : List A) → IsSorted xs → IsSorted (set_insert by_key x xs)
  unfolding set_insert
  IsSorted-set_insert x [] s = (tt, tt)
  IsSorted-set_insert x (y ∷ ys) s = ground (
    arith,
    IsSorted-set_insert x ys s.1,
    Above-set_insert (key y) x ys,
    Above-mono (key x) (key y) ys,
  )

  Above-set_difference :
      (k : K) (xs ys : List A) → Above k xs → Above k (set_difference by_key xs ys)
  unfolding set_difference
  Above-set_difference k [] ys a = tt
  Above-set_difference k (x ∷ xs) [] a = a
  Above-set_difference k (x ∷ xs) (y ∷ ys) a = ground (
    arith,
    Above-set_difference k xs (y ∷ ys) a.1,
    Above-set_difference k (x ∷ xs) ys a,
    Above-set_difference k xs ys a.1,
  )

  pub IsSorted-set_difference :
      (xs ys : List A) → IsSorted xs → IsSorted (set_difference by_key xs ys)
  unfolding set_difference
  IsSorted-set_difference [] ys s = tt
  IsSorted-set_difference (x ∷ xs) [] s = s
  IsSorted-set_difference (x ∷ xs) (y ∷ ys) s = ground (
    arith,
    Above-set_difference (key x) xs (y ∷ ys) s.0,
    IsSorted-set_difference xs (y ∷ ys) s.1,
    IsSorted-set_difference (x ∷ xs) ys s,
    IsSorted-set_difference xs ys s.1,
  )

  Above-erase_if : (k : K) (p : A → Bool) (xs : List A) → Above k xs → Above k (erase_if p xs)
  Above-erase_if k p [] a = tt
  Above-erase_if k p (x ∷ xs) a = ground (arith, Above-erase_if k p xs a.1)

  pub IsSorted-erase_if : (p : A → Bool) (xs : List A) → IsSorted xs → IsSorted (erase_if p xs)
  IsSorted-erase_if p [] s = tt
  IsSorted-erase_if p (x ∷ xs) s =
      ground (arith, IsSorted-erase_if p xs s.1, Above-erase_if (key x) p xs s.0)

  module _ ⦃e : Eq K⦄ where
    abbrev pub find_key : K → List A → Option A
    find_key k xs = find_if (λ x. key x == k) xs

    pub find_key-Above : (k : K) (xs : List A) → Above k xs → find_key k xs ≡ none
    find_key-Above k [] a = refl
    find_key-Above k (x ∷ xs) a =
        ground (arith, find_key-Above k xs a.1, ==_iff (key x) k, o.lt_irrefl k)

    -- The difference keeps exactly the elements whose key the second set lacks.
    pub find_key-set_difference :
        (k : K) (xs ys : List A)
        → IsSorted xs
        → IsSorted ys
        → find_key k (set_difference by_key xs ys)
          ≡ (if is_some (find_key k ys) then none else find_key k xs)
    unfolding set_difference
    find_key-set_difference k [] ys s t = ground arith
    find_key-set_difference k (x ∷ xs) [] s t = refl
    find_key-set_difference k (x ∷ xs) (y ∷ ys) s t = elim (Bool-cases (by_key x y)) [
      | inl x_first ↦ ground (
        arith,
        find_key-set_difference k xs (y ∷ ys) s.1 t,
        Above-mono (key x) (key y) ys x_first t.0,
        find_key-Above (key x) ys,
        ==_iff (key x) k,
        ==_iff (key y) k,
        o.lt_irrefl k,
      )
      | inr not_x_first ↦ elim (Bool-cases (by_key y x)) [
        | inl y_first ↦ ground (
          arith,
          find_key-set_difference k (x ∷ xs) ys s t.1,
          Above-mono (key y) (key x) xs y_first s.0,
          find_key-Above (key y) xs,
          ==_iff (key x) k,
          ==_iff (key y) k,
          o.lt_irrefl k,
        )
        | inr not_y_first ↦ ground (
          arith,
          find_key-set_difference k xs ys s.1 t.1,
          o.lt_total (key x) (key y) not_x_first not_y_first,
          find_key-Above (key x) xs s.0,
          ==_iff (key x) k,
          ==_iff (key y) k,
        )
      ]
    ]

    pub find_key-set_insert :
        (k : K) (x : A) (xs : List A)
        → find_key (key x) xs ≡ none
        → find_key k (set_insert by_key x xs) ≡ (if key x == k then some x else find_key k xs)
    unfolding set_insert
    find_key-set_insert k x [] h = refl
    find_key-set_insert k x (y ∷ ys) h = ground (
      arith,
      find_key-set_insert k x ys,
      o.lt_total (key x) (key y),
      ==_iff (key y) (key x),
      ==_iff (key x) k,
      ==_iff (key y) k,
    )

    pub find_key-erase_if :
        (k j : K) (xs : List A)
        → IsSorted xs
        → find_key k (erase_if (λ x. key x == j) xs) ≡ (if j == k then none else find_key k xs)
    find_key-erase_if k j [] s = ground arith
    find_key-erase_if k j (x ∷ xs) s = ground (
      arith,
      find_key-erase_if k j xs s.1,
      find_key-Above (key x) xs s.0,
      ==_iff (key x) j,
      ==_iff j k,
      ==_iff (key x) k,
    )

    -- A change in place that keeps the key.
    pub find_key-modify_if :
        (k j : K) (y : A) (xs : List A)
        → key y ≡ j
        → find_key k (modify_if (λ x. key x == j) (λ _. y) xs)
          ≡ (if is_some (find_key j xs) && (j == k) then some y else find_key k xs)
    find_key-modify_if k j y [] h = ground arith
    find_key-modify_if k j y (x ∷ xs) h = ground (
      arith,
      find_key-modify_if k j y xs h,
      ==_iff (key x) j,
      ==_iff j k,
      ==_iff (key x) k,
      ==_iff (key y) k,
    )

  Above-modify_if :
      ⦃e : Eq K⦄
      → (k j : K) (y : A) (xs : List A) → key y ≡ j
      → Above k xs
      → Above k (modify_if (λ x. key x == j) (λ _. y) xs)
  Above-modify_if k j y [] h a = tt
  Above-modify_if k j y (x ∷ xs) h a =
      ground (arith, Above-modify_if k j y xs h a.1, ==_iff (key x) j)

  pub IsSorted-modify_if :
      ⦃e : Eq K⦄
      → (j : K) (y : A) (xs : List A) → key y ≡ j
      → IsSorted xs
      → IsSorted (modify_if (λ x. key x == j) (λ _. y) xs)
  IsSorted-modify_if j y [] h s = tt
  IsSorted-modify_if j y (x ∷ xs) h s = ground (
    arith,
    IsSorted-modify_if j y xs h s.1,
    Above-modify_if (key x) j y xs h s.0,
    ==_iff (key x) j,
  )
