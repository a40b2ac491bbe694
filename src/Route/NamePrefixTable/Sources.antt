-- ===== src/Route/NamePrefixTable/Sources.antt =====
-- Which LSAs account for a prefix.
use nlsr.Prelude.{
  Eq, ◌==◌, ==_iff, find_if, erase_if, modify_if, if◌then◌else◌, Bool-cases, Option-cases, is_some,
  ◌≡◌, ap, subst, inl, inr, true, false, ◌&&◌, none, some, List, [], ◌∷◌, ◌++◌, arith,
}
use nlsr.Lsa.{LsaType}
use nlsr.Route.NamePrefixTable.{
  remove_source, SourceMask, no_source, set_source, is_empty, has_route_key, source_entry,
  add_source, SourceEntry,
}

empty-no_source : (m : SourceMask) → is_empty m ≡ true → m ≡ no_source
empty-no_source m h = ground arith

set_source-no_source : (type : LsaType) → set_source type false no_source ≡ no_source
unfolding set_source
set_source-no_source type = ground arith

module _ {N : Type 0} ⦃n : Eq N⦄ where
  -- The sources that the map holds for a prefix and a router.
  unfoldable pub mask_of : N → N → List (SourceEntry N) → SourceMask
  mask_of name dest sources = elim (find_if (has_route_key name dest) sources) [
    | none ↦ no_source
    | some e ↦ e.mask
  ]

  has_route_key-key :
      (name dest : N) (e : SourceEntry N)
      → has_route_key name dest e ≡ true
      → (e.prefix ≡ name) × (e.dest_router ≡ dest)
  has_route_key-key name dest e h =
      (ground (arith, ==_iff e.prefix name), ground (arith, ==_iff e.dest_router dest))

  mask-append :
      (name dest k r : N) (m : SourceMask) (sources : List (SourceEntry N))
      → is_some (find_if (has_route_key name dest) sources) ≡ false
      → mask_of k r (sources ++ source_entry name dest m ∷ [])
        ≡ (if name == k && dest == r then m else mask_of k r sources)
  unfolding mask_of
  mask-append name dest k r m [] h = ground arith
  mask-append name dest k r m (x ∷ xs) h = ground (
    arith,
    mask-append name dest k r m xs,
    ==_iff x.prefix name,
    ==_iff x.prefix k,
    ==_iff name k,
    ==_iff x.dest_router dest,
    ==_iff x.dest_router r,
    ==_iff dest r,
  )

  mask-modify_if :
      (name dest k r : N) (m : SourceMask) (sources : List (SourceEntry N))
      → is_some (find_if (has_route_key name dest) sources) ≡ true
      → mask_of k r (modify_if (has_route_key name dest) (λ _. source_entry name dest m) sources)
        ≡ (if name == k && dest == r then m else mask_of k r sources)
  unfolding mask_of
  mask-modify_if name dest k r m [] h = ground arith
  mask-modify_if name dest k r m (x ∷ xs) h = elim (Bool-cases (has_route_key name dest x)) [
    | inl here ↦
        let (p, q) = has_route_key-key name dest x here in
        ground (arith, ap (λ y. y == k) p, ap (λ y. y == r) q)
    | inr there ↦
        let rest = mask-modify_if name dest k r m xs in
        ground (
          arith,
          rest,
          ==_iff name k,
          ==_iff dest r,
          ==_iff x.prefix name,
          ==_iff x.prefix k,
          ==_iff x.dest_router dest,
          ==_iff x.dest_router r,
        )
  ]

  -- A source that is added is added to the set of its own prefix and router only, and the result
  -- tells whether that set was empty before.
  pub mask-add_source :
      (name dest k r : N) (type : LsaType) (sources : List (SourceEntry N))
      → let new = add_source name dest type sources in
        let mask = mask_of name dest sources in
        (mask_of k r new.0
          ≡ (if name == k && dest == r then set_source type true mask else mask_of k r sources))
        × (new.1 ≡ is_empty mask)
  unfolding add_source mask_of
  mask-add_source name dest k r type sources =
      elim (Option-cases (find_if (has_route_key name dest) sources)) [
        | inl e ↦
            let before = mask-append name dest k r (set_source type true no_source) sources in
            rw (e, add_source) (ground arith)
        | inr (old, e) ↦
            let before = mask-modify_if name dest k r (set_source type true old.mask) sources in
            rw (e, add_source) (ground arith)
      ]

  -- The map has one entry for a prefix and a router.
  abbrev pub UniqueKeys : List (SourceEntry N) → Type 0
  UniqueKeys [] = Unit {0}
  UniqueKeys (e ∷ es) = (find_if (has_route_key e.prefix e.dest_router) es ≡ none) × UniqueKeys es

  gone :
      (name dest k r : N) (xs : List (SourceEntry N))
      → find_if (has_route_key name dest) xs ≡ none
      → mask_of k r xs ≡ (if name == k && dest == r then no_source else mask_of k r xs)
  unfolding mask_of
  gone name dest k r xs alone = elim (Bool-cases (name == k && dest == r)) [
    | inl key ↦
        let e : name ≡ k = ground (arith, ==_iff name k) in
        let g : dest ≡ r = ground (arith, ==_iff dest r) in
        let missing : find_if (has_route_key k r) xs ≡ none =
          subst (λ (y : N). find_if (has_route_key y r) xs ≡ none) e
            (subst (λ (y : N). find_if (has_route_key name y) xs ≡ none) g alone) in
        ground arith
    | inr other ↦ rw other
  ]

  mask-erase_if :
      (name dest k r : N) (sources : List (SourceEntry N))
      → UniqueKeys sources
      → mask_of k r (erase_if (has_route_key name dest) sources)
        ≡ (if name == k && dest == r then no_source else mask_of k r sources)
  unfolding mask_of
  mask-erase_if name dest k r [] u = ground arith
  mask-erase_if name dest k r (x ∷ xs) u = elim (Bool-cases (has_route_key name dest x)) [
    | inl here ↦
        let (p, q) = has_route_key-key name dest x here in
        let alone : find_if (has_route_key name dest) xs ≡ none =
          subst (λ (y : N). find_if (has_route_key y dest) xs ≡ none) p
            (subst (λ (y : N). find_if (has_route_key x.prefix y) xs ≡ none) q u.0) in
        let same = gone name dest k r xs alone in
        ground (arith, ap (λ y. y == k) p, ap (λ y. y == r) q)
    | inr there ↦
        let rest = mask-erase_if name dest k r xs u.1 in
        ground (
          arith,
          rest,
          ==_iff name k,
          ==_iff dest r,
          ==_iff x.prefix name,
          ==_iff x.prefix k,
          ==_iff x.dest_router dest,
          ==_iff x.dest_router r,
        )
  ]

  -- A source that is removed is removed from the set of its own prefix and router only, and the
  -- result tells whether there was such a set and it is empty now. The map must have one entry for
  -- a prefix and a router.
  pub mask-remove_source :
      (name dest k r : N) (type : LsaType) (sources : List (SourceEntry N))
      → UniqueKeys sources
      → let new = remove_source name dest type sources in
        let left = set_source type false (mask_of name dest sources) in
        (mask_of k r new.0 ≡ (if name == k && dest == r then left else mask_of k r sources))
        × (new.1 ≡ (is_some (find_if (has_route_key name dest) sources) && is_empty left))
  unfolding remove_source mask_of
  mask-remove_source name dest k r type sources u =
      elim (Option-cases (find_if (has_route_key name dest) sources)) [
        | inl e ↦
            let none_left = gone name dest k r sources e in
            rw (e, remove_source) (ground (arith, set_source-no_source type))
        | inr (old, e) ↦
            let left = set_source type false old.mask in
            let kept = mask-modify_if name dest k r left sources in
            let erased = mask-erase_if name dest k r sources u in
            let nothing = empty-no_source left in rw (e, remove_source) (ground arith)
      ]
