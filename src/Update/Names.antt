-- ===== src/Update/Names.antt =====
-- NamePrefixList of name-prefix-list.cpp: a set of pairs of a name and a source.
use nlsr.Lsa.Names.{is_in-set_insert, is_in-erase_if}
use nlsr.Update.{erase_source, NameSources, sourced_name, insert_source}
use nlsr.Prelude.Sets.{
  itself, IsSorted-erase_if, IsSorted-set_insert, IsSorted-modify_if, find_key-erase_if,
  find_key-set_insert, find_key-modify_if, set_insert, by_key, IsSorted, find_key,
}
use nlsr.Prelude.{
  Eq, ◌==◌, ==_iff, is_in, Ord, length, erase_if, modify_if, nat_beq, if◌then◌else◌, Option-cases,
  ◌≡◌, refl, subst, inl, inr, Bool, true, false, not, ◌&&◌, ◌||◌, Option, none, some, List, [], ◌∷◌,
  arith,
}

module _ {S : Type 0} ⦃e : Eq S⦄ ⦃so : Ord S⦄ where
  none_left : (s : S) (rest : List S) → nat_beq (length rest) 0 ≡ true → is_in s rest ≡ false
  none_left s [] h = refl
  none_left s (x ∷ rest) h = ground arith

  kept_filled :
      (s : S) (sources : List S) → nat_beq (length (set_insert (by_key itself) s sources)) 0 ≡ false
  unfolding set_insert
  kept_filled s [] = refl
  kept_filled s (x ∷ sources) = ground arith

module _ {N S : Type 0} ⦃n : Eq N⦄ ⦃no : Ord N⦄ ⦃e : Eq S⦄ ⦃so : Ord S⦄ where
  abbrev pub has_source_in : S → Option (NameSources N S) → Bool
  has_source_in s none = false
  has_source_in s (some entry) = is_in s entry.sources

  -- Whether the source asked for the name.
  abbrev pub has_source : N → S → List (NameSources N S) → Bool
  has_source k s list = has_source_in s (find_key sourced_name k list)

  -- Each entry has a source, and its sources are in order.
  abbrev pub Filled : List (NameSources N S) → Type 0
  Filled [] = Unit {0}
  Filled (x ∷ list) =
      (nat_beq (length x.sources) 0 ≡ false) × IsSorted itself x.sources × Filled list

  abbrev FilledAt : Option (NameSources N S) → Type 0
  FilledAt none = Unit {0}
  FilledAt (some x) = (nat_beq (length x.sources) 0 ≡ false) × IsSorted itself x.sources

  FilledAt-if :
      (b : Bool) (x y : Option (NameSources N S))
      → FilledAt x
      → FilledAt y
      → FilledAt (if b then x else y)
  FilledAt-if true x y p q = p
  FilledAt-if false x y p q = q

  FilledAt-find :
      (k : N) (list : List (NameSources N S))
      → Filled list
      → FilledAt (find_key sourced_name k list)
  FilledAt-find k [] f = tt
  FilledAt-find k (x ∷ list) f =
      FilledAt-if (x.name == k) (some x) (find_key sourced_name k list) (f.0, f.1)
        (FilledAt-find k list f.2)

  abbrev entry : N → List S → NameSources N S
  entry name sources = record { name = name; sources = sources }

  -- Inserting a pair adds that pair and no other, and tells whether it was new.
  pub insert_source-has_source :
      (k name : N) (s source : S) (list : List (NameSources N S))
      → (has_source k s (insert_source name source list).0
          ≡ (has_source k s list || ((name == k) && (s == source))))
        × ((insert_source name source list).1 ≡ not (has_source name source list))
  unfolding insert_source set_insert
  insert_source-has_source k name s source list =
      elim (Option-cases (find_key sourced_name name list)) [
        | inl unknown_name ↦
            let put = find_key-set_insert sourced_name k (entry name (source ∷ [])) list in
            (ground (arith, unknown_name, put, ==_iff name k), ground (arith, unknown_name))
        | inr (old, known) ↦
            let more = set_insert (by_key itself) source old.sources in
            let put = find_key-modify_if sourced_name k name (entry name more) list refl in
            (
              ground (
                arith,
                known,
                put,
                is_in-set_insert s source old.sources,
                ==_iff name k,
                ==_iff s source,
              ),
              ground (arith, known),
            )
      ]

  -- Erasing a pair removes that pair and no other, and tells whether it was there; the list is in
  -- order, and so are the sources of each name.
  pub erase_source-has_source :
      (k name : N) (s source : S) (list : List (NameSources N S))
      → IsSorted sourced_name list
      → Filled list
      → (has_source k s (erase_source name source list).0
          ≡ (has_source k s list && not ((name == k) && (s == source))))
        × ((erase_source name source list).1 ≡ has_source name source list)
  unfolding erase_source
  erase_source-has_source k name s source list sorted filled =
      elim (Option-cases (find_key sourced_name name list)) [
        | inl unknown_name ↦
            (ground (arith, unknown_name, ==_iff name k), ground (arith, unknown_name))
        | inr (old, known) ↦
            let rest = erase_if (λ (x : S). x == source) old.sources in
            let there = subst FilledAt known (FilledAt-find name list filled) in
            let put = find_key-modify_if sourced_name k name (entry name rest) list refl in
            let gone = find_key-erase_if sourced_name k name list sorted in
            (
              ground (
                arith,
                known,
                put,
                gone,
                is_in-erase_if s source old.sources there.1,
                none_left s rest,
                ==_iff name k,
              ),
              ground (arith, known),
            )
      ]

  pub record IsNames (list : List (NameSources N S)) : Type 0 where
    pub sorted : IsSorted sourced_name list
    pub filled : Filled list

  IsNames-if :
      (b : Bool) (x y : List (NameSources N S))
      → IsNames x
      → (b ≡ false → IsNames y)
      → IsNames (if b then x else y)
  IsNames-if true x y p q = p
  IsNames-if false x y p q = q refl

  IsNames-if_pair :
      (b : Bool) (x y : List (NameSources N S))
      → IsNames x
      → IsNames y
      → let pair : List (NameSources N S) × Bool = if b then (x, false) else (y, true) in
        IsNames pair.0
  IsNames-if_pair true x y p q = p
  IsNames-if_pair false x y p q = q

  Filled-set_insert :
      (x : NameSources N S) (list : List (NameSources N S))
      → FilledAt (some x)
      → Filled list
      → Filled (set_insert (by_key sourced_name) x list)
  unfolding set_insert
  Filled-set_insert x [] g f = (g.0, g.1, tt)
  Filled-set_insert x (y ∷ list) g f = ground (arith, Filled-set_insert x list g f.2)

  Filled-modify_if :
      (name : N) (x : NameSources N S) (list : List (NameSources N S))
      → FilledAt (some x)
      → Filled list
      → Filled (modify_if (λ (y : NameSources N S). y.name == name) (λ _. x) list)
  Filled-modify_if name x [] g f = tt
  Filled-modify_if name x (y ∷ list) g f = ground (arith, Filled-modify_if name x list g f.2)

  Filled-erase_if :
      (name : N) (list : List (NameSources N S))
      → Filled list
      → Filled (erase_if (λ (y : NameSources N S). y.name == name) list)
  Filled-erase_if name [] f = tt
  Filled-erase_if name (y ∷ list) f = ground (arith, Filled-erase_if name list f.2)

  -- Inserting and erasing keep the list in order, with no name twice, and leave no name without a
  -- source.
  pub operations-IsNames :
      (name : N) (source : S) (list : List (NameSources N S))
      → IsNames list
      → IsNames (insert_source name source list).0 × IsNames (erase_source name source list).0
  unfolding insert_source erase_source
  operations-IsNames name source list v = elim (Option-cases (find_key sourced_name name list)) [
    | inl unknown_name ↦
        let one = entry name (source ∷ []) in
        (
          rw (unknown_name, insert_source)
              (record {
                sorted = IsSorted-set_insert sourced_name one list v.sorted;
                filled = Filled-set_insert one list (refl, (tt, tt)) v.filled;
              }),
          rw (unknown_name, erase_source) v,
        )
    | inr (old, known) ↦
        let more = set_insert (by_key itself) source old.sources in
        let rest = erase_if (λ (x : S). x == source) old.sources in
        let there = subst FilledAt known (FilledAt-find name list v.filled) in
        (
          rw (known, insert_source)
              (IsNames-if_pair (is_in source old.sources) list _ v (record {
                sorted = IsSorted-modify_if sourced_name name (entry name more) list refl v.sorted;
                filled =
                    Filled-modify_if name (entry name more) list
                      (
                        kept_filled source old.sources,
                        IsSorted-set_insert itself source old.sources there.1,
                      )
                      v.filled;
              })),
          rw (known, erase_source)
              (IsNames-if (nat_beq (length rest) 0) _ _
                (record {
                  sorted =
                      IsSorted-erase_if sourced_name (λ (x : NameSources N S). x.name == name) list
                        v.sorted;
                  filled = Filled-erase_if name list v.filled;
                })
                (λ some_left. record {
                  sorted =
                      IsSorted-modify_if sourced_name name (entry name rest) list refl v.sorted;
                  filled =
                      Filled-modify_if name (entry name rest) list
                        (
                          some_left,
                          IsSorted-erase_if itself (λ (x : S). x == source) old.sources there.1,
                        )
                        v.filled;
                })),
        )
  ]
