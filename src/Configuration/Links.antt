-- ===== src/Configuration/Links.antt =====
-- adjacency-list.cpp and conf-file-processor.cpp: the neighbours that a configuration starts with.
use nlsr.Adjacency.{inactive, Adjacent, set_link_cost, unreached, find, insert}
use nlsr.Configuration.{ConfigLibrary}
use nlsr.Configuration.Neighbors.{new_neighbor}
use nlsr.Prelude.{
  Eq, ==_iff, Double, Bool-cases, is_some, ◌≡◌, sym, ◌≢◌, inl, inr, false, some, List, [], ◌∷◌,
  ◌++◌, arith,
}

module _ {N F D : Type 0} where
  -- No neighbour has the name.
  abbrev pub Unnamed : N → List (Adjacent N F D) → Type 0
  Unnamed name [] = Unit {0}
  Unnamed name (a ∷ l) = (a.name ≢ name) × Unnamed name l

  -- Inactive, without a face, and not timed out.
  abbrev pub IsFresh : Adjacent N F D → Type 0
  IsFresh a = (a.status ≡ inactive) × (a.face_id ≡ 0) × (a.interest_timed_out_no ≡ 0)

  -- Every neighbour is fresh and has a name of its own.
  abbrev pub AreFresh : List (Adjacent N F D) → Type 0
  AreFresh [] = Unit {0}
  AreFresh (a ∷ l) = IsFresh a × Unnamed a.name l × AreFresh l

  Unnamed-append :
      (name : N) (l : List (Adjacent N F D)) (a : Adjacent N F D)
      → a.name ≢ name
      → Unnamed name l
      → Unnamed name (l ++ a ∷ [])
  Unnamed-append name [] a h u = (h, tt)
  Unnamed-append name (b ∷ l) a h u = (u.0, Unnamed-append name l a h u.1)

  module _ ⦃n : Eq N⦄ where
    AreFresh-append :
        (l : List (Adjacent N F D)) (a : Adjacent N F D)
        → is_some (find l a.name) ≡ false
        → IsFresh a
        → AreFresh l
        → AreFresh (l ++ a ∷ [])
    unfolding find
    AreFresh-append [] a h fresh all = (fresh, tt, tt)
    AreFresh-append (b ∷ l) a h fresh all =
        let other : a.name ≢ b.name = λ same. ground (arith, ==_iff b.name a.name, sym same) in
        (
          all.0,
          Unnamed-append b.name l a other all.1,
          AreFresh-append l a (ground arith) fresh all.2,
        )

    pub AreFresh-insert :
        (l : List (Adjacent N F D)) (a : Adjacent N F D)
        → IsFresh a
        → AreFresh l
        → AreFresh (insert l a).0
    unfolding insert
    AreFresh-insert l a fresh all = elim (Bool-cases (is_some (find l a.name))) [
      | inl known ↦ rw known all
      | inr new ↦ rw new (AreFresh-append l a new fresh all)
    ]

    pub new_neighbor-IsFresh :
        {S X : Type 0} ⦃d : Double D⦄ (lib : ConfigLibrary S N F D X) (name : N) (uri : F)
        (cost : D) (a : Adjacent N F D)
        → new_neighbor lib name uri cost ≡ some a
        → IsFresh a
    unfolding new_neighbor set_link_cost unreached
    new_neighbor-IsFresh lib name uri cost a h = ground arith
