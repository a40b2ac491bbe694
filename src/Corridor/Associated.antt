-- ===== src/Corridor/Associated.antt =====
-- corridor.cpp: the query for an entry of an LSA that comes in, and the number that an availability
-- leaves in its entry.
use nlsr.Lsa.{LsaType, type_eq_iff}
use nlsr.Prelude.{
  Eq, ◌==◌, ==_eq, ==_refl, ==_iff, Ord, nat_eq, Bool-cases, Option-cases, ℕ, ◌≤◌, ◌<◌, ◌≡◌, refl,
  sym, subst, ◌∙◌, inl, inr, Bool, true, false, ◌||◌, some, List, [], ◌∷◌, arith,
}
use nlsr.Prelude.Maps.{at}
use nlsr.Corridor.{
  AdvertisementKey, AdvertisementState, CorridorEffect, availability_sent, replied, queried,
  fetched, Corridor, key_eq, key_ord,
}
use nlsr.Corridor.Advertise.{
  state_at, find_state, get_advertised_seq, add_effect, renewed, advertise, record_association,
}
use nlsr.Corridor.Events.{is_installed}
use nlsr.Corridor.Hooks.{propagated}
use nlsr.Corridor.Actions.{ActionLaws}
use nlsr.Corridor.Installed.{
  get_advertised_seq-put_state, get_advertised_seq-state_at, get_advertised_seq-advertise,
  key_installed,
}
use nlsr.Corridor.Answers.{seq-state}
use nlsr.Lsdb.{Lsdb}

module _ {N C : Type 0} ⦃n : Eq N⦄ where
  -- A query about the prefix is in the log.
  abbrev pub was_queried : N → List (CorridorEffect N C) → Bool
  was_queried prefix [] = false
  was_queried prefix (queried p ∷ log) = p == prefix || was_queried prefix log
  was_queried prefix (availability_sent key seq face ∷ log) = was_queried prefix log
  was_queried prefix (replied name ∷ log) = was_queried prefix log
  was_queried prefix (fetched origin type seq face ∷ log) = was_queried prefix log

  propagated-keeps :
      (origin : N) (type : LsaType) (seq : ℕ) (prefix : N)
      (entries : List (AdvertisementKey N × AdvertisementState)) (log : List (CorridorEffect N C))
      → was_queried prefix log ≡ true
      → was_queried prefix (propagated origin type seq entries log) ≡ true
  unfolding propagated
  propagated-keeps origin type seq prefix [] log h = h
  propagated-keeps origin type seq prefix ((key, s) ∷ entries) log h = ground (
    arith,
    propagated-keeps origin type seq prefix entries log h,
    propagated-keeps origin type seq prefix entries (queried key.prefix ∷ log),
  )

  -- The entry of the LSA with its number gets a query.
  pub propagated-queried :
      (key : AdvertisementKey N) (s : AdvertisementState)
      (entries : List (AdvertisementKey N × AdvertisementState)) (log : List (CorridorEffect N C))
      → at key entries ≡ some s
      → was_queried key.prefix (propagated key.origin key.type s.seq entries log) ≡ true
  unfolding propagated at
  propagated-queried key s [] log h = ground arith
  propagated-queried key s ((k, t) ∷ entries) log h = ground (
    arith,
    ==_iff k.origin key.origin,
    ==_iff k.prefix key.prefix,
    ==_refl key.prefix,
    propagated-queried key s entries log,
    propagated-queried key s entries (queried k.prefix ∷ log),
    propagated-keeps key.origin key.type s.seq key.prefix entries (queried k.prefix ∷ log),
  )

module _ {N F D : Type 0} ⦃n : Eq N⦄ where
  installed_unique :
      (db : Lsdb N F D) (key : AdvertisementKey N) (j k : ℕ)
      → key_installed db key j ≡ true
      → key_installed db key k ≡ true
      → j ≡ k
  unfolding is_installed
  installed_unique db key j k h g = ground arith

module _ {N F D C : Type 0} ⦃n : Eq N⦄ ⦃no : Ord N⦄ where
  -- A number that is that of an installed LSA is not raised.
  abbrev pub NotAbove : Lsdb N F D → Corridor N C → Corridor N C → Type 0
  NotAbove db c after =
      (key : AdvertisementKey N)
      → key_installed db key (get_advertised_seq key c) ≡ true
      → get_advertised_seq key after ≡ get_advertised_seq key c

  advertise-NotAbove :
      (db : Lsdb N F D) (key : AdvertisementKey N) (seq : ℕ) (faces : List ℕ) (c : Corridor N C)
      → key_installed db key seq ≡ true
      → NotAbove db c (advertise key seq faces c)
  advertise-NotAbove db key seq faces c h j here = elim (Bool-cases (key == j)) [
    | inl same ↦
        let there = subst (λ k. key_installed db k seq ≡ true) (==_eq key j same) h in
        let equal = installed_unique db j seq (get_advertised_seq j c) there here in
        ground (arith, get_advertised_seq-advertise j key seq faces c, equal)
    | inr other ↦ ground (arith, get_advertised_seq-advertise j key seq faces c, other)
  ]

  pub NotAbove-laws : (db : Lsdb N F D) → ActionLaws {C = C} db (λ c c'. NotAbove db c c')
  NotAbove-laws db = record {
    unchanged = λ c key h. refl;
    after = λ a b c h k key here.
        let first = h key here in
        k key (subst (λ q. key_installed db key q ≡ true) (sym first) here) ∙ first;
    by_advertise = λ key seq faces c h. advertise-NotAbove db key seq faces c h;
    by_branches = λ b c key h. seq-state key (record c { branches = b }) c refl;
    by_effect = λ e c h key g. seq-state key (add_effect e c) c refl;
  }

module _ {N C : Type 0} ⦃n : Eq N⦄ ⦃no : Ord N⦄ where
  -- The entry of an availability, with its number unless a greater one is there.
  pub seq-record_association :
      (key : AdvertisementKey N) (seq : ℕ) (c : Corridor N C)
      → get_advertised_seq key c ≤ seq
      → get_advertised_seq key (record_association key seq c) ≡ seq
  unfolding record_association renewed
  seq-record_association key seq c h =
      let s = state_at key c.state in
      ground (
        arith,
        ==_refl key.origin,
        ==_refl key.prefix,
        type_eq_iff key.type key.type,
        get_advertised_seq-state_at key c,
        get_advertised_seq-put_state key key s c.log c,
        get_advertised_seq-put_state key key (renewed seq s) c.log c,
      )

  pub state-of_seq :
      (key : AdvertisementKey N) (c : Corridor N C) (seq : ℕ)
      → get_advertised_seq key c ≡ seq
      → 0 < seq
      → (s : AdvertisementState) × (at key c.state ≡ some s) × (s.seq ≡ seq)
  unfolding get_advertised_seq find_state
  state-of_seq key c seq h positive = elim (Option-cases (at key c.state)) [
    | inl gone ↦ ground (arith, gone, h)
    | inr (s, here) ↦ (s, here, ground (arith, here, h))
  ]
