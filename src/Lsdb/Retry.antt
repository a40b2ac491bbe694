-- ===== src/Lsdb/Retry.antt =====
-- lsdb.cpp: the fetching of an LSA, its retries, and the fetching from one face for a corridor. The
-- segment fetcher's answers are calls of the handlers; an LSA's name is its router and type. Times
-- are in one unit.
use nlsr.Adjacency.{u32_mod}
use nlsr.Lsa.{LsaType, type_eq_iff}
use nlsr.Lsdb.{Lsdb}
use nlsr.Lsdb.Fetch.{has_lsa_name, note_seq_no}
use nlsr.Prelude.{
  Eq, ==_refl, find_if, modify_if, ap2, ltb, leb, nat_beq, if◌then◌else◌, Bool-cases, Option-cases,
  ℕ, ◌+◌, ◌%◌, ◌≤◌, ◌<◌, ◌≡◌, ◌∙◌, inl, inr, Bool, false, ◌&&◌, ◌||◌, Option, none, some, List, [],
  ◌∷◌, ◌++◌, arith,
}

pub record FetchRequest (N : Type 0) : Type 0 where
  pub router : N
  pub type : LsaType
  pub seq_no : ℕ
  -- The failures so far (uint32_t), and 0 for any face.
  pub attempt : ℕ
  pub face_id : ℕ
  -- `none` is DEFAULT_LSA_RETRIEVAL_DEADLINE.
  pub deadline : Option ℕ

pub data FetchEffect (N : Type 0) : Type 0 where
  fetch_started : FetchRequest N → FetchEffect N
  -- A delay, and what is called then.
  express_scheduled : ℕ → FetchRequest N → FetchEffect N
  face_fetch_scheduled : ℕ → FetchRequest N → FetchEffect N

abbrev pub corridor_lsa_fetch_max_attempts : ℕ
corridor_lsa_fetch_max_attempts = 3

module _ {N : Type 0} (lsa_refresh_time_max lsa_interest_lifetime now : ℕ) where
  abbrev pub deadline_of : FetchRequest N → ℕ
  deadline_of r = elim r.deadline [ none ↦ now + lsa_refresh_time_max | some t ↦ t ]

  unfoldable pub fetch_lsa_from_face : FetchRequest N → List (FetchEffect N)
  fetch_lsa_from_face r =
      if nat_beq r.face_id 0 || leb corridor_lsa_fetch_max_attempts r.attempt
      then []
      else fetch_started r ∷ []

  -- What the error of a fetch from one face schedules.
  unfoldable pub on_face_fetch_error : Bool → FetchRequest N → List (FetchEffect N)
  on_face_fetch_error timed_out r =
      face_fetch_scheduled (if timed_out then 0 else lsa_interest_lifetime)
        (record r { attempt = (r.attempt + 1) % u32_mod })
      ∷ []

module _ {N : Type 0} ⦃n : Eq N⦄ where
  found-append :
      (router : N) (type : LsaType) (k : ℕ) (l : List (N × LsaType × ℕ))
      → find_if (has_lsa_name router type) l ≡ none
      → find_if (has_lsa_name router type) (l ++ (router, type, k) ∷ []) ≡ some (router, type, k)
  found-append router type k [] h = ground (arith, ==_refl router, type_eq_iff type type)
  found-append router type k (e ∷ l) h = ground (arith, found-append router type k l)

  found-modify :
      (router : N) (type : LsaType) (k : ℕ) (l : List (N × LsaType × ℕ)) (e : N × LsaType × ℕ)
      → find_if (has_lsa_name router type) l ≡ some e
      → find_if
          (has_lsa_name router type)
          (modify_if (has_lsa_name router type) (λ _. (router, type, k)) l)
        ≡ some (router, type, k)
  found-modify router type k [] e h = cc h
  found-modify router type k (x ∷ l) e h =
      ground (arith, found-modify router type k l e, ==_refl router, type_eq_iff type type)

module _ {N F D : Type 0} ⦃n : Eq N⦄ (lsa_refresh_time_max lsa_interest_lifetime now : ℕ) where
  -- An old number is not fetched.
  unfoldable pub express_interest : FetchRequest N → Lsdb N F D → Lsdb N F D × List (FetchEffect N)
  unfolding note_seq_no
  express_interest r db = elim (note_seq_no r.router r.type r.seq_no db) [
    | none ↦ (db, [])
    | some noted ↦ (
      noted,
      fetch_started (record r {
        deadline = some (deadline_of lsa_refresh_time_max lsa_interest_lifetime now r);
      })
          ∷ [],
    )
  ]

  -- The number is still the highest one under its name.
  abbrev pub is_highest : FetchRequest N → Lsdb N F D → Bool
  is_highest r db = elim (find_if (has_lsa_name r.router r.type) db.highest_seq_no) [
    | none ↦ false
    | some e ↦ nat_beq e.2 r.seq_no
  ]

  -- `timed_out` is the error code INTEREST_TIMEOUT.
  unfoldable pub on_fetch_lsa_error : Bool → FetchRequest N → Lsdb N F D → List (FetchEffect N)
  on_fetch_lsa_error timed_out r db =
      if ltb now (deadline_of lsa_refresh_time_max lsa_interest_lifetime now r) && is_highest r db
      then express_scheduled (if timed_out then 0 else lsa_interest_lifetime)
          (record r { attempt = (r.attempt + 1) % u32_mod; face_id = 0 })
        ∷ []
      else []

  -- The highest number after a fetch was asked for.
  highest_after :
      (new : FetchRequest N) (db : Lsdb N F D)
      → (e : N × LsaType × ℕ) × (find_if
            (has_lsa_name new.router new.type)
            (express_interest new db).0.highest_seq_no
          ≡ some e)
        × (new.seq_no ≤ e.2)
  unfolding express_interest note_seq_no
  highest_after new db =
      elim (Option-cases (find_if (has_lsa_name new.router new.type) db.highest_seq_no)) [
        | inl unknown_name ↦ (
          (new.router, new.type, new.seq_no),
          ground (
            arith,
            unknown_name,
            found-append new.router new.type new.seq_no db.highest_seq_no unknown_name,
          ),
          omega arith,
        )
        | inr (e, known) ↦ elim (Bool-cases (ltb e.2 new.seq_no)) [
          | inl higher ↦ (
            (new.router, new.type, new.seq_no),
            ground (
              arith,
              known,
              higher,
              found-modify new.router new.type new.seq_no db.highest_seq_no e known,
            ),
            omega arith,
          )
          | inr lower ↦ (e, ground (arith, known, lower), ground (arith, lower))
        ]
      ]

  -- Once a higher number was asked for under the name of an LSA, the failure of a fetch with a lower one
  -- is not retried: the newer LSA is fetched instead.
  pub superseded-not_retried :
      (old new : FetchRequest N) (timed_out : Bool) (db : Lsdb N F D)
      → old.router ≡ new.router
      → old.type ≡ new.type
      → old.seq_no < new.seq_no
      → on_fetch_lsa_error timed_out old (express_interest new db).0 ≡ []
  unfolding on_fetch_lsa_error express_interest note_seq_no
  superseded-not_retried old new timed_out db same_router same_type lower =
      let (e, found, high) = highest_after new db in
      let after = (express_interest new db).0.highest_seq_no in
      let found_old : find_if (has_lsa_name old.router old.type) after ≡ some e =
        ap2 (λ (x : N) (t : LsaType). find_if (has_lsa_name x t) after) same_router same_type
        ∙ found in
      let other : nat_beq e.2 old.seq_no ≡ false = ground arith in ground (arith, found_old, other)
