-- ===== src/Daemon/Fetch.antt =====
-- The retries of the fetch of NFD's faces.
use nlsr.Adjacency.{u32_mod}
use nlsr.Daemon.{
  DaemonConfig, DaemonEffect, dataset_fetched, dataset_fetch_scheduled,
  on_face_dataset_fetch_timeout,
}
use nlsr.Prelude.{
  ltb, ℕ, zero, suc, ◌+◌, ◌%◌, ◌<◌, ◌≡◌, ap, ◌∙◌, true, false, Option, none, some, List, [], ◌∷◌,
  ◌++◌, arith,
}

module _ {N : Type 0} where
  -- The failures before the fetch that an answer starts, if it starts one.
  abbrev refetched : List (DaemonEffect N) → Option ℕ
  refetched (dataset_fetched k ∷ es) = some k
  refetched (e ∷ es) = none
  refetched [] = none

  -- What goes out while each fetch fails.
  unfoldable pub failing_fetches : DaemonConfig N → ℕ → ℕ → List (DaemonEffect N)
  unfolding on_face_dataset_fetch_timeout
  failing_fetches c zero retries = []
  failing_fetches c (suc fuel) retries =
      let answer = on_face_dataset_fetch_timeout c retries in
      elim (refetched answer) [ none ↦ answer | some k ↦ answer ++ failing_fetches c fuel k ]

  abbrev pub numbered_fetches : ℕ → ℕ → List (DaemonEffect N)
  numbered_fetches retries zero = []
  numbered_fetches retries (suc k) =
      dataset_fetched (retries + 1) ∷ numbered_fetches (retries + 1) k

  last_answer :
      (c : DaemonConfig N) (fuel retries : ℕ)
      → ltb retries c.face_dataset_fetch_tries ≡ false
      → failing_fetches c (suc fuel) retries
        ≡ dataset_fetch_scheduled c.face_dataset_fetch_interval ∷ []
  unfolding failing_fetches on_face_dataset_fetch_timeout
  last_answer c fuel retries e = ground arith

  one_more :
      (c : DaemonConfig N) (fuel retries : ℕ)
      → ltb retries c.face_dataset_fetch_tries ≡ true
      → failing_fetches c (suc fuel) retries
        ≡ dataset_fetched ((retries + 1) % u32_mod)
          ∷ failing_fetches c fuel ((retries + 1) % u32_mod)
  unfolding failing_fetches on_face_dataset_fetch_timeout
  one_more c fuel retries e = ground arith

  failing_fetches-from :
      (c : DaemonConfig N) (k fuel retries : ℕ)
      → retries + k ≡ c.face_dataset_fetch_tries
      → c.face_dataset_fetch_tries < u32_mod
      → k < fuel
      → failing_fetches c fuel retries
        ≡ numbered_fetches retries k ++ dataset_fetch_scheduled c.face_dataset_fetch_interval ∷ []
  failing_fetches-from c zero zero retries e small h = ground arith
  failing_fetches-from c (suc k) zero retries e small h = ground arith
  failing_fetches-from c zero (suc fuel) retries e small h =
      last_answer c fuel retries (ground arith)
  failing_fetches-from c (suc k) (suc fuel) retries e small h =
      let next : (retries + 1) % u32_mod ≡ retries + 1 = omega arith in
      one_more c fuel retries (ground arith)
      ∙ (ap (λ (r : ℕ). dataset_fetched r ∷ failing_fetches c fuel r) next
          ∙ ap (λ (es : List (DaemonEffect N)). dataset_fetched (retries + 1) ∷ es)
              (failing_fetches-from c k fuel (retries + 1) (omega arith) small (omega arith)))

  -- Fetches that all fail come to an end: after the first fetch as many follow as the configuration
  -- says, numbered from 1, and then the next round is scheduled, however much more fuel there is. The
  -- configured number is a uint32_t.
  pub failing_fetches-end :
      (c : DaemonConfig N) (fuel : ℕ)
      → c.face_dataset_fetch_tries < u32_mod
      → c.face_dataset_fetch_tries < fuel
      → failing_fetches c fuel 0
        ≡ numbered_fetches 0 c.face_dataset_fetch_tries
          ++ dataset_fetch_scheduled c.face_dataset_fetch_interval ∷ []
  failing_fetches-end c fuel small enough =
      failing_fetches-from c c.face_dataset_fetch_tries fuel 0 (omega arith) small enough
