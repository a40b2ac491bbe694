-- ===== src/Configuration/Ranges.antt =====
-- conf-file-processor.cpp: the ranges of the numbers in a configuration that was accepted.
use nlsr.Configuration.Links.{AreFresh}
use nlsr.Configuration.{
  ℤ, pos, negsuc, ConfigLibrary, ConfParameter, Outcome, accepted, refused, threw, ◌>>=◌,
  read_uint32, set_in_range, set_int_in_range, set_read, parse_read, parse_from_config_section,
}
use Prim.Native.String.{String}
use nlsr.Prelude.{
  leb, if◌then◌else◌, ℕ, ◌≤◌, ◌<◌, ◌≡◌, refl, ◌⊎◌, Bool, true, false, ◌&&◌, Option, none, some,
  arith,
}

module _ {P : Type 0} where
  -- What holds of an accepted configuration.
  abbrev pub Holds : (P → Type 0) → Outcome P → Type 0
  Holds Q (accepted c) = Q c
  Holds Q (refused c) = Unit {0}
  Holds Q (threw c) = Unit {0}

  module _ (Q R : P → Type 0) where
    pub Holds-bind :
        (o : Outcome P) (f : P → Outcome P)
        → Holds Q o
        → ((c : P) → Q c → Holds R (f c))
        → Holds R (o >>= f)
    Holds-bind (accepted c) f h k = k c h
    Holds-bind (refused c) f h k = tt
    Holds-bind (threw c) f h k = tt

  module _ (R : P → Type 0) where
    pub Holds-if :
        (b : Bool) (o p : Outcome P)
        → (b ≡ true → Holds R o)
        → (b ≡ false → Holds R p)
        → Holds R (if b then o else p)
    Holds-if true o p h k = h refl
    Holds-if false o p h k = k refl

    pub Holds-set_read :
        {A : Type 0} (v : Option A) (setter : A → P → P) (c : P)
        → ((a : A) → R (setter a c))
        → Holds R (set_read v setter c)
    Holds-set_read none setter c kept = tt
    Holds-set_read (some a) setter c kept = kept a

    module _ (low high : ℕ) (setter : ℕ → P → P) (c : P)
        (kept : (v : ℕ) → low ≤ v → v ≤ high → R (setter v c)) where
      pub Holds-set_in_range : (v : ℕ) → Holds R (set_in_range low high v setter c)
      Holds-set_in_range v =
          Holds-if (leb low v && leb v high) (accepted (setter v c)) (refused c)
            (λ h. kept v (ground arith) (ground arith)) (λ h. tt)

      pub Holds-set_int_in_range : (v : ℤ) → Holds R (set_int_in_range low high v setter c)
      Holds-set_int_in_range (pos v) = Holds-set_in_range v
      Holds-set_int_in_range (negsuc v) = tt

      Holds-parse_read :
          (default : ℕ) (v : Option ℕ)
          → low ≤ default
          → default ≤ high
          → Holds R (parse_read low high default v setter c)
      Holds-parse_read default none l h = kept default l h
      Holds-parse_read default (some v) l h = Holds-set_in_range v

      pub Holds-parse :
          {S N F D X : Type 0} (lib : ConfigLibrary S N F D X) (s : S) (key : String) (default : ℕ)
          → low ≤ default
          → default ≤ high
          → Holds R (parse_from_config_section lib s key low high default setter c)
      unfolding parse_from_config_section
      Holds-parse lib s key default l h = Holds-parse_read default (read_uint32 lib s key) l h

-- Every number is in its range; the number of tries may still be the one at the start.
pub record InRange {N F D : Type 0} (tries : ℕ) (c : ConfParameter N F D) : Type 0 where
  pub refresh_low : 240 ≤ c.lsa_refresh_time
  pub refresh_high : c.lsa_refresh_time ≤ 7200
  pub build_low : 5 ≤ c.adj_lsa_build_interval
  pub build_high : c.adj_lsa_build_interval ≤ 30
  pub calc_high : c.routing_calc_interval ≤ 15
  pub fetch_low : 1800 ≤ c.face_dataset_fetch_interval
  pub fetch_high : c.face_dataset_fetch_interval ≤ 5400
  pub lifetime_low : 1 ≤ c.lsa_interest_lifetime
  pub lifetime_high : c.lsa_interest_lifetime ≤ 60
  pub retry_low : 1 ≤ c.interest_retry_number
  pub retry_high : c.interest_retry_number ≤ 15
  pub resend_low : 1 ≤ c.interest_resend_time
  pub resend_high : c.interest_resend_time ≤ 15
  pub info_low : 30 ≤ c.info_interest_interval
  pub info_high : c.info_interest_interval ≤ 90
  pub faces_high : c.max_faces_per_prefix ≤ 60
  pub sync_low : 1000 ≤ c.sync_interest_lifetime
  pub sync_high : c.sync_interest_lifetime ≤ 120000
  pub tries_range :
      (c.face_dataset_fetch_tries ≡ tries)
      ⊎ ((1 ≤ c.face_dataset_fetch_tries) × (c.face_dataset_fetch_tries ≤ 10))

-- And an LSA lives longer than the time after which it is refreshed, and the neighbours are fresh.
pub record IsUsable {N F D : Type 0} (tries : ℕ) (c : ConfParameter N F D) : Type 0 where
  pub ranges : InRange tries c
  pub outlives : c.lsa_refresh_time < c.router_dead_interval
  pub links : AreFresh c.adjacency_list
