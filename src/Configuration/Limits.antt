-- ===== src/Configuration/Limits.antt =====
-- conf-parameter.hpp: the ranges and the defaults of the numbers.
use nlsr.Prelude.{ℕ}

abbrev pub lsa_refresh_time_min : ℕ
lsa_refresh_time_min = 240

abbrev pub lsa_refresh_time_default : ℕ
lsa_refresh_time_default = 1800

abbrev pub lsa_refresh_time_max : ℕ
lsa_refresh_time_max = 7200

abbrev pub lsa_interest_lifetime_min : ℕ
lsa_interest_lifetime_min = 1

abbrev pub lsa_interest_lifetime_default : ℕ
lsa_interest_lifetime_default = 4

abbrev pub lsa_interest_lifetime_max : ℕ
lsa_interest_lifetime_max = 60

abbrev pub adj_lsa_build_interval_min : ℕ
adj_lsa_build_interval_min = 5

abbrev pub adj_lsa_build_interval_default : ℕ
adj_lsa_build_interval_default = 10

abbrev pub adj_lsa_build_interval_max : ℕ
adj_lsa_build_interval_max = 30

abbrev pub corridor_adj_lsa_sync_publish_delay_default : ℕ
corridor_adj_lsa_sync_publish_delay_default = 1

abbrev pub routing_calc_interval_min : ℕ
routing_calc_interval_min = 0

abbrev pub routing_calc_interval_default : ℕ
routing_calc_interval_default = 15

abbrev pub routing_calc_interval_max : ℕ
routing_calc_interval_max = 15

abbrev pub face_dataset_fetch_tries_min : ℕ
face_dataset_fetch_tries_min = 1

abbrev pub face_dataset_fetch_tries_max : ℕ
face_dataset_fetch_tries_max = 10

abbrev pub face_dataset_fetch_tries_default : ℕ
face_dataset_fetch_tries_default = 3

abbrev pub face_dataset_fetch_interval_min : ℕ
face_dataset_fetch_interval_min = 1800

abbrev pub face_dataset_fetch_interval_max : ℕ
face_dataset_fetch_interval_max = 5400

abbrev pub face_dataset_fetch_interval_default : ℕ
face_dataset_fetch_interval_default = 3600

abbrev pub hello_retries_min : ℕ
hello_retries_min = 1

abbrev pub hello_retries_default : ℕ
hello_retries_default = 3

abbrev pub hello_retries_max : ℕ
hello_retries_max = 15

abbrev pub hello_timeout_min : ℕ
hello_timeout_min = 1

abbrev pub hello_timeout_default : ℕ
hello_timeout_default = 1

abbrev pub hello_timeout_max : ℕ
hello_timeout_max = 15

abbrev pub event_driven_verification_timeout_ms_default : ℕ
event_driven_verification_timeout_ms_default = 0

abbrev pub hello_interval_min : ℕ
hello_interval_min = 30

abbrev pub hello_interval_default : ℕ
hello_interval_default = 60

abbrev pub hello_interval_max : ℕ
hello_interval_max = 90

abbrev pub max_faces_per_prefix_min : ℕ
max_faces_per_prefix_min = 0

abbrev pub max_faces_per_prefix_default : ℕ
max_faces_per_prefix_default = 0

abbrev pub max_faces_per_prefix_max : ℕ
max_faces_per_prefix_max = 60

abbrev pub sync_interest_lifetime_min : ℕ
sync_interest_lifetime_min = 1000

abbrev pub sync_interest_lifetime_default : ℕ
sync_interest_lifetime_default = 60000

abbrev pub sync_interest_lifetime_max : ℕ
sync_interest_lifetime_max = 120000
