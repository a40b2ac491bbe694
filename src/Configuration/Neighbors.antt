-- ===== src/Configuration/Neighbors.antt =====
-- conf-file-processor.cpp: the section "neighbors".
use nlsr.Configuration.Limits.{
  adj_lsa_build_interval_min, adj_lsa_build_interval_default, adj_lsa_build_interval_max,
  corridor_adj_lsa_sync_publish_delay_default, face_dataset_fetch_tries_min,
  face_dataset_fetch_tries_max, face_dataset_fetch_tries_default, face_dataset_fetch_interval_min,
  face_dataset_fetch_interval_max, face_dataset_fetch_interval_default, hello_retries_min,
  hello_retries_default, hello_retries_max, hello_timeout_min, hello_timeout_default,
  hello_timeout_max, event_driven_verification_timeout_ms_default, hello_interval_min,
  hello_interval_default, hello_interval_max,
}
use nlsr.Configuration.{
  ℤ, pos, negsuc, ConfigLibrary, ConfParameter, Outcome, accepted, refused, ◌>>=◌, find_child,
  get_text, uint32_or, int_or, double_or, parse_switch, set_in_range, set_int_in_range, set_read,
  parse_from_config_section,
}
use nlsr.Adjacency.{Adjacent, set_link_cost, unreached, insert}
use Prim.Native.String.{String}
use text.Mathlib.Text.{◌==◌ as text_eq}
use nlsr.Prelude.{Eq, Double, if◌then◌else◌, ℕ, Option, none, some, List, [], ◌∷◌}

module _ {S N F D X : Type 0} ⦃n : Eq N⦄ ⦃d : Double D⦄ (lib : ConfigLibrary S N F D X) where
  unfoldable pub process_hello : S → ConfParameter N F D → Outcome (ConfParameter N F D)
  unfolding int_or uint32_or
  process_hello s c =
      set_int_in_range hello_retries_min hello_retries_max
        (int_or lib s "hello-retries" hello_retries_default)
        (λ retries c. record c { interest_retry_number = retries }) c
      >>= set_in_range hello_timeout_min hello_timeout_max
          (uint32_or lib s "hello-timeout" hello_timeout_default)
          (λ time c. record c { interest_resend_time = time })
      >>= set_in_range hello_interval_min hello_interval_max
          (uint32_or lib s "hello-interval" hello_interval_default)
          (λ time c. record c { info_interest_interval = time })
      >>= parse_from_config_section lib s "adj-lsa-build-interval" adj_lsa_build_interval_min
          adj_lsa_build_interval_max adj_lsa_build_interval_default
          (λ time c. record c { adj_lsa_build_interval = time })

  -- An int that is not negative, if the key is there; a malformed one is refused.
  abbrev pub set_value : {P : Type 0} → Option ℤ → (ℕ → P → P) → P → Outcome P
  set_value none setter c = refused c
  set_value (some (pos value)) setter c = accepted (setter value c)
  set_value (some (negsuc value)) setter c = refused c

  abbrev pub set_non_negative : {P : Type 0} → ℕ → Option S → (ℕ → P → P) → P → Outcome P
  set_non_negative default none setter c = accepted (setter default c)
  set_non_negative default (some t) setter c = set_value (lib.int_value t) setter c

  unfoldable pub process_switches : S → ConfParameter N F D → Outcome (ConfParameter N F D)
  unfolding parse_switch
  process_switches s c =
      set_read (parse_switch lib s "result-driven-adj-lsa-build")
        (λ on c. record c { result_driven_adj_lsa_build = on }) c
      >>= set_read (parse_switch lib s "event-driven-adjacency-verification")
          (λ on c. record c { event_driven_adjacency_verification = on })
      >>= set_non_negative event_driven_verification_timeout_ms_default
          (find_child lib s "event-driven-verification-timeout-ms")
          (λ time c. record c { event_driven_verification_timeout_ms = time })
      >>= set_read (parse_switch lib s "corridor-prioritised-routing")
          (λ on c. record c { corridor_prioritised_routing = on })
      >>= set_non_negative corridor_adj_lsa_sync_publish_delay_default
          (find_child lib s "corridor-adj-lsa-sync-publish-delay")
          (λ time c. record c { corridor_adj_lsa_sync_publish_delay = time })

  unfoldable pub process_dataset_fetches : S → ConfParameter N F D → Outcome (ConfParameter N F D)
  unfolding parse_from_config_section
  process_dataset_fetches s c =
      parse_from_config_section lib s "face-dataset-fetch-tries" face_dataset_fetch_tries_min
        face_dataset_fetch_tries_max face_dataset_fetch_tries_default
        (λ tries c. record c { face_dataset_fetch_tries = tries }) c
      >>= parse_from_config_section lib s "face-dataset-fetch-interval"
          face_dataset_fetch_interval_min face_dataset_fetch_interval_max
          face_dataset_fetch_interval_default
          (λ time c. record c { face_dataset_fetch_interval = time })

  -- Adjacent(name, faceUri, linkCost, STATUS_INACTIVE, 0, 0): `none` for a negative cost.
  unfoldable pub new_neighbor : N → F → D → Option (Adjacent N F D)
  unfolding set_link_cost unreached
  new_neighbor name uri cost = set_link_cost (unreached uri name) cost

  unfoldable pub add_neighbor :
      Option (Adjacent N F D) → ConfParameter N F D → Outcome (ConfParameter N F D)
  unfolding insert
  add_neighbor none c = refused c
  add_neighbor (some a) c = accepted (record c { adjacency_list = (insert c.adjacency_list a).0 })

  -- An empty name is reported, but not refused.
  unfoldable pub insert_neighbor :
      Option N → F → D → ConfParameter N F D → Outcome (ConfParameter N F D)
  unfolding new_neighbor add_neighbor
  insert_neighbor none uri cost c = refused c
  insert_neighbor (some name) uri cost c =
      if lib.is_empty name then accepted c else add_neighbor (new_neighbor name uri cost) c

  abbrev pub canonical : Option F → Option F
  canonical none = none
  canonical (some uri) = lib.canonize uri

  unfoldable pub with_uri :
      Option F → String → D → ConfParameter N F D → Outcome (ConfParameter N F D)
  unfolding insert_neighbor
  with_uri none name cost c = refused c
  with_uri (some uri) name cost c = insert_neighbor (lib.name_of name) uri cost c

  unfoldable pub with_texts :
      Option String → Option String → D → ConfParameter N F D → Outcome (ConfParameter N F D)
  unfolding with_uri
  with_texts none _ cost c = refused c
  with_texts (some name) none cost c = refused c
  with_texts (some name) (some uri) cost c = with_uri (canonical (lib.parse_uri uri)) name cost c

  unfoldable pub process_neighbor : S → ConfParameter N F D → Outcome (ConfParameter N F D)
  unfolding with_texts double_or
  process_neighbor s c =
      with_texts (get_text lib s "name") (get_text lib s "face-uri")
        (double_or lib s "link-cost" d.default_link_cost) c

  unfoldable pub process_neighbors :
      List (String × S) → ConfParameter N F D → Outcome (ConfParameter N F D)
  unfolding process_neighbor
  process_neighbors [] c = accepted c
  process_neighbors ((key, t) ∷ entries) c =
      if text_eq key "neighbor"
      then process_neighbor t c >>= process_neighbors entries
      else process_neighbors entries c

  unfoldable pub process_conf_section_neighbors :
      S → ConfParameter N F D → Outcome (ConfParameter N F D)
  unfolding process_hello process_switches process_dataset_fetches process_neighbors
  process_conf_section_neighbors s c =
      process_hello s c
      >>= process_switches s
      >>= process_dataset_fetches s
      >>= process_neighbors (lib.children s)
