-- ===== src/Configuration/Keeping.antt =====
-- conf-file-processor.cpp: the sections keep a configuration usable.
use nlsr.Configuration.Links.{IsFresh, AreFresh-insert, new_neighbor-IsFresh}
use nlsr.Adjacency.{Adjacent}
use Prim.Native.String.{String}
use text.Mathlib.Text.{◌==◌ as text_eq}
use nlsr.Configuration.{
  ℤ, get_text, double_or, pos, negsuc, accepted, find_child, parse_switch, ConfigLibrary,
  ConfParameter, uint32_or, int_or,
}
use nlsr.Configuration.Neighbors.{
  set_value, add_neighbor, insert_neighbor, with_uri, process_neighbor, process_neighbors,
  process_conf_section_neighbors, set_non_negative, process_switches, process_dataset_fetches,
  new_neighbor, canonical, with_texts, process_hello,
}
use nlsr.Configuration.Ranges.{
  Holds-if, Holds-set_read, Holds, Holds-bind, Holds-set_in_range, Holds-set_int_in_range,
  Holds-parse, IsUsable,
}
use nlsr.Prelude.{Eq, Double, ℕ, ◌≤◌, ◌≡◌, refl, ◌⊎◌, inr, Option, none, some, List, [], ◌∷◌, arith}

module _ {S N F D X : Type 0} (lib : ConfigLibrary S N F D X) (tries : ℕ) where
  abbrev Usable : ConfParameter N F D → Type 0
  Usable c = IsUsable tries c

  process_hello-IsUsable :
      ⦃n : Eq N⦄ ⦃d : Double D⦄ (s : S) (c : ConfParameter N F D)
      → IsUsable tries c
      → Holds Usable (process_hello lib s c)
  unfolding process_hello
  process_hello-IsUsable s c u =
      Holds-bind Usable Usable _ _
        (Holds-bind Usable Usable _ _
          (Holds-bind Usable Usable _ _
            (Holds-set_int_in_range Usable 1 15 (λ v c. record c { interest_retry_number = v }) c
              (λ v l h. ground arith) (int_or lib s "hello-retries" 3))
            (λ c u.
              Holds-set_in_range Usable 1 15 (λ v c. record c { interest_resend_time = v }) c
                (λ v l h. ground arith) (uint32_or lib s "hello-timeout" 1)))
          (λ c u.
            Holds-set_in_range Usable 30 90 (λ v c. record c { info_interest_interval = v }) c
              (λ v l h. ground arith) (uint32_or lib s "hello-interval" 60)))
        (λ c u.
          Holds-parse Usable 5 30 (λ v c. record c { adj_lsa_build_interval = v }) c
            (λ v l h. ground arith) lib s "adj-lsa-build-interval" 10 (omega arith) (omega arith))

  Holds-set_value :
      ⦃n : Eq N⦄ ⦃d : Double D⦄ (v : Option ℤ)
      (setter : ℕ → ConfParameter N F D → ConfParameter N F D) (c : ConfParameter N F D)
      → ((v : ℕ) → IsUsable tries (setter v c))
      → Holds Usable (set_value lib v setter c)
  Holds-set_value none setter c kept = tt
  Holds-set_value (some (pos v)) setter c kept = kept v
  Holds-set_value (some (negsuc v)) setter c kept = tt

  Holds-set_non_negative :
      ⦃n : Eq N⦄ ⦃d : Double D⦄ (default : ℕ) (t : Option S)
      (setter : ℕ → ConfParameter N F D → ConfParameter N F D) (c : ConfParameter N F D)
      → ((v : ℕ) → IsUsable tries (setter v c))
      → Holds Usable (set_non_negative lib default t setter c)
  Holds-set_non_negative default none setter c kept = kept default
  Holds-set_non_negative default (some t) setter c kept =
      Holds-set_value (lib.int_value t) setter c kept

  process_switches-IsUsable :
      ⦃n : Eq N⦄ ⦃d : Double D⦄ (s : S) (c : ConfParameter N F D)
      → IsUsable tries c
      → Holds Usable (process_switches lib s c)
  unfolding process_switches
  process_switches-IsUsable s c u =
      Holds-bind Usable Usable _ _
        (Holds-bind Usable Usable _ _
          (Holds-bind Usable Usable _ _
            (Holds-bind Usable Usable _ _
              (Holds-set_read Usable (parse_switch lib s "result-driven-adj-lsa-build")
                (λ on c. record c { result_driven_adj_lsa_build = on }) c (λ on. ground arith))
              (λ c u.
                Holds-set_read Usable (parse_switch lib s "event-driven-adjacency-verification")
                  (λ on c. record c { event_driven_adjacency_verification = on }) c
                  (λ on. ground arith)))
            (λ c u.
              Holds-set_non_negative 0 (find_child lib s "event-driven-verification-timeout-ms")
                (λ v c. record c { event_driven_verification_timeout_ms = v }) c
                (λ v. ground arith)))
          (λ c u.
            Holds-set_read Usable (parse_switch lib s "corridor-prioritised-routing")
              (λ on c. record c { corridor_prioritised_routing = on }) c (λ on. ground arith)))
        (λ c u.
          Holds-set_non_negative 1 (find_child lib s "corridor-adj-lsa-sync-publish-delay")
            (λ v c. record c { corridor_adj_lsa_sync_publish_delay = v }) c (λ v. ground arith))

  with_tries :
      (v : ℕ) (c : ConfParameter N F D)
      → IsUsable tries c
      → 1 ≤ v
      → v ≤ 10
      → IsUsable tries (record c { face_dataset_fetch_tries = v })
  with_tries v c u l h =
      let in_range : (v ≡ tries) ⊎ ((1 ≤ v) × (v ≤ 10)) = inr (l, h) in ground (arith, in_range)

  process_dataset_fetches-IsUsable :
      ⦃n : Eq N⦄ ⦃d : Double D⦄ (s : S) (c : ConfParameter N F D)
      → IsUsable tries c
      → Holds Usable (process_dataset_fetches lib s c)
  unfolding process_dataset_fetches
  process_dataset_fetches-IsUsable s c u =
      Holds-bind Usable Usable _ _
        (Holds-parse Usable 1 10 (λ v c. record c { face_dataset_fetch_tries = v }) c
          (λ v l h. with_tries v c u l h) lib s "face-dataset-fetch-tries" 3 (omega arith)
          (omega arith))
        (λ c u.
          Holds-parse Usable 1800 5400 (λ v c. record c { face_dataset_fetch_interval = v }) c
            (λ v l h. ground arith) lib s "face-dataset-fetch-interval" 3600 (omega arith)
            (omega arith))

  add_neighbor-IsUsable :
      ⦃n : Eq N⦄ ⦃d : Double D⦄ (a : Option (Adjacent N F D)) (c : ConfParameter N F D)
      → ((made : Adjacent N F D) → a ≡ some made → IsFresh made)
      → IsUsable tries c
      → Holds Usable (add_neighbor lib a c)
  unfolding add_neighbor
  add_neighbor-IsUsable none c fresh u = tt
  add_neighbor-IsUsable (some a) c fresh u =
      let links = AreFresh-insert c.adjacency_list a (fresh a refl) u.links in ground (arith, links)

  insert_neighbor-IsUsable :
      ⦃n : Eq N⦄ ⦃d : Double D⦄ (name : Option N) (uri : F) (cost : D) (c : ConfParameter N F D)
      → IsUsable tries c
      → Holds Usable (insert_neighbor lib name uri cost c)
  unfolding insert_neighbor
  insert_neighbor-IsUsable none uri cost c u = tt
  insert_neighbor-IsUsable (some name) uri cost c u =
      Holds-if Usable (lib.is_empty name) (accepted c) _ (λ _. u)
        (λ _.
          add_neighbor-IsUsable (new_neighbor lib name uri cost) c
            (λ a made. new_neighbor-IsFresh lib name uri cost a made) u)

  with_uri-IsUsable :
      ⦃n : Eq N⦄ ⦃d : Double D⦄ (uri : Option F) (name : String) (cost : D)
      (c : ConfParameter N F D)
      → IsUsable tries c
      → Holds Usable (with_uri lib uri name cost c)
  unfolding with_uri
  with_uri-IsUsable none name cost c u = tt
  with_uri-IsUsable (some uri) name cost c u =
      insert_neighbor-IsUsable (lib.name_of name) uri cost c u

  with_texts-IsUsable :
      ⦃n : Eq N⦄ ⦃d : Double D⦄ (name uri : Option String) (cost : D) (c : ConfParameter N F D)
      → IsUsable tries c
      → Holds Usable (with_texts lib name uri cost c)
  unfolding with_texts
  with_texts-IsUsable none uri cost c u = tt
  with_texts-IsUsable (some name) none cost c u = tt
  with_texts-IsUsable (some name) (some uri) cost c u =
      with_uri-IsUsable (canonical lib (lib.parse_uri uri)) name cost c u

  process_neighbors-IsUsable :
      ⦃n : Eq N⦄ ⦃d : Double D⦄ (entries : List (String × S)) (c : ConfParameter N F D)
      → IsUsable tries c
      → Holds Usable (process_neighbors lib entries c)
  unfolding process_neighbors process_neighbor
  process_neighbors-IsUsable [] c u = u
  process_neighbors-IsUsable ⦃n⦄ ⦃d⦄ ((key, t) ∷ entries) c u =
      Holds-if Usable (text_eq key "neighbor") _ _
        (λ _.
          Holds-bind Usable Usable (process_neighbor lib t c) (process_neighbors lib entries)
            (with_texts-IsUsable (get_text lib t "name") (get_text lib t "face-uri")
              (double_or lib t "link-cost" d.default_link_cost) c u)
            (λ c u. process_neighbors-IsUsable entries c u))
        (λ _. process_neighbors-IsUsable entries c u)

  pub process_conf_section_neighbors-IsUsable :
      ⦃n : Eq N⦄ ⦃d : Double D⦄ (s : S) (c : ConfParameter N F D)
      → IsUsable tries c
      → Holds Usable (process_conf_section_neighbors lib s c)
  unfolding process_conf_section_neighbors
  process_conf_section_neighbors-IsUsable s c u =
      Holds-bind Usable Usable _ _
        (Holds-bind Usable Usable _ _
          (Holds-bind Usable Usable _ _ (process_hello-IsUsable s c u)
            (λ c u. process_switches-IsUsable s c u))
          (λ c u. process_dataset_fetches-IsUsable s c u))
        (λ c u. process_neighbors-IsUsable (lib.children s) c u)
