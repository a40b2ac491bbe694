-- ===== src/Configuration/General.antt =====
-- conf-parameter.cpp and conf-file-processor.cpp: the names that follow from the network, the site
-- and the router, and the section "general". The file that is written to test the directory is
-- removed again, so only whether it can be written matters.
use nlsr.Configuration.Limits.{
  lsa_refresh_time_min, lsa_refresh_time_default, lsa_refresh_time_max, lsa_interest_lifetime_min,
  lsa_interest_lifetime_default, lsa_interest_lifetime_max, sync_interest_lifetime_min,
  sync_interest_lifetime_default, sync_interest_lifetime_max,
}
use nlsr.Configuration.{
  SyncProtocol, chronosync, psync, svs, is_svs, ConfigLibrary, ConfParameter, Outcome, accepted,
  refused, ◌>>=◌, get_text, text_or, uint32_or, int_or, set_in_range, set_int_in_range,
}
use nlsr.Adjacency.{u32_mod}
use Prim.Native.String.{String}
use text.Mathlib.Text.{◌==◌ as text_eq}
use nlsr.Prelude.{ltb, if◌then◌else◌, ℕ, ◌*◌, ◌%◌, Bool, true, false, not, ◌&&◌, Option, none, some}

abbrev pub sync_version : ℕ
sync_version = 12

module _ {S N F D X : Type 0} (lib : ConfigLibrary S N F D X) where
  unfoldable pub set_network : N → ConfParameter N F D → ConfParameter N F D
  set_network network c =
      let local =
        if is_svs c.sync_protocol
        then c.sync_prefix
        else lib.append_text c.sync_prefix "localhop" in
      let lsa_local = lib.append_text c.lsa_prefix "localhop" in
      record c {
        network = network;
        sync_prefix =
            lib.append_version
              (lib.append_text (lib.append_text (lib.append local network) "nlsr") "sync")
              sync_version;
        lsa_prefix = lib.append_text (lib.append_text (lib.append lsa_local network) "nlsr") "LSA";
      }

  unfoldable pub build_router_and_sync_user_prefix : ConfParameter N F D → ConfParameter N F D
  build_router_and_sync_user_prefix c = record c {
    router_prefix = lib.append (lib.append c.network c.site_name) c.router_name;
    sync_user_prefix = lib.append (lib.append c.lsa_prefix c.site_name) c.router_name;
  }

  -- A protocol that the program was built with.
  abbrev pub set_protocol :
      Bool → SyncProtocol → ConfParameter N F D → Outcome (ConfParameter N F D)
  set_protocol true protocol c = accepted (record c { sync_protocol = protocol })
  set_protocol false protocol c = refused c

  unfoldable pub process_sync_protocol : S → ConfParameter N F D → Outcome (ConfParameter N F D)
  process_sync_protocol s c =
      let protocol = text_or lib s "sync-protocol" "psync" in
      if text_eq protocol "chronosync"
      then set_protocol lib.has_chronosync chronosync c
      else if text_eq protocol "psync"
      then set_protocol lib.has_psync psync c
      else if text_eq protocol "svs"
      then set_protocol lib.has_svs svs c
      else refused c

  -- A text that names something: refused if it is no URI or empty.
  abbrev pub set_named :
      Option N
      → (N → ConfParameter N F D → ConfParameter N F D)
      → ConfParameter N F D
      → Outcome (ConfParameter N F D)
  set_named none setter c = refused c
  set_named (some name) setter c = if lib.is_empty name then refused c else accepted (setter name c)

  -- The three texts are read before any is used.
  unfoldable pub set_names :
      Option String
      → Option String
      → Option String
      → ConfParameter N F D
      → Outcome (ConfParameter N F D)
  unfolding set_network
  set_names none _ _ c = refused c
  set_names (some network) none _ c = refused c
  set_names (some network) (some site) none c = refused c
  set_names (some network) (some site) (some router) c =
      set_named (lib.name_of network) set_network c
      >>= set_named (lib.name_of site) (λ name c. record c { site_name = name })
      >>= set_named (lib.name_of router) (λ name c. record c { router_name = name })

  unfoldable pub process_names : S → ConfParameter N F D → Outcome (ConfParameter N F D)
  unfolding set_names
  process_names s c =
      set_names (get_text lib s "network") (get_text lib s "site") (get_text lib s "router") c

  unfoldable pub process_lsa_refresh_time : S → ConfParameter N F D → Outcome (ConfParameter N F D)
  unfolding uint32_or
  process_lsa_refresh_time s c =
      set_in_range lsa_refresh_time_min lsa_refresh_time_max
        (uint32_or lib s "lsa-refresh-time" lsa_refresh_time_default)
        (λ time c. record c { lsa_refresh_time = time }) c

  -- The default is twice the refresh time of the section.
  unfoldable pub process_router_dead_interval :
      S → ConfParameter N F D → Outcome (ConfParameter N F D)
  unfolding uint32_or
  process_router_dead_interval s c =
      let time = uint32_or lib s "lsa-refresh-time" lsa_refresh_time_default in
      let interval = uint32_or lib s "router-dead-interval" ((2 * time) % u32_mod) in
      if ltb c.lsa_refresh_time interval
      then accepted (record c { router_dead_interval = interval })
      else refused c

  unfoldable pub process_lifetimes : S → ConfParameter N F D → Outcome (ConfParameter N F D)
  unfolding int_or uint32_or
  process_lifetimes s c =
      set_int_in_range lsa_interest_lifetime_min lsa_interest_lifetime_max
        (int_or lib s "lsa-interest-lifetime" lsa_interest_lifetime_default)
        (λ time c. record c { lsa_interest_lifetime = time }) c
      >>= set_in_range sync_interest_lifetime_min sync_interest_lifetime_max
          (uint32_or lib s "sync-interest-lifetime" sync_interest_lifetime_default)
          (λ time c. record c { sync_interest_lifetime = time })

  -- In a directory: the copy of the file there is the one that changes while the program runs.
  unfoldable pub use_state_dir : String → ConfParameter N F D → Outcome (ConfParameter N F D)
  use_state_dir dir c =
      let dynamic = lib.join dir "nlsr.conf" in
      let named = record c { conf_file_name_dynamic = dynamic } in
      if text_eq c.conf_file_name dynamic
      then refused c
      else if not (lib.copies c.conf_file_name dynamic)
      then refused named
      else if lib.is_writable (lib.join dir "test.seq")
      then accepted (record named { state_file_dir = dir })
      else refused named

  unfoldable pub set_state_dir : Option String → ConfParameter N F D → Outcome (ConfParameter N F D)
  unfolding use_state_dir
  set_state_dir none c = refused c
  set_state_dir (some dir) c =
      if lib.exists dir && lib.is_directory dir then use_state_dir dir c else refused c

  unfoldable pub process_state_dir : S → ConfParameter N F D → Outcome (ConfParameter N F D)
  unfolding set_state_dir
  process_state_dir s c = set_state_dir (get_text lib s "state-dir") c

  unfoldable pub process_conf_section_general :
      S → ConfParameter N F D → Outcome (ConfParameter N F D)
  unfolding process_sync_protocol process_names process_lsa_refresh_time
      process_router_dead_interval process_lifetimes process_state_dir
  process_conf_section_general s c =
      process_sync_protocol s c
      >>= process_names s
      >>= process_lsa_refresh_time s
      >>= process_router_dead_interval s
      >>= process_lifetimes s
      >>= process_state_dir s
