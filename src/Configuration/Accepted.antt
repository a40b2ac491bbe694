-- ===== src/Configuration/Accepted.antt =====
-- conf-file-processor.cpp: the section "general" keeps a configuration usable.
use nlsr.Configuration.Links.{AreFresh}
use nlsr.Configuration.{
  SyncProtocol, chronosync, psync, svs, ConfigLibrary, ConfParameter, accepted, refused, get_text,
  text_or, uint32_or, int_or,
}
use nlsr.Configuration.General.{
  set_network, set_protocol, process_sync_protocol, set_named, set_names, process_names,
  process_lsa_refresh_time, process_router_dead_interval, process_lifetimes, use_state_dir,
  set_state_dir, process_state_dir, process_conf_section_general,
}
use nlsr.Configuration.Ranges.{
  Holds, Holds-bind, Holds-if, Holds-set_in_range, Holds-set_int_in_range, InRange, IsUsable,
}
use Prim.Native.String.{String}
use text.Mathlib.Text.{◌==◌ as text_eq}
use nlsr.Prelude.{ltb, if◌then◌else◌, ℕ, Bool, true, false, not, ◌&&◌, Option, none, some, arith}

module _ {S N F D X : Type 0} (lib : ConfigLibrary S N F D X) (tries : ℕ) where
  abbrev Usable : ConfParameter N F D → Type 0
  Usable c = IsUsable tries c

  abbrev Ranged : ConfParameter N F D → Type 0
  Ranged c = InRange tries c × AreFresh c.adjacency_list

  set_protocol-IsUsable :
      (built : Bool) (protocol : SyncProtocol) (c : ConfParameter N F D)
      → IsUsable tries c
      → Holds Usable (set_protocol lib built protocol c)
  set_protocol-IsUsable true protocol c u = ground arith
  set_protocol-IsUsable false protocol c u = tt

  process_sync_protocol-IsUsable :
      (s : S) (c : ConfParameter N F D)
      → IsUsable tries c
      → Holds Usable (process_sync_protocol lib s c)
  unfolding process_sync_protocol
  process_sync_protocol-IsUsable s c u =
      let protocol = text_or lib s "sync-protocol" "psync" in
      Holds-if Usable (text_eq protocol "chronosync") _ _
        (λ _. set_protocol-IsUsable lib.has_chronosync chronosync c u)
        (λ _.
          Holds-if Usable (text_eq protocol "psync") _ _
            (λ _. set_protocol-IsUsable lib.has_psync psync c u)
            (λ _.
              Holds-if Usable (text_eq protocol "svs") _ (refused c)
                (λ _. set_protocol-IsUsable lib.has_svs svs c u) (λ _. tt)))

  set_named-IsUsable :
      (name : Option N) (setter : N → ConfParameter N F D → ConfParameter N F D)
      (c : ConfParameter N F D)
      → ((v : N) → IsUsable tries (setter v c))
      → Holds Usable (set_named lib name setter c)
  set_named-IsUsable none setter c kept = tt
  set_named-IsUsable (some name) setter c kept =
      Holds-if Usable (lib.is_empty name) (refused c) (accepted (setter name c)) (λ _. tt)
        (λ _. kept name)

  set_names-IsUsable :
      (network site router : Option String) (c : ConfParameter N F D)
      → IsUsable tries c
      → Holds Usable (set_names lib network site router c)
  unfolding set_names set_network
  set_names-IsUsable none _ _ c u = tt
  set_names-IsUsable (some network) none _ c u = tt
  set_names-IsUsable (some network) (some site) none c u = tt
  set_names-IsUsable (some network) (some site) (some router) c u =
      Holds-bind Usable Usable _ _
        (Holds-bind Usable Usable _ _
          (set_named-IsUsable (lib.name_of network) (set_network lib) c (λ v. ground arith))
          (λ c u.
            set_named-IsUsable (lib.name_of site) (λ v c. record c { site_name = v }) c
              (λ v. ground arith)))
        (λ c u.
          set_named-IsUsable (lib.name_of router) (λ v c. record c { router_name = v }) c
            (λ v. ground arith))

  lsa_refresh_time-InRange :
      (s : S) (c : ConfParameter N F D) → Ranged c → Holds Ranged (process_lsa_refresh_time lib s c)
  unfolding process_lsa_refresh_time
  lsa_refresh_time-InRange s c r =
      Holds-set_in_range Ranged 240 7200 (λ time c. record c { lsa_refresh_time = time }) c
        (λ v l h. ground arith) (uint32_or lib s "lsa-refresh-time" 1800)

  -- The interval is compared with the refresh time that was just set.
  router_dead_interval-IsUsable :
      (s : S) (c : ConfParameter N F D)
      → Ranged c
      → Holds Usable (process_router_dead_interval lib s c)
  unfolding process_router_dead_interval
  router_dead_interval-IsUsable s c r =
      Holds-if Usable (ltb c.lsa_refresh_time _) _ (refused c) (λ longer. ground (arith, longer))
        (λ _. tt)

  process_lifetimes-IsUsable :
      (s : S) (c : ConfParameter N F D)
      → IsUsable tries c
      → Holds Usable (process_lifetimes lib s c)
  unfolding process_lifetimes
  process_lifetimes-IsUsable s c u =
      Holds-bind Usable Usable _ _
        (Holds-set_int_in_range Usable 1 60 (λ v c. record c { lsa_interest_lifetime = v }) c
          (λ v l h. ground arith) (int_or lib s "lsa-interest-lifetime" 4))
        (λ c u.
          Holds-set_in_range Usable 1000 120000 (λ v c. record c { sync_interest_lifetime = v }) c
            (λ v l h. ground arith) (uint32_or lib s "sync-interest-lifetime" 60000))

  set_state_dir-IsUsable :
      (dir : Option String) (c : ConfParameter N F D)
      → IsUsable tries c
      → Holds Usable (set_state_dir lib dir c)
  unfolding set_state_dir use_state_dir
  set_state_dir-IsUsable none c u = tt
  set_state_dir-IsUsable (some dir) c u =
      let dynamic = lib.join dir "nlsr.conf" in
      let named = record c { conf_file_name_dynamic = dynamic } in
      let stored = record named { state_file_dir = dir } in
      let writing =
        if lib.is_writable (lib.join dir "test.seq") then accepted stored else refused named in
      let copying = if not (lib.copies c.conf_file_name dynamic) then refused named else writing in
      let using = if text_eq c.conf_file_name dynamic then refused c else copying in
      Holds-if Usable (lib.exists dir && lib.is_directory dir) using (refused c)
        (λ _.
          Holds-if Usable (text_eq c.conf_file_name dynamic) (refused c) copying (λ _. tt)
            (λ _.
              Holds-if Usable (not (lib.copies c.conf_file_name dynamic)) (refused named) writing
                (λ _. tt)
                (λ _.
                  Holds-if Usable (lib.is_writable (lib.join dir "test.seq")) (accepted stored)
                    (refused named) (λ _. ground arith) (λ _. tt))))
        (λ _. tt)

  pub general-IsUsable :
      (s : S) (c : ConfParameter N F D)
      → IsUsable tries c
      → Holds Usable (process_conf_section_general lib s c)
  unfolding process_conf_section_general process_names process_state_dir
  general-IsUsable s c u =
      Holds-bind Usable Usable _ _
        (Holds-bind Usable Usable _ _
          (Holds-bind Ranged Usable _ _
            (Holds-bind Usable Ranged _ _
              (Holds-bind Usable Usable _ _ (process_sync_protocol-IsUsable s c u)
                (λ c u. set_names-IsUsable _ _ _ c u))
              (λ c u. lsa_refresh_time-InRange s c (u.ranges, u.links)))
            (λ c r. router_dead_interval-IsUsable s c r))
          (λ c u. process_lifetimes-IsUsable s c u))
        (λ c u. set_state_dir-IsUsable (get_text lib s "state-dir") c u)
