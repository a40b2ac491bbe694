-- ===== src/Configuration.antt =====
-- conf-parameter.hpp, conf-parameter.cpp and conf-file-processor.cpp: the configuration and how it
-- is read from a file. The property tree, names, face URIs, paths and the readers of numbers are
-- the libraries', so a ConfigLibrary is a parameter. A handler that returns true gives `accepted`,
-- one that returns false `refused`, and an exception that no handler catches `threw`; the
-- configuration is kept as it stood. The log and the printed messages are left out.
pub mod Limits
pub mod General
pub mod Neighbors
pub mod Angles
pub mod Sections
pub mod Load
pub mod Ranges
pub mod Links
pub mod Keeping
pub mod Accepted
pub mod Coordinates
pub mod Smaller
pub mod Whole
use nlsr.Configuration.Limits.{
  lsa_refresh_time_default, lsa_interest_lifetime_default, adj_lsa_build_interval_default,
  corridor_adj_lsa_sync_publish_delay_default, routing_calc_interval_default,
  face_dataset_fetch_interval_default, hello_retries_default, hello_timeout_default,
  event_driven_verification_timeout_ms_default, hello_interval_default, max_faces_per_prefix_min,
  sync_interest_lifetime_default,
}
use nlsr.Adjacency.{Adjacent, u32_mod}
use nlsr.Sequencing.{HyperbolicState, hyperbolic_off}
use Prim.Native.String.{String}
use text.Mathlib.Text.{◌==◌ as text_eq}
use nlsr.Prelude.{
  Double, find_if, leb, if◌then◌else◌, ℕ, ◌*◌, ◌≤◌, ◌<◌, ◌≡◌, Bool, true, false, ◌&&◌, Option, none,
  some, List, [],
}

-- A C++ int.
pub data ℤ : Type 0 where
  pos negsuc : ℕ → ℤ

pub data SyncProtocol : Type 0 where
  chronosync psync svs : SyncProtocol

abbrev pub is_svs : SyncProtocol → Bool
is_svs svs = true
is_svs chronosync = false
is_svs psync = false

-- boost::property_tree (S), ndn::Name (N), ndn::FaceUri (F), double (D) and std::istream (X).
pub record ConfigLibrary (S N F D X : Type 0) : Type 0 where
  pub children : S → List (String × S)
  pub data_of : S → String
  -- get_value, `none` for a value that is malformed.
  pub uint32_value : S → Option ℕ
  pub int_value : S → Option ℤ
  pub double_value : S → Option D
  -- read_info, `none` for ptree_error.
  pub read_info : String → Option (List (String × S))
  -- ndn::Name of a text, `none` for the exception, and its operations.
  pub name_of : String → Option N
  pub is_empty : N → Bool
  pub empty_name : N
  pub append : N → N → N
  pub append_text : N → String → N
  pub append_version : N → ℕ → N
  pub parse_uri : String → Option F
  pub canonize : F → Option F
  -- boost::iequals
  pub iequals : String → String → Bool
  -- What is left of a stream, `>>` of a double, whether peek() is a comma or a space, and ignore.
  pub stream_of : String → X
  pub size : X → ℕ
  pub read_double : X → Option (D × X)
  pub at_separator : X → Bool
  pub ignore : X → X
  -- The file system: a file that can be opened, a directory, a path below another, a copy that
  -- succeeds, and a file that can be written.
  pub open_file : String → Option String
  pub exists : String → Bool
  pub is_directory : String → Bool
  pub join : String → String → String
  pub absolute_from : String → String → String
  pub copies : String → String → Bool
  pub is_writable : String → Bool
  -- ValidatorConfig::load of a section, false for an exception, and a certificate in a file.
  pub validator_loads : S → Bool
  pub has_certificate : String → Bool
  -- The protocols that the program was built with.
  pub has_chronosync : Bool
  pub has_psync : Bool
  pub has_svs : Bool
  -- A uint32_t; reading a double takes something from the stream, and ignoring adds nothing.
  pub uint32_value-bound : (s : S) (k : ℕ) → uint32_value s ≡ some k → k < u32_mod
  pub read_double-size : (x rest : X) (d : D) → read_double x ≡ some (d, rest) → size rest < size x
  pub ignore-size : (x : X) → size (ignore x) ≤ size x

pub record ConfParameter (N F D : Type 0) : Type 0 where
  pub conf_file_name : String
  pub conf_file_name_dynamic : String
  pub router_name : N
  pub site_name : N
  pub network : N
  pub router_prefix : N
  pub sync_user_prefix : N
  pub sync_prefix : N
  pub lsa_prefix : N
  pub lsa_refresh_time : ℕ
  pub adj_lsa_build_interval : ℕ
  pub corridor_adj_lsa_sync_publish_delay : ℕ
  pub routing_calc_interval : ℕ
  pub result_driven_adj_lsa_build : Bool
  pub event_driven_adjacency_verification : Bool
  pub event_driven_verification_timeout_ms : ℕ
  pub corridor_prioritised_routing : Bool
  pub face_dataset_fetch_tries : ℕ
  pub face_dataset_fetch_interval : ℕ
  pub lsa_interest_lifetime : ℕ
  pub router_dead_interval : ℕ
  pub interest_retry_number : ℕ
  pub interest_resend_time : ℕ
  pub info_interest_interval : ℕ
  pub hyperbolic_state : HyperbolicState
  pub cor_r : D
  pub cor_theta : List D
  pub max_faces_per_prefix : ℕ
  pub state_file_dir : String
  pub sync_interest_lifetime : ℕ
  pub sync_protocol : SyncProtocol
  pub adjacency_list : List (Adjacent N F D)
  pub name_prefix_list : List N
  pub certs : List String

-- The constructor. m_faceDatasetFetchTries has no initial value: `tries` is what is there.
unfoldable pub new_conf_parameter :
    {S N F D X : Type 0}
    → ⦃d : Double D⦄ → ConfigLibrary S N F D X
    → String
    → ℕ
    → ConfParameter N F D
new_conf_parameter ⦃d⦄ lib file tries = record {
  conf_file_name = file;
  conf_file_name_dynamic = "";
  router_name = lib.empty_name;
  site_name = lib.empty_name;
  network = lib.empty_name;
  router_prefix = lib.empty_name;
  sync_user_prefix = lib.empty_name;
  sync_prefix = lib.empty_name;
  lsa_prefix = lib.empty_name;
  lsa_refresh_time = lsa_refresh_time_default;
  adj_lsa_build_interval = adj_lsa_build_interval_default;
  corridor_adj_lsa_sync_publish_delay = corridor_adj_lsa_sync_publish_delay_default;
  routing_calc_interval = routing_calc_interval_default;
  result_driven_adj_lsa_build = false;
  event_driven_adjacency_verification = false;
  event_driven_verification_timeout_ms = event_driven_verification_timeout_ms_default;
  corridor_prioritised_routing = false;
  face_dataset_fetch_tries = tries;
  face_dataset_fetch_interval = face_dataset_fetch_interval_default;
  lsa_interest_lifetime = lsa_interest_lifetime_default;
  router_dead_interval = 2 * lsa_refresh_time_default;
  interest_retry_number = hello_retries_default;
  interest_resend_time = hello_timeout_default;
  info_interest_interval = hello_interval_default;
  hyperbolic_state = hyperbolic_off;
  cor_r = d.zero_cost;
  cor_theta = [];
  max_faces_per_prefix = max_faces_per_prefix_min;
  state_file_dir = "";
  sync_interest_lifetime = sync_interest_lifetime_default;
  sync_protocol = psync;
  adjacency_list = [];
  name_prefix_list = [];
  certs = [];
}

pub data Outcome (P : Type 0) : Type 0 where
  accepted refused threw : P → Outcome P

-- What follows an accepted part.
infixl 20 ◌>>=◌
abbrev pub ◌>>=◌ : {P : Type 0} → Outcome P → (P → Outcome P) → Outcome P
accepted c >>= f = f c
refused c >>= f = refused c
threw c >>= f = threw c

module _ {S N F D X : Type 0} (lib : ConfigLibrary S N F D X) where
  -- The first child of that name.
  abbrev pub find_child : S → String → Option S
  find_child s key = elim (find_if (λ (e : String × S). text_eq e.0 key) (lib.children s)) [
    | none ↦ none
    | some e ↦ some e.1
  ]

  -- get<std::string>, without and with a default.
  abbrev pub get_text : S → String → Option String
  get_text s key = elim (find_child s key) [ none ↦ none | some t ↦ some (lib.data_of t) ]

  abbrev pub text_or : S → String → String → String
  text_or s key default = elim (get_text s key) [ none ↦ default | some text ↦ text ]

  -- get<uint32_t>, get<int> and get<double> with a default, also for a malformed value.
  unfoldable pub uint32_or : S → String → ℕ → ℕ
  uint32_or s key default = elim (find_child s key) [
    | none ↦ default
    | some t ↦ elim (lib.uint32_value t) [ none ↦ default | some k ↦ k ]
  ]

  unfoldable pub int_or : S → String → ℕ → ℤ
  int_or s key default = elim (find_child s key) [
    | none ↦ pos default
    | some t ↦ elim (lib.int_value t) [ none ↦ pos default | some k ↦ k ]
  ]

  unfoldable pub double_or : S → String → D → D
  double_or s key default = elim (find_child s key) [
    | none ↦ default
    | some t ↦ elim (lib.double_value t) [ none ↦ default | some x ↦ x ]
  ]

  abbrev pub read_uint32 : S → String → Option ℕ
  read_uint32 s key = elim (find_child s key) [ none ↦ none | some t ↦ lib.uint32_value t ]

  -- parseSwitch: `none` for a value that is neither.
  unfoldable pub parse_switch : S → String → Option Bool
  parse_switch s key =
      if text_eq (text_or s key "off") "on"
      then some true
      else if text_eq (text_or s key "off") "off"
      then some false
      else none

module _ {P : Type 0} where
  -- A number that is set if it is in a range, and refused if not.
  abbrev pub set_in_range : ℕ → ℕ → ℕ → (ℕ → P → P) → P → Outcome P
  set_in_range low high value setter c =
      if leb low value && leb value high then accepted (setter value c) else refused c

  -- The same of an int.
  abbrev pub set_int_in_range : ℕ → ℕ → ℤ → (ℕ → P → P) → P → Outcome P
  set_int_in_range low high (pos value) setter c = set_in_range low high value setter c
  set_int_in_range low high (negsuc value) setter c = refused c

  -- A value that is read from a section, or refused.
  abbrev pub set_read : {A : Type 0} → Option A → (A → P → P) → P → Outcome P
  set_read none setter c = refused c
  set_read (some value) setter c = accepted (setter value c)

  abbrev pub parse_read : ℕ → ℕ → ℕ → Option ℕ → (ℕ → P → P) → P → Outcome P
  parse_read low high default none setter c = accepted (setter default c)
  parse_read low high default (some value) setter c = set_in_range low high value setter c

-- A ConfigurationVariable<uint32_t> that is optional and has a range: a value that is read is
-- checked, and the default stands for one that is missing or malformed.
module _ {S N F D X P : Type 0} (lib : ConfigLibrary S N F D X) where
  unfoldable pub parse_from_config_section : S → String → ℕ → ℕ → ℕ → (ℕ → P → P) → P → Outcome P
  parse_from_config_section s key low high default setter c =
      parse_read low high default (read_uint32 lib s key) setter c
