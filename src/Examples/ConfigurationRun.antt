-- ===== src/Examples/ConfigurationRun.antt =====
-- A file with the sections "general" and "hyperbolic", whose names and numbers are a few texts.
use nlsr.Adjacency.{u32_mod}
use nlsr.Configuration.{ℤ, pos, ConfigLibrary, new_conf_parameter, accepted, refused, threw}
use nlsr.Configuration.Angles.{read_angles, parse_angles}
use nlsr.Configuration.Sections.{process_conf_section_hyperbolic}
use nlsr.Configuration.Load.{process_conf_file}
use nlsr.Configuration.Ranges.{Holds, IsUsable}
use nlsr.Configuration.Whole.{process_conf_file-IsUsable}
use nlsr.Configuration.Coordinates.{
  read_angles-parse_angles, HasCoordinates, hyperbolic-HasCoordinates,
}
use nlsr.Examples.Values.{nat_ord, Tenths, tenths, tenths_double}
use Prim.Native.String.{String}
use text.Mathlib.Text.{◌==◌ as text_eq}
use nlsr.Prelude.{
  nat_eq, nat_beq, if◌then◌else◌, ℕ, zero, suc, ◌+◌, ◌*◌, ◌<◌, ◌≡◌, refl, true, false, Option, none,
  some, List, [], ◌∷◌, arith,
}

-- A section of one level: a text, or its keys with their texts.
data Node : Type 0 where
  leaf : String → Node
  fields : List (String × String) → Node

abbrev leaves : List (String × String) → List (String × Node)
leaves [] = []
leaves ((key, text) ∷ l) = (key, leaf text) ∷ leaves l

abbrev node_children : Node → List (String × Node)
node_children (leaf text) = []
node_children (fields l) = leaves l

abbrev node_text : Node → String
node_text (leaf text) = text
node_text (fields l) = ""

abbrev node_number : Node → Option ℕ
node_number t = if text_eq (node_text t) "900" then some 900 else none

abbrev node_int : Node → Option ℤ
node_int t = elim (node_number t) [ none ↦ none | some k ↦ some (pos k) ]

abbrev node_double : Node → Option Tenths
node_double t = if text_eq (node_text t) "1.5" then some (tenths 16) else none

-- What is left of a stream are doubles, and only their number counts.
abbrev next_double : ℕ → Option (Tenths × ℕ)
next_double zero = none
next_double (suc k) = some (tenths 6, k)

abbrev name_number : String → Option ℕ
name_number text =
    if text_eq text "/ndn" then some 1 else if text_eq text "/site" then some 2 else some 3

next_double-size : (x rest : ℕ) (d : Tenths) → next_double x ≡ some (d, rest) → rest < x
next_double-size zero rest d h = ground arith
next_double-size (suc k) rest d h = ground arith

node_number-bound : (t : Node) (k : ℕ) → node_number t ≡ some k → k < u32_mod
node_number-bound t k h = ground arith

abbrev general_fields : List (String × String)
general_fields =
    ("network", "/ndn")
    ∷ ("site", "/site")
    ∷ ("router", "/router")
    ∷ ("lsa-refresh-time", "900")
    ∷ ("state-dir", "/var")
    ∷ []

abbrev hyperbolic_section : Node
hyperbolic_section = fields (("state", "on") ∷ ("radius", "1.5") ∷ ("angle", "0.5,0.5") ∷ [])

abbrev small_file : ConfigLibrary Node ℕ ℕ Tenths ℕ
small_file = record {
  children = node_children;
  data_of = node_text;
  uint32_value = node_number;
  int_value = node_int;
  double_value = node_double;
  read_info =
      λ input. some (("general", fields general_fields) ∷ ("hyperbolic", hyperbolic_section) ∷ []);
  name_of = name_number;
  is_empty = λ name. nat_beq name 0;
  empty_name = 0;
  append = λ a b. 10 * a + b;
  append_text = λ a text. 10 * a + 9;
  append_version = λ a k. 10 * a + 8;
  parse_uri = λ text. some 1;
  canonize = some;
  iequals = text_eq;
  stream_of = λ text. 2;
  size = λ x. x;
  read_double = next_double;
  at_separator = λ x. false;
  ignore = λ x. x;
  open_file = λ name. some "";
  exists = λ path. true;
  is_directory = λ path. true;
  join = λ dir file. file;
  absolute_from = λ path file. path;
  copies = λ from to. true;
  is_writable = λ path. true;
  validator_loads = λ t. true;
  has_certificate = λ path. true;
  has_chronosync = false;
  has_psync = true;
  has_svs = false;
  uint32_value-bound = node_number-bound;
  read_double-size = next_double-size;
  ignore-size = λ x. omega arith;
}

-- The file is accepted, with the refresh time of the section and twice that for dead routers.
small_file_times :
    (elim (process_conf_file small_file (new_conf_parameter small_file "nlsr.file" 0)) [
      | accepted c ↦ c.lsa_refresh_time ∷ c.router_dead_interval ∷ c.router_prefix ∷ []
      | refused c ↦ []
      | threw c ↦ []
    ])
    ≡ 900 ∷ 1800 ∷ 123 ∷ []
unfolding process_conf_file new_conf_parameter
small_file_times = refl

process_conf_file-IsUsable_example :
    Holds
      (λ c. IsUsable 0 c)
      (process_conf_file small_file (new_conf_parameter small_file "nlsr.file" 0))
process_conf_file-IsUsable_example = process_conf_file-IsUsable small_file 0 "nlsr.file"

read_angles-parse_angles_example : read_angles small_file 7 2 ≡ parse_angles small_file 2
read_angles-parse_angles_example = read_angles-parse_angles small_file 7 2 (omega arith)

hyperbolic-HasCoordinates_example : Holds (HasCoordinates small_file hyperbolic_section) (
    process_conf_section_hyperbolic small_file hyperbolic_section
      (new_conf_parameter small_file "nlsr.file" 0))
hyperbolic-HasCoordinates_example =
    hyperbolic-HasCoordinates small_file hyperbolic_section
      (new_conf_parameter small_file "nlsr.file" 0) refl
