-- ===== src/Sequencing.antt =====
-- sequencing-manager.hpp and sequencing-manager.cpp: the sequence numbers of this router's own
-- LSAs, uint64_t, and the file that keeps them over a restart. The file is its three numbers; how
-- they are printed and where the file lies is left out. Also the states of hyperbolic routing
-- (conf-parameter.hpp) and the kinds of a change of the LSDB (common.hpp, lsdb.hpp).
pub mod Restart
use nlsr.Prelude.{if◌then◌else◌, ℕ, ◌+◌, ◌%◌, ◌^◌, Bool, true, false, Option, none, some}
use nlsr.Lsa.{adjacency_lsa, coordinate_lsa, name_lsa, base_lsa, LsaType}

pub data HyperbolicState : Type 0 where
  hyperbolic_off hyperbolic_on hyperbolic_dry_run : HyperbolicState

abbrev pub is_on : HyperbolicState → Bool
is_on hyperbolic_on = true
is_on hyperbolic_off = false
is_on hyperbolic_dry_run = false

abbrev pub is_off : HyperbolicState → Bool
is_off hyperbolic_off = true
is_off hyperbolic_on = false
is_off hyperbolic_dry_run = false

pub data LsdbUpdate : Type 0 where
  installed updated removed : LsdbUpdate

abbrev pub u64_mod : ℕ
u64_mod = 2 ^ 64

pub record SequenceNumbers : Type 0 where
  pub name_lsa_seq : ℕ
  pub adj_lsa_seq : ℕ
  pub cor_lsa_seq : ℕ

abbrev pub increased : ℕ → ℕ → ℕ
increased n k = (n + k) % u64_mod

unfoldable pub set_lsa_seq : SequenceNumbers → ℕ → LsaType → SequenceNumbers
set_lsa_seq s n adjacency_lsa = record s { adj_lsa_seq = n }
set_lsa_seq s n coordinate_lsa = record s { cor_lsa_seq = n }
set_lsa_seq s n name_lsa = record s { name_lsa_seq = n }
set_lsa_seq s n base_lsa = s

unfoldable pub get_lsa_seq : SequenceNumbers → LsaType → ℕ
get_lsa_seq s adjacency_lsa = s.adj_lsa_seq
get_lsa_seq s coordinate_lsa = s.cor_lsa_seq
get_lsa_seq s name_lsa = s.name_lsa_seq
get_lsa_seq s base_lsa = 0

-- increaseNameLsaSeq, increaseAdjLsaSeq and increaseCorLsaSeq
unfoldable pub increase_lsa_seq : SequenceNumbers → LsaType → SequenceNumbers
unfolding set_lsa_seq get_lsa_seq
increase_lsa_seq s type = set_lsa_seq s (increased (get_lsa_seq s type) 1) type

-- The numbers in the file: the name's, the adjacency's, the coordinate's.
unfoldable pub write_seq_no_to_file : SequenceNumbers → ℕ × ℕ × ℕ
write_seq_no_to_file s = (s.name_lsa_seq, s.adj_lsa_seq, s.cor_lsa_seq)

-- The branch for link state and the dry run, and the branch for hyperbolic and the dry run.
abbrev pub for_link_state : HyperbolicState → SequenceNumbers → SequenceNumbers
for_link_state h s =
    if is_on h then s else record s { cor_lsa_seq = 0; adj_lsa_seq = increased s.adj_lsa_seq 10 }

abbrev pub for_hyperbolic : HyperbolicState → SequenceNumbers → SequenceNumbers
for_hyperbolic h s =
    if is_off h then s else record s { adj_lsa_seq = 0; cor_lsa_seq = increased s.cor_lsa_seq 10 }

-- From a fresh manager, whose numbers are 0; `none` is a file that cannot be read.
unfoldable pub initiate_seq_no_from_file : HyperbolicState → Option (ℕ × ℕ × ℕ) → SequenceNumbers
initiate_seq_no_from_file h none = record { name_lsa_seq = 0; adj_lsa_seq = 0; cor_lsa_seq = 0 }
initiate_seq_no_from_file h (some (name, adj, cor)) = for_hyperbolic h (
    for_link_state h
      (record { name_lsa_seq = increased name 10; adj_lsa_seq = adj; cor_lsa_seq = cor }))
