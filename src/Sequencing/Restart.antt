-- ===== src/Sequencing/Restart.antt =====
-- The sequence numbers over a restart.
use nlsr.Prelude.{if◌then◌else◌, ◌≡◌, refl, some}
use nlsr.Sequencing.{
  HyperbolicState, hyperbolic_off, hyperbolic_on, hyperbolic_dry_run, is_on, is_off,
  SequenceNumbers, increased, write_seq_no_to_file, initiate_seq_no_from_file,
}

-- What a restart makes of the written numbers, in each state of hyperbolic routing: the number of
-- the name LSA goes on by 10 from the file; so does the number of the adjacency LSA with
-- hyperbolic routing off, and the number of the coordinate LSA with hyperbolic routing on, and
-- the other number is 0. In a dry run neither goes on: the adjacency LSA restarts at 0 and the
-- coordinate LSA at 10, whatever was written.
pub initiate-write :
    (h : HyperbolicState) (s : SequenceNumbers)
    → initiate_seq_no_from_file h (some (write_seq_no_to_file s)) ≡ record {
      name_lsa_seq = increased s.name_lsa_seq 10;
      adj_lsa_seq = if is_off h then increased s.adj_lsa_seq 10 else 0;
      cor_lsa_seq = if is_on h then increased s.cor_lsa_seq 10 else if is_off h then 0 else 10;
    }
unfolding initiate_seq_no_from_file write_seq_no_to_file
initiate-write hyperbolic_off s = refl
initiate-write hyperbolic_on s = refl
initiate-write hyperbolic_dry_run s = refl
