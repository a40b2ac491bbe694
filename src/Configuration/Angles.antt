-- ===== src/Configuration/Angles.antt =====
-- conf-file-processor.cpp: the loop that reads the angles of the hyperbolic coordinates.
use nlsr.Configuration.{ConfigLibrary}
use nlsr.Prelude.{if◌then◌else◌, ℕ, zero, suc, ◌+◌, none, some, List, [], ◌∷◌}

module _ {S N F D X : Type 0} (lib : ConfigLibrary S N F D X) where
  abbrev pub skip_separator : X → X
  skip_separator x = if lib.at_separator x then lib.ignore x else x

  -- With fuel for the doubles that are left.
  unfoldable pub read_angles : ℕ → X → List D
  read_angles zero x = []
  read_angles (suc k) x = elim (lib.read_double x) [
    | none ↦ []
    | some (angle, rest) ↦ angle ∷ read_angles k (skip_separator rest)
  ]

  -- What is left of the stream is fuel enough.
  unfoldable pub parse_angles : X → List D
  unfolding read_angles
  parse_angles x = read_angles (lib.size x + 1) x
