-- ===== src/Configuration/Coordinates.antt =====
-- conf-file-processor.cpp: the coordinates of the section "hyperbolic".
use nlsr.Configuration.{ConfigLibrary, ConfParameter, accepted, refused, get_text, text_or}
use nlsr.Configuration.Angles.{skip_separator, read_angles, parse_angles}
use nlsr.Configuration.Sections.{
  hyperbolic_state_of, read_radius, with_coordinates, process_conf_section_hyperbolic,
}
use nlsr.Configuration.Ranges.{Holds, Holds-bind, Holds-if, Holds-set_read}
use Prim.Native.String.{String}
use text.Mathlib.Text.{◌==◌ as text_eq}
use nlsr.Prelude.{
  Double, cost_le, Option-cases, ℕ, zero, suc, ◌+◌, ◌≤◌, ◌<◌, ◌≡◌, refl, sym, ap, subst, ◌∙◌, inl,
  inr, Bool, true, ◌||◌, Option, none, some, arith,
}

module _ {S N F D X : Type 0} (lib : ConfigLibrary S N F D X) where
  skip_separator-size : (x : X) → lib.size (skip_separator lib x) ≤ lib.size x
  skip_separator-size x = ground (arith, lib.ignore-size x)

  -- Two fuels that are both more than what is left give the same angles.
  read_angles-fuel :
      (j k : ℕ) (x : X)
      → lib.size x < j
      → lib.size x < k
      → read_angles lib j x ≡ read_angles lib k x
  unfolding read_angles
  read_angles-fuel zero k x h g = ground arith
  read_angles-fuel (suc j) zero x h g = ground arith
  read_angles-fuel (suc j) (suc k) x h g = elim (Option-cases (lib.read_double x)) [
    | inl done ↦ ground (arith, done)
    | inr ((angle, rest), read) ↦
        let left = lib.read_double-size x rest angle read in
        let skipped = skip_separator-size rest in
        ground
          (arith, read, read_angles-fuel j k (skip_separator lib rest) (omega arith) (omega arith))
  ]

  -- The loop over the angles ends: any fuel that is more than what is left of the stream gives the
  -- angles that `parse_angles` gives.
  pub read_angles-parse_angles :
      (k : ℕ) (x : X) → lib.size x < k → read_angles lib k x ≡ parse_angles lib x
  unfolding parse_angles
  read_angles-parse_angles k x h = read_angles-fuel k (lib.size x + 1) x h (omega arith)

  module _ ⦃d : Double D⦄ where
    abbrev pub is_active_text : String → Bool
    is_active_text state = text_eq state "on" || text_eq state "dry-run"

    -- The coordinates of the section, which has both and a radius that is not negative.
    pub record HasCoordinates (s : S) (c : ConfParameter N F D) : Type 0 where
      pub radius_read : read_radius lib s ≡ some c.cor_r
      pub radius_positive : cost_le d.zero_cost c.cor_r ≡ true
      pub angles : String
      pub angles_read : get_text lib s "angle" ≡ some angles
      pub theta : c.cor_theta ≡ parse_angles lib (lib.stream_of angles)

    with_coordinates-HasCoordinates :
        (s : S) (state : String) (r : Option D) (angles : Option String) (c : ConfParameter N F D)
        → is_active_text state ≡ true
        → read_radius lib s ≡ r
        → get_text lib s "angle" ≡ angles
        → Holds (HasCoordinates s) (with_coordinates lib state r angles c)
    unfolding with_coordinates
    with_coordinates-HasCoordinates s state none angles c on h k =
        Holds-if (HasCoordinates s) (is_active_text state) (refused c) (accepted c) (λ _. tt)
          (λ off. ground (arith, on, off))
    with_coordinates-HasCoordinates s state (some r) none c on h k =
        Holds-if (HasCoordinates s) (is_active_text state) (refused c) (accepted c) (λ _. tt)
          (λ off. ground (arith, on, off))
    with_coordinates-HasCoordinates s state (some r) (some angles) c on h k =
        Holds-bind (λ (c : ConfParameter N F D). (c.cor_r ≡ r) × (cost_le d.zero_cost r ≡ true))
          (HasCoordinates s) _ _
          (Holds-if (λ (c : ConfParameter N F D). (c.cor_r ≡ r) × (cost_le d.zero_cost r ≡ true))
            (cost_le d.zero_cost r) (accepted (record c { cor_r = r })) (refused c)
            (λ positive. (refl, positive)) (λ _. tt))
          (λ c set. record {
            radius_read = h ∙ ap some (sym set.0);
            radius_positive = subst (λ r. cost_le d.zero_cost r ≡ true) (sym set.0) set.1;
            angles = angles;
            angles_read = k;
            theta = refl;
          })

    -- If a hyperbolic section whose state reads "on" or "dry-run", in lower case, is accepted, then
    -- the radius is the section's and not negative, and the angles are those of its text.
    pub hyperbolic-HasCoordinates :
        (s : S) (c : ConfParameter N F D)
        → is_active_text (text_or lib s "state" "off") ≡ true
        → Holds (HasCoordinates s) (process_conf_section_hyperbolic lib s c)
    unfolding process_conf_section_hyperbolic
    hyperbolic-HasCoordinates s c on =
        let state = text_or lib s "state" "off" in
        Holds-bind (λ _. Unit {0}) (HasCoordinates s) _ _
          (Holds-set_read (λ _. Unit {0}) (hyperbolic_state_of lib state)
            (λ h c. record c { hyperbolic_state = h }) c (λ h. tt))
          (λ c _.
            with_coordinates-HasCoordinates s state (read_radius lib s) (get_text lib s "angle") c
              on refl refl)
