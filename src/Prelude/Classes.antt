-- ===== src/Prelude/Classes.antt =====
-- Interfaces for the types that the program takes from its libraries: a type with a test for
-- equality (ndn::Name, ndn::FaceUri), a type with a strict order (the keys of std::set and
-- std::map), and the `double` values of link and route costs.
use Prim.Native.Nat.{ℕ, ◌≤◌, ◌<◌}
use mathlib.Core.Path.{◌≡◌}
use mathlib.Core.Logic.{◌↔◌}
use mathlib.Core.Bool.{Bool, true, false, ◌||◌}
use mathlib.Core.List.{List, [], ◌∷◌}
use native.Mathlib.Omega.{arith}
use nlsr.Prelude.Tests.{ltb, leb, nat_beq, nat_beq_iff}

pub record Eq {ℓ} (A : Type ℓ) : Type ℓ where
  pub equal : A → A → Bool
  pub equal_iff : (a b : A) → (equal a b ≡ true) ↔ (a ≡ b)

-- The C++ operator, at the instance for the type.
infix 50 ◌==◌
abbrev pub ◌==◌ {ℓ} : {T : Type ℓ} ⦃eq : Eq T⦄ (a b : T) → Bool
◌==◌ ⦃eq⦄ a b = eq.equal a b

-- The two halves of `equal_iff`, and that the test is symmetric.
pub ==_eq {ℓ} : {A : Type ℓ} ⦃e : Eq A⦄ (a b : A) → (a == b) ≡ true → a ≡ b
==_eq ⦃e⦄ a b h = (e.equal_iff a b).0 h

pub ==_refl {ℓ} : {A : Type ℓ} ⦃e : Eq A⦄ (a : A) → (a == a) ≡ true
==_refl ⦃e⦄ a = (e.equal_iff a a).1 (λ i. a)

pub ==_iff {ℓ} : {A : Type ℓ} ⦃e : Eq A⦄ (a b : A) → ((a == b) ≡ true) ↔ (a ≡ b)
==_iff ⦃e⦄ a b = e.equal_iff a b

-- std::find != end, or a test on std::set::count
abbrev pub is_in {ℓ} : {A : Type ℓ} ⦃eq : Eq A⦄ → A → List A → Bool
is_in name [] = false
is_in name (x ∷ xs) = name == x || is_in name xs

-- A strict total order, as `operator<` of the library's types is documented.
pub record Ord {ℓ} (A : Type ℓ) : Type ℓ where
  pub lt : A → A → Bool
  pub lt_irrefl : (a : A) → lt a a ≡ false
  pub lt_trans : (a b c : A) → lt a b ≡ true → lt b c ≡ true → lt a c ≡ true
  pub lt_total : (a b : A) → lt a b ≡ false → lt b a ≡ false → a ≡ b

abbrev pub less {ℓ} : {A : Type ℓ} ⦃o : Ord A⦄ → A → A → Bool
less ⦃o⦄ = o.lt

-- The doubles that the program computes with: no NaN, and one zero. `rank` embeds their order in
-- the numbers (as the bit patterns of IEEE 754 do), so `<` is `<` of ranks. Addition is rounded,
-- so it is neither associative nor exact; what rounding keeps is that it is monotone and that
-- adding what is not negative does not decrease.
pub record Double (D : Type 0) : Type 0 where
  pub rank : D → ℕ
  pub rank_injective : (a b : D) → rank a ≡ rank b → a ≡ b
  pub zero_cost : D
  pub default_link_cost : D
  pub non_adjacent_cost : D
  pub inf_distance : D
  pub plus : D → D → D
  -- static_cast<uint64_t>(x), and static_cast<uint64_t>(round(x * 1000))
  pub truncated : D → ℕ
  pub thousandths : D → ℕ
  -- std::abs(x - y), and std::numeric_limits<double>::epsilon()
  pub abs_difference : D → D → D
  pub epsilon : D
  pub plus_mono : (a b c : D) → rank a ≤ rank b → rank (plus a c) ≤ rank (plus b c)
  pub plus_grows : (a c : D) → rank zero_cost ≤ rank c → rank a ≤ rank (plus a c)
  pub non_adjacent_neg : rank non_adjacent_cost < rank zero_cost
  pub default_pos : rank zero_cost < rank default_link_cost
  pub inf_pos : rank zero_cost < rank inf_distance

module _ {D : Type 0} ⦃d : Double D⦄ where
  abbrev pub cost_lt : D → D → Bool
  cost_lt a b = ltb (d.rank a) (d.rank b)

  abbrev pub cost_le : D → D → Bool
  cost_le a b = leb (d.rank a) (d.rank b)

  abbrev pub cost_eq : D → D → Bool
  cost_eq a b = nat_beq (d.rank a) (d.rank b)

  -- std::max
  abbrev pub cost_max : D → D → D
  cost_max a b = elim (cost_lt a b) [ true ↦ b | false ↦ a ]

  pub cost_eq_iff : (a b : D) → (cost_eq a b ≡ true) ↔ (a ≡ b)
  cost_eq_iff a b = (λ h. d.rank_injective a b (ground arith), λ h. ground arith)

instance abbrev pub nat_eq : Eq ℕ
nat_eq = record { equal = nat_beq; equal_iff = nat_beq_iff }
