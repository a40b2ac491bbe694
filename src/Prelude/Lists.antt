-- ===== src/Prelude/Lists.antt =====
-- Lists measured by native numbers, `std::find_if` over a test, and counted loops.
use Prim.Native.Nat.{ℕ, zero, suc, ◌+◌}
use mathlib.Core.Path.{◌≡◌, refl}
use mathlib.Core.Bool.{Bool}
use mathlib.Core.List.{List, [], ◌∷◌, ◌++◌}
use mathlib.Core.Option.{Option, none, some}
use native.Mathlib.Omega.{arith}
use nlsr.Prelude.Tests.{if◌then◌else◌}

module _ {ℓ} {A : Type ℓ} where
  abbrev pub length : List A → ℕ
  length [] = 0
  length (x ∷ xs) = suc (length xs)

  abbrev pub take : ℕ → List A → List A
  take zero xs = []
  take (suc n) [] = []
  take (suc n) (x ∷ xs) = x ∷ take n xs

  pub take-nil : (n : ℕ) → take n [] ≡ []
  take-nil zero = refl
  take-nil (suc n) = refl

  pub length-append : (xs ys : List A) → length (xs ++ ys) ≡ length xs + length ys
  length-append [] ys = omega arith
  length-append (x ∷ xs) ys = omega (arith, length-append xs ys)

  -- The first element that passes.
  abbrev pub find_if : (A → Bool) → List A → Option A
  find_if p [] = none
  find_if p (x ∷ xs) = if p x then some x else find_if p xs

  -- The elements that pass, in their order.
  abbrev pub keep_if : (A → Bool) → List A → List A
  keep_if p [] = []
  keep_if p (x ∷ xs) = if p x then x ∷ keep_if p xs else keep_if p xs

  -- The list without the first element that passes, as after `erase(find_if(...))`.
  abbrev pub erase_if : (A → Bool) → List A → List A
  erase_if p [] = []
  erase_if p (x ∷ xs) = if p x then xs else x ∷ erase_if p xs

  -- The list with the first element that passes changed in place.
  abbrev pub modify_if : (A → Bool) → (A → A) → List A → List A
  modify_if p f [] = []
  modify_if p f (x ∷ xs) = if p x then f x ∷ xs else x ∷ modify_if p f xs

  pub length-modify_if :
      (p : A → Bool) (f : A → A) (xs : List A) → length (modify_if p f xs) ≡ length xs
  length-modify_if p f [] = refl
  length-modify_if p f (x ∷ xs) = ground (arith, length-modify_if p f xs)

-- `for (i = from; rounds left; ++i) s = body(i, s)`
abbrev pub for_up {ℓ} : {S : Type ℓ} → ℕ → ℕ → (ℕ → S → S) → S → S
for_up zero i body s = s
for_up (suc rounds) i body s = for_up rounds (suc i) body (body i s)

-- Equal arguments give equal results.
pub ap2 {ℓ ℓ' ℓ''} :
    {A : Type ℓ} {B : Type ℓ'} {C : Type ℓ''} (f : A → B → C) {x x' : A} {y y' : B}
    → x ≡ x'
    → y ≡ y'
    → f x y ≡ f x' y'
ap2 f p q i = f (p i) (q i)
