-- ===== src/Prelude/Lists.antt =====
-- Lists measured by native numbers, under the library's names, and predicates on lists.
use Prim.Native.Nat.{ℕ, zero, suc, ◌+◌, ◌-◌}
use mathlib.Core.Path.{◌≡◌, refl, ap}
use mathlib.Core.Bool.{Bool, true, false}
use mathlib.Core.List.{List, [], ◌∷◌, ◌++◌}
use native.Mathlib.Omega.{arith}
use vision_park_ai.Prelude.Tests.{if◌then◌else◌}

module _ {ℓ} {A : Type ℓ} where
  abbrev pub length : List A → ℕ
  length [] = 0
  length (x ∷ xs) = suc (length xs)

  abbrev pub take : ℕ → List A → List A
  take zero xs = []
  take (suc n) [] = []
  take (suc n) (x ∷ xs) = x ∷ take n xs

  abbrev pub drop : ℕ → List A → List A
  drop zero xs = xs
  drop (suc n) [] = []
  drop (suc n) (x ∷ xs) = drop n xs

  -- The members that pass a Boolean test, in order.
  abbrev pub select : (A → Bool) → List A → List A
  select p [] = []
  select p (x ∷ xs) = if p x then x ∷ select p xs else select p xs

  -- The first member that passes a Boolean test is there.
  abbrev pub any : (A → Bool) → List A → Bool
  any p [] = false
  any p (x ∷ xs) = if p x then true else any p xs

  pub length-append : (xs ys : List A) → length (xs ++ ys) ≡ length xs + length ys
  length-append [] ys = omega arith
  length-append (x ∷ xs) ys = omega (arith, length-append xs ys)

  pub take-drop : (n : ℕ) (xs : List A) → take n xs ++ drop n xs ≡ xs
  take-drop zero xs = refl
  take-drop (suc n) [] = refl
  take-drop (suc n) (x ∷ xs) = ap (λ (ys : List A). x ∷ ys) (take-drop n xs)

  pub length-drop : (n : ℕ) (xs : List A) → length (drop n xs) ≡ length xs - n
  length-drop zero xs = omega arith
  length-drop (suc n) [] = omega arith
  length-drop (suc n) (x ∷ xs) = omega (arith, length-drop n xs)

-- Every member has the property; it computes to a tuple, which the tactics read.
abbrev pub Each {ℓ κ} : {A : Type ℓ} → (A → Type κ) → List A → Type κ
Each holds [] = Unit
Each holds (first ∷ others) = holds first × Each holds others

pub Each-drop {ℓ κ} :
    {A : Type ℓ} (holds : A → Type κ) (n : ℕ) (l : List A) → Each holds l → Each holds (drop n l)
Each-drop holds zero l h = h
Each-drop holds (suc n) [] h = h
Each-drop holds (suc n) (first ∷ others) h = Each-drop holds n others h.1

pub Each-append {ℓ κ} :
    {A : Type ℓ} (holds : A → Type κ) (front back : List A)
    → Each holds front
    → Each holds back
    → Each holds (front ++ back)
Each-append holds [] back h k = k
Each-append holds (first ∷ others) back h k = (h.0, Each-append holds others back h.1 k)

pub Each-map {ℓ κ η} :
    {A : Type ℓ} (P : A → Type κ) (Q : A → Type η)
    → ((a : A) → P a → Q a)
    → (l : List A) → Each P l
    → Each Q l
Each-map P Q f [] h = tt
Each-map P Q f (first ∷ others) h = (f first h.0, Each-map P Q f others h.1)

-- Two facts of every member are one.
pub Each-both {ℓ κ η} :
    {A : Type ℓ} (P : A → Type κ) (Q : A → Type η) (l : List A)
    → Each P l
    → Each Q l
    → Each (λ a. P a × Q a) l
Each-both P Q [] h k = tt
Each-both P Q (first ∷ others) h k = ((h.0, k.0), Each-both P Q others h.1 k.1)

pub Each-all {ℓ κ} : {A : Type ℓ} {P : A → Type κ} → ((a : A) → P a) → (l : List A) → Each P l
Each-all f [] = tt
Each-all f (first ∷ others) = (f first, Each-all f others)
