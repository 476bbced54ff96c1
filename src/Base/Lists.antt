-- ===== src/Base/Lists.antt =====
-- Lists measured and indexed by native numbers, under the library's names.
use Prim.Native.Nat.{ℕ, zero, suc, ◌+◌, ◌-◌, ◌≤◌, min}
use mathlib.Core.Path.{◌≡◌, refl, ap}
use mathlib.Core.Bool.{Bool, true, false}
use mathlib.Core.List.{List, [], ◌∷◌, ◌++◌}
use mathlib.Core.Option.{Option, none, some}
use native.Mathlib.Omega.{arith}
use post_cortex.Base.Tests.{if◌then◌else◌}

module _ {ℓ} {A : Type ℓ} where
  abbrev pub length : List A → ℕ
  length [] = 0
  length (head ∷ tail) = suc (length tail)

  abbrev pub get_elem? : List A → ℕ → Option A
  get_elem? [] i = none
  get_elem? (head ∷ tail) zero = some head
  get_elem? (head ∷ tail) (suc i) = get_elem? tail i

  abbrev pub take : ℕ → List A → List A
  take zero tail = []
  take (suc n) [] = []
  take (suc n) (head ∷ tail) = head ∷ take n tail

  abbrev pub drop : ℕ → List A → List A
  drop zero tail = tail
  drop (suc n) [] = []
  drop (suc n) (head ∷ tail) = drop n tail

  abbrev pub filter : (A → Bool) → List A → List A
  filter p [] = []
  filter p (head ∷ tail) = let rest = filter p tail in if p head then head ∷ rest else rest

  abbrev pub find? : (A → Bool) → List A → Option A
  find? p [] = none
  find? p (head ∷ tail) = if p head then some head else find? p tail

  abbrev pub any : (A → Bool) → List A → Bool
  any p [] = false
  any p (head ∷ tail) = if p head then true else any p tail

  pub length-append : (tail more : List A) → length (tail ++ more) ≡ length tail + length more
  length-append [] more = omega arith
  length-append (head ∷ tail) more = omega (arith, length-append tail more)

  pub length-take : (n : ℕ) (tail : List A) → length (take n tail) ≡ min n (length tail)
  length-take zero tail = omega arith
  length-take (suc n) [] = omega arith
  length-take (suc n) (head ∷ tail) = omega (arith, length-take n tail)

  pub length-drop : (n : ℕ) (tail : List A) → length (drop n tail) ≡ length tail - n
  length-drop zero tail = omega arith
  length-drop (suc n) [] = omega arith
  length-drop (suc n) (head ∷ tail) = omega (arith, length-drop n tail)

  pub length-filter-le : (p : A → Bool) (tail : List A) → length (filter p tail) ≤ length tail
  length-filter-le p [] = omega arith
  length-filter-le p (head ∷ tail) = ground (arith, length-filter-le p tail)

  pub take_of_length-le : (n : ℕ) (tail : List A) → length tail ≤ n → take n tail ≡ tail
  take_of_length-le zero [] fits = refl
  take_of_length-le zero (head ∷ tail) fits = absurd (omega arith)
  take_of_length-le (suc n) [] fits = refl
  take_of_length-le (suc n) (head ∷ tail) fits =
      ap (◌∷◌ head) (take_of_length-le n tail (omega arith))
