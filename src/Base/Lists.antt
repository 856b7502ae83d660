-- ===== src/Base/Lists.antt =====
-- Lists measured and indexed by native numbers, under the library's names, as Go slices use them.
use Prim.Native.Nat.{ℕ, zero, suc, ◌+◌, ◌-◌, ◌≤◌, ◌<◌}
use mathlib.Core.Bool.{Bool, false, ◌||◌}
use effect_ive_go.Base.Tests.{◌==◌, if◌then◌else◌}
use mathlib.Core.Path.{◌≡◌, refl, ap}
use mathlib.Core.Logic.{◌≢◌, ◌⊎◌, inl, inr}
use mathlib.Core.List.{List, [], ◌∷◌, ◌++◌}
use mathlib.Core.Option.{Option, none, some}
use native.Mathlib.Omega.{arith}

module _ {ℓ} {A : Type ℓ} where
  abbrev pub length : List A → ℕ
  length [] = 0
  length (x ∷ xs) = suc (length xs)

  abbrev pub get_elem? : List A → ℕ → Option A
  get_elem? [] i = none
  get_elem? (x ∷ xs) zero = some x
  get_elem? (x ∷ xs) (suc i) = get_elem? xs i

  -- A write out of bounds changes nothing.
  abbrev pub set : List A → ℕ → A → List A
  set [] i v = []
  set (x ∷ xs) zero v = v ∷ xs
  set (x ∷ xs) (suc i) v = x ∷ set xs i v

  abbrev pub take : ℕ → List A → List A
  take zero xs = []
  take (suc n) [] = []
  take (suc n) (x ∷ xs) = x ∷ take n xs

  abbrev pub drop : ℕ → List A → List A
  drop zero xs = xs
  drop (suc n) [] = []
  drop (suc n) (x ∷ xs) = drop n xs

  -- The slice of `n` zero values that `make` returns.
  abbrev pub make_slice : ℕ → A → List A
  make_slice zero a = []
  make_slice (suc n) a = a ∷ make_slice n a

  pub get_elem?-make_slice : (n : ℕ) (a : A) (i : ℕ) → i < n → get_elem? (make_slice n a) i ≡ some a
  get_elem?-make_slice zero a i lt = absurd (omega (arith, lt))
  get_elem?-make_slice (suc n) a zero lt = refl
  get_elem?-make_slice (suc n) a (suc i) lt = get_elem?-make_slice n a i (omega (arith, lt))

  pub length-append : (xs ys : List A) → length (xs ++ ys) ≡ length xs + length ys
  length-append [] ys = omega arith
  length-append (x ∷ xs) ys = omega (arith, length-append xs ys)

  pub take-length_le : (n : ℕ) (xs : List A) → length xs ≤ n → take n xs ≡ xs
  take-length_le zero [] h = refl
  take-length_le zero (x ∷ xs) h = absurd (omega arith)
  take-length_le (suc n) [] h = refl
  take-length_le (suc n) (x ∷ xs) h = ap (◌∷◌ x) (take-length_le n xs (omega arith))

  pub length-drop : (n : ℕ) (xs : List A) → length (drop n xs) ≡ length xs - n
  length-drop zero xs = omega arith
  length-drop (suc n) [] = omega arith
  length-drop (suc n) (x ∷ xs) = omega (arith, length-drop n xs)

  pub length-set : (xs : List A) (i : ℕ) (v : A) → length (set xs i v) ≡ length xs
  length-set [] i v = refl
  length-set (x ∷ xs) zero v = refl
  length-set (x ∷ xs) (suc i) v = ap suc (length-set xs i v)

  -- What is read after a write in bounds: the new value there, and the old ones elsewhere.
  pub get_elem?-set :
      (xs : List A) (i j : ℕ) (v w : A)
      → get_elem? (set xs i v) j ≡ some w
      → ((i ≡ j) × (w ≡ v)) ⊎ ((i ≢ j) × (get_elem? xs j ≡ some w))
  get_elem?-set [] i j v w e = cc e
  get_elem?-set (x ∷ xs) zero zero v w e = inl (refl, cc e)
  get_elem?-set (x ∷ xs) zero (suc j) v w e = inr ((λ z. omega (arith, z)), e)
  get_elem?-set (x ∷ xs) (suc i) zero v w e = inr ((λ z. omega (arith, z)), e)
  get_elem?-set (x ∷ xs) (suc i) (suc j) v w e = elim (get_elem?-set xs i j v w e) [
    | inl (same, is_v) ↦ inl (ap suc same, is_v)
    | inr (other, old) ↦ inr ((λ z. other (omega (arith, z))), old)
  ]

  pub get_elem?-set_same :
      (xs : List A) (i : ℕ) (v w : A) → get_elem? xs i ≡ some w → get_elem? (set xs i v) i ≡ some v
  get_elem?-set_same [] i v w e = cc e
  get_elem?-set_same (x ∷ xs) zero v w e = refl
  get_elem?-set_same (x ∷ xs) (suc i) v w e = get_elem?-set_same xs i v w e

  -- A write to an element, read anywhere.
  pub get_elem?-write :
      (xs : List A) (i j : ℕ) (v old : A)
      → get_elem? xs i ≡ some old
      → get_elem? (set xs i v) j ≡ (if i == j then some v else get_elem? xs j)
  get_elem?-write [] i j v old e = cc e
  get_elem?-write (x ∷ xs) zero zero v old e = ground arith
  get_elem?-write (x ∷ xs) zero (suc j) v old e = ground arith
  get_elem?-write (x ∷ xs) (suc i) zero v old e = ground arith
  get_elem?-write (x ∷ xs) (suc i) (suc j) v old e = ground (arith, get_elem?-write xs i j v old e)

  -- What a write leaves at an index in bounds.
  pub get_elem?-set_at :
      (xs : List A) (i j : ℕ) (v w : A)
      → get_elem? xs j ≡ some w
      → get_elem? (set xs i v) j ≡ some (if i == j then v else w)
  get_elem?-set_at [] i j v w e = cc e
  get_elem?-set_at (x ∷ xs) zero zero v w e = ground arith
  get_elem?-set_at (x ∷ xs) zero (suc j) v w e = ground (arith, e)
  get_elem?-set_at (x ∷ xs) (suc i) zero v w e = ground (arith, e)
  get_elem?-set_at (x ∷ xs) (suc i) (suc j) v w e = ground (arith, get_elem?-set_at xs i j v w e)

-- Whether a number stands in a list.
abbrev pub is_member : ℕ → List ℕ → Bool
is_member n [] = false
is_member n (m ∷ ms) = (m == n) || is_member n ms
