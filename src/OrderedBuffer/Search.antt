-- ===== src/OrderedBuffer/Search.antt =====
-- `sort.Search` finds the boundary of a monotone test, and `insert_at` there is ordered insertion.
use effect_ive_go.Base.{
  ℕ, zero, suc, ◌+◌, ◌/◌, ◌≤◌, ◌<◌, ◌≡◌, inl, inr, Bool, true, false, arith, ltb, Bool-cases,
}
use effect_ive_go.OrderedBuffer.{search_loop, search}

-- The test is false below `r` and true from `r` on.
pub record Boundary (f : ℕ → Bool) (r : ℕ) : Type 0 where
  pub below : (k : ℕ) → k < r → f k ≡ false
  pub above : (k : ℕ) → r ≤ k → f k ≡ true

abbrev pub Monotone : (ℕ → Bool) → Type 0
Monotone f = (m n : ℕ) → m ≤ n → f m ≡ true → f n ≡ true

below_of_false :
    (f : ℕ → Bool) (h : ℕ) → Monotone f → f h ≡ false → (k : ℕ) → k < h + 1 → f k ≡ false
below_of_false f h mono e k lt = elim (Bool-cases (f k)) [
  | inl t ↦ ground (arith, mono k h)
  | inr e' ↦ e'
]

module _ (f : ℕ → Bool) (mono : Monotone f) where
  search_loop-Boundary :
      (fuel i j : ℕ)
      → i ≤ j
      → j ≤ i + fuel
      → ((k : ℕ) → k < i → f k ≡ false)
      → ((k : ℕ) → j ≤ k → f k ≡ true)
      → (search_loop fuel f i j ≤ j) × Boundary f (search_loop fuel f i j)
  unfolding search_loop
  search_loop-Boundary zero i j le fits lo hi =
      (le, record { below = lo; above = λ k h. hi k (omega arith) })
  search_loop-Boundary (suc fuel) i j le fits lo hi = elim (Bool-cases (ltb i j)) [
    | inr stop ↦ rw stop (le, record { below = lo; above = λ k h. hi k (ground arith) })
    | inl more ↦ rw more (elim (Bool-cases (f ((i + j) / 2))) [
      | inr no_ ↦ rw no_ (
          search_loop-Boundary fuel ((i + j) / 2 + 1) j (ground arith) (ground arith)
            (below_of_false f ((i + j) / 2) mono no_) hi)
      | inl yes_ ↦ rw yes_ (
          let (low, b) =
            search_loop-Boundary fuel i ((i + j) / 2) (ground arith) (ground arith) lo
              (λ k h. mono ((i + j) / 2) k h yes_) in
          (ground arith, b))
    ])
  ]

  -- `n` rounds of the loop are enough: the search ends at the boundary.
  pub search-Boundary :
      (n : ℕ) → ((k : ℕ) → n ≤ k → f k ≡ true) → (search n f ≤ n) × Boundary f (search n f)
  unfolding search
  search-Boundary n hi =
      search_loop-Boundary n 0 n (omega arith) (omega arith) (λ k h. absurd (omega arith)) hi
