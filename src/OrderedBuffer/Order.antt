-- ===== src/OrderedBuffer/Order.antt =====
-- `Insert` is ordered insertion with eviction of the head, by any comparison that is a weak order.
use native.Mathlib.Numerals.{add-one}
use effect_ive_go.Base.{
  ℕ, zero, suc, ◌≤◌, ◌<◌, ◌≡◌, refl, ap, ◌∙◌, inl, inr, Bool, true, false, List, [], ◌∷◌, ◌++◌,
  arith, length, set, take, drop, Bool-cases, if◌then◌else◌, sym, ltb,
}
use effect_ive_go.OrderedBuffer.{
  Buffer, Compare, is_lt, search, shift_right, insert_at, goes_before, evict, send, insert,
}
use effect_ive_go.OrderedBuffer.Search.{Monotone, search-Boundary}

-- What `OrderByEffect` needs of its comparison.
pub record WeakOrder {ℓ} {T : Type ℓ} (cmp : Compare T) : Type ℓ where
  pub asym : (a b : T) → is_lt (cmp a b) ≡ true → is_lt (cmp b a) ≡ false
  pub neg_trans :
      (a b c : T) → is_lt (cmp b a) ≡ false → is_lt (cmp c b) ≡ false → is_lt (cmp c a) ≡ false

abbrev pub All {ℓ κ} : {A : Type ℓ} → (A → Type κ) → List A → Type κ
All P [] = Unit
All P (x ∷ xs) = P x × All P xs

pub All-map {ℓ κ μ} :
    {A : Type ℓ} {P : A → Type κ} {Q : A → Type μ} (xs : List A)
    → ((a : A) → P a → Q a)
    → All P xs
    → All Q xs
All-map [] h p = tt
All-map (x ∷ xs) h p = (h x p.0, All-map xs h p.1)

module _ {ℓ} {T : Type ℓ} (cmp : Compare T) where
  -- No later element is less than an earlier one.
  abbrev pub IsSorted : List T → Type 0
  IsSorted [] = Unit
  IsSorted (x ∷ xs) = All (λ y. is_lt (cmp y x) ≡ false) xs × IsSorted xs

  -- Insertion behind everything that `v` is not less than.
  unfoldable pub ordered_insert : T → List T → List T
  ordered_insert v [] = v ∷ []
  ordered_insert v (x ∷ xs) = if is_lt (cmp v x) then v ∷ x ∷ xs else x ∷ ordered_insert v xs

  -- The whole `Insert` of an open buffer: ordered insertion, after which a buffer that is too long
  -- loses its head, to the channel or, if the context ended, for good.
  unfoldable pub ideal_insert : Bool → T → Buffer T → Bool × Buffer T
  ideal_insert done v b =
      let xs = ordered_insert v b.contents in
      if ltb b.max_buf_len (length xs)
      then (
        true,
        record b { contents = drop 1 xs; sent = if done then b.sent else b.sent ++ take 1 xs },
      )
      else (true, record b { contents = xs })

  -- The same with the code's eviction.
  unfoldable pub evicting_insert : Bool → T → Buffer T → Bool × Buffer T
  evicting_insert done v b =
      let (evicted, kept) = evict b.max_buf_len (ordered_insert v b.contents) in
      (true, record b { contents = kept; sent = send done evicted b.sent })

module _ {ℓ} {T : Type ℓ} where
  take-length_append : (xs ys : List T) → take (length xs) (xs ++ ys) ≡ xs
  take-length_append [] ys = refl
  take-length_append (x ∷ xs) ys = ap (◌∷◌ x) (take-length_append xs ys)

  length-snoc : (xs : List T) (v : T) → length (xs ++ v ∷ []) ≡ suc (length xs)
  length-snoc [] v = refl
  length-snoc (x ∷ xs) v = ap suc (length-snoc xs v)

  shifted :
      (idx : ℕ) (v : T) (xs : List T)
      → idx ≤ length xs
      → set
          (take (suc idx) (xs ++ v ∷ [])
            ++ take (length (drop (suc idx) (xs ++ v ∷ []))) (drop idx (xs ++ v ∷ [])))
          idx
          v
        ≡ take idx xs ++ v ∷ drop idx xs
  shifted zero v [] h = refl
  shifted zero v (x ∷ xs) h = rw (length-snoc xs v, take-length_append)
  shifted (suc i) v [] h = absurd (omega arith)
  shifted (suc i) v (x ∷ xs) h = ap (◌∷◌ x) (shifted i v xs (omega arith))

  -- append, copy and write put `v` at `idx`
  pub insert_at-eq-take-drop :
      (idx : ℕ) (v : T) (xs : List T)
      → idx ≤ length xs
      → insert_at idx v xs ≡ take idx xs ++ v ∷ drop idx xs
  unfolding insert_at shift_right
  insert_at-eq-take-drop idx v xs h = rw add-one (shifted idx v xs h)

module _ {ℓ} {T : Type ℓ} (cmp : Compare T) where
  ordered_insert-eq-take-drop :
      (idx : ℕ) (v : T) (xs : List T)
      → idx ≤ length xs
      → ((k : ℕ) → k < idx → goes_before cmp v xs k ≡ false)
      → goes_before cmp v xs idx ≡ true
      → ordered_insert cmp v xs ≡ take idx xs ++ v ∷ drop idx xs
  unfolding goes_before ordered_insert
  ordered_insert-eq-take-drop zero v [] le below here = refl
  ordered_insert-eq-take-drop zero v (x ∷ xs) le below here = rw here
  ordered_insert-eq-take-drop (suc i) v [] le below here = absurd (omega arith)
  ordered_insert-eq-take-drop (suc i) v (x ∷ xs) le below here = rw (below 0 (omega arith)) (
      ap (◌∷◌ x) (
        ordered_insert-eq-take-drop i v xs (omega arith) (λ k h. below (suc k) (omega arith)) here))

  goes_before_of_All :
      (v : T) (xs : List T) (n : ℕ)
      → All (λ y. is_lt (cmp v y) ≡ true) xs
      → goes_before cmp v xs n ≡ true
  unfolding goes_before
  goes_before_of_All v [] n a = refl
  goes_before_of_All v (x ∷ xs) zero a = a.0
  goes_before_of_All v (x ∷ xs) (suc n) a = goes_before_of_All v xs n a.1

  pub goes_before_end :
      (v : T) (xs : List T) (k : ℕ) → length xs ≤ k → goes_before cmp v xs k ≡ true
  unfolding goes_before
  goes_before_end v [] k h = refl
  goes_before_end v (x ∷ xs) zero h = absurd (omega arith)
  goes_before_end v (x ∷ xs) (suc k) h = goes_before_end v xs k (omega arith)

  module _ (order : WeakOrder cmp) where
    -- `v < x` and `x` not above `y` give `v < y`
    lt_of_lt_of_le :
        (v x y : T) → is_lt (cmp v x) ≡ true → is_lt (cmp y x) ≡ false → is_lt (cmp v y) ≡ true
    lt_of_lt_of_le v x y h k = elim (Bool-cases (is_lt (cmp v y))) [
      | inl t ↦ t
      | inr f ↦ cc (order.neg_trans x y v k f)
    ]

    goes_before-Monotone : (v : T) (xs : List T) → IsSorted cmp xs → Monotone (goes_before cmp v xs)
    unfolding goes_before
    goes_before-Monotone v [] s m n h t = refl
    goes_before-Monotone v (x ∷ xs) s zero zero h t = t
    goes_before-Monotone v (x ∷ xs) s zero (suc n) h t =
        goes_before_of_All v xs n (All-map xs (λ y e. lt_of_lt_of_le v x y t e) s.0)
    goes_before-Monotone v (x ∷ xs) s (suc m) zero h t = absurd (omega arith)
    goes_before-Monotone v (x ∷ xs) s (suc m) (suc n) h t =
        goes_before-Monotone v xs s.1 m n (omega arith) t

    -- Binary search, append, copy and write insert `v` in order into a sorted slice.
    pub insert_at-search :
        (v : T) (xs : List T)
        → IsSorted cmp xs
        → insert_at (search (length xs) (goes_before cmp v xs)) v xs ≡ ordered_insert cmp v xs
    insert_at-search v xs s =
        let (le, b) =
          search-Boundary (goes_before cmp v xs) (goes_before-Monotone v xs s) (length xs)
            (goes_before_end v xs) in
        insert_at-eq-take-drop _ v xs le
        ∙ sym (ordered_insert-eq-take-drop _ v xs le b.below (b.above _ (omega arith)))

    pub insert-eq-evicting_insert :
        (done : Bool) (v : T) (b : Buffer T)
        → b.closed ≡ false
        → IsSorted cmp b.contents
        → insert cmp done v b ≡ evicting_insert cmp done v b
    unfolding insert evicting_insert evict
    insert-eq-evicting_insert done v b o s = rw (o, insert_at-search v b.contents s)

    evicted-ideally :
        (done : Bool) (b : Buffer T) (xs : List T)
        → (let (evicted, kept) = evict b.max_buf_len xs in
            ◌≡◌ {A = Bool × Buffer T}
              (true, record b { contents = kept; sent = send done evicted b.sent })
              (if ltb b.max_buf_len (length xs)
                then (
                  true,
                  record b {
                    contents = drop 1 xs;
                    sent = if done then b.sent else b.sent ++ take 1 xs;
                  },
                )
                else (true, record b { contents = xs })))
    unfolding evict
    evicted-ideally done b [] = elim (Bool-cases (ltb b.max_buf_len 0)) [
      | inl over ↦ absurd (ground (arith, over))
      | inr fits ↦ rw fits refl
    ]
    evicted-ideally true b (x ∷ xs) = elim (Bool-cases (ltb b.max_buf_len (suc (length xs)))) [
      | inl over ↦ rw over refl
      | inr fits ↦ rw fits refl
    ]
    evicted-ideally false b (x ∷ xs) = elim (Bool-cases (ltb b.max_buf_len (suc (length xs)))) [
      | inl over ↦ rw over refl
      | inr fits ↦ rw fits refl
    ]

    -- By a weak order, `Insert` into an open buffer with a sorted slice returns true, and does what
    -- ordered insertion followed by the eviction of an overflowing head does: the slice, what is
    -- sent and every other field agree, whether or not the context ended.
    pub insert-eq-ideal_insert :
        (done : Bool) (v : T) (b : Buffer T)
        → b.closed ≡ false
        → IsSorted cmp b.contents
        → insert cmp done v b ≡ ideal_insert cmp done v b
    unfolding evicting_insert ideal_insert
    insert-eq-ideal_insert done v b o s =
        insert-eq-evicting_insert done v b o s
        ∙ evicted-ideally done b (ordered_insert cmp v b.contents)
