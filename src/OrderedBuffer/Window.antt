-- ===== src/OrderedBuffer/Window.antt =====
-- What the buffer promises: nothing is lost, the slice stays sorted and bounded, and a stream whose
-- elements are late by at most the window comes out sorted.
use mathlib.Core.List.{append_assoc, append-nil, Perm, perm_middle}
use mathlib.Core.List.Perm
use effect_ive_go.Base.{
  ℕ, suc, ◌+◌, ◌≤◌, ◌<◌, ◌≡◌, refl, ap, inl, inr, true, false, none, some, List, [], ◌∷◌, ◌++◌,
  arith, length, ltb, Bool-cases, length-append, if◌then◌else◌, ◌⊎◌,
}
use effect_ive_go.OrderedBuffer.{Buffer, Compare, is_lt, evict, insert}
use effect_ive_go.OrderedBuffer.Order.{
  WeakOrder, All, All-map, IsSorted, ordered_insert, evicting_insert, insert-eq-evicting_insert,
}

module _ {ℓ} {T : Type ℓ} where
  -- Everything accepted so far: what was sent, then what is held.
  abbrev pub accepted : Buffer T → List T
  accepted b = b.sent ++ b.contents

  pub evict-cases :
      (max : ℕ) (xs : List T)
      → ((length xs ≤ max) × (evict max xs ≡ (none, xs)))
        ⊎ ((x : T) × (r : List T) × (xs ≡ x ∷ r) × (max ≤ length r) × (evict max xs ≡ (some x, r)))
  unfolding evict
  evict-cases max [] = inl (omega arith, refl)
  evict-cases max (x ∷ xs) = elim (Bool-cases (ltb max (suc (length xs)))) [
    | inl over ↦ inr (x, xs, refl, ground arith, rw over)
    | inr fits ↦ inl (ground arith, rw fits)
  ]

module _ {ℓ} {T : Type ℓ} (cmp : Compare T) where
  length-ordered_insert : (v : T) (xs : List T) → length (ordered_insert cmp v xs) ≡ suc (length xs)
  unfolding ordered_insert
  length-ordered_insert v [] = refl
  length-ordered_insert v (x ∷ xs) = ground (arith, length-ordered_insert v xs)

  ordered_insert-perm : (v : T) (xs : List T) → Perm (ordered_insert cmp v xs) (v ∷ xs)
  unfolding ordered_insert
  ordered_insert-perm v [] = Perm.refl _
  ordered_insert-perm v (x ∷ xs) = elim (Bool-cases (is_lt (cmp v x))) [
    | inl t ↦ rw t (Perm.refl _)
    | inr f ↦ rw f (Perm.trans (Perm.cons x (ordered_insert-perm v xs)) (Perm.swap v x xs))
  ]

  ordered_insert-All {κ} :
      (P : T → Type κ) (v : T) (xs : List T) → P v → All P xs → All P (ordered_insert cmp v xs)
  unfolding ordered_insert
  ordered_insert-All P v [] p a = (p, tt)
  ordered_insert-All P v (x ∷ xs) p a = elim (Bool-cases (is_lt (cmp v x))) [
    | inl t ↦ rw t (p, a)
    | inr f ↦ rw f (a.0, ordered_insert-All P v xs p a.1)
  ]

  -- How many of the elements `v` should come before.
  unfoldable pub count_above : T → List T → ℕ
  count_above v [] = 0
  count_above v (x ∷ xs) = (if is_lt (cmp v x) then 1 else 0) + count_above v xs

  count_above-append :
      (v : T) (xs ys : List T) → count_above v (xs ++ ys) ≡ count_above v xs + count_above v ys
  unfolding count_above
  count_above-append v [] ys = omega arith
  count_above-append v (x ∷ xs) ys = ground (arith, count_above-append v xs ys)

  count_above-ordered_insert :
      (u v : T) (xs : List T)
      → count_above u (ordered_insert cmp v xs) ≡ count_above u xs + count_above u (v ∷ [])
  unfolding count_above ordered_insert
  count_above-ordered_insert u v [] = omega arith
  count_above-ordered_insert u v (x ∷ xs) = elim (Bool-cases (is_lt (cmp v x))) [
    | inl t ↦ rw t (omega arith)
    | inr f ↦ rw f (omega (arith, count_above-ordered_insert u v xs))
  ]

  count_above-All :
      (v : T) (xs : List T) → All (λ y. is_lt (cmp v y) ≡ true) xs → count_above v xs ≡ length xs
  unfolding count_above
  count_above-All v [] a = refl
  count_above-All v (x ∷ xs) a = rw a.0 (omega (arith, count_above-All v xs a.1))

module _ {ℓ} {T : Type ℓ} (cmp : Compare T) (order : WeakOrder cmp) where
  le_of_lt_of_le :
      (v x y : T) → is_lt (cmp v x) ≡ true → is_lt (cmp y x) ≡ false → is_lt (cmp y v) ≡ false
  le_of_lt_of_le v x y h k = order.neg_trans v x y (order.asym v x h) k

  lt_of_lt_of_le :
      (v x y : T) → is_lt (cmp v x) ≡ true → is_lt (cmp y x) ≡ false → is_lt (cmp v y) ≡ true
  lt_of_lt_of_le v x y h k = elim (Bool-cases (is_lt (cmp v y))) [
    | inl t ↦ t
    | inr f ↦ cc (order.neg_trans x y v k f)
  ]

  pub ordered_insert-IsSorted :
      (v : T) (xs : List T) → IsSorted cmp xs → IsSorted cmp (ordered_insert cmp v xs)
  unfolding ordered_insert
  ordered_insert-IsSorted v [] s = (tt, tt)
  ordered_insert-IsSorted v (x ∷ xs) s = elim (Bool-cases (is_lt (cmp v x))) [
    | inl t ↦ rw t ((order.asym v x t, All-map xs (λ y k. le_of_lt_of_le v x y t k) s.0), s)
    | inr f ↦ rw f (
      ordered_insert-All cmp (λ y. is_lt (cmp y x) ≡ false) v xs f s.0,
      ordered_insert-IsSorted v xs s.1,
    )
  ]

  All-append_ordered_insert {κ} :
      (P : T → Type κ) (v : T) (ys xs : List T)
      → P v
      → All P (ys ++ xs)
      → All P (ys ++ ordered_insert cmp v xs)
  All-append_ordered_insert P v [] xs p a = ordered_insert-All cmp P v xs p a
  All-append_ordered_insert P v (y ∷ ys) xs p a = (a.0, All-append_ordered_insert P v ys xs p a.1)

  -- What is not less than anything sent may still be inserted behind it.
  append_ordered_insert-IsSorted :
      (v : T) (ys xs : List T)
      → All (λ y. is_lt (cmp v y) ≡ false) ys
      → IsSorted cmp (ys ++ xs)
      → IsSorted cmp (ys ++ ordered_insert cmp v xs)
  append_ordered_insert-IsSorted v [] xs a s = ordered_insert-IsSorted v xs s
  append_ordered_insert-IsSorted v (y ∷ ys) xs a s = (
    All-append_ordered_insert (λ z. is_lt (cmp z y) ≡ false) v ys xs a.0 s.0,
    append_ordered_insert-IsSorted v ys xs a.1 s.1,
  )

  -- If `v` should come before something sent, it should come before all that is held.
  late-cases :
      (v : T) (ys xs : List T)
      → IsSorted cmp (ys ++ xs)
      → All (λ y. is_lt (cmp v y) ≡ false) ys
        ⊎ ((length xs < count_above cmp v (ys ++ xs)) × (0 < length ys))
  unfolding count_above
  late-cases v [] xs s = inl tt
  late-cases v (y ∷ ys) xs s = elim (Bool-cases (is_lt (cmp v y))) [
    | inl t ↦ inr (
      rw t (
          omega (
            arith,
            count_above-All cmp v (ys ++ xs)
                (All-map (ys ++ xs) (λ z k. lt_of_lt_of_le v y z t k) s.0),
            length-append ys xs,
          )),
      omega arith,
    )
    | inr f ↦ elim (late-cases v ys xs s.1) [
      | inl a ↦ inl (f, a)
      | inr h ↦ inr (omega (arith, h.0), omega arith)
    ]
  ]

  -- The buffer after `earlier` has been inserted into one with window `n`.
  pub record Tracks (n : ℕ) (earlier : List T) (b : Buffer T) : Type ℓ where
    pub is_open : b.closed ≡ false
    pub window : b.max_buf_len ≡ n
    pub sorted : IsSorted cmp (accepted b)
    pub bounded : length b.contents ≤ n
    pub full : (length b.sent ≡ 0) ⊎ (length b.contents ≡ n)
    pub counts : (u : T) → count_above cmp u (accepted b) ≡ count_above cmp u earlier
    pub same : Perm (accepted b) earlier

  IsSorted-append_right : (ys xs : List T) → IsSorted cmp (ys ++ xs) → IsSorted cmp xs
  IsSorted-append_right [] xs s = s
  IsSorted-append_right (y ∷ ys) xs s = IsSorted-append_right ys xs s.1

  module _ (n : ℕ) (earlier : List T) (v : T) (b : Buffer T) (t : Tracks n earlier b) where
    abbrev inserted : List T
    inserted = ordered_insert cmp v b.contents

    inserted-perm : Perm (b.sent ++ inserted) (earlier ++ v ∷ [])
    inserted-perm =
        Perm.trans (Perm.append (Perm.refl b.sent) (ordered_insert-perm cmp v b.contents)) (
          Perm.trans (perm_middle b.sent b.contents) (
            Perm.trans (Perm.cons v t.same)
              (Perm.symm (Perm.trans (perm_middle earlier []) (rw append-nil (Perm.refl _))))))

    inserted-counts :
        (u : T) → count_above cmp u (b.sent ++ inserted) ≡ count_above cmp u (earlier ++ v ∷ [])
    inserted-counts u = omega (
      arith,
      count_above-append cmp u b.sent inserted,
      count_above-append cmp u b.sent b.contents,
      count_above-append cmp u earlier (v ∷ []),
      count_above-ordered_insert cmp u v b.contents,
      t.counts u,
    )

    inserted-IsSorted : count_above cmp v earlier ≤ n → IsSorted cmp (b.sent ++ inserted)
    inserted-IsSorted late = elim (late-cases v b.sent b.contents t.sorted) [
      | inl a ↦ append_ordered_insert-IsSorted v b.sent b.contents a t.sorted
      | inr (many, some_sent) ↦ absurd (omega (arith, t.counts v, t.full))
    ]

    Tracks-evicting_insert :
        count_above cmp v earlier ≤ n
        → Tracks n (earlier ++ v ∷ []) (evicting_insert cmp false v b).1
    unfolding evicting_insert
    Tracks-evicting_insert late = elim (evict-cases b.max_buf_len inserted) [
      | inl (fits, e) ↦ rw e (record {
        is_open = t.is_open;
        window = t.window;
        sorted = inserted-IsSorted late;
        bounded = omega (arith, fits, t.window);
        full = omega (arith, fits, t.window, t.full, length-ordered_insert cmp v b.contents);
        counts = inserted-counts;
        same = inserted-perm;
      })
      | inr (x, r, e, over, ev) ↦
          let whole : (b.sent ++ x ∷ []) ++ r ≡ b.sent ++ inserted = rw (append_assoc, ← e) refl in
          rw ev (record {
            is_open = t.is_open;
            window = t.window;
            sorted = rw whole (inserted-IsSorted late);
            bounded = omega (arith, ap length e, t.bounded, length-ordered_insert cmp v b.contents);
            full = inr (
                omega (
                  arith,
                  ap length e,
                  over,
                  t.window,
                  t.bounded,
                  length-ordered_insert cmp v b.contents,
                ));
            counts = λ u. rw whole (inserted-counts u);
            same = rw whole inserted-perm;
          })
    ]

    pub Tracks-insert :
        count_above cmp v earlier ≤ n → Tracks n (earlier ++ v ∷ []) (insert cmp false v b).1
    Tracks-insert late =
        rw
          (insert-eq-evicting_insert cmp order false v b t.is_open
            (IsSorted-append_right b.sent b.contents t.sorted))
          (Tracks-evicting_insert late)
