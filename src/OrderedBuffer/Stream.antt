-- ===== src/OrderedBuffer/Stream.antt =====
-- `OrderByEffect` on a whole stream: every element comes out once, and in order if none is late by
-- more than the window.
use mathlib.Core.List.{append_assoc, append-nil, Perm, perm_middle}
use mathlib.Core.List.Perm
use effect_ive_go.Base.{
  ℕ, zero, suc, ◌+◌, ◌/◌, ◌≤◌, ◌≡◌, refl, ap, ◌∙◌, inl, inr, Bool, true, false, List, [], ◌∷◌, ◌++◌,
  arith, length, take, drop,
}
use effect_ive_go.OrderedBuffer.{
  Buffer, Compare, evict, search, search_loop, goes_before, insert_at, insert, insert_all, flush,
  close, order_by, forward, living, new_ordered_bounded_buffer,
}
use effect_ive_go.OrderedBuffer.Order.{WeakOrder, IsSorted, insert_at-eq-take-drop}
use effect_ive_go.OrderedBuffer.Window.{accepted, count_above, evict-cases, Tracks, Tracks-insert}

search_loop-le : (f : ℕ → Bool) (fuel i j : ℕ) → i ≤ j → search_loop fuel f i j ≤ j
unfolding search_loop
search_loop-le f zero i j h = h
search_loop-le f (suc fuel) i j h =
    ground (arith, search_loop-le f fuel ((i + j) / 2 + 1) j, search_loop-le f fuel i ((i + j) / 2))

pub search-le : (f : ℕ → Bool) (n : ℕ) → search n f ≤ n
unfolding search
search-le f n = search_loop-le f n 0 n (omega arith)

module _ {ℓ} {T : Type ℓ} where
  take-drop-perm : (n : ℕ) (v : T) (xs : List T) → Perm (take n xs ++ v ∷ drop n xs) (v ∷ xs)
  take-drop-perm zero v xs = Perm.refl _
  take-drop-perm (suc n) v [] = Perm.refl _
  take-drop-perm (suc n) v (x ∷ xs) =
      Perm.trans (Perm.cons x (take-drop-perm n v xs)) (Perm.swap v x xs)

  pub insert_at-perm :
      (n : ℕ) (v : T) (xs : List T) → n ≤ length xs → Perm (insert_at n v xs) (v ∷ xs)
  insert_at-perm n v xs h = rw (insert_at-eq-take-drop n v xs h) (take-drop-perm n v xs)

  length-insert_at :
      (n : ℕ) (v : T) (xs : List T) → n ≤ length xs → length (insert_at n v xs) ≡ suc (length xs)
  length-insert_at n v xs h = rw (insert_at-eq-take-drop n v xs h) (length-take_drop n xs h)
    where
      length-take_drop :
          (n : ℕ) (xs : List T)
          → n ≤ length xs
          → length (take n xs ++ v ∷ drop n xs) ≡ suc (length xs)
      length-take_drop zero xs h = refl
      length-take_drop (suc n) [] h = absurd (omega arith)
      length-take_drop (suc n) (x ∷ xs) h = ap suc (length-take_drop n xs (omega arith))

  -- One `Insert`, by whatever comparison.
  pub record Inserted (v : T) (b c : Buffer T) : Type ℓ where
    pub same : Perm (accepted c) (v ∷ accepted b)
    pub bounded : length c.contents ≤ c.max_buf_len
    pub window : c.max_buf_len ≡ b.max_buf_len
    pub closed : c.closed ≡ b.closed

  -- `Insert` into an open buffer, by any comparison at all and while the context lives, returns
  -- true; the elements sent and held are those from before and the new one, each as often; and at
  -- most `maxBufLen` elements are held, as it is supposed that no more were before.
  pub insert-Inserted :
      (cmp : Compare T) (v : T) (b : Buffer T)
      → b.closed ≡ false
      → length b.contents ≤ b.max_buf_len
      → ((insert cmp false v b).0 ≡ true) × Inserted v b (insert cmp false v b).1
  unfolding insert
  insert-Inserted cmp v b o h =
      let idx = search (length b.contents) (goes_before cmp v b.contents) in
      let le : idx ≤ length b.contents = search-le _ (length b.contents) in
      let grown =
        Perm.trans (Perm.append (Perm.refl b.sent) (insert_at-perm idx v b.contents le))
          (perm_middle b.sent b.contents) in
      rw o (elim (evict-cases b.max_buf_len (insert_at idx v b.contents)) [
        | inl (fits, e) ↦
            rw (e, evict)
              (refl, record { same = grown; bounded = fits; window = refl; closed = refl })
        | inr (x, r, e, over, ev) ↦
            let whole : (b.sent ++ x ∷ []) ++ r ≡ b.sent ++ insert_at idx v b.contents =
              rw (append_assoc, ← e) refl in
            rw (ev, evict)
              (
                refl,
                record {
                  same = rw whole grown;
                  bounded = omega (arith, ap length e, length-insert_at idx v b.contents le);
                  window = refl;
                  closed = refl;
                },
              )
      ])

  insert_all-Inserted :
      (cmp : Compare T) (vs earlier : List T) (b : Buffer T)
      → b.closed ≡ false
      → Perm (accepted b) earlier
      → length b.contents ≤ b.max_buf_len
      → Perm (accepted (insert_all cmp (λ i. false) vs b)) (earlier ++ vs)
        × (length (insert_all cmp (λ i. false) vs b).contents ≤ b.max_buf_len)
        × ((insert_all cmp (λ i. false) vs b).closed ≡ false)
  unfolding insert_all
  insert_all-Inserted cmp [] earlier b o p l = (rw append-nil p, l, o)
  insert_all-Inserted cmp (v ∷ vs) earlier b o p l =
      let (_, i) = insert-Inserted cmp v b o l in
      let c = (insert cmp false v b).1 in
      let (same, bounded, open_) =
        insert_all-Inserted cmp vs (earlier ++ v ∷ []) c (i.closed ∙ o)
          (Perm.trans i.same (
            Perm.trans (Perm.cons v p)
              (Perm.symm (Perm.trans (perm_middle earlier []) (rw append-nil (Perm.refl _))))))
          (i.bounded) in
      (rw append_assoc at same, omega (arith, bounded, i.window), open_)

  forward-living : (xs : List T) → forward (λ i. false) xs ≡ xs
  unfolding forward
  forward-living [] = refl
  forward-living (x ∷ xs) = ap (◌∷◌ x) (forward-living xs)

  -- For any window and any comparison, `OrderByEffect` on a source that is closed after `source`
  -- closes the sink, and the sink receives the elements of `source`, each as often as it stood
  -- there.
  pub order_by-perm :
      (n : ℕ) (cmp : Compare T) (source : List T)
      → Perm (order_by n cmp living source).0 source × ((order_by n cmp living source).1 ≡ true)
  unfolding order_by new_ordered_bounded_buffer close flush
  order_by-perm n cmp source =
      let (same, _, open_) =
        insert_all-Inserted cmp source [] (new_ordered_bounded_buffer n) refl (Perm.refl [])
          (omega arith) in
      rw (open_, close, flush, forward-living) (same, refl)

-- Each element is preceded by at most `n` elements that should come after it.
abbrev pub IsTimely {ℓ} : {T : Type ℓ} → Compare T → ℕ → List T → List T → Type 0
IsTimely cmp n earlier [] = Unit
IsTimely cmp n earlier (v ∷ vs) =
    (count_above cmp v earlier ≤ n) × IsTimely cmp n (earlier ++ v ∷ []) vs

module _ {ℓ} {T : Type ℓ} (cmp : Compare T) (order : WeakOrder cmp) where
  insert_all-Tracks :
      (n : ℕ) (vs earlier : List T) (b : Buffer T)
      → IsTimely cmp n earlier vs
      → Tracks cmp order n earlier b
      → Tracks cmp order n (earlier ++ vs) (insert_all cmp (λ i. false) vs b)
  unfolding insert_all
  insert_all-Tracks n [] earlier b timely t = rw append-nil t
  insert_all-Tracks n (v ∷ vs) earlier b timely t =
      let rest =
        insert_all-Tracks n vs (earlier ++ v ∷ []) (insert cmp false v b).1 timely.1
          (Tracks-insert cmp order n earlier v b t timely.0) in
      rw append_assoc at rest

  -- If the comparison is a weak order and each element of the source is preceded there by at most
  -- `n` elements that should come after it, then the sink of `OrderByEffect` with window size `n`
  -- receives a sorted sequence.
  pub order_by-IsSorted :
      (n : ℕ) (source : List T)
      → IsTimely cmp n [] source
      → IsSorted cmp (order_by n cmp living source).0
  unfolding order_by new_ordered_bounded_buffer close flush
  order_by-IsSorted n source timely =
      let t = insert_all-Tracks n source [] (new_ordered_bounded_buffer n) timely (record {
        is_open = refl;
        window = refl;
        sorted = tt;
        bounded = omega arith;
        full = inl refl;
        counts = λ u. refl;
        same = Perm.refl [];
      }) in
      rw (t.is_open, close, flush, forward-living) t.sorted
