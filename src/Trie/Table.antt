-- ===== src/Trie/Table.antt =====
-- `Trie` as a map from key lists of one length to results, with the rotation that forgets.
use effect_ive_go.Base.{
  Bool, ℕ, zero, suc, ◌+◌, ◌-◌, ◌%◌, ◌^◌, ◌≤◌, ◌<◌, ◌≡◌, refl, ap, ◌∙◌, inl, inr, ◌⊎◌, Option,
  Bool-cases, none, some, List, arith, length, ◌==◌, if◌then◌else◌,
}
use effect_ive_go.Trie.{
  Node, Entries, empty, Trie, ◌>>=◌, value, asserted, load_from, memo, set_memo, new_trie, load,
  rotate, store,
}
use effect_ive_go.Trie.Maps.{find, IsUniform, find-empty, IsUniform-empty}
use effect_ive_go.Trie.Walk.{Loaded, load_from-Loaded, store_in-Stored}

List-discrete {ℓ} : {A : Type ℓ} → Discrete A → Discrete (List A)
List-discrete dec = hlevel dec

module _ {K O : Type 0} (dec : Discrete K) where
  -- All keys have `n + 1` parts; the map that is not the head holds no value; the counter stays
  -- within `maxSize`.
  pub record IsValid (n : ℕ) (t : Trie K O) : Type 0 where
    pub head_in : t.head_idx ≤ 1
    pub uniform0 : IsUniform dec n t.memo0
    pub uniform1 : IsUniform dec n t.memo1
    pub stale : (q : List K) → find dec q (memo t (1 - t.head_idx)) ≡ none
    pub positive : 0 < t.max_size
    pub word : t.max_size < 2 ^ 32
    pub size_in : t.size ≤ t.max_size

  -- What the table answers.
  abbrev pub lookup : List K → Trie K O → Option O
  lookup q t = find dec q (memo t t.head_idx)

  IsUniform-memo : {n : ℕ} {t : Trie K O} → IsValid n t → (i : ℕ) → IsUniform dec n (memo t i)
  IsUniform-memo v i = elim (Bool-cases (i == 0)) [
    | inl e ↦ rw e v.uniform0
    | inr e ↦ rw e v.uniform1
  ]

  -- A load leaves every answer as it was, and the state valid.
  pub record LoadKeeps (n : ℕ) (t t' : Trie K O) : Type 0 where
    pub valid : IsValid n t'
    pub answers : (q : List K) → lookup q t' ≡ lookup q t
    pub size : t'.size ≡ t.size
    pub max_size : t'.max_size ≡ t.max_size

  -- The map `i` of the two, walked through by a read.
  set_memo-LoadKeeps :
      (n i : ℕ) (t : Trie K O) (m : Entries K O)
      → i ≤ 1
      → IsValid n t
      → IsUniform dec n m
      → ((q : List K) → find dec q m ≡ find dec q (memo t i))
      → LoadKeeps n t (set_memo t i m)
  set_memo-LoadKeeps n zero t m h v u k = record {
    valid = record {
      head_in = v.head_in;
      uniform0 = u;
      uniform1 = v.uniform1;
      stale = λ q. ground (arith, k q, v.stale q, v.head_in);
      positive = v.positive;
      word = v.word;
      size_in = v.size_in;
    };
    answers = λ q. ground (arith, k q, v.head_in);
    size = refl;
    max_size = refl;
  }
  set_memo-LoadKeeps n (suc zero) t m h v u k = record {
    valid = record {
      head_in = v.head_in;
      uniform0 = v.uniform0;
      uniform1 = u;
      stale = λ q. ground (arith, k q, v.stale q, v.head_in);
      positive = v.positive;
      word = v.word;
      size_in = v.size_in;
    };
    answers = λ q. ground (arith, k q, v.head_in);
    size = refl;
    max_size = refl;
  }
  set_memo-LoadKeeps n (suc (suc i)) t m h v u k = absurd (omega arith)

  LoadKeeps-trans : {n : ℕ} {t u w : Trie K O} → LoadKeeps n t u → LoadKeeps n u w → LoadKeeps n t w
  LoadKeeps-trans a b = record {
    valid = b.valid;
    answers = λ q. b.answers q ∙ a.answers q;
    size = b.size ∙ a.size;
    max_size = b.max_size ∙ a.max_size;
  }

  module _ (n : ℕ) (keys : List K) (l : length keys ≡ suc n) where
    walk : (t : Trie K O) (i : ℕ) → IsValid n t → Loaded dec n keys (memo t i)
    walk t i v = load_from-Loaded dec n keys (memo t i) l (IsUniform-memo v i)

    walk-LoadKeeps :
        (t : Trie K O) (i : ℕ) (v : IsValid n t)
        → i ≤ 1
        → LoadKeeps n t (set_memo t i (walk t i v).after)
    walk-LoadKeeps t i v h =
        set_memo-LoadKeeps n i t (walk t i v).after h v (walk t i v).uniform (walk t i v).kept

    load_after :
        (is_nil : O → Bool) (t : Trie K O) (found : Option (Node K O)) (after : Entries K O)
        → load_from dec keys (memo t t.head_idx) ≡ some (found, after)
        → value found ≡ some (lookup keys t)
        → asserted is_nil (lookup keys t) ≡ some (lookup keys t)
        → LoadKeeps n t (set_memo t t.head_idx after)
        → (t' : Trie K O) × (load dec is_nil keys t ≡ some (lookup keys t, t')) × LoadKeeps n t t'
    unfolding load
    load_after is_nil t (some node) after e is_value no_nil k =
        (set_memo t t.head_idx after, rw (e, ◌>>=◌, is_value, no_nil) refl, k)
    load_after is_nil t none after e is_value no_nil k =
        let t1 = set_memo t t.head_idx after in
        let second = walk t1 (1 - t1.head_idx) k.valid in
        let nothing : value second.found ≡ some (lookup keys t) =
          second.is_value ∙ ap some (k.valid.stale keys) ∙ is_value in
        (
          set_memo t1 (1 - t1.head_idx) second.after,
          rw (e, ◌>>=◌, second.returns, nothing, no_nil) refl,
          LoadKeeps-trans k (walk-LoadKeeps t1 (1 - t1.head_idx) k.valid (omega arith)),
        )

    -- `Load` of keys of the right number in a valid table does not panic, unless the table answers
    -- with a nil: it returns what the table answers, and the table stays valid, with every answer
    -- and the counter as they were.
    pub load-LoadKeeps :
        (is_nil : O → Bool) (t : Trie K O)
        → IsValid n t
        → asserted is_nil (lookup keys t) ≡ some (lookup keys t)
        → (t' : Trie K O) × (load dec is_nil keys t ≡ some (lookup keys t, t')) × LoadKeeps n t t'
    load-LoadKeeps is_nil t v no_nil =
        let first = walk t t.head_idx v in
        load_after is_nil t first.found first.after first.returns first.is_value no_nil
          (walk-LoadKeeps t t.head_idx v v.head_in)

  -- The table after the rotation of `Store`, with room in the counter.
  pub record Rotated (n : ℕ) (t t' : Trie K O) : Type 0 where
    pub valid : IsValid n t'
    pub answers : (q : List K) → lookup q t' ≡ (if t.size == t.max_size then none else lookup q t)
    pub counter : t'.size ≡ (if t.size == t.max_size then 0 else t.size)
    pub max_size : t'.max_size ≡ t.max_size

  clear_head :
      (n i : ℕ) (t : Trie K O)
      → t.head_idx ≡ i
      → i ≤ 1
      → IsValid n t
      → IsValid n (record (set_memo t i empty) { size = 0; head_idx = 1 - i })
        × ((q : List K)
            → lookup q (record (set_memo t i empty) { size = 0; head_idx = 1 - i }) ≡ none)
  clear_head n zero t e h v = (
    record {
      head_in = omega arith;
      uniform0 = IsUniform-empty O dec n;
      uniform1 = v.uniform1;
      stale = find-empty dec;
      positive = v.positive;
      word = v.word;
      size_in = omega arith;
    },
    λ q. ground (arith, v.stale q),
  )
  clear_head n (suc zero) t e h v = (
    record {
      head_in = omega arith;
      uniform0 = v.uniform0;
      uniform1 = IsUniform-empty O dec n;
      stale = find-empty dec;
      positive = v.positive;
      word = v.word;
      size_in = omega arith;
    },
    λ q. ground (arith, v.stale q),
  )
  clear_head n (suc (suc i)) t e h v = absurd (omega arith)

  rotate-Rotated : (n : ℕ) (t : Trie K O) → IsValid n t → Rotated n t (rotate t)
  unfolding rotate
  rotate-Rotated n t v = elim (Bool-cases (t.size == t.max_size)) [
    | inl full ↦
        let (valid, gone) = clear_head n t.head_idx t refl v.head_in v in
        simp full (record {
          valid = valid;
          answers = λ q. rw full (gone q);
          counter = rw full;
          max_size = ground arith;
        })
    | inr room ↦
        simp room (record { valid = v; answers = λ q. rw room; counter = rw room; max_size = refl })
  ]

  -- What `Store` does to a table.
  pub record StoreDoes (n : ℕ) (keys : List K) (result : O) (t t' : Trie K O) : Type 0 where
    pub valid : IsValid n t'
    pub here : lookup keys t' ≡ some result
    pub elsewhere :
        (q : List K)
        → (q ≡ keys) ⊎ (lookup q t' ≡ (if t.size == t.max_size then none else lookup q t))
    pub counter : t'.size ≡ (if t.size == t.max_size then 0 else t.size) + 1
    pub max_size : t'.max_size ≡ t.max_size

  -- A write at the head map of a table with room.
  set_head :
      (n i : ℕ) (t : Trie K O) (m : Entries K O)
      → t.head_idx ≡ i
      → i ≤ 1
      → IsValid n t
      → IsUniform dec n m
      → (s : ℕ) → s ≤ t.max_size
      → IsValid n (record (set_memo t i m) { size = s })
        × ((q : List K) → lookup q (record (set_memo t i m) { size = s }) ≡ find dec q m)
  set_head n zero t m e h v u s le = (
    record {
      head_in = v.head_in;
      uniform0 = u;
      uniform1 = v.uniform1;
      stale = λ q. ground (arith, v.stale q);
      positive = v.positive;
      word = v.word;
      size_in = le;
    },
    λ q. ground arith,
  )
  set_head n (suc zero) t m e h v u s le = (
    record {
      head_in = v.head_in;
      uniform0 = v.uniform0;
      uniform1 = u;
      stale = λ q. ground (arith, v.stale q);
      positive = v.positive;
      word = v.word;
      size_in = le;
    },
    λ q. ground arith,
  )
  set_head n (suc (suc i)) t m e h v u s le = absurd (omega arith)

  -- `Store` under keys of the right number in a valid table does not panic and keeps the table
  -- valid. The result is then found under the keys; of the rest, a table that had counted `maxSize`
  -- stores forgets everything, and any other table nothing. The counter restarts or advances by
  -- one, without wrapping.
  pub store-StoreDoes :
      (n : ℕ) (keys : List K) (result : O) (t : Trie K O)
      → length keys ≡ suc n
      → IsValid n t
      → (t' : Trie K O) × (store dec keys result t ≡ some t') × StoreDoes n keys result t t'
  unfolding store
  store-StoreDoes n keys result t l v =
      let r = rotate-Rotated n t v in
      let t1 = rotate t in
      let w =
        store_in-Stored dec n result keys (memo t1 t1.head_idx) l
          (IsUniform-memo r.valid t1.head_idx) in
      let room : t1.size + 1 ≤ t1.max_size = ground (arith, r.counter, r.max_size) in
      let (valid, answers) =
        set_head n t1.head_idx t1 w.after refl r.valid.head_in r.valid w.uniform
          ((t1.size + 1) % 2 ^ 32) (omega (arith, r.valid.word)) in
      (
        record (set_memo t1 t1.head_idx w.after) { size = (t1.size + 1) % 2 ^ 32 },
        rw (w.returns, ◌>>=◌) refl,
        record {
          valid = valid;
          here = answers keys ∙ w.here;
          elsewhere = λ q. elim (List-discrete dec q keys) [
            | yes same ↦ inl same
            | no ne ↦ inr (answers q ∙ w.elsewhere q ne ∙ r.answers q)
          ];
          counter = omega (arith, r.counter, r.valid.word);
          max_size = (ground arith) ∙ r.max_size;
        },
      )

  -- `NewTrie` panics at size 0, and otherwise gives a valid table that answers nothing.
  pub new_trie-IsValid :
      (n max : ℕ)
      → max < 2 ^ 32
      → ((max ≡ 0) × (new_trie {K = K} {O = O} max ≡ none))
        ⊎ ((t : Trie K O) × (new_trie max ≡ some t)
            × IsValid n t
            × (t.max_size ≡ max)
            × ((q : List K) → lookup q t ≡ none))
  unfolding new_trie
  new_trie-IsValid n max h = elim (Bool-cases (max == 0)) [
    | inl e ↦ inl (ground arith, rw e)
    | inr e ↦ inr (
      record { memo0 = empty; memo1 = empty; head_idx = 0; size = 0; max_size = max },
      rw e,
      record {
        head_in = omega arith;
        uniform0 = IsUniform-empty O dec n;
        uniform1 = IsUniform-empty O dec n;
        stale = find-empty dec;
        positive = ground arith;
        word = h;
        size_in = omega arith;
      },
      refl,
      find-empty dec,
    )
  ]
