-- ===== src/Tableize.antt =====
-- purefn/tableize.go and purefn/tableize_dual.go: memo functions over the bounded table. `A` is the
-- type of the dynamic values (`any`); `stringer` is the `String()` of those that have it. An input
-- type of the source is a part of `A`, which a conversion to `any` and back leaves as it is. `none`
-- is a panic. `is_nil` holds for the nil of an interface that is the output type; the `Result` of two
-- outputs is a struct. One goroutine calls at a time.
pub mod Memo
pub mod Arity
mod Tests
use effect_ive_go.Base.{Bool, false, ℕ, Option, none, some, List, [], ◌∷◌, map, get_elem?}
use effect_ive_go.Trie.{Trie, ◌>>=◌, load, store, new_trie}

pub record Result (O1 O2 : Type 0) : Type 0 where
  pub o1 : O1
  pub o2 : O2

module _ {A : Type 0} (stringer : A → Option A) where
  unfoldable pub table_key : A → A
  table_key i = elim (stringer i) [ some text ↦ text | none ↦ i ]

  -- the loop that fills `keys`
  unfoldable pub table_keys : List A → List A
  unfolding table_key
  table_keys [] = []
  table_keys (a ∷ args) = table_key a ∷ table_keys args

module _ {A O : Type 0} where
  -- `pureFn(args[0].(I1))` and so on; an index out of range panics.
  unfoldable pub apply1 : (A → O) → List A → Option O
  apply1 f args = get_elem? args 0 >>= λ a. some (f a)

  unfoldable pub apply2 : (A → A → O) → List A → Option O
  apply2 f args = get_elem? args 0 >>= λ a. get_elem? args 1 >>= λ b. some (f a b)

  unfoldable pub apply3 : (A → A → A → O) → List A → Option O
  apply3 f args =
      get_elem? args 0 >>= λ a. get_elem? args 1 >>= λ b. get_elem? args 2 >>= λ c. some (f a b c)

  unfoldable pub apply4 : (A → A → A → A → O) → List A → Option O
  apply4 f args = get_elem? args 0 >>= λ a.
      get_elem? args 1 >>= λ b. get_elem? args 2 >>= λ c. get_elem? args 3 >>= λ d. some (f a b c d)

module _ {A O : Type 0} (stringer : A → Option A) (dec : Discrete A) (is_nil : O → Bool) where
  -- One call of the function that `tableize` returns; the closure's `memo` is the table.
  unfoldable pub tableize : (List A → Option O) → List A → Trie A O → Option (O × Trie A O)
  tableize pure_fn args memo =
      let keys = table_keys stringer args in
      load dec is_nil keys memo >>= λ loaded. elim loaded.0 [
        | some v ↦ some (v, loaded.1)
        | none ↦ pure_fn args >>= λ v. store dec keys v loaded.1 >>= λ memo'. some (v, memo')
      ]

  unfoldable pub tableize_i1_o1 : (A → O) → A → Trie A O → Option (O × Trie A O)
  unfolding apply1
  tableize_i1_o1 pure_fn i1 = tableize (apply1 pure_fn) (i1 ∷ [])

  unfoldable pub tableize_i2_o1 : (A → A → O) → A → A → Trie A O → Option (O × Trie A O)
  unfolding apply2
  tableize_i2_o1 pure_fn i1 i2 = tableize (apply2 pure_fn) (i1 ∷ i2 ∷ [])

  unfoldable pub tableize_i3_o1 : (A → A → A → O) → A → A → A → Trie A O → Option (O × Trie A O)
  unfolding apply3
  tableize_i3_o1 pure_fn i1 i2 i3 = tableize (apply3 pure_fn) (i1 ∷ i2 ∷ i3 ∷ [])

  unfoldable pub tableize_i4_o1 :
      (A → A → A → A → O) → A → A → A → A → Trie A O → Option (O × Trie A O)
  unfolding apply4
  tableize_i4_o1 pure_fn i1 i2 i3 i4 = tableize (apply4 pure_fn) (i1 ∷ i2 ∷ i3 ∷ i4 ∷ [])

module _ {A O1 O2 : Type 0} (stringer : A → Option A) (dec : Discrete A) where
  -- One call of the function that `tableize_dual_output` returns.
  unfoldable pub tableize_dual_output :
      (List A → Option (O1 × O2))
      → List A
      → Trie A (Result O1 O2)
      → Option ((O1 × O2) × Trie A (Result O1 O2))
  tableize_dual_output pure_fn args memo =
      let keys = table_keys stringer args in
      load dec (λ res. false) keys memo >>= λ loaded. elim loaded.0 [
        | some res ↦ some ((res.o1, res.o2), loaded.1)
        | none ↦ pure_fn args >>= λ v.
            let res : Result O1 O2 = record { o1 = v.0; o2 = v.1 } in
            store dec keys res loaded.1 >>= λ memo'. some ((res.o1, res.o2), memo')
      ]

  -- `TableizeI1O2` and its like: functions of a fixed arity with two results.
  unfoldable pub tableize_i1_o2 :
      (A → O1 × O2) → A → Trie A (Result O1 O2) → Option ((O1 × O2) × Trie A (Result O1 O2))
  unfolding apply1
  tableize_i1_o2 pure_fn i1 = tableize_dual_output (apply1 pure_fn) (i1 ∷ [])

  unfoldable pub tableize_i2_o2 :
      (A → A → O1 × O2) → A → A → Trie A (Result O1 O2) → Option ((O1 × O2) × Trie A (Result O1 O2))
  unfolding apply2
  tableize_i2_o2 pure_fn i1 i2 = tableize_dual_output (apply2 pure_fn) (i1 ∷ i2 ∷ [])

  unfoldable pub tableize_i3_o2 :
      (A → A → A → O1 × O2)
      → A
      → A
      → A
      → Trie A (Result O1 O2)
      → Option ((O1 × O2) × Trie A (Result O1 O2))
  unfolding apply3
  tableize_i3_o2 pure_fn i1 i2 i3 = tableize_dual_output (apply3 pure_fn) (i1 ∷ i2 ∷ i3 ∷ [])

  unfoldable pub tableize_i4_o2 :
      (A → A → A → A → O1 × O2)
      → A
      → A
      → A
      → A
      → Trie A (Result O1 O2)
      → Option ((O1 × O2) × Trie A (Result O1 O2))
  unfolding apply4
  tableize_i4_o2 pure_fn i1 i2 i3 i4 =
      tableize_dual_output (apply4 pure_fn) (i1 ∷ i2 ∷ i3 ∷ i4 ∷ [])
