-- ===== src/Tableize/Arity.antt =====
-- The typed wrappers `TableizeI1O1` to `TableizeI4O1`, and the dual-output memo function.
use effect_ive_go.Base.{
  Bool, false, ℕ, ◌≡◌, refl, ap, ◌∙◌, Option, some, List, [], ◌∷◌, length, arith,
}
use effect_ive_go.Trie.{Trie, ◌>>=◌}
use effect_ive_go.Tableize.{
  Result, apply1, apply2, apply3, apply4, tableize, tableize_i1_o1, tableize_i2_o1, tableize_i3_o1,
  tableize_i4_o1, tableize_dual_output,
}
use effect_ive_go.Tableize.Memo.{Pure, Memo, call-Called}

module _ {A O : Type 0} where
  pub apply2-total :
      (f : A → A → O) (args : List A) → length args ≡ 2 → (v : O) × (apply2 f args ≡ some v)
  unfolding apply2
  apply2-total f [] l = absurd (omega arith)
  apply2-total f (a ∷ []) l = absurd (omega arith)
  apply2-total f (a ∷ b ∷ []) l = (f a b, refl)
  apply2-total f (a ∷ b ∷ c ∷ args) l = absurd (omega arith)

module _ {A O : Type 0} (stringer : A → Option A) (dec : Discrete A) (is_nil : O → Bool) where
  -- A call that answers `v` and leaves a table that is right for the function.
  abbrev pub Answers :
      (List A → Type 0) → (n : ℕ) → (List A → Option O) → O → Option (O × Trie A O) → Type 0
  Answers dom n pure_fn v r =
      (t : Trie A O) × (r ≡ some (v, t)) × Memo stringer dec is_nil dom n pure_fn t

  Answers-of :
      (dom : List A → Type 0) (n : ℕ) (pure_fn : List A → Option O) (args : List A) (v : O)
      (t : Trie A O)
      → Pure stringer dec is_nil dom n pure_fn
      → dom args
      → pure_fn args ≡ some v
      → Memo stringer dec is_nil dom n pure_fn t
      → Answers dom n pure_fn v (tableize stringer dec is_nil pure_fn args t)
  Answers-of dom n pure_fn args v t p l e m =
      let c = call-Called stringer dec is_nil dom n pure_fn p args t l m in
      let same : c.result ≡ v = ground (arith, c.is_result) in
      (c.memo, c.returns ∙ ap (λ (w : O). some (w, c.memo)) same, c.keeps)

  -- `TableizeI1O1` for a function whose results the keys of its inputs determine on a domain, called
  -- there on a table that is right for it: it does not panic, returns what the function returns, and leaves such a
  -- table.
  pub tableize_i1_o1-Answers :
      (dom : List A → Type 0) (f : A → O) (a : A) (t : Trie A O)
      → Pure stringer dec is_nil dom 0 (apply1 f)
      → dom (a ∷ [])
      → Memo stringer dec is_nil dom 0 (apply1 f) t
      → Answers dom 0 (apply1 f) (f a) (tableize_i1_o1 stringer dec is_nil f a t)
  unfolding apply1 tableize_i1_o1
  tableize_i1_o1-Answers dom f a t p i m = Answers-of dom 0 (apply1 f) (a ∷ []) (f a) t p i refl m

  -- `TableizeI2O1` for a function whose results the keys of its inputs determine on a domain, called
  -- there on a table that is right for it: it does not panic, returns what the function returns, and leaves such a
  -- table.
  pub tableize_i2_o1-Answers :
      (dom : List A → Type 0) (f : A → A → O) (a b : A) (t : Trie A O)
      → Pure stringer dec is_nil dom 1 (apply2 f)
      → dom (a ∷ b ∷ [])
      → Memo stringer dec is_nil dom 1 (apply2 f) t
      → Answers dom 1 (apply2 f) (f a b) (tableize_i2_o1 stringer dec is_nil f a b t)
  unfolding apply2 tableize_i2_o1
  tableize_i2_o1-Answers dom f a b t p i m =
      Answers-of dom 1 (apply2 f) (a ∷ b ∷ []) (f a b) t p i refl m

  -- `TableizeI3O1` for a function whose results the keys of its inputs determine on a domain, called
  -- there on a table that is right for it: it does not panic, returns what the function returns, and leaves such a
  -- table.
  pub tableize_i3_o1-Answers :
      (dom : List A → Type 0) (f : A → A → A → O) (a b c : A) (t : Trie A O)
      → Pure stringer dec is_nil dom 2 (apply3 f)
      → dom (a ∷ b ∷ c ∷ [])
      → Memo stringer dec is_nil dom 2 (apply3 f) t
      → Answers dom 2 (apply3 f) (f a b c) (tableize_i3_o1 stringer dec is_nil f a b c t)
  unfolding apply3 tableize_i3_o1
  tableize_i3_o1-Answers dom f a b c t p i m =
      Answers-of dom 2 (apply3 f) (a ∷ b ∷ c ∷ []) (f a b c) t p i refl m

  -- `TableizeI4O1` for a function whose results the keys of its inputs determine on a domain, called
  -- there on a table that is right for it: it does not panic, returns what the function returns, and leaves such a
  -- table.
  pub tableize_i4_o1-Answers :
      (dom : List A → Type 0) (f : A → A → A → A → O) (a b c d : A) (t : Trie A O)
      → Pure stringer dec is_nil dom 3 (apply4 f)
      → dom (a ∷ b ∷ c ∷ d ∷ [])
      → Memo stringer dec is_nil dom 3 (apply4 f) t
      → Answers dom 3 (apply4 f) (f a b c d) (tableize_i4_o1 stringer dec is_nil f a b c d t)
  unfolding apply4 tableize_i4_o1
  tableize_i4_o1-Answers dom f a b c d t p i m =
      Answers-of dom 3 (apply4 f) (a ∷ b ∷ c ∷ d ∷ []) (f a b c d) t p i refl m

module _ {A O1 O2 : Type 0} (stringer : A → Option A) (dec : Discrete A) where
  abbrev pub pack : Option (O1 × O2) → Option (Result O1 O2)
  pack r = r >>= λ v. some (record { o1 = v.0; o2 = v.1 })

  -- `tableize_dual_output` is `tableize` of the function with its two results packed: the same
  -- results, unpacked, and the same table, panics included. The packed results are no interface.
  pub tableize_dual_output-eq-tableize :
      (pure_fn : List A → Option (O1 × O2)) (args : List A) (t : Trie A (Result O1 O2))
      → tableize_dual_output stringer dec pure_fn args t ≡ (
          tableize stringer dec (λ res. false) (λ as_. pack (pure_fn as_)) args t >>= λ r.
          some ((r.0.o1, r.0.o2), r.1))
  unfolding tableize_dual_output tableize
  tableize_dual_output-eq-tableize pure_fn args t = ground arith
