-- ===== src/Tableize/Memo.antt =====
-- A tableized function is the function: whatever is called, in whatever order, and however often
-- the table is rotated.
use effect_ive_go.Base.{
  Bool, false, ℕ, suc, ◌^◌, ◌<◌, ◌≡◌, refl, sym, ap, ◌∙◌, inl, inr, Option, Option-cases, none,
  some, List, [], ◌∷◌, arith, length, ◌==◌, if◌then◌else◌, ◌⊎◌,
}
use effect_ive_go.Trie.{asserted, Trie, ◌>>=◌, new_trie}
use effect_ive_go.Trie.Table.{IsValid, lookup, load-LoadKeeps, store-StoreDoes, new_trie-IsValid}
use effect_ive_go.Tableize.{table_keys, tableize}

-- The arguments of all calls are in the function's domain.
abbrev pub AllIn : {A : Type 0} → (List A → Type 0) → List (List A) → Type 0
AllIn dom [] = Unit
AllIn dom (args ∷ calls) = dom args × AllIn dom calls

module _ {A : Type 0} (stringer : A → Option A) where
  length-table_keys : (args : List A) → length (table_keys stringer args) ≡ length args
  unfolding table_keys
  length-table_keys [] = refl
  length-table_keys (a ∷ args) = ap suc (length-table_keys args)

found_asserted :
    {O : Type 0} (is_nil : O → Bool) (o : Option O)
    → ((v : O) → o ≡ some v → is_nil v ≡ false)
    → asserted is_nil o ≡ some o
found_asserted is_nil none h = refl
found_asserted is_nil (some v) h = rw (h v refl) refl

module _ {A O : Type 0} (stringer : A → Option A) (dec : Discrete A) (is_nil : O → Bool) where
  -- Arguments of the domain are `n + 1`, the function is defined there, and the keys of arguments
  -- determine its result, which is no nil of an interface.
  pub record Pure (dom : List A → Type 0) (n : ℕ) (pure_fn : List A → Option O) : Type 0 where
    pub arity : (args : List A) → dom args → length args ≡ suc n
    pub total : (args : List A) → dom args → (v : O) × (pure_fn args ≡ some v)
    pub keyed :
        (args args' : List A)
        → dom args
        → dom args'
        → table_keys stringer args ≡ table_keys stringer args'
        → pure_fn args ≡ pure_fn args'
    pub not_nil : (args : List A) (v : O) → dom args → pure_fn args ≡ some v → is_nil v ≡ false

  -- Every result in the table is the function's, for arguments of the domain.
  pub record Memo (dom : List A → Type 0) (n : ℕ) (pure_fn : List A → Option O) (t : Trie A O)
      : Type 0 where
    pub valid : IsValid dec n t
    pub right :
        (args : List A) (v : O)
        → dom args
        → lookup dec (table_keys stringer args) t ≡ some v
        → pure_fn args ≡ some v

  -- One call with the result `v`.
  pub record Called (dom : List A → Type 0) (n : ℕ) (pure_fn : List A → Option O) (args : List A)
      (r : Option (O × Trie A O)) : Type 0 where
    pub result : O
    pub memo : Trie A O
    pub is_result : pure_fn args ≡ some result
    pub returns : r ≡ some (result, memo)
    pub keeps : Memo dom n pure_fn memo
    pub remembered : lookup dec (table_keys stringer args) memo ≡ some result

  module _ (dom : List A → Type 0) (n : ℕ) (pure_fn : List A → Option O)
      (p : Pure dom n pure_fn) where
    stored-right :
        (args args' : List A) (w v : O) (t t' : Trie A O)
        → Memo dom n pure_fn t
        → dom args
        → dom args'
        → pure_fn args ≡ some w
        → lookup dec (table_keys stringer args) t' ≡ some w
        → ((q : List A)
            → (q ≡ table_keys stringer args)
              ⊎ (lookup dec q t' ≡ (if t.size == t.max_size then none else lookup dec q t)))
        → lookup dec (table_keys stringer args') t' ≡ some v
        → pure_fn args' ≡ some v
    stored-right args args' w v t t' m l l' is_w here elsewhere e =
        elim (elsewhere (table_keys stringer args')) [
          | inl same ↦
              let here' : lookup dec (table_keys stringer args') t' ≡ some w = rw same here in
              ground (arith, p.keyed args args' l l' (sym same))
          | inr other ↦ ground (arith, other, m.right args' v l')
        ]

    -- A call of a tableized function returns what the function returns, and leaves a table that is
    -- right and that holds the result.
    pub call-Called :
        (args : List A) (t : Trie A O)
        → dom args
        → Memo dom n pure_fn t
        → Called dom n pure_fn args (tableize stringer dec is_nil pure_fn args t)
    unfolding tableize
    call-Called args t l m =
        let ks = table_keys stringer args in
        let lk = length-table_keys stringer args ∙ p.arity args l in
        let no_nil =
          found_asserted is_nil (lookup dec ks t)
            (λ v e. p.not_nil args v l (m.right args v l e)) in
        let (t1, loaded, k) = load-LoadKeeps dec n ks lk is_nil t m.valid no_nil in
        let m1 : Memo dom n pure_fn t1 = record {
          valid = k.valid;
          right = λ a v la e. m.right a v la (sym (k.answers (table_keys stringer a)) ∙ e);
        } in
        elim (Option-cases (lookup dec ks t)) [
          | inl miss ↦
              let (w, is_w) = p.total args l in
              let (t2, stored, d) = store-StoreDoes dec n ks w t1 lk k.valid in
              record {
                result = w;
                memo = t2;
                is_result = is_w;
                returns = rw (loaded, ◌>>=◌, miss, is_w, stored) refl;
                keeps = record {
                  valid = d.valid;
                  right =
                      λ a v la e. stored-right args a w v t1 t2 m1 l la is_w d.here d.elsewhere e;
                };
                remembered = d.here;
              }
          | inr (v, hit) ↦ record {
            result = v;
            memo = t1;
            is_result = m.right args v l hit;
            returns = rw (loaded, ◌>>=◌, hit) refl;
            keeps = m1;
            remembered = k.answers ks ∙ hit;
          }
        ]

  -- Calls in a row: of the tableized function, on a new table, and of the function itself.
  unfoldable pub run_calls :
      (List A → Option O) → List (List A) → Trie A O → Option (List O × Trie A O)
  run_calls pure_fn [] t = some ([], t)
  run_calls pure_fn (args ∷ calls) t = tableize stringer dec is_nil pure_fn args t >>= λ r.
      run_calls pure_fn calls r.1 >>= λ rest. some (r.0 ∷ rest.0, rest.1)

  unfoldable pub run_plain : (List A → Option O) → List (List A) → Option (List O)
  run_plain pure_fn [] = some []
  run_plain pure_fn (args ∷ calls) =
      pure_fn args >>= λ v. run_plain pure_fn calls >>= λ rest. some (v ∷ rest)

  run_calls-Memo :
      (dom : List A → Type 0) (n : ℕ) (pure_fn : List A → Option O) (calls : List (List A))
      (t : Trie A O)
      → Pure dom n pure_fn
      → AllIn dom calls
      → Memo dom n pure_fn t
      → (vs : List O) × (t' : Trie A O) × (run_calls pure_fn calls t ≡ some (vs, t'))
        × (run_plain pure_fn calls ≡ some vs)
  unfolding run_calls run_plain
  run_calls-Memo dom n pure_fn [] t p h m = ([], t, refl, refl)
  run_calls-Memo dom n pure_fn (args ∷ calls) t p h m =
      let c = call-Called dom n pure_fn p args t h.0 m in
      let (vs, t', memoized, plain) = run_calls-Memo dom n pure_fn calls c.memo p h.1 c.keeps in
      (c.result ∷ vs, t', rw (c.returns, ◌>>=◌, memoized) refl, rw (c.is_result, ◌>>=◌, plain) refl)

  -- For a function that does not panic on a domain of `n + 1` arguments and returns no nil of an
  -- interface there, where the keys determine its result, and for every positive table size: any calls in the domain of the tableized function, in a row
  -- from a new table, return what the same calls of the function return, and none panics.
  pub tableize-eq-plain :
      (dom : List A → Type 0) (n max : ℕ) (pure_fn : List A → Option O) (calls : List (List A))
      → Pure dom n pure_fn
      → AllIn dom calls
      → 0 < max
      → max < 2 ^ 32
      → (vs : List O) × (t : Trie A O) × ((new_trie max >>= run_calls pure_fn calls) ≡ some (vs, t))
        × (run_plain pure_fn calls ≡ some vs)
  tableize-eq-plain dom n max pure_fn calls p h pos word =
      elim (new_trie-IsValid {O = O} dec n max word) [
        | inl (zero_, _) ↦ absurd (omega arith)
        | inr (t, made, valid, _, nothing) ↦
            rw (made, ◌>>=◌)
              (run_calls-Memo dom n pure_fn calls t p h
                (record { valid = valid; right = λ a v l e. cc (nothing (table_keys stringer a)) }))
      ]

  -- Two argument lists with the same keys share one entry: after a call with the first the second
  -- gets the first one's result, whatever the function says.
  tableize_collision :
      (dom : List A → Type 0) (n : ℕ) (pure_fn other : List A → Option O) (args args' : List A)
      (t : Trie A O)
      → Pure dom n pure_fn
      → dom args
      → Memo dom n pure_fn t
      → table_keys stringer args' ≡ table_keys stringer args
      → (v : O) × (t' t'' : Trie A O) × (pure_fn args ≡ some v)
        × (tableize stringer dec is_nil pure_fn args t ≡ some (v, t'))
        × (tableize stringer dec is_nil other args' t' ≡ some (v, t''))
  unfolding tableize
  tableize_collision dom n pure_fn other args args' t p l m same =
      let c = call-Called dom n pure_fn p args t l m in
      let (t'', loaded, _) =
        load-LoadKeeps dec n (table_keys stringer args)
          (length-table_keys stringer args ∙ p.arity args l) is_nil c.memo c.keeps.valid
          (found_asserted is_nil (lookup dec (table_keys stringer args) c.memo)
            (λ v e. p.not_nil args v l (c.keeps.right args v l e))) in
      (c.result, c.memo, t'', c.is_result, c.returns, rw (same, loaded, ◌>>=◌, c.remembered) refl)
