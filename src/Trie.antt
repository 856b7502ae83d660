-- ===== src/Trie.antt =====
-- purefn/trie.go: the bounded memo table `Trie`. A `sync.Map` is an association list with one entry
-- for a key; its values are results at the last key and further maps above it. No two paths share a
-- map, so the pointers of the source are paths here. `none` is a panic. One goroutine calls at a
-- time.
pub mod Maps
pub mod Walk
pub mod Table
mod Tests
use effect_ive_go.Base.{
  ℕ, ◌+◌, ◌-◌, ◌%◌, ◌^◌, Bool, Option, none, some, List, [], ◌∷◌, ite, ◌==◌, if◌then◌else◌,
}

mutual
  -- What a map holds: `leaf` for a value of type `O`, `branch` for a `*sync.Map`.
  pub data Node (K O : Type 0) : Type 0 where
    leaf : O → Node K O
    branch : Entries K O → Node K O

  pub data Entries (K O : Type 0) : Type 0 where
    empty : Entries K O
    entry : K → Node K O → Entries K O → Entries K O

pub record Trie (K O : Type 0) : Type 0 where
  pub memo0 : Entries K O
  pub memo1 : Entries K O
  pub head_idx : ℕ  -- uint32, 0 or 1
  pub size : ℕ  -- uint32
  pub max_size : ℕ  -- uint32

infixl 5 ◌>>=◌
abbrev pub ◌>>=◌ {ℓ κ} : {A : Type ℓ} {B : Type κ} → Option A → (A → Option B) → Option B
none >>= f = none
some a >>= f = f a

module _ {K O : Type 0} where
  -- `v.(*sync.Map)` after the creation of a missing map
  abbrev pub child : Option (Node K O) → Option (Entries K O)
  child none = some empty
  child (some (branch m)) = some m
  child (some (leaf v)) = none

  -- `v.(O)` of a value that was found: a map is no `O`
  abbrev pub value : Option (Node K O) → Option (Option O)
  value none = some none
  value (some (leaf v)) = some (some v)
  value (some (branch m)) = none

  unfoldable pub new_trie : ℕ → Option (Trie K O)
  new_trie max_size =
      if max_size == 0
      then none
      else some
          (record { memo0 = empty; memo1 = empty; head_idx = 0; size = 0; max_size = max_size })

  -- `t.memos[i]`
  abbrev pub memo : Trie K O → ℕ → Entries K O
  memo t i = if i == 0 then t.memo0 else t.memo1

  abbrev pub set_memo : Trie K O → ℕ → Entries K O → Trie K O
  set_memo t i m = if i == 0 then record t { memo0 = m } else record t { memo1 = m }

  -- The rotation of `Store`: at `maxSize` the head map is cleared, and the other becomes the head.
  unfoldable pub rotate : Trie K O → Trie K O
  rotate t =
      if t.size == t.max_size
      then record (set_memo t t.head_idx empty) { size = 0; head_idx = 1 - t.head_idx }
      else t

-- The same assertion for an interface `O`: it fails for a nil, which has no dynamic type.
abbrev pub asserted : {O : Type 0} → (O → Bool) → Option O → Option (Option O)
asserted is_nil none = some none
asserted is_nil (some v) = if is_nil v then none else some (some v)

module _ {K O : Type 0} (dec : Discrete K) where
  -- `sync.Map.Load`
  unfoldable pub map_load : K → Entries K O → Option (Node K O)
  map_load k empty = none
  map_load k (entry j v m) = ite (dec j k) (some v) (map_load k m)

  -- `sync.Map.Store`
  unfoldable pub map_store : K → Node K O → Entries K O → Entries K O
  map_store k v empty = entry k v empty
  map_store k v (entry j w m) = ite (dec j k) (entry k v m) (entry j w (map_store k v m))

  -- `traverse`, and what the caller does with the map and the last key that it returns: the maps on
  -- the way are created where they are missing.
  unfoldable pub traverse {ℓ} :
      {A : Type ℓ}
      → (Entries K O → K → A × Entries K O)
      → List K
      → Entries K O
      → Option (A × Entries K O)
  traverse use_ [] m = none
  traverse use_ (k ∷ []) m = some (use_ m k)
  traverse use_ (k ∷ k' ∷ ks) m = child (map_load k m) >>= λ inner.
      traverse use_ (k' ∷ ks) inner >>= λ found. some (found.0, map_store k (branch found.1) m)

  unfoldable pub load_from : List K → Entries K O → Option (Option (Node K O) × Entries K O)
  unfolding traverse
  load_from keys m = traverse (λ m k. (map_load k m, m)) keys m

  unfoldable pub store_in : O → List K → Entries K O → Option (Unit {0} × Entries K O)
  unfolding traverse
  store_in v keys m = traverse (λ m k. (tt, map_store k (leaf v) m)) keys m

  -- `Load`: the head map, then the other one. `is_nil` holds for the nil of an interface `O`.
  unfoldable pub load : (O → Bool) → List K → Trie K O → Option (Option O × Trie K O)
  unfolding load_from
  load is_nil keys t = load_from keys (memo t t.head_idx) >>= λ first.
      let t1 = set_memo t t.head_idx first.1 in
      elim first.0 [
        | some v ↦ value (some v) >>= asserted is_nil >>= λ o. some (o, t1)
        | none ↦ load_from keys (memo t1 (1 - t1.head_idx)) >>= λ second.
            value second.0 >>= asserted is_nil >>= λ o.
            some (o, set_memo t1 (1 - t1.head_idx) second.1)
      ]

  unfoldable pub store : List K → O → Trie K O → Option (Trie K O)
  unfolding rotate store_in
  store keys v t =
      let t1 = rotate t in
      store_in v keys (memo t1 t1.head_idx) >>= λ done.
      some (record (set_memo t1 t1.head_idx done.1) { size = (t1.size + 1) % 2 ^ 32 })
