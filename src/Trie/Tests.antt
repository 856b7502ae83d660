-- ===== src/Trie/Tests.antt =====
-- The memo table of purefn/trie.go on small inputs.
use effect_ive_go.Base.{false, ℕ, ◌≡◌, refl, none, some, [], ◌∷◌, arith, ℕ_discrete}
use effect_ive_go.Trie.{
  Trie, empty, ◌>>=◌, new_trie, map_load, map_store, traverse, load_from, store_in, load, rotate,
  store,
}
use effect_ive_go.Trie.Maps.{find, IsUniform-empty, find-empty}
use effect_ive_go.Trie.Table.{IsValid, StoreDoes, store-StoreDoes}

program : Unit {0}
unfolding new_trie map_load map_store traverse load_from store_in load rotate store find ℕ_discrete
program = tt

abbrev fresh : Trie ℕ ℕ
fresh = record { memo0 = empty; memo1 = empty; head_idx = 0; size = 0; max_size = 2 }

-- With room for two stores the third forgets the first two.
third_store :
    (store ℕ_discrete (1 ∷ 1 ∷ []) 11 fresh >>= λ t. store ℕ_discrete (1 ∷ 2 ∷ []) 12 t >>= λ u.
    store ℕ_discrete (2 ∷ 1 ∷ []) 21 u >>= λ v.
    load ℕ_discrete (λ v. false) (1 ∷ 2 ∷ []) v >>= λ r. some r.0)
    ≡ some none
unfolding program
third_store = refl

-- Keys of two lengths in one table: the type assertion panics.
mixed_lengths :
    (store ℕ_discrete (1 ∷ []) 1 fresh >>= λ t. load ℕ_discrete (λ v. false) (1 ∷ 2 ∷ []) t) ≡ none
unfolding program
mixed_lengths = refl

fresh-IsValid : IsValid ℕ_discrete 1 fresh
fresh-IsValid = record {
  head_in = omega arith;
  uniform0 = IsUniform-empty ℕ ℕ_discrete 1;
  uniform1 = IsUniform-empty ℕ ℕ_discrete 1;
  stale = find-empty ℕ_discrete;
  positive = omega arith;
  word = omega arith;
  size_in = omega arith;
}

store-StoreDoes_example :
    (t : Trie ℕ ℕ) × (store ℕ_discrete (1 ∷ 2 ∷ []) 12 fresh ≡ some t)
    × StoreDoes ℕ_discrete 1 (1 ∷ 2 ∷ []) 12 fresh t
store-StoreDoes_example = store-StoreDoes ℕ_discrete 1 (1 ∷ 2 ∷ []) 12 fresh refl fresh-IsValid
