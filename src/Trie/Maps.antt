-- ===== src/Trie/Maps.antt =====
-- What can be read from a tree of maps after `traverse` has walked through it, and why no type
-- assertion of the walk fails when all keys have the same length.
use effect_ive_go.Base.{
  ℕ, zero, suc, ◌≡◌, refl, sym, ite, if_pos, if_neg, Option, none, some, List, [], ◌∷◌, arith,
}
use effect_ive_go.Trie.{Node, leaf, branch, Entries, empty, entry, child, map_load, map_store}

module _ {K O : Type 0} where
  abbrev pub leaf_value : Option (Node K O) → Option O
  leaf_value (some (leaf v)) = some v
  leaf_value (some (branch m)) = none
  leaf_value none = none

  abbrev pub inner_map : Option (Node K O) → Entries K O
  inner_map (some (branch m)) = m
  inner_map (some (leaf v)) = empty
  inner_map none = empty

  -- A value stands at the last key.
  abbrev pub IsLeaf : Option (Node K O) → Type 0
  IsLeaf (some (branch m)) = ⊥
  IsLeaf _ = Unit

  abbrev pub OnBranch : (Entries K O → Type 0) → Option (Node K O) → Type 0
  OnBranch P none = Unit
  OnBranch P (some (branch m)) = P m
  OnBranch P (some (leaf v)) = ⊥

module _ {K O : Type 0} (dec : Discrete K) where
  -- The value stored under a list of keys.
  unfoldable pub find : List K → Entries K O → Option O
  find [] m = none
  find (k ∷ []) m = leaf_value (map_load dec k m)
  find (k ∷ k' ∷ ks) m = find (k' ∷ ks) (inner_map (map_load dec k m))

  -- Values stand below `n` levels of maps, and nowhere else.
  abbrev pub IsUniform : ℕ → Entries K O → Type 0
  IsUniform zero m = (k : K) → IsLeaf (map_load dec k m)
  IsUniform (suc n) m = (k : K) → OnBranch (IsUniform n) (map_load dec k m)

  pub map_load-map_store :
      (q k : K) (v : Node K O) (m : Entries K O)
      → map_load dec q (map_store dec k v m) ≡ ite (dec k q) (some v) (map_load dec q m)
  unfolding map_load map_store
  map_load-map_store q k v empty = refl
  map_load-map_store q k v (entry j w m) = ground (arith, map_load-map_store q k v m)

  pub find-empty : (q : List K) → find q empty ≡ none
  unfolding find map_load
  find-empty [] = refl
  find-empty (k ∷ []) = refl
  find-empty (k ∷ k' ∷ ks) = find-empty (k' ∷ ks)

module _ {K : Type 0} (O : Type 0) (dec : Discrete K) where
  pub IsUniform-empty : (n : ℕ) → IsUniform {O = O} dec n empty
  unfolding map_load
  IsUniform-empty zero = λ k. tt
  IsUniform-empty (suc n) = λ k. tt

module _ {K O : Type 0} (dec : Discrete K) where
  -- The walk goes down one level where all values stand deeper.
  pub record Inner (n : ℕ) (k : K) (m : Entries K O) : Type 0 where
    pub inner : Entries K O
    pub found : child (map_load dec k m) ≡ some inner
    pub uniform : IsUniform dec n inner
    pub same : inner_map (map_load dec k m) ≡ inner
    pub no_value : leaf_value (map_load dec k m) ≡ none

  pub Inner-of : (n : ℕ) (k : K) (m : Entries K O) → IsUniform dec (suc n) m → Inner n k m
  Inner-of n k m u = go (map_load dec k m) refl (u k)
    where
      go :
          (o : Option (Node K O))
          → map_load dec k m ≡ o
          → OnBranch (IsUniform dec n) o
          → Inner n k m
      go none e h = record {
        inner = empty;
        found = rw e;
        uniform = IsUniform-empty O dec n;
        same = rw e;
        no_value = rw e;
      }
      go (some (branch b)) e h = record {
        inner = b;
        found = rw e;
        uniform = h;
        same = rw e;
        no_value = rw e;
      }
      go (some (leaf v)) e h = absurd h

  pub IsUniform-map_store_branch :
      (n : ℕ) (k : K) (b m : Entries K O)
      → IsUniform dec (suc n) m
      → IsUniform dec n b
      → IsUniform dec (suc n) (map_store dec k (branch b) m)
  IsUniform-map_store_branch n k b m u h j =
      rw (map_load-map_store dec j k (branch b) m)
        (elim (dec k j) [ yes p ↦ rw (if_pos _ p) h | no p ↦ rw (if_neg _ p) (u j) ])

  pub IsUniform-map_store_leaf :
      (k : K) (v : O) (m : Entries K O)
      → IsUniform dec zero m
      → IsUniform dec zero (map_store dec k (leaf v) m)
  IsUniform-map_store_leaf k v m u j =
      rw (map_load-map_store dec j k (leaf v) m)
        (elim (dec k j) [ yes p ↦ rw (if_pos _ p) tt | no p ↦ rw (if_neg _ p) (u j) ])

  pub find-map_store_branch :
      (j : K) (js : List K) (k : K) (b m : Entries K O)
      → leaf_value (map_load dec k m) ≡ none
      → ((q : List K) → find dec q b ≡ find dec q (inner_map (map_load dec k m)))
      → find dec (j ∷ js) (map_store dec k (branch b) m) ≡ find dec (j ∷ js) m
  unfolding find
  find-map_store_branch j [] k b m e h =
      rw (map_load-map_store dec j k (branch b) m)
        (elim (dec k j) [ yes p ↦ rw (if_pos _ p, ← p) (sym e) | no p ↦ rw (if_neg _ p) ])
  find-map_store_branch j (j' ∷ js) k b m e h =
      rw (map_load-map_store dec j k (branch b) m)
        (elim (dec k j) [ yes p ↦ rw (if_pos _ p, ← p) (h (j' ∷ js)) | no p ↦ rw (if_neg _ p) ])
