-- ===== src/Trie/Walk.antt =====
-- `traverse` with the reads and writes that `Load` and `Store` make at its end.
use effect_ive_go.Base.{
  ℕ, zero, suc, ◌≡◌, ◌≢◌, refl, sym, ap, if_pos, if_neg, Option, none, some, List, [], ◌∷◌, arith,
  length,
}
use effect_ive_go.Trie.{
  Node, leaf, branch, Entries, empty, ◌>>=◌, value, map_load, map_store, traverse, load_from,
  store_in,
}
use effect_ive_go.Trie.Maps.{
  find, IsUniform, Inner, Inner-of, IsUniform-map_store_branch, find-map_store_branch,
  IsUniform-map_store_leaf, map_load-map_store, leaf_value, IsLeaf, inner_map,
}

module _ {K O : Type 0} (dec : Discrete K) where
  -- A walk that reads: the value under the keys is found, and no value is changed.
  pub record Loaded (n : ℕ) (keys : List K) (m : Entries K O) : Type 0 where
    pub found : Option (Node K O)
    pub after : Entries K O
    pub returns : load_from dec keys m ≡ some (found, after)
    pub is_value : value found ≡ some (find dec keys m)
    pub kept : (q : List K) → find dec q after ≡ find dec q m
    pub uniform : IsUniform dec n after

  value-leaf_value : (o : Option (Node K O)) → IsLeaf o → value o ≡ some (leaf_value o)
  value-leaf_value none h = refl
  value-leaf_value (some (leaf v)) h = refl
  value-leaf_value (some (branch m)) h = absurd h

  find-cons_kept :
      (k : K) (b m : Entries K O)
      → leaf_value (map_load dec k m) ≡ none
      → ((q : List K) → find dec q b ≡ find dec q (inner_map (map_load dec k m)))
      → (q : List K) → find dec q (map_store dec k (branch b) m) ≡ find dec q m
  unfolding find
  find-cons_kept k b m e h [] = refl
  find-cons_kept k b m e h (j ∷ js) = find-map_store_branch dec j js k b m e h

  pub load_from-Loaded :
      (n : ℕ) (keys : List K) (m : Entries K O)
      → length keys ≡ suc n
      → IsUniform dec n m
      → Loaded n keys m
  unfolding load_from traverse find
  load_from-Loaded n [] m l u = absurd (omega arith)
  load_from-Loaded zero (k ∷ []) m l u = record {
    found = map_load dec k m;
    after = m;
    returns = refl;
    is_value = value-leaf_value (map_load dec k m) (u k);
    kept = λ q. refl;
    uniform = u;
  }
  load_from-Loaded (suc n) (k ∷ []) m l u = absurd (omega arith)
  load_from-Loaded zero (k ∷ k' ∷ ks) m l u = absurd (omega arith)
  load_from-Loaded (suc n) (k ∷ k' ∷ ks) m l u =
      let i = Inner-of dec n k m u in
      let r = load_from-Loaded n (k' ∷ ks) i.inner (omega arith) i.uniform in
      record {
        found = r.found;
        after = map_store dec k (branch r.after) m;
        returns = rw (i.found, ◌>>=◌, r.returns) refl;
        is_value = rw i.same r.is_value;
        kept = find-cons_kept k r.after m i.no_value (λ q. rw i.same (r.kept q));
        uniform = IsUniform-map_store_branch dec n k r.after m u r.uniform;
      }

  -- A walk that writes: the value is under the keys, and nothing else is changed.
  pub record Stored (n : ℕ) (v : O) (keys : List K) (m : Entries K O) : Type 0 where
    pub after : Entries K O
    pub returns : store_in dec v keys m ≡ some (tt, after)
    pub here : find dec keys after ≡ some v
    pub elsewhere : (q : List K) → q ≢ keys → find dec q after ≡ find dec q m
    pub uniform : IsUniform dec n after

  inner_map_of_IsLeaf : (o : Option (Node K O)) → IsLeaf o → inner_map o ≡ empty
  inner_map_of_IsLeaf none h = refl
  inner_map_of_IsLeaf (some (leaf v)) h = refl
  inner_map_of_IsLeaf (some (branch m)) h = absurd h

  find-map_store_leaf_ne :
      (k : K) (v : O) (m : Entries K O)
      → IsUniform dec zero m
      → (q : List K) → q ≢ k ∷ []
      → find dec q (map_store dec k (leaf v) m) ≡ find dec q m
  unfolding find
  find-map_store_leaf_ne k v m u [] ne = refl
  find-map_store_leaf_ne k v m u (j ∷ []) ne = rw (
    map_load-map_store dec j k (leaf v) m,
    if_neg _ (λ (e : k ≡ j). ne (ap (λ t. t ∷ []) (sym e))),
  )
  find-map_store_leaf_ne k v m u (j ∷ j' ∷ js) ne =
      rw (map_load-map_store dec j k (leaf v) m) (elim (dec k j) [
        | yes p ↦ rw (if_pos _ p, inner_map_of_IsLeaf (map_load dec j m) (u j)) refl
        | no p ↦ rw (if_neg _ p)
      ])

  find-map_store_branch_ne :
      (n : ℕ) (k k' : K) (ks : List K) (b m : Entries K O) (i : Inner dec n k m)
      → ((q : List K) → q ≢ k' ∷ ks → find dec q b ≡ find dec q i.inner)
      → (q : List K) → q ≢ k ∷ k' ∷ ks
      → find dec q (map_store dec k (branch b) m) ≡ find dec q m
  unfolding find
  find-map_store_branch_ne n k k' ks b m i h [] ne = refl
  find-map_store_branch_ne n k k' ks b m i h (j ∷ []) ne =
      rw (map_load-map_store dec j k (branch b) m)
        (elim (dec k j) [ yes p ↦ rw (if_pos _ p, ← p) (sym i.no_value) | no p ↦ rw (if_neg _ p) ])
  find-map_store_branch_ne n k k' ks b m i h (j ∷ j' ∷ js) ne =
      rw (map_load-map_store dec j k (branch b) m) (elim (dec k j) [
        | yes p ↦ rw (if_pos _ p, ← p, i.same) (h (j' ∷ js) (λ e. ne (rw (p, e))))
        | no p ↦ rw (if_neg _ p)
      ])

  pub store_in-Stored :
      (n : ℕ) (v : O) (keys : List K) (m : Entries K O)
      → length keys ≡ suc n
      → IsUniform dec n m
      → Stored n v keys m
  unfolding store_in traverse find
  store_in-Stored n v [] m l u = absurd (omega arith)
  store_in-Stored zero v (k ∷ []) m l u = record {
    after = map_store dec k (leaf v) m;
    returns = refl;
    here = rw (map_load-map_store dec k k (leaf v) m, if_pos (dec k k) refl) refl;
    elsewhere = find-map_store_leaf_ne k v m u;
    uniform = IsUniform-map_store_leaf dec k v m u;
  }
  store_in-Stored (suc n) v (k ∷ []) m l u = absurd (omega arith)
  store_in-Stored zero v (k ∷ k' ∷ ks) m l u = absurd (omega arith)
  store_in-Stored (suc n) v (k ∷ k' ∷ ks) m l u =
      let i = Inner-of dec n k m u in
      let r = store_in-Stored n v (k' ∷ ks) i.inner (omega arith) i.uniform in
      record {
        after = map_store dec k (branch r.after) m;
        returns = rw (i.found, ◌>>=◌, r.returns) refl;
        here = rw (map_load-map_store dec k k (branch r.after) m, if_pos (dec k k) refl) r.here;
        elsewhere = find-map_store_branch_ne n k k' ks r.after m i r.elsewhere;
        uniform = IsUniform-map_store_branch dec n k r.after m u r.uniform;
      }
