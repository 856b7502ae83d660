-- ===== src/CachedDatabase/Rows.antt =====
-- `MemDBStore` against an atomic map, for values whose indexed field is their key.
use effect_ive_go.Base.{
  Bool, ◌≡◌, refl, ap, sym, ◌∙◌, ◌⊎◌, inl, inr, true, false, Option, none, some, List, [], ◌∷◌,
  if◌then◌else◌, Bool-cases, if_pos, if_neg, subst,
}
use effect_ive_go.Helper.{Err}
use effect_ive_go.State.{Values, equals, Done, Found, CasStore, update}
use effect_ive_go.CachedDatabase.{MemDb, load_first, insert_if_no_row, write_if_row, mem_db_store}

-- The calls of a store.
pub data Call (K V : Type 0) : Type 0 where
  load : K → Call K V
  insert_if_absent : K → V → Call K V
  compare_and_swap : K → V → V → Call K V
  compare_and_delete : K → V → Call K V

pub data Answer (V : Type 0) : Type 0 where
  found : Found V → Answer V
  done : Done → Answer V

module _ {K V T : Type 0} (store : CasStore K V T) where
  abbrev pub call_of : Call K V → T → Answer V × T
  call_of (load k) t = let r = store.load k t in (found r.0, r.1)
  call_of (insert_if_absent k v) t = let r = store.insert_if_absent k v t in (done r.0, r.1)
  call_of (compare_and_swap k old new) t =
      let r = store.compare_and_swap k old new t in (done r.0, r.1)
  call_of (compare_and_delete k old) t = let r = store.compare_and_delete k old t in (done r.0, r.1)

  abbrev pub calls_of : List (Call K V) → T → List (Answer V) × T
  calls_of [] t = ([], t)
  calls_of (c ∷ cs) t = let r = call_of c t in let rest = calls_of cs r.1 in (r.0 ∷ rest.0, rest.1)

module _ {K V : Type 0} (dec : Discrete K) (vs : Values V) where
  -- The atomic map, by the entry that the key has.
  abbrev pub insert_row : Option V → K → V → (K → Option V) → Answer V × (K → Option V)
  insert_row (some old) k v m = (done (false, none), m)
  insert_row none k v m = (done (true, none), update dec m k (some v))

  abbrev pub replace_at : Option V → K → V → Option V → (K → Option V) → Answer V × (K → Option V)
  replace_at none k old new m = (done (false, none), m)
  replace_at (some actual) k old new m =
      if equals vs old actual
      then (done (true, none), update dec m k new)
      else (done (false, none), m)

  abbrev pub map_call : Call K V → (K → Option V) → Answer V × (K → Option V)
  map_call (load k) m = (found (m k, none), m)
  map_call (insert_if_absent k v) m = insert_row (m k) k v m
  map_call (compare_and_swap k old new) m = replace_at (m k) k old (some new) m
  map_call (compare_and_delete k old) m = replace_at (m k) k old none m

  abbrev pub map_calls : List (Call K V) → (K → Option V) → List (Answer V) × (K → Option V)
  map_calls [] m = ([], m)
  map_calls (c ∷ cs) m =
      let r = map_call c m in let rest = map_calls cs r.1 in (r.0 ∷ rest.0, rest.1)

-- A table with a unique index: `First` finds the row that a value's index field has, `Insert` of a
-- value that has such a field (`fits`) replaces the row of the same index, and `Delete` removes a
-- row that is there; those do not fail.
pub record IsTable {K V T : Type 0} (dec : Discrete K) (index : V → K) (fits : V → Bool)
    (db : MemDb K V T) (rows : T → (K → Option V) → Type 0) : Type 0 where
  pub firsts : (k : K) (t : T) (m : K → Option V) → rows t m → db.first k t ≡ (m k, none)
  pub inserts :
      (v : V) (t : T) (m : K → Option V)
      → rows t m
      → fits v ≡ true
      → (t' : T) × (db.insert v t ≡ (none, t')) × rows t' (update dec m (index v) (some v))
  pub deletes :
      (v : V) (t : T) (m : K → Option V)
      → rows t m
      → m (index v) ≡ some v
      → (t' : T) × (db.delete v t ≡ (none, t')) × rows t' (update dec m (index v) none)

module _ {K V : Type 0} (index : V → K) where
  -- Every row stands under its index.
  abbrev pub IsIndexed : (K → Option V) → Type 0
  IsIndexed m = (k : K) → (m k ≡ none) ⊎ ((v : V) × ((m k ≡ some v) × (index v ≡ k)))

module _ {K V : Type 0} (index : V → K) (fits : V → Bool) where
  -- The values that a call writes have its key as their index, which the table takes.
  abbrev pub IsKeyed : Call K V → Type 0
  IsKeyed (load k) = Unit
  IsKeyed (insert_if_absent k v) = (index v ≡ k) × (fits v ≡ true)
  IsKeyed (compare_and_swap k old new) = (index new ≡ k) × (fits new ≡ true)
  IsKeyed (compare_and_delete k old) = Unit

  abbrev pub AllKeyed : List (Call K V) → Type 0
  AllKeyed [] = Unit
  AllKeyed (c ∷ cs) = IsKeyed c × AllKeyed cs

module _ {K V T : Type 0} (dec : Discrete K) (vs : Values V) (index : V → K) (fits : V → Bool)
    (db : MemDb K V T) (rows : T → (K → Option V) → Type 0)
    (table : IsTable dec index fits db rows) where
  update-some-IsIndexed :
      (m : K → Option V) (v : V)
      → IsIndexed index m
      → IsIndexed index (update dec m (index v) (some v))
  update-some-IsIndexed m v x q = elim (dec (index v) q) [
    | yes same ↦ inr (v, (if_pos (dec (index v) q) same (some v) (m q), same))
    | no other ↦
        subst (λ o. (o ≡ none) ⊎ ((w : V) × ((o ≡ some w) × (index w ≡ q))))
          (sym (if_neg (dec (index v) q) other (some v) (m q))) (x q)
  ]

  update-none-IsIndexed :
      (m : K → Option V) (k : K) → IsIndexed index m → IsIndexed index (update dec m k none)
  update-none-IsIndexed m k x q = elim (dec k q) [
    | yes same ↦ inl (if_pos (dec k q) same none (m q))
    | no other ↦
        subst (λ o. (o ≡ none) ⊎ ((w : V) × ((o ≡ some w) × (index w ≡ q))))
          (sym (if_neg (dec k q) other none (m q))) (x q)
  ]

  index_of_row : (k : K) (v : V) (m : K → Option V) → IsIndexed index m → m k ≡ some v → index v ≡ k
  index_of_row k v m x e = elim (x k) [
    | inl none_there ↦ cc (e, none_there)
    | inr (w, (there, i)) ↦ let same : w ≡ v = cc (e, there) in ap index (sym same) ∙ i
  ]

  -- A call's answer, and what it leaves.
  record Called (a : Answer V) (m' : K → Option V) (r : Answer V × T) : Type 0 where
    after : T
    returns : r ≡ (a, after)
    is_left : rows after m'
    indexed : IsIndexed index m'

  insert-Called :
      (k : K) (v : V) (t : T) (m : K → Option V) (o : Option V)
      → rows t m
      → IsIndexed index m
      → index v ≡ k
      → fits v ≡ true
      → Called
          (insert_row dec vs o k v m).0
          (insert_row dec vs o k v m).1
          (let r = insert_if_no_row db v t (o, none) in (done r.0, r.1))
  unfolding insert_if_no_row
  insert-Called k v t m (some old) e x i f = record {
    after = t;
    returns = refl;
    is_left = e;
    indexed = x;
  }
  insert-Called k v t m none e x i f =
      let (t', inserted, left) = table.inserts v t m e f in
      rw inserted (record {
        after = t';
        returns = refl;
        is_left = subst (λ q. rows t' (update dec m q (some v))) i left;
        indexed =
            subst (λ q. IsIndexed index (update dec m q (some v))) i (update-some-IsIndexed m v x);
      })

  replace-Called :
      (k : K) (old : V) (new : Option V) (write : V → T → Option Err × T) (t : T) (m : K → Option V)
      (o : Option V)
      → rows t m
      → IsIndexed index m
      → IsIndexed index (update dec m k new)
      → ((actual : V)
          → o ≡ some actual
          → (t' : T) × (write actual t ≡ (none, t')) × rows t' (update dec m k new))
      → Called
          (replace_at dec vs o k old new m).0
          (replace_at dec vs o k old new m).1
          (let r = write_if_row vs old write t (o, none) in (done r.0, r.1))
  unfolding write_if_row
  replace-Called k old new write t m none e x y changed = record {
    after = t;
    returns = refl;
    is_left = e;
    indexed = x;
  }
  replace-Called k old new write t m (some actual) e x y changed =
      let (t', written, left) = changed actual refl in
      elim (Bool-cases (equals vs old actual)) [
        | inl same ↦
            rw (same, written) (record { after = t'; returns = refl; is_left = left; indexed = y })
        | inr other ↦ rw other (record { after = t; returns = refl; is_left = e; indexed = x })
      ]

  call-Called :
      (c : Call K V) (t : T) (m : K → Option V)
      → rows t m
      → IsIndexed index m
      → IsKeyed index fits c
      → Called (map_call dec vs c m).0 (map_call dec vs c m).1 (call_of (mem_db_store vs db) c t)
  unfolding mem_db_store load_first
  call-Called (load k) t m e x i =
      rw (table.firsts k t m e) (record { after = t; returns = refl; is_left = e; indexed = x })
  call-Called (insert_if_absent k v) t m e x i =
      rw (table.firsts k t m e) (insert-Called k v t m (m k) e x i.0 i.1)
  call-Called (compare_and_swap k old new) t m e x i =
      let (t', written, left) = table.inserts new t m e i.1 in
      rw (table.firsts k t m e) (
        replace-Called k old (some new) (λ actual. db.insert new) t m (m k) e x
          (subst (λ q. IsIndexed index (update dec m q (some new))) i.0
            (update-some-IsIndexed m new x))
          (λ actual at. (t', written, subst (λ q. rows t' (update dec m q (some new))) i.0 left)))
  call-Called (compare_and_delete k old) t m e x i = rw (table.firsts k t m e) (
      replace-Called k old none db.delete t m (m k) e x (update-none-IsIndexed m k x) (λ actual at.
        let own = index_of_row k actual m x at in
        let (t', written, left) =
          table.deletes actual t m e (subst (λ q. m q ≡ some actual) (sym own) at) in
        (t', written, subst (λ q. rows t' (update dec m q none)) own left)))

  -- `MemDBStore` over a table with a unique index: any calls whose new values have their key as
  -- their indexed field, one that the table takes, are answered as by the atomic map, without an error, and the table is left
  -- as the map is, every row under its own index.
  pub mem_db_store-map_calls :
      (cs : List (Call K V)) (t : T) (m : K → Option V)
      → rows t m
      → IsIndexed index m
      → AllKeyed index fits cs
      → (t' : T) × (calls_of (mem_db_store vs db) cs t ≡ ((map_calls dec vs cs m).0, t'))
        × rows t' (map_calls dec vs cs m).1
        × IsIndexed index (map_calls dec vs cs m).1
  mem_db_store-map_calls [] t m e x i = (t, refl, e, x)
  mem_db_store-map_calls (c ∷ cs) t m e x i =
      let one = call-Called c t m e x i.0 in
      let (t', rest, left, keyed) =
        mem_db_store-map_calls cs one.after (map_call dec vs c m).1 one.is_left one.indexed i.1 in
      (t', rw (one.returns, rest) refl, left, keyed)
