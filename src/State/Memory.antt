-- ===== src/State/Memory.antt =====
-- One handler with no delegation, over the in-memory store and over a lawful `SetStore`: both are
-- the atomic map.
use effect_ive_go.Base.{
  ◌≡◌, refl, ap, ◌∙◌, inl, inr, Bool, true, false, Option, none, some, if◌then◌else◌, Option-cases,
  Bool-cases,
}
use effect_ive_go.Helper.{Err}
use effect_ive_go.State.{
  Values, equals, StateStore, cas_impl, set_impl, in_mem_store, update, holds, store_load, settle,
  match_store, store_insert_if_absent, store_compare_and_swap, store_compare_and_delete, if_current,
  act_if, act_if_absent, SetStore, Done,
}

-- The atomic map: what each store operation answers and leaves.
module _ {K V : Type 0} (dec : Discrete K) (vs : Values V) where
  abbrev pub Map : Type 0
  Map = K → Option V

  unfoldable pub map_insert : K → V → Map → Bool × Map
  map_insert k v m = elim (m k) [ some _ ↦ (false, m) | none ↦ (true, update dec m k (some v)) ]

  unfoldable pub map_swap : K → V → V → Map → Bool × Map
  map_swap k old new m = if holds vs m k old then (true, update dec m k (some new)) else (false, m)

  unfoldable pub map_delete : K → V → Map → Bool × Map
  map_delete k old m = if holds vs m k old then (true, update dec m k none) else (false, m)

  -- A store that is the map `m`: what its operations return is what the map's do, without error,
  -- and they leave stores that are the maps left.
  pub record Refines {T : Type 0} (is_map : StateStore K V T → Map → Type 0) : Type 0 where
    pub loads :
        (k : K) (s : StateStore K V T) (m : Map)
        → is_map s m
        → ((store_load k s).0 ≡ (m k, none)) × is_map (store_load k s).1 m
    pub inserts :
        (k : K) (v : V) (s : StateStore K V T) (m : Map)
        → is_map s m
        → ((store_insert_if_absent k v s).0 ≡ ((map_insert k v m).0, none))
          × is_map (store_insert_if_absent k v s).1 (map_insert k v m).1
    pub swaps :
        (k : K) (old new : V) (s : StateStore K V T) (m : Map)
        → is_map s m
        → ((store_compare_and_swap vs k old new s).0 ≡ ((map_swap k old new m).0, none))
          × is_map (store_compare_and_swap vs k old new s).1 (map_swap k old new m).1
    pub deletes :
        (k : K) (old : V) (s : StateStore K V T) (m : Map)
        → is_map s m
        → ((store_compare_and_delete vs k old s).0 ≡ ((map_delete k old m).0, none))
          × is_map (store_compare_and_delete vs k old s).1 (map_delete k old m).1

  -- The store of `NewInMemoryStore`, by its contents.
  abbrev pub IsMemory : StateStore K V Map → Map → Type 0
  IsMemory s m = s ≡ cas_impl (in_mem_store dec vs) m

  memory-inserts :
      (k : K) (v : V) (m : Map)
      → store_insert_if_absent k v (cas_impl (in_mem_store dec vs) m)
        ≡ (((map_insert k v m).0, none), cas_impl (in_mem_store dec vs) (map_insert k v m).1)
  unfolding store_insert_if_absent match_store in_mem_store map_insert
  memory-inserts k v m = elim (Option-cases (m k)) [
    | inl e ↦ rw (e, map_insert)
    | inr (c, e) ↦ rw (e, map_insert)
  ]

  memory-swaps :
      (k : K) (old new : V) (m : Map)
      → store_compare_and_swap vs k old new (cas_impl (in_mem_store dec vs) m) ≡ (
        ((map_swap k old new m).0, none),
        cas_impl (in_mem_store dec vs) (map_swap k old new m).1,
      )
  unfolding store_compare_and_swap match_store in_mem_store map_swap
  memory-swaps k old new m = elim (Bool-cases (holds vs m k old)) [ inl e ↦ rw e | inr e ↦ rw e ]

  memory-deletes :
      (k : K) (old : V) (m : Map)
      → store_compare_and_delete vs k old (cas_impl (in_mem_store dec vs) m)
        ≡ (((map_delete k old m).0, none), cas_impl (in_mem_store dec vs) (map_delete k old m).1)
  unfolding store_compare_and_delete match_store in_mem_store map_delete
  memory-deletes k old m = elim (Bool-cases (holds vs m k old)) [ inl e ↦ rw e | inr e ↦ rw e ]

  -- The in-memory store is the atomic map.
  pub in_mem_store-Refines : Refines IsMemory
  unfolding store_load settle match_store in_mem_store
  in_mem_store-Refines = record {
    loads = λ k s m e. rw e (refl, refl);
    inserts = λ k v s m e. rw (e, memory-inserts k v m) (refl, refl);
    swaps = λ k old new s m e. rw (e, memory-swaps k old new m) (refl, refl);
    deletes = λ k old s m e. rw (e, memory-deletes k old m) (refl, refl);
  }

  -- What is assumed of a `SetStore`: it holds a map, and it reads and writes without errors.
  pub record LawfulSet {T : Type 0} (ops : SetStore K V T) (view : T → Map) : Type 0 where
    pub get_found : (k : K) (t : T) → (ops.get k t).0 ≡ (view t k, none)
    pub get_kept : (k : K) (t : T) → view (ops.get k t).1 ≡ view t
    pub set_view : (k : K) (v : V) (t : T) → view (ops.set k v t).1 ≡ update dec (view t) k (some v)
    pub delete_view : (k : K) (t : T) → view (ops.delete k t).1 ≡ update dec (view t) k none

  abbrev pub Models : {T : Type 0} → SetStore K V T → (T → Map) → StateStore K V T → Map → Type 0
  Models {T} ops view s m = (t : T) × (s ≡ set_impl ops t) × (view t ≡ m)

  set-inserts :
      {T : Type 0} (ops : SetStore K V T) (view : T → Map) (k : K) (v : V) (t : T)
      → LawfulSet ops view
      → ((store_insert_if_absent k v (set_impl ops t)).0 ≡ ((map_insert k v (view t)).0, none))
        × Models ops view
            (store_insert_if_absent k v (set_impl ops t)).1
            (map_insert k v (view t)).1
  unfolding store_insert_if_absent match_store map_insert act_if_absent
  set-inserts ops view k v t l = elim (Option-cases (view t k)) [
    | inl e ↦
        rw (l.get_found k t, e, map_insert)
          (refl, (_, refl, rw (l.set_view k v (ops.get k t).1, l.get_kept k t)))
    | inr (c, e) ↦ rw (l.get_found k t, e, map_insert) (refl, (_, refl, l.get_kept k t))
  ]

  -- `Equals` is `==` on values that bring no `Equals` of their own and have one type.
  abbrev pub PlainValues : Type 0
  PlainValues = (i j : V) → equals vs i j ≡ vs.same i j

  set-acts :
      {T : Type 0} (ops : SetStore K V T) (view : T → Map) (k : K) (old : V) (o : Option V)
      (act : T → Option Err × T) (t : T)
      → LawfulSet ops view
      → PlainValues
      → ((u : T) → view u ≡ view t → view (act u).1 ≡ update dec (view t) k o)
      → ((if_current vs k old act ops t).0 ≡ (holds vs (view t) k old, none))
        × (view (if_current vs k old act ops t).1
            ≡ (if holds vs (view t) k old then update dec (view t) k o else view t))
  unfolding if_current act_if
  set-acts ops view k old o act t l plain acts = elim (Option-cases (view t k)) [
    | inl e ↦ rw (l.get_found k t, holds, e) (refl, l.get_kept k t)
    | inr (c, e) ↦
        rw (l.get_found k t, holds, e, plain c old)
          (elim (Bool-cases (vs.same c old)) [
            | inl yes_ ↦ rw yes_ (refl, acts (ops.get k t).1 (l.get_kept k t))
            | inr no_ ↦ rw no_ (refl, l.get_kept k t)
          ])
  ]

  swap_shape :
      {T : Type 0} (ops : SetStore K V T) (view : T → Map) (t : T) (r : Done × T) (b : Bool)
      (m : Map)
      → r.0 ≡ (b, none)
      → view r.1 ≡ (if b then m else view t)
      → let p : Bool × Map = if b then (true, m) else (false, view t) in
        (r.0 ≡ (p.0, none)) × Models ops view (set_impl ops r.1) p.1
  swap_shape ops view t r true m e v = (e, (r.1, refl, v))
  swap_shape ops view t r false m e v = (e, (r.1, refl, v))

  -- A `SetStore` that holds a map without errors is the atomic map too, for plain values.
  pub set_store-Refines :
      {T : Type 0} (ops : SetStore K V T) (view : T → Map)
      → LawfulSet ops view
      → PlainValues
      → Refines (Models ops view)
  unfolding store_load settle match_store store_compare_and_swap store_compare_and_delete map_swap
      map_delete
  set_store-Refines ops view l plain = record {
    loads = λ k s m (t, e, v).
        rw (e, l.get_found k t, v) (refl, ((ops.get k t).1, refl, l.get_kept k t ∙ v));
    inserts = λ k x s m (t, e, v). rw (e, ← v) (set-inserts ops view k x t l);
    swaps = λ k old new s m (t, e, v).
        rw (e, ← v)
          (let (done, left) =
              set-acts ops view k old (some new) (ops.set k new) t l plain
                (λ u same. l.set_view k new u ∙ ap (λ w. update dec w k (some new)) same) in
            swap_shape ops view t (if_current vs k old (ops.set k new) ops t)
              (holds vs (view t) k old) _ done left);
    deletes = λ k old s m (t, e, v).
        rw (e, ← v)
          (let (done, left) =
              set-acts ops view k old none (ops.delete k) t l plain
                (λ u same. l.delete_view k u ∙ ap (λ w. update dec w k none) same) in
            swap_shape ops view t (if_current vs k old (ops.delete k) ops t)
              (holds vs (view t) k old) _ done left);
  }
