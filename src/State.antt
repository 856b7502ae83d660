-- ===== src/State.antt =====
-- effects/state: payloads, stores and the handler's own data (type.go, helpers.go, the struct of
-- state.go and its four store operations). `K` and `V` are the key and value types of one stack of
-- handlers, `T` is what a store keeps.
pub mod Delegate
pub mod Handler
pub mod Stack
pub mod Tiers
pub mod Memory
pub mod Single
pub mod Stores
pub mod Overlay
pub mod Expiry
pub mod Fades
pub mod Events
mod Tests
use effect_ive_go.Base.{
  ℕ, ◌==◌, Bool, true, false, not, Option, none, some, List, if◌then◌else◌, ite,
}
use effect_ive_go.Helper.{Err}

-- What Go's reflection, the `Equatable` interface and `==` say of the values.
pub record Values (V : Type 0) : Type 0 where
  pub type_of : V → ℕ
  pub equatable : V → Option (V → Bool)
  pub same : V → V → Bool  -- `==`

-- `Equals` of type.go
unfoldable pub equals : {V : Type 0} → Values V → V → V → Bool
equals vs i j =
    if not (vs.type_of i == vs.type_of j)
    then false
    else (elim (vs.equatable i) [ some own ↦ own j | none ↦ vs.same i j ])

pub data Payload (K V : Type 0) : Type 0 where
  set_ttl : K → ℕ → Payload K V
  reset_ttl : K → ℕ → Payload K V
  load : K → Payload K V
  load_wo_delegation : K → Payload K V
  compare_and_delete : (key : K) (old : V) → Payload K V
  insert_if_absent : (key : K) (new : V) → Payload K V
  compare_and_swap : (key : K) (old new : V) → Payload K V
  source : Payload K V

-- `(bool, error)` and `(value any, ok bool, err error)`
abbrev pub Done : Type 0
Done = Bool × Option Err

abbrev pub Found : Type 0 → Type 0
Found V = Option V × Option Err

-- The two interfaces that a store implements.
pub record CasStore (K V T : Type 0) : Type 0 where
  pub load : K → T → Found V × T
  pub insert_if_absent : K → V → T → Done × T
  pub compare_and_swap : K → V → V → T → Done × T
  pub compare_and_delete : K → V → T → Done × T

pub record SetStore (K V T : Type 0) : Type 0 where
  pub get : K → T → Found V × T
  pub set : K → V → T → Option Err × T
  pub delete : K → T → Option Err × T

pub data StateStore (K V T : Type 0) : Type 0 where
  cas_impl : CasStore K V T → T → StateStore K V T
  set_impl : SetStore K V T → T → StateStore K V T

-- With an error the value is the zero value and `ok` is false.
unfoldable pub settle : {V : Type 0} → Found V → Found V
settle (v, some e) = (none, some e)
settle (v, none) = (v, none)

module _ {V T : Type 0} where
  -- What follows a `Get` in a compare-and-swap or -delete: the comparison, and then `act`, whose
  -- error is not looked at.
  unfoldable pub act_if : Values V → V → (T → Option Err × T) → Found V → T → Done × T
  act_if vs old act (cur, some e) t = ((false, some e), t)
  act_if vs old act (none, none) t = ((false, none), t)
  act_if vs old act (some c, none) t =
      if not (equals vs c old) then ((false, none), t) else ((true, none), (act t).1)

  unfoldable pub act_if_absent : (T → Option Err × T) → Found V → T → Done × T
  act_if_absent act (cur, some e) t = ((false, some e), t)
  act_if_absent act (some c, none) t = ((false, none), t)
  act_if_absent act (none, none) t = ((true, none), (act t).1)

module _ {K V T : Type 0} where
  -- `matchStore`; the interface is sealed, so the panic of its `default` is never reached.
  unfoldable pub match_store {ℓ} :
      {R : Type ℓ}
      → StateStore K V T
      → (CasStore K V T → T → R × T)
      → (SetStore K V T → T → R × T)
      → R × StateStore K V T
  match_store (cas_impl ops t) cas_callback set_callback =
      let (r, t') = cas_callback ops t in (r, cas_impl ops t')
  match_store (set_impl ops t) cas_callback set_callback =
      let (r, t') = set_callback ops t in (r, set_impl ops t')

  module _ (vs : Values V) where
    unfoldable pub if_current : K → V → (T → Option Err × T) → SetStore K V T → T → Done × T
    unfolding act_if
    if_current k old act ops t = let r = ops.get k t in act_if vs old act r.0 r.1

    unfoldable pub store_compare_and_swap : K → V → V → StateStore K V T → Done × StateStore K V T
    unfolding match_store if_current
    store_compare_and_swap k old new store =
        match_store store (λ ops t. ops.compare_and_swap k old new t)
          (λ ops t. if_current k old (ops.set k new) ops t)

    unfoldable pub store_compare_and_delete : K → V → StateStore K V T → Done × StateStore K V T
    unfolding match_store if_current
    store_compare_and_delete k old store =
        match_store store (λ ops t. ops.compare_and_delete k old t)
          (λ ops t. if_current k old (ops.delete k) ops t)

  unfoldable pub store_insert_if_absent : K → V → StateStore K V T → Done × StateStore K V T
  unfolding match_store act_if_absent
  store_insert_if_absent k v store =
      match_store store (λ ops t. ops.insert_if_absent k v t)
        (λ ops t. let r = ops.get k t in act_if_absent (ops.set k v) r.0 r.1)

  unfoldable pub store_load : K → StateStore K V T → Found V × StateStore K V T
  unfolding match_store settle
  store_load k store =
      match_store store (λ ops t. let (r, t') = ops.load k t in (settle r, t'))
        (λ ops t. let (r, t') = ops.get k t in (settle r, t'))

-- `inMemStore`: a `sync.Map` is a function from keys.
module _ {K V : Type 0} (dec : Discrete K) where
  abbrev pub update : (K → Option V) → K → Option V → K → Option V
  update m k o q = ite (dec k q) o (m q)

module _ {K V : Type 0} (vs : Values V) where
  abbrev pub holds : (K → Option V) → K → V → Bool
  holds m k old = elim (m k) [ some cur ↦ vs.same cur old | none ↦ false ]

module _ {K V : Type 0} (dec : Discrete K) (vs : Values V) where
  unfoldable pub in_mem_store : CasStore K V (K → Option V)
  in_mem_store = record {
    load = λ k m. ((m k, none), m);
    insert_if_absent = λ k v m. elim (m k) [
      | some _ ↦ ((false, none), m)
      | none ↦ ((true, none), update dec m k (some v))
    ];
    compare_and_swap = λ k old new m.
        if holds vs m k old then ((true, none), update dec m k (some new)) else ((false, none), m);
    compare_and_delete = λ k old m.
        if holds vs m k old then ((true, none), update dec m k none) else ((false, none), m);
  }

  unfoldable pub new_in_memory_store : StateStore K V (K → Option V)
  unfolding in_mem_store
  new_in_memory_store = cas_impl in_mem_store (λ k. none)
