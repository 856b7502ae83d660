-- ===== src/Concurrency/Await.antt =====
-- effects/concurrency/helpers.go: `AwaitAll`.
--
-- Each task has one child of a concurrency handler, which writes at the task's index of two arrays;
-- the deferred closing function waits for the children, so `order`, the tasks whose child runs its
-- select, in the order in which they take a case, is complete when the caller sees the arrays. A
-- child that panics is recovered from by the supervisor. `cast` is the assertion to `T`; nil is
-- `none`.
use effect_ive_go.Base.{
  ℕ, zero, suc, ◌<◌, ◌≡◌, refl, Option, none, some, List, [], ◌∷◌, ◌==◌, if◌then◌else◌, get_elem?,
  set, arith, is_member, make_slice, Bool-cases, Option-cases, inl, inr, get_elem?-set_at, ap,
  get_elem?-make_slice,
}

-- What a child's select takes: a `ResumableResult`, the end of the task's channel, or the end of
-- the child's context, with its error.
pub data Arrival (D E : Type 0) : Type 0 where
  result : Option D → Option E → Arrival D E
  channel_closed : Arrival D E
  context_done : E → Arrival D E

pub record Arrays (T E : Type 0) : Type 0 where
  pub results : List T
  pub errors : List (Option E)

-- The element `j` of both arrays.
pub record HasAt {T E : Type 0} (a : Arrays T E) (j : ℕ) (t : T) (err : Option E) : Type 0 where
  pub value : get_elem? a.results j ≡ some t
  pub error : get_elem? a.errors j ≡ some err

-- The writes of a child after the assertion, which panics before both.
unfoldable pub write_result : {T E : Type 0} → ℕ → Option T → Option E → Arrays T E → Arrays T E
write_result i none err a = a
write_result i (some t) err a = record { results = set a.results i t; errors = set a.errors i err }

module _ {D T E : Type 0} (cast : Option D → Option T) where
  -- `awaitThunkOf`.
  unfoldable pub await_thunk_of : ℕ → Arrival D E → Arrays T E → Arrays T E
  unfolding write_result
  await_thunk_of i (result v err) a = write_result i (cast v) err a
  await_thunk_of i channel_closed a = a
  await_thunk_of i (context_done err) a = record a { errors = set a.errors i (some err) }

  unfoldable pub run_children : List ℕ → (ℕ → Arrival D E) → Arrays T E → Arrays T E
  unfolding await_thunk_of
  run_children [] task a = a
  run_children (i ∷ order) task a = run_children order task (await_thunk_of i (task i) a)

  -- `AwaitAll`; without tasks it returns nil slices.
  unfoldable pub await_all : T → ℕ → List ℕ → (ℕ → Arrival D E) → Arrays T E
  unfolding run_children
  await_all zero_value zero order task = record { results = []; errors = [] }
  await_all zero_value (suc n) order task =
      run_children order task
        (record { results = make_slice (suc n) zero_value; errors = make_slice (suc n) none })

  -- What an array's element becomes by an arrival: a result that the assertion refuses leaves it as
  -- it is, and its error is lost.
  abbrev pub value_after : Arrival D E → T → T
  value_after (result v err) old = elim (cast v) [ none ↦ old | some t ↦ t ]
  value_after channel_closed old = old
  value_after (context_done err) old = old

  abbrev pub error_after : Arrival D E → Option E → Option E
  error_after (result v err) old = elim (cast v) [ none ↦ old | some t ↦ err ]
  error_after channel_closed old = old
  error_after (context_done err) old = some err

  HasAt-thunk :
      (i : ℕ) (x : Arrival D E) (a : Arrays T E) (j : ℕ) (t : T) (e : Option E)
      → HasAt a j t e
      → HasAt
          (await_thunk_of i x a)
          j
          (if i == j then value_after x t else t)
          (if i == j then error_after x e else e)
  unfolding await_thunk_of write_result
  HasAt-thunk i (result v err) a j t e h = elim (Option-cases (cast v)) [
    | inl n ↦ record { value = ground (arith, n, h.value); error = ground (arith, n, h.error) }
    | inr (u, s) ↦ record {
      value = ground (arith, s, get_elem?-set_at a.results i j u t h.value);
      error = ground (arith, s, get_elem?-set_at a.errors i j err e h.error);
    }
  ]
  HasAt-thunk i channel_closed a j t e h = record {
    value = ground (arith, h.value);
    error = ground (arith, h.error);
  }
  HasAt-thunk i (context_done err) a j t e h = record {
    value = ground (arith, h.value);
    error = ground (arith, get_elem?-set_at a.errors i j (some err) e h.error);
  }

  value_after_twice : (x : Arrival D E) (t : T) → value_after x (value_after x t) ≡ value_after x t
  value_after_twice (result v err) t = elim (Option-cases (cast v)) [
    | inl n ↦ ground (arith, n)
    | inr (u, s) ↦ ground (arith, s)
  ]
  value_after_twice channel_closed t = refl
  value_after_twice (context_done err) t = refl

  error_after_twice :
      (x : Arrival D E) (e : Option E) → error_after x (error_after x e) ≡ error_after x e
  error_after_twice (result v err) e = elim (Option-cases (cast v)) [
    | inl n ↦ ground (arith, n)
    | inr (u, s) ↦ ground (arith, s)
  ]
  error_after_twice channel_closed e = refl
  error_after_twice (context_done err) e = refl

  HasAt-run :
      (order : List ℕ) (task : ℕ → Arrival D E) (a : Arrays T E) (j : ℕ) (t : T) (e : Option E)
      → HasAt a j t e
      → HasAt
          (run_children order task a)
          j
          (if is_member j order then value_after (task j) t else t)
          (if is_member j order then error_after (task j) e else e)
  unfolding run_children
  HasAt-run [] task a j t e h = h
  HasAt-run (i ∷ order) task a j t e h =
      let now = HasAt-thunk i (task i) a j t e h in
      let rest = HasAt-run order task (await_thunk_of i (task i) a) j _ _ now in
      elim (Bool-cases (i == j)) [
        | inl same ↦
            let one : task i ≡ task j = ap task (ground arith) in
            record {
              value = ground (arith, same, one, rest.value, value_after_twice (task j) t);
              error = ground (arith, same, one, rest.error, error_after_twice (task j) e);
            }
        | inr other ↦ record {
          value = ground (arith, other, rest.value);
          error = ground (arith, other, rest.error);
        }
      ]

  -- In whatever order the children take their case, and whichever of them do, the slot of each task
  -- holds the zero value and no error, changed by what its child took and by nothing else. A result
  -- that the assertion refuses, as it does nil, changes neither: its error is lost.
  pub await_all-HasAt :
      (zero_value : T) (n : ℕ) (order : List ℕ) (task : ℕ → Arrival D E) (i : ℕ)
      → i < n
      → HasAt
          (await_all zero_value n order task)
          i
          (if is_member i order then value_after (task i) zero_value else zero_value)
          (if is_member i order then error_after (task i) none else none)
  unfolding await_all
  await_all-HasAt zero_value zero order task i lt = absurd (omega (arith, lt))
  await_all-HasAt zero_value (suc n) order task i lt =
      HasAt-run order task _ i zero_value none (record {
        value = get_elem?-make_slice (suc n) zero_value i lt;
        error = get_elem?-make_slice (suc n) none i lt;
      })
