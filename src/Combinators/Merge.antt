-- ===== src/Combinators/Merge.antt =====
-- effects/stream/stream.go: `MergeEffect`, with a child for each source and one that closes the
-- sink after the closing function of the local concurrency handler has waited for them.
pub mod Children
pub mod Ending
pub mod Order
use mathlib.Core.List.{append-nil, append_assoc}
use effect_ive_go.Base.{
  ℕ, zero, suc, ◌+◌, ◌≡◌, ◌≢◌, refl, ap, sym, ◌∙◌, ◌⊎◌, inl, inr, Bool, true, false, Option, none,
  some, List, [], ◌∷◌, ◌++◌, map, ◌==◌, if◌then◌else◌, Bool-cases, arith, length, get_elem?, set,
  get_elem?-set_at, subst,
}

-- The child of a source: the values to come, the one that it had received when it saw the end of
-- the context, if it did, and whether it returned.
pub record Worker (T : Type 0) : Type 0 where
  pub left : List T
  pub dropped : List T
  pub ended : Bool

-- The values of the sink stand with the number of their source.
pub record Merging (T : Type 0) : Type 0 where
  pub workers : List (Worker T)
  pub sink : List (ℕ × T)
  pub closed : Bool

module _ {T : Type 0} where
  abbrev pub new_worker : List T → Worker T
  new_worker source = record { left = source; dropped = []; ended = false }

  -- `MergeEffect`, when its children were spawned.
  unfoldable pub merge_effect : List (List T) → Merging T
  merge_effect sources = record { workers = map new_worker sources; sink = []; closed = false }

  -- What `wg.Wait` waits for.
  abbrev pub AllEnded : List (Worker T) → Type 0
  AllEnded [] = Unit
  AllEnded (w ∷ ws) = (w.ended ≡ true) × AllEnded ws

  -- The steps of the children; a source may close after its last value, or never.
  pub data Step (s : Merging T) : Merging T → Type 0 where
    pass :
        (i : ℕ) (w : Worker T) (v : T) (vs : List T)
        → get_elem? s.workers i ≡ some w
        → w.ended ≡ false
        → w.left ≡ v ∷ vs
        → Step s (record s {
          workers = set s.workers i (record w { left = vs });
          sink = s.sink ++ (i, v) ∷ [];
        })
    give_up :
        (i : ℕ) (w : Worker T) (v : T) (vs : List T)
        → get_elem? s.workers i ≡ some w
        → w.ended ≡ false
        → w.left ≡ v ∷ vs
        → Step s (record s {
          workers = set s.workers i (record { left = vs; dropped = v ∷ []; ended = true });
        })
    source_closed :
        (i : ℕ) (w : Worker T)
        → get_elem? s.workers i ≡ some w
        → w.ended ≡ false
        → w.left ≡ []
        → Step s (record s { workers = set s.workers i (record w { ended = true }) })
    close : AllEnded s.workers → s.closed ≡ false → Step s (record s { closed = true })

  pub data Reach (s : Merging T) : Merging T → Type 0 where
    here : Reach s s
    next : (t u : Merging T) → Reach s t → Step t u → Reach s u

  -- The values of one source in the sink.
  abbrev pub only : ℕ → List (ℕ × T) → List T
  only i [] = []
  only i ((j, v) ∷ sink) = if j == i then v ∷ only i sink else only i sink
