-- ===== src/Combinators/Tests.antt =====
-- The combinators on short sources.
use effect_ive_go.Base.{ℕ, zero, suc, ◌+◌, ◌≡◌, refl, ◌⊎◌, Bool, true, false, [], ◌∷◌, ltb, List}
use effect_ive_go.Combinators.{
  taken, context_done, Picks, TryPick, lazy_filter_effect, sent_now, not_ready, saw_done,
}
use effect_ive_go.Combinators.Lazy.{Fates, lazy_filter_effect-Fates}
use effect_ive_go.Combinators.Pipeline.{Relays, SomeDone, pipeline, pipeline-Relays}
use effect_ive_go.Combinators.Merge.{Merging, merge_effect, pass, give_up, Reach, here, next}
use effect_ive_go.Combinators.Merge.Children.{ServedAt}
use effect_ive_go.Combinators.Merge.Order.{ClosedLast, merge_effect-Served}

-- Holds from the second call on.
abbrev later_small : ℕ → ℕ → Bool
later_small zero v = false
later_small (suc n) v = ltb v 4

-- Two tries that would block, and then one that sends.
abbrev tries : List TryPick
tries = not_ready ∷ sent_now ∷ not_ready ∷ []

lazy_filter_effect-Fates_example :
    Fates later_small true 0
      (1 ∷ 2 ∷ 7 ∷ 3 ∷ [])
      tries
      (lazy_filter_effect later_small true 0 (1 ∷ 2 ∷ 7 ∷ 3 ∷ []) tries)
lazy_filter_effect-Fates_example =
    lazy_filter_effect-Fates later_small true 0 (1 ∷ 2 ∷ 7 ∷ 3 ∷ []) tries tt

abbrev always : Picks
always n = taken

-- The second select sees the end of the context.
abbrev done_second : Picks
done_second zero = taken
done_second (suc zero) = context_done
done_second (suc (suc n)) = taken

abbrev small : ℕ → Bool
small n = ltb n 4

pipeline-Relays_example :
    Relays
      (1 ∷ 2 ∷ 3 ∷ [])
      true
      ((SomeDone always ⊎ SomeDone done_second) ⊎ SomeDone always)
      (pipeline (λ n. n + 1) small true (0 ∷ 1 ∷ 2 ∷ 7 ∷ []) always done_second always).sent
      (pipeline (λ n. n + 1) small true (0 ∷ 1 ∷ 2 ∷ 7 ∷ []) always done_second always).sink_closed
pipeline-Relays_example =
    pipeline-Relays (λ n. n + 1) small true (0 ∷ 1 ∷ 2 ∷ 7 ∷ []) always done_second always

-- After the end of its context, the lazy filter still takes values, and may send them.
lazy_after_done :
    lazy_filter_effect {T = ℕ}
      (λ n v. true)
      true
      0
      (5 ∷ 6 ∷ [])
      (not_ready ∷ saw_done ∷ sent_now ∷ [])
    ≡ record { sent = 6 ∷ []; unread = []; sink_closed = true }
unfolding lazy_filter_effect
lazy_after_done = refl

-- The second source first, and then the end of the context, seen by the first source's child.
abbrev merged : Merging ℕ
merged = record {
  workers =
      record { left = []; dropped = 1 ∷ []; ended = true }
      ∷ record { left = 9 ∷ []; dropped = []; ended = false }
      ∷ [];
  sink = (1, 8) ∷ [];
  closed = false;
}

merge_run : Reach (merge_effect ((1 ∷ []) ∷ (8 ∷ 9 ∷ []) ∷ [])) merged
unfolding merge_effect
merge_run =
    next _ _ (next _ _ here (pass 1 _ 8 (9 ∷ []) refl refl refl)) (give_up 0 _ 1 [] refl refl refl)

merge_effect-Served_example :
    ServedAt 1 (8 ∷ 9 ∷ []) merged
    × ClosedLast merged
    × ((t : Merging ℕ) × (Reach merged t × (t.closed ≡ true)))
merge_effect-Served_example =
    merge_effect-Served ((1 ∷ []) ∷ (8 ∷ 9 ∷ []) ∷ []) 1 (8 ∷ 9 ∷ []) merged refl merge_run
