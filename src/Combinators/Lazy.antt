-- ===== src/Combinators/Lazy.antt =====
-- What `LazyFilterEffect`'s child passes on, while its context lives.
use effect_ive_go.Base.{ℕ, ◌+◌, ◌≡◌, inl, inr, Bool, true, false, List, [], ◌∷◌, Bool-cases}
use effect_ive_go.Combinators.{
  TryPick, sent_now, saw_done, not_ready, Relayed, poll_to_produce, lazy_filter_effect,
}

-- The context is not seen as done by any select.
abbrev pub Lives : List TryPick → Type 0
Lives [] = Unit
Lives (saw_done ∷ picks) = ⊥
Lives (_ ∷ picks) = Lives picks

module _ {T : Type 0} (predicate : ℕ → T → Bool) (closes : Bool) where
  -- The fates of a source's values from a call of the predicate on, by what the tries to send find:
  -- before every try there is a call on the value of its own, and only after one that holds is the
  -- value tried.
  pub data Fates : ℕ → List T → List TryPick → Relayed T T → Type 0 where
    over :
        (calls : ℕ) (picks : List TryPick)
        → Fates calls [] picks (record { sent = []; unread = []; sink_closed = closes })
    left_out :
        (calls : ℕ) (v : T) (source : List T) (picks : List TryPick) (r : Relayed T T)
        → predicate calls v ≡ false
        → Fates (calls + 1) source picks r
        → Fates calls (v ∷ source) picks r
    passed :
        (calls : ℕ) (v : T) (source : List T) (picks : List TryPick) (r : Relayed T T)
        → predicate calls v ≡ true
        → Fates (calls + 1) source picks r
        → Fates calls (v ∷ source) (sent_now ∷ picks) (record r { sent = v ∷ r.sent })
    blocked :
        (calls : ℕ) (v : T) (source : List T) (picks : List TryPick) (r : Relayed T T)
        → predicate calls v ≡ true
        → Fates (calls + 1) (v ∷ source) picks r
        → Fates calls (v ∷ source) (not_ready ∷ picks) r
    held_back :
        (calls : ℕ) (v : T) (source : List T)
        → predicate calls v ≡ true
        → Fates calls (v ∷ source) [] (record { sent = []; unread = source; sink_closed = false })

  tried-Fates :
      (v : T) (source : List T) (calls : ℕ) (picks : List TryPick)
      → ((calls' : ℕ) (rest : List TryPick)
          → Lives rest
          → Fates calls' source rest (lazy_filter_effect predicate closes calls' source rest))
      → Lives picks
      → Fates calls
          (v ∷ source)
          picks
          (lazy_filter_effect predicate closes calls (v ∷ source) picks)
  unfolding lazy_filter_effect poll_to_produce
  tried-Fates v source calls [] later l = elim (Bool-cases (predicate calls v)) [
    | inl e ↦ rw (lazy_filter_effect, e) (held_back calls v source e)
    | inr e ↦ rw (lazy_filter_effect, e) (left_out calls v source [] _ e (later (calls + 1) [] l))
  ]
  tried-Fates v source calls (sent_now ∷ picks) later l = elim (Bool-cases (predicate calls v)) [
    | inl e ↦
        rw (lazy_filter_effect, e) (passed calls v source picks _ e (later (calls + 1) picks l))
    | inr e ↦
        rw (lazy_filter_effect, e)
          (left_out calls v source (sent_now ∷ picks) _ e (later (calls + 1) (sent_now ∷ picks) l))
  ]
  tried-Fates v source calls (not_ready ∷ picks) later l = elim (Bool-cases (predicate calls v)) [
    | inl e ↦
        rw (lazy_filter_effect, e)
          (blocked calls v source picks _ e (tried-Fates v source (calls + 1) picks later l))
    | inr e ↦
        rw (lazy_filter_effect, e)
          (left_out calls v source (not_ready ∷ picks) _ e
            (later (calls + 1) (not_ready ∷ picks) l))
  ]
  tried-Fates v source calls (saw_done ∷ picks) later l = absurd l

  -- While its context lives, a lazy filter sends the values of its source in their order. Every
  -- time that it tries to send a value it has just called the predicate on it, and the call held; a
  -- value is left out at a call that does not hold, also one after tries that found the sink not
  -- ready. It closes its sink when the source closes, and does not receive a value while it still
  -- polls the one before.
  pub lazy_filter_effect-Fates :
      (calls : ℕ) (source : List T) (picks : List TryPick)
      → Lives picks
      → Fates calls source picks (lazy_filter_effect predicate closes calls source picks)
  unfolding lazy_filter_effect
  lazy_filter_effect-Fates calls [] picks l = over calls picks
  lazy_filter_effect-Fates calls (v ∷ source) picks l =
      tried-Fates v source calls picks
        (λ calls' rest l'. lazy_filter_effect-Fates calls' source rest l') l
