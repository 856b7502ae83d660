-- ===== src/Combinators/Merge/Order.antt =====
-- `MergeEffect` keeps the order of each source and closes the sink last.
use effect_ive_go.Base.{
  ℕ, zero, suc, ◌≡◌, refl, ◌⊎◌, inl, inr, true, false, some, List, [], ◌∷◌, map, ◌==◌, Bool-cases,
  arith, get_elem?,
}
use effect_ive_go.Combinators.Merge.Ending.{can_close}
use effect_ive_go.Combinators.Merge.{
  Worker, Merging, new_worker, merge_effect, AllEnded, Step, pass, give_up, source_closed, close,
  Reach, here, next, only,
}
use effect_ive_go.Combinators.Merge.Children.{
  ServedAt, pass-Served, give_up-Served, source_closed-Served, set_here, set_there, same-Served,
  only_here, only_there,
}

get_elem?-map {ℓ κ} :
    {A : Type ℓ} {B : Type κ} (f : A → B) (xs : List A) (i : ℕ) (x : A)
    → get_elem? xs i ≡ some x
    → get_elem? (map f xs) i ≡ some (f x)
get_elem?-map f [] i x e = cc e
get_elem?-map f (y ∷ xs) zero x e = ground (arith, e)
get_elem?-map f (y ∷ xs) (suc i) x e = get_elem?-map f xs i x e

module _ {T : Type 0} where
  Step-ServedAt :
      (i : ℕ) (source : List T) (s t : Merging T)
      → Step s t
      → ServedAt i source s
      → ServedAt i source t
  Step-ServedAt i source s t (pass j w v vs at e f) (u, (h, served)) = elim (Bool-cases (j == i)) [
    | inl same ↦
        let own = same-Served source (only i s.sink) s.workers j i w u at h same served in
        (
          record w { left = vs },
          (
            set_here s.workers j i _ u h same,
            rw (only_here s.sink j i v same) (pass-Served source (only i s.sink) w v vs own e f),
          ),
        )
    | inr other ↦
        (u, (set_there s.workers j i _ u h other, rw (only_there s.sink j i v other) served))
  ]
  Step-ServedAt i source s t (give_up j w v vs at e f) (u, (h, served)) =
      elim (Bool-cases (j == i)) [
        | inl same ↦
            let own = same-Served source (only i s.sink) s.workers j i w u at h same served in
            (
              record { left = vs; dropped = v ∷ []; ended = true },
              (
                set_here s.workers j i _ u h same,
                give_up-Served source (only i s.sink) w v vs own e f,
              ),
            )
        | inr other ↦ (u, (set_there s.workers j i _ u h other, served))
      ]
  Step-ServedAt i source s t (source_closed j w at e f) (u, (h, served)) =
      elim (Bool-cases (j == i)) [
        | inl same ↦
            let own = same-Served source (only i s.sink) s.workers j i w u at h same served in
            (
              record w { ended = true },
              (
                set_here s.workers j i _ u h same,
                source_closed-Served source (only i s.sink) w own e f,
              ),
            )
        | inr other ↦ (u, (set_there s.workers j i _ u h other, served))
      ]
  Step-ServedAt i source s t (close a e) v = v

  start-ServedAt :
      (sources : List (List T)) (i : ℕ) (source : List T)
      → get_elem? sources i ≡ some source
      → ServedAt i source (merge_effect sources)
  unfolding merge_effect
  start-ServedAt sources i source e = (
    new_worker source,
    (
      get_elem?-map new_worker sources i source e,
      record { in_order = refl; ending = inl (refl, refl) },
    ),
  )

  Reach-ServedAt :
      (i : ℕ) (source : List T) (s t : Merging T)
      → Reach s t
      → ServedAt i source s
      → ServedAt i source t
  Reach-ServedAt i source s t here v = v
  Reach-ServedAt i source s t (next u _ r step) v =
      Step-ServedAt i source u t step (Reach-ServedAt i source s u r v)

  AllEnded-get_elem? :
      (ws : List (Worker T)) (i : ℕ) (w : Worker T)
      → AllEnded ws
      → get_elem? ws i ≡ some w
      → w.ended ≡ true
  AllEnded-get_elem? [] i w a e = cc e
  AllEnded-get_elem? (x ∷ ws) zero w a e = let same : x ≡ w = cc e in rw (← same) a.0
  AllEnded-get_elem? (x ∷ ws) (suc i) w a e = AllEnded-get_elem? ws i w a.1 e

  -- The sink is closed after all children have returned, so nobody sends to it any more.
  abbrev pub ClosedLast : Merging T → Type 0
  ClosedLast s = (s.closed ≡ false) ⊎ AllEnded s.workers

  idle :
      (s : Merging T) (i : ℕ) (w : Worker T)
      → get_elem? s.workers i ≡ some w
      → w.ended ≡ false
      → ClosedLast s
      → s.closed ≡ false
  idle s i w at e c = elim c [ inl o ↦ o | inr a ↦ cc (e, AllEnded-get_elem? s.workers i w a at) ]

  Step-ClosedLast : (s t : Merging T) → Step s t → ClosedLast s → ClosedLast t
  Step-ClosedLast s t (pass i w v vs at e f) c = inl (idle s i w at e c)
  Step-ClosedLast s t (give_up i w v vs at e f) c = inl (idle s i w at e c)
  Step-ClosedLast s t (source_closed i w at e f) c = inl (idle s i w at e c)
  Step-ClosedLast s t (close a e) c = inr a

  Reach-ClosedLast : (s t : Merging T) → Reach s t → ClosedLast s → ClosedLast t
  Reach-ClosedLast s t here c = c
  Reach-ClosedLast s t (next u _ r step) c = Step-ClosedLast u t step (Reach-ClosedLast s u r c)

  -- Whatever the order of the children's steps, the values of each source reach the sink in their
  -- order from the front on, with at most one value lost to the end of the context; a child that
  -- returned sent its whole source or lost a value; when the sink is closed, every child has
  -- returned; and there are always steps, if the sources close, after which it is closed.
  pub merge_effect-Served :
      (sources : List (List T)) (i : ℕ) (source : List T) (s : Merging T)
      → get_elem? sources i ≡ some source
      → Reach (merge_effect sources) s
      → ServedAt i source s × ClosedLast s × ((t : Merging T) × (Reach s t × (t.closed ≡ true)))
  unfolding merge_effect
  merge_effect-Served sources i source s e r = (
    Reach-ServedAt i source (merge_effect sources) s r (start-ServedAt sources i source e),
    Reach-ClosedLast (merge_effect sources) s r (inl refl),
    can_close s,
  )
