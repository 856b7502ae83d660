-- ===== src/Combinators/Merge/Children.antt =====
-- One child of `MergeEffect`, and the values of its source in the sink.
use mathlib.Core.List.{append-nil, append_assoc}
use effect_ive_go.Base.{
  ℕ, ◌≡◌, refl, ap, sym, ◌∙◌, ◌⊎◌, inl, inr, true, false, some, List, [], ◌∷◌, ◌++◌, ◌==◌, arith,
  get_elem?, set, get_elem?-set_at, subst,
}
use effect_ive_go.Combinators.Merge.{Worker, Merging, only}

module _ {T : Type 0} where
  pub only-append : (i : ℕ) (xs ys : List (ℕ × T)) → only i (xs ++ ys) ≡ only i xs ++ only i ys
  only-append i [] ys = refl
  only-append i ((j, v) ∷ xs) ys = ground (arith, only-append i xs ys)

  -- A worker with what it sent of its source: it goes on, or the source was sent whole, or the
  -- context ended when the worker had received one more value.
  pub record Served (source sent : List T) (w : Worker T) : Type 0 where
    pub in_order : sent ++ (w.dropped ++ w.left) ≡ source
    pub ending :
        ((w.ended ≡ false) × (w.dropped ≡ []))
        ⊎ ((w.ended ≡ true) × (sent ≡ source))
        ⊎ ((w.ended ≡ true) × ((v : T) × (w.dropped ≡ v ∷ [])))

  -- The worker of source `i`.
  abbrev pub ServedAt : ℕ → List T → Merging T → Type 0
  ServedAt i source s =
      (w : Worker T) × ((get_elem? s.workers i ≡ some w) × Served source (only i s.sink) w)

  -- A worker that goes on has dropped nothing.
  pub running-dropped :
      (source sent : List T) (w : Worker T)
      → Served source sent w
      → w.ended ≡ false
      → w.dropped ≡ []
  running-dropped source sent w h e = elim h.ending [
    | inl (_, d) ↦ d
    | inr (inl (t, _)) ↦ cc (e, t)
    | inr (inr (t, _)) ↦ cc (e, t)
  ]

  pub running-order :
      (source sent : List T) (w : Worker T)
      → Served source sent w
      → w.ended ≡ false
      → sent ++ w.left ≡ source
  running-order source sent w h e =
      ap (λ d. sent ++ (d ++ w.left)) (sym (running-dropped source sent w h e)) ∙ h.in_order

  pub pass-Served :
      (source sent : List T) (w : Worker T) (v : T) (vs : List T)
      → Served source sent w
      → w.ended ≡ false
      → w.left ≡ v ∷ vs
      → Served source (sent ++ v ∷ []) (record w { left = vs })
  pass-Served source sent w v vs h e f =
      let none_dropped = running-dropped source sent w h e in
      record {
        in_order =
            ap (λ d. (sent ++ v ∷ []) ++ (d ++ vs)) none_dropped
            ∙ append_assoc sent (v ∷ []) vs
            ∙ ap (λ l. sent ++ l) (sym f)
            ∙ running-order source sent w h e;
        ending = inl (e, none_dropped);
      }

  pub give_up-Served :
      (source sent : List T) (w : Worker T) (v : T) (vs : List T)
      → Served source sent w
      → w.ended ≡ false
      → w.left ≡ v ∷ vs
      → Served source sent (record { left = vs; dropped = v ∷ []; ended = true })
  give_up-Served source sent w v vs h e f = record {
    in_order = ap (λ l. sent ++ l) (sym f) ∙ running-order source sent w h e;
    ending = inr (inr (refl, (v, refl)));
  }

  pub source_closed-Served :
      (source sent : List T) (w : Worker T)
      → Served source sent w
      → w.ended ≡ false
      → w.left ≡ []
      → Served source sent (record w { ended = true })
  source_closed-Served source sent w h e f = record {
    in_order = h.in_order;
    ending = inr (
        inl (
          refl,
          sym (append-nil sent) ∙ ap (λ l. sent ++ l) (sym f) ∙ running-order source sent w h e,
        ));
  }

  pub set_here :
      (ws : List (Worker T)) (j i : ℕ) (new u : Worker T)
      → get_elem? ws i ≡ some u
      → (j == i) ≡ true
      → get_elem? (set ws j new) i ≡ some new
  set_here ws j i new u h t = ground (arith, t, get_elem?-set_at ws j i new u h)

  pub set_there :
      (ws : List (Worker T)) (j i : ℕ) (new u : Worker T)
      → get_elem? ws i ≡ some u
      → (j == i) ≡ false
      → get_elem? (set ws j new) i ≡ some u
  set_there ws j i new u h f = ground (arith, f, get_elem?-set_at ws j i new u h)

  pub same-Served :
      (source sent : List T) (ws : List (Worker T)) (j i : ℕ) (w u : Worker T)
      → get_elem? ws j ≡ some w
      → get_elem? ws i ≡ some u
      → (j == i) ≡ true
      → Served source sent u
      → Served source sent w
  same-Served source sent ws j i w u at h t served =
      let ji : j ≡ i = ground arith in
      let both : u ≡ w = cc (at, h, ap (get_elem? ws) ji) in subst (Served source sent) both served

  pub only_here :
      (sink : List (ℕ × T)) (j i : ℕ) (v : T)
      → (j == i) ≡ true
      → only i (sink ++ (j, v) ∷ []) ≡ only i sink ++ v ∷ []
  only_here sink j i v t = ground (arith, t, only-append i sink ((j, v) ∷ []))

  pub only_there :
      (sink : List (ℕ × T)) (j i : ℕ) (v : T)
      → (j == i) ≡ false
      → only i (sink ++ (j, v) ∷ []) ≡ only i sink
  only_there sink j i v f =
      ground (arith, f, only-append i sink ((j, v) ∷ []), append-nil (only i sink))
