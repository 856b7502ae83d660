-- ===== src/Combinators/Merge/Ending.antt =====
-- `MergeEffect` can always come to its end, if its sources close.
use effect_ive_go.Base.{
  ℕ, zero, suc, ◌+◌, ◌≡◌, refl, ◌∙◌, true, false, some, List, [], ◌∷◌, ◌++◌, if◌then◌else◌,
  Bool-cases, inl, inr, arith, length, get_elem?, set,
}
use effect_ive_go.Combinators.Merge.{
  Worker, Merging, AllEnded, Step, pass, source_closed, close, Reach, here, next,
}

module _ {T : Type 0} where
  -- The steps that a child needs to return if the sink takes all its values.
  abbrev pub work_of : Worker T → ℕ
  work_of w = if w.ended then 0 else suc (length w.left)

  abbrev pub work : List (Worker T) → ℕ
  work [] = 0
  work (w ∷ ws) = work_of w + work ws

  work-zero : (ws : List (Worker T)) → work ws ≡ 0 → AllEnded ws
  work-zero [] e = tt
  work-zero (w ∷ ws) e = (ground (arith, e), work-zero ws (ground (arith, e)))

  work-some :
      (ws : List (Worker T)) (n : ℕ)
      → work ws ≡ suc n
      → (i : ℕ) × (w : Worker T) × (get_elem? ws i ≡ some w) × (w.ended ≡ false)
  work-some [] n e = absurd (omega (arith, e))
  work-some (w ∷ ws) n e = elim (Bool-cases w.ended) [
    | inl t ↦
        let later = work-some ws n (ground (arith, e, t)) in
        (suc later.0, later.1, later.2, later.3)
    | inr f ↦ (0, w, refl, f)
  ]

  work-set :
      (ws : List (Worker T)) (i : ℕ) (w new : Worker T)
      → get_elem? ws i ≡ some w
      → work (set ws i new) + work_of w ≡ work ws + work_of new
  work-set [] i w new e = cc e
  work-set (x ∷ ws) zero w new e = let same : x ≡ w = cc e in rw same (omega arith)
  work-set (x ∷ ws) (suc i) w new e = omega (arith, work-set ws i w new e)

  Reach-trans : (s t u : Merging T) → Reach s t → Reach t u → Reach s u
  Reach-trans s t u r here = r
  Reach-trans s t u r (next v _ q step) = next v u (Reach-trans s t v r q) step

  -- One step of a child that runs.
  record Worked (s : Merging T) (n : ℕ) : Type 0 where
    after : Merging T
    step : Step s after
    less : work after.workers ≡ n
    still : after.closed ≡ s.closed

  worker-Worked :
      (s : Merging T) (n i : ℕ) (w : Worker T) (left : List T)
      → work s.workers ≡ suc n
      → get_elem? s.workers i ≡ some w
      → w.ended ≡ false
      → w.left ≡ left
      → Worked s n
  worker-Worked s n i w [] e at f l =
      let new : Worker T = record w { ended = true } in
      let set_it = work-set s.workers i w new at in
      record {
        after = record s { workers = set s.workers i new };
        step = source_closed i w at f l;
        less = ground (arith, e, set_it, f, l);
        still = refl;
      }
  worker-Worked s n i w (v ∷ vs) e at f l =
      let new : Worker T = record w { left = vs } in
      let set_it = work-set s.workers i w new at in
      record {
        after = record s { workers = set s.workers i new; sink = s.sink ++ (i, v) ∷ [] };
        step = pass i w v vs at f l;
        less = ground (arith, e, set_it, f, l);
        still = refl;
      }

  ending_from :
      (n : ℕ) (s : Merging T)
      → work s.workers ≡ n
      → s.closed ≡ false
      → (t : Merging T) × (Reach s t × (t.closed ≡ true))
  ending_from zero s e o = (_, (next s _ here (close (work-zero s.workers e) o), refl))
  ending_from (suc n) s e o =
      let one = work-some s.workers n e in
      let worked = worker-Worked s n one.0 one.1 one.1.left e one.2 one.3 refl in
      let rest = ending_from n worked.after worked.less (worked.still ∙ o) in
      (rest.0, (Reach-trans s worked.after rest.0 (next s _ here worked.step) rest.1.0, rest.1.1))

  -- From any state there are steps to one whose sink is closed.
  pub can_close : (s : Merging T) → (t : Merging T) × (Reach s t × (t.closed ≡ true))
  can_close s = elim (Bool-cases s.closed) [
    | inl t ↦ (s, (here, t))
    | inr f ↦ ending_from (work s.workers) s refl f
  ]
