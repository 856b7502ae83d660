-- ===== src/Combinators/Pipeline.antt =====
-- What comes out of the combinators with one source, alone and one after another.
use mathlib.Core.List.{append_assoc}
use effect_ive_go.Base.{
  ℕ, suc, ◌≡◌, refl, ap, sym, ◌∙◌, ◌⊎◌, inl, inr, Bool, true, List, [], ◌∷◌, ◌++◌, map,
  if◌then◌else◌, Bool-cases, arith,
}
use effect_ive_go.Combinators.{
  Pick, taken, context_done, Picks, later, Relayed, sent_then, map_effect, pipe_effect,
  eager_filter_effect,
}

-- The elements of a list that satisfy a predicate.
abbrev pub keep : {T : Type 0} → (T → Bool) → List T → List T
keep p [] = []
keep p (v ∷ vs) = if p v then v ∷ keep p vs else keep p vs

keep-append :
    {T : Type 0} (p : T → Bool) (xs ys : List T) → keep p (xs ++ ys) ≡ keep p xs ++ keep p ys
keep-append p [] ys = refl
keep-append p (x ∷ xs) ys = ground (arith, keep-append p xs ys)

map-append : {T R : Type 0} (f : T → R) (xs ys : List T) → map f (xs ++ ys) ≡ map f xs ++ map f ys
map-append f [] ys = refl
map-append f (x ∷ xs) ys = ap (◌∷◌ (f x)) (map-append f xs ys)

-- A child that has sent `sent` of `out`: all of it, and the sink is closed as the source is, or a
-- part from the front, and the context ended and the sink is closed.
pub record Relays {R : Type 0} (out : List R) (closes : Bool) (some_done : Type 0) (sent : List R)
    (sink_closed : Bool) : Type 0 where
  pub rest : List R
  pub prefix : sent ++ rest ≡ out
  pub ending : ((rest ≡ []) × (sink_closed ≡ closes)) ⊎ (some_done × (sink_closed ≡ true))

-- Some select of a child saw the end of the context.
abbrev pub SomeDone : Picks → Type 0
SomeDone picks = (n : ℕ) × (picks n ≡ context_done)

SomeDone-later : (picks : Picks) → SomeDone (later picks) → SomeDone picks
SomeDone-later picks d = (suc d.0, d.1)

module _ {T R : Type 0} where
  -- One more element is sent, or the child returns.
  sent_then-Relays :
      (v : R) (source : List T) (out : List R) (closes : Bool) (picks : Picks) (pick : Pick)
      (r : Relayed T R)
      → picks 0 ≡ pick
      → Relays out closes (SomeDone (later picks)) r.sent r.sink_closed
      → Relays
          (v ∷ out)
          closes
          (SomeDone picks)
          (sent_then v source pick r).sent
          (sent_then v source pick r).sink_closed
  sent_then-Relays v source out closes picks taken r e h = record {
    rest = h.rest;
    prefix = ap (◌∷◌ v) h.prefix;
    ending = elim h.ending [ inl all ↦ inl all | inr (d, c) ↦ inr (SomeDone-later picks d, c) ];
  }
  sent_then-Relays v source out closes picks context_done r e h = record {
    rest = v ∷ out;
    prefix = refl;
    ending = inr ((0, e), refl);
  }

  map_effect-Relays :
      (f : T → R) (closes : Bool) (source : List T) (picks : Picks)
      → Relays
          (map f source)
          closes
          (SomeDone picks)
          (map_effect f closes source picks).sent
          (map_effect f closes source picks).sink_closed
  unfolding map_effect
  map_effect-Relays f closes [] picks = record {
    rest = [];
    prefix = refl;
    ending = inl (refl, refl);
  }
  map_effect-Relays f closes (v ∷ source) picks =
      sent_then-Relays (f v) source (map f source) closes picks (picks 0) _ refl
        (map_effect-Relays f closes source (later picks))

module _ {T : Type 0} where
  pipe_effect-Relays :
      (closes : Bool) (source : List T) (picks : Picks)
      → Relays source closes
          (SomeDone picks)
          (pipe_effect closes source picks).sent
          (pipe_effect closes source picks).sink_closed
  unfolding pipe_effect
  pipe_effect-Relays closes [] picks = record {
    rest = [];
    prefix = refl;
    ending = inl (refl, refl);
  }
  pipe_effect-Relays closes (v ∷ source) picks =
      sent_then-Relays v source source closes picks (picks 0) _ refl
        (pipe_effect-Relays closes source (later picks))

  eager_filter_effect-Relays :
      (p : T → Bool) (closes : Bool) (source : List T) (picks : Picks)
      → Relays
          (keep p source)
          closes
          (SomeDone picks)
          (eager_filter_effect p closes source picks).sent
          (eager_filter_effect p closes source picks).sink_closed
  unfolding eager_filter_effect
  eager_filter_effect-Relays p closes [] picks = record {
    rest = [];
    prefix = refl;
    ending = inl (refl, refl);
  }
  eager_filter_effect-Relays p closes (v ∷ source) picks = elim (Bool-cases (p v)) [
    | inl t ↦ rw t (
        sent_then-Relays v source (keep p source) closes picks (picks 0) _ refl
          (eager_filter_effect-Relays p closes source (later picks)))
    | inr f ↦ rw f (eager_filter_effect-Relays p closes source picks)
  ]

  -- A child that reads what another sends, if its function keeps fronts of lists.
  Relays-then :
      {S : Type 0} (g : List S → List T) (out sent : List S) (closes closed : Bool) (d e : Type 0)
      (sent' : List T) (closed' : Bool)
      → (g [] ≡ [])
      → ((xs ys : List S) → g (xs ++ ys) ≡ g xs ++ g ys)
      → Relays out closes d sent closed
      → Relays (g sent) closed e sent' closed'
      → Relays (g out) closes (d ⊎ e) sent' closed'
  Relays-then g out sent closes closed d e sent' closed' nil distributes a b = record {
    rest = b.rest ++ g a.rest;
    prefix =
        sym (append_assoc sent' b.rest (g a.rest))
        ∙ ap (λ l. l ++ g a.rest) b.prefix
        ∙ sym (distributes sent a.rest)
        ∙ ap g a.prefix;
    ending = elim b.ending [
      | inl (no_rest, same) ↦ elim a.ending [
        | inl (none_left, as_source) ↦
            inl (ap (λ l. l ++ g a.rest) no_rest ∙ ap g none_left ∙ nil, same ∙ as_source)
        | inr (done, closed_it) ↦ inr (inl done, same ∙ closed_it)
      ]
      | inr (done, closed_it) ↦ inr (inr done, closed_it)
    ];
  }

-- The children of the three combinators, the sink of each the source of the next.
abbrev pub pipeline :
    {S T : Type 0} → (S → T) → (T → Bool) → Bool → List S → Picks → Picks → Picks → Relayed T T
pipeline f p closes source p1 p2 p3 =
    let mapped = map_effect f closes source p1 in
    let kept = eager_filter_effect p mapped.sink_closed mapped.sent p2 in
    pipe_effect kept.sink_closed kept.sent p3

-- A map, a filter and a pipe after each other send the values of the source that are kept after the
-- mapping, in order, from the front on: all of them, and the last sink is closed exactly if the
-- source closes, or else the context of one of the three ended and the last sink is closed.
pub pipeline-Relays :
    {S T : Type 0} (f : S → T) (p : T → Bool) (closes : Bool) (source : List S) (p1 p2 p3 : Picks)
    → Relays
        (keep p (map f source))
        closes
        ((SomeDone p1 ⊎ SomeDone p2) ⊎ SomeDone p3)
        (pipeline f p closes source p1 p2 p3).sent
        (pipeline f p closes source p1 p2 p3).sink_closed
pipeline-Relays f p closes source p1 p2 p3 =
    let mapped = map_effect f closes source p1 in
    let kept = eager_filter_effect p mapped.sink_closed mapped.sent p2 in
    let two =
      Relays-then (keep p) (map f source) mapped.sent closes mapped.sink_closed _ _ kept.sent
        kept.sink_closed refl (keep-append p) (map_effect-Relays f closes source p1)
        (eager_filter_effect-Relays p mapped.sink_closed mapped.sent p2) in
    Relays-then (λ l. l) _ kept.sent closes kept.sink_closed _ _ _ _ refl (λ xs ys. refl) two
      (pipe_effect-Relays kept.sink_closed kept.sent p3)
