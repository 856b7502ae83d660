-- ===== src/CachedDatabase/Tiers/Deferred.antt =====
-- The deferred calls of `main` in examples/cached_database/main.go: what its concurrency handler does
-- while its closing function waits for the children, which are `watchEventsFrom`.
use effect_ive_go.Base.{
  ℕ, zero, suc, ◌<◌, ◌≡◌, refl, true, false, some, List, [], ◌∷◌, ◌++◌, get_elem?, arith,
}
use effect_ive_go.Concurrency.{
  Child, Supervisor, waiting, watching, with_effect_handler, append_cancel, spawn, Step,
  take_message, spawn_next, finish_child, cancel_parent, watch_parent, cancel_next, watch_done,
  close, wait_over,
}

-- When `main` has subscribed twice, and waits.
unfoldable pub waits_for_watchers : Supervisor
unfolding spawn with_effect_handler
waits_for_watchers = record (spawn (spawn with_effect_handler)) { closing = waiting }

-- The handler's parent is the background context, which is never done, and its children return only
-- when their own contexts are.
abbrev pub IsAllowed : {s t : Supervisor} → Step s t → Type 0
IsAllowed cancel_parent = ⊥
IsAllowed (finish_child i c at_i runs) = c.cancelled ≡ true
IsAllowed _ = Unit

pub data Later (s : Supervisor) : Supervisor → Type 0 where
  now : Later s s
  after : (t u : Supervisor) → Later s t → (x : Step t u) → IsAllowed x → Later s u

abbrev Uncancelled : List Child → Type 0
Uncancelled [] = Unit
Uncancelled (c ∷ cs) = (c.cancelled ≡ false) × Uncancelled cs

Uncancelled-at :
    (cs : List Child) (i : ℕ) (c : Child)
    → Uncancelled cs
    → get_elem? cs i ≡ some c
    → c.cancelled ≡ false
Uncancelled-at [] i c u e = cc e
Uncancelled-at (x ∷ cs) zero c u e = let same : x ≡ c = cc e in rw same at u.0
Uncancelled-at (x ∷ cs) (suc i) c u e = Uncancelled-at cs i c u.1 e

Uncancelled-append :
    (cs : List Child)
    → Uncancelled cs
    → Uncancelled (cs ++ record { cancelled = false; finished = false } ∷ [])
Uncancelled-append [] u = (refl, tt)
Uncancelled-append (c ∷ cs) u = (u.0, Uncancelled-append cs u.1)

-- Nobody is told to stop, and somebody runs.
record IsStuck (s : Supervisor) : Type 0 where
  parent_lives : s.parent_done ≡ false
  not_done : s.done ≡ false
  watches : s.watcher ≡ watching
  waits : s.closing ≡ waiting
  some_run : 0 < s.wg
  uncancelled : Uncancelled s.children

step-IsStuck : (s t : Supervisor) (x : Step s t) → IsAllowed x → IsStuck s → IsStuck t
unfolding spawn append_cancel
step-IsStuck s _ (take_message n e) a k = record {
  parent_lives = k.parent_lives;
  not_done = k.not_done;
  watches = k.watches;
  waits = k.waits;
  some_run = k.some_run;
  uncancelled = k.uncancelled;
}
step-IsStuck s _ (spawn_next n e) a k = record {
  parent_lives = k.parent_lives;
  not_done = k.not_done;
  watches = k.watches;
  waits = k.waits;
  some_run = omega arith;
  uncancelled = Uncancelled-append s.children k.uncancelled;
}
step-IsStuck s _ (finish_child i c e runs) a k =
    let alive = Uncancelled-at s.children i c k.uncancelled e in cc (a, alive)
step-IsStuck s _ cancel_parent a k = absurd a
step-IsStuck s _ (watch_parent w d) a k = cc (d, k.parent_lives)
step-IsStuck s _ (cancel_next i is c w e) a k = cc (w, k.watches)
step-IsStuck s _ (watch_done w d) a k = cc (d, k.not_done)
step-IsStuck s _ (close c) a k = cc (c, k.waits)
step-IsStuck s _ (wait_over w z) a k = absurd (omega (arith, z, k.some_run))

Later-IsStuck : (s t : Supervisor) → Later s t → IsStuck s → IsStuck t
Later-IsStuck s _ now k = k
Later-IsStuck s t (after u _ l x a) k = step-IsStuck u t x a (Later-IsStuck s u l k)

-- The closing function of the concurrency handler still waits, whatever happens.
pub waits_for_ever : (s : Supervisor) → Later waits_for_watchers s → s.closing ≡ waiting
unfolding waits_for_watchers spawn append_cancel with_effect_handler
waits_for_ever s l =
    let start : IsStuck waits_for_watchers = record {
      parent_lives = refl;
      not_done = refl;
      watches = refl;
      waits = refl;
      some_run = omega arith;
      uncancelled = (refl, (refl, tt));
    } in
    (Later-IsStuck waits_for_watchers s l start).waits
