-- ===== src/Concurrency/Children.antt =====
-- The WaitGroup of the supervisor, and the teardown that waits for it.
use effect_ive_go.Base.{ℕ, ◌+◌, ◌≡◌, true, List, [], ◌∷◌, length, if◌then◌else◌}
use effect_ive_go.Concurrency.{Child, Supervisor, over, Reach, here, next}

-- The children that still run.
abbrev pub running : List Child → ℕ
running [] = 0
running (c ∷ cs) = (if c.finished then 0 else 1) + running cs

abbrev pub AllFinished : List Child → Type 0
AllFinished [] = Unit
AllFinished (c ∷ cs) = (c.finished ≡ true) × AllFinished cs

-- The WaitGroup counts the children that run, and past the wait `doneCh` is closed.
abbrev pub IsCounted : Supervisor → Type 0
IsCounted s = s.wg ≡ running s.children

pub Reach-trans : (s t u : Supervisor) → Reach s t → Reach t u → Reach s u
Reach-trans s t u r here = r
Reach-trans s t u r (next v _ q step) = next v u (Reach-trans s t v r q) step

-- The rest of a supervisor's run in which the closing function returns.
pub record Ends (s t : Supervisor) : Type 0 where
  pub steps : Reach s t
  pub closed : t.closing ≡ over
  pub done : t.done ≡ true
  pub all_finished : AllFinished t.children
  pub as_many : length t.children ≡ length s.children
