-- ===== src/Concurrency.antt =====
-- effects/concurrency: the supervisor of the goroutines that a handler spawns, and `AwaitAll`.
--
-- A child is known by its number, which stands for its cancel function in `childrenCancels`; what
-- its function does is left open, so a child can finish whenever it runs, by a return or by a
-- panic, which it recovers from. The goroutines' steps interleave: the spawning loop, the children,
-- the watcher of the parent's context and the closing function.
pub mod Children
pub mod Marks
pub mod Tracked
pub mod Cancels
pub mod Await
mod Tests
use effect_ive_go.Base.{
  ℕ, zero, suc, ◌+◌, ◌-◌, ◌<◌, ◌≡◌, Bool, true, false, Option, none, some, List, [], ◌∷◌, ◌++◌,
  length, get_elem?, set,
}

pub record Child : Type 0 where
  pub cancelled : Bool
  pub finished : Bool

-- The goroutine of `watchParentCancel`: in its select, in its loop over the cancel functions, with
-- those to come, or ended by `doneCh`.
pub data Watcher : Type 0 where
  watching : Watcher
  cancelling : List ℕ → Watcher
  stopped : Watcher

-- The closing function of the handler: not called, in `waitChildren`, or past it.
pub data Closing : Type 0 where
  not_called : Closing
  waiting : Closing
  over : Closing

-- `supervisor`, with the functions of the message in work that are still to be spawned.
pub record Supervisor : Type 0 where
  pub wg : ℕ
  pub children : List Child
  pub children_cancels : List ℕ
  pub done : Bool
  pub parent_done : Bool
  pub to_spawn : ℕ
  pub watcher : Watcher
  pub closing : Closing

-- `WithEffectHandler`, when the watcher has signalled that it is ready.
unfoldable pub with_effect_handler : Supervisor
with_effect_handler = record {
  wg = 0;
  children = [];
  children_cancels = [];
  done = false;
  parent_done = false;
  to_spawn = 0;
  watcher = watching;
  closing = not_called;
}

-- `appendCancel`.
unfoldable pub append_cancel : ℕ → Supervisor → Supervisor
append_cancel cancel s = record s { children_cancels = s.children_cancels ++ cancel ∷ [] }

-- One round of the loop of `spawnConcurrentChildren`.
unfoldable pub spawn : Supervisor → Supervisor
unfolding append_cancel
spawn s =
    let made = append_cancel (length s.children) s in
    record made {
      wg = s.wg + 1;
      children = s.children ++ record { cancelled = false; finished = false } ∷ [];
    }

-- The deferred `s.wg.Done()` of a child, after its function returned or panicked.
unfoldable pub finish : ℕ → Child → Supervisor → Supervisor
finish i c s = record s {
  wg = s.wg - 1;
  children = set s.children i (record c { finished = true });
}

-- A cancel function.
unfoldable pub cancel_child : ℕ → Child → Supervisor → Supervisor
cancel_child i c s = record s { children = set s.children i (record c { cancelled = true }) }

pub data Step (s : Supervisor) : Supervisor → Type 0 where
  -- The handler takes a message with some functions; a closed handler may still do so, as its
  -- worker's select picks among the cases that are ready.
  take_message : (n : ℕ) → s.to_spawn ≡ 0 → Step s (record s { to_spawn = n })
  spawn_next : (n : ℕ) → s.to_spawn ≡ suc n → Step s (spawn (record s { to_spawn = n }))
  finish_child :
      (i : ℕ) (c : Child)
      → get_elem? s.children i ≡ some c
      → c.finished ≡ false
      → Step s (finish i c s)
  cancel_parent : Step s (record s { parent_done = true })
  watch_parent :
      s.watcher ≡ watching
      → s.parent_done ≡ true
      → Step s (record s { watcher = cancelling s.children_cancels })
  cancel_next :
      (i : ℕ) (is : List ℕ) (c : Child)
      → s.watcher ≡ cancelling (i ∷ is)
      → get_elem? s.children i ≡ some c
      → Step s (cancel_child i c (record s { watcher = cancelling is }))
  watch_done : s.watcher ≡ watching → s.done ≡ true → Step s (record s { watcher = stopped })
  close : s.closing ≡ not_called → Step s (record s { closing = waiting })
  wait_over : s.closing ≡ waiting → s.wg ≡ 0 → Step s (record s { closing = over; done = true })

pub data Reach (s : Supervisor) : Supervisor → Type 0 where
  here : Reach s s
  next : (t u : Supervisor) → Reach s t → Step t u → Reach s u
