-- ===== src/Concurrency/Tracked.antt =====
-- `childrenCancels` holds the cancel functions of all children, and nobody cancels before the
-- watcher.
use effect_ive_go.Base.{
  ℕ, suc, ◌≡◌, refl, false, some, List, [], ◌∷◌, ◌++◌, length, get_elem?, set, arith, ap, sym, ◌∙◌,
  length-append, length-set, subst,
}
use effect_ive_go.Concurrency.{
  Child, Supervisor, Watcher, watching, cancelling, stopped, with_effect_handler, append_cancel,
  spawn, finish, cancel_child, Step, take_message, spawn_next, finish_child, cancel_parent,
  watch_parent, cancel_next, watch_done, close, wait_over, Reach, here, next,
}
use effect_ive_go.Concurrency.Marks.{
  count_from, count_from-append, IsCancelledTo, IsCancelledTo-append, IsCancelledTo-set_same,
}

-- Until the watcher starts to cancel, no child is cancelled.
abbrev pub IsQuiet : Watcher → List Child → Type 0
IsQuiet watching cs = IsCancelledTo 0 cs
IsQuiet (cancelling is) cs = Unit
IsQuiet stopped cs = IsCancelledTo 0 cs

IsQuiet-append :
    (w : Watcher) (cs : List Child) (c : Child)
    → c.cancelled ≡ false
    → IsQuiet w cs
    → IsQuiet w (cs ++ c ∷ [])
IsQuiet-append watching cs c e v = IsCancelledTo-append 0 cs c (omega arith) e v
IsQuiet-append (cancelling is) cs c e v = tt
IsQuiet-append stopped cs c e v = IsCancelledTo-append 0 cs c (omega arith) e v

IsQuiet-set_same :
    (w : Watcher) (cs : List Child) (i : ℕ) (c new : Child)
    → get_elem? cs i ≡ some c
    → new.cancelled ≡ c.cancelled
    → IsQuiet w cs
    → IsQuiet w (set cs i new)
IsQuiet-set_same watching cs i c new e f v = IsCancelledTo-set_same 0 cs i c new e f v
IsQuiet-set_same (cancelling is) cs i c new e f v = tt
IsQuiet-set_same stopped cs i c new e f v = IsCancelledTo-set_same 0 cs i c new e f v

-- The cancel functions of all children, and of nothing else, are known.
pub record IsTracked (s : Supervisor) : Type 0 where
  pub cancels : s.children_cancels ≡ count_from 0 (length s.children)
  pub quiet : IsQuiet s.watcher s.children

pub spawn-IsTracked : (s : Supervisor) → IsTracked s → IsTracked (spawn s)
unfolding spawn append_cancel
spawn-IsTracked s v = record {
  cancels = ap (λ l. l ++ length s.children ∷ []) v.cancels ∙ more_numbers;
  quiet = IsQuiet-append s.watcher s.children _ refl v.quiet;
}
  where
    new : Child
    new = record { cancelled = false; finished = false }

    more : suc (length s.children) ≡ length (s.children ++ new ∷ [])
    more = omega (arith, length-append s.children (new ∷ []))

    more_numbers :
        count_from 0 (length s.children) ++ length s.children ∷ []
        ≡ count_from 0 (length (s.children ++ new ∷ []))
    more_numbers =
        count_from-append 0 (length s.children) (length s.children) (omega arith)
        ∙ ap (count_from 0) more

set_child-IsTracked :
    (i : ℕ) (c new : Child) (s : Supervisor) (n : ℕ)
    → get_elem? s.children i ≡ some c
    → new.cancelled ≡ c.cancelled
    → IsTracked s
    → IsTracked (record s { wg = n; children = set s.children i new })
set_child-IsTracked i c new s n e f v = record {
  cancels = v.cancels ∙ ap (count_from 0) (sym (length-set s.children i new));
  quiet = IsQuiet-set_same s.watcher s.children i c new e f v.quiet;
}

cancel_child-IsTracked :
    (i : ℕ) (is : List ℕ) (c : Child) (s : Supervisor)
    → IsTracked s
    → IsTracked (cancel_child i c (record s { watcher = cancelling is }))
unfolding cancel_child
cancel_child-IsTracked i is c s v = record {
  cancels = v.cancels ∙ ap (count_from 0) (sym (length-set s.children i _));
  quiet = tt;
}

Step-IsTracked : (s t : Supervisor) → Step s t → IsTracked s → IsTracked t
unfolding finish
Step-IsTracked s t (take_message n e) v = record { cancels = v.cancels; quiet = v.quiet }
Step-IsTracked s t (spawn_next n e) v =
    spawn-IsTracked (record s { to_spawn = n }) (record { cancels = v.cancels; quiet = v.quiet })
Step-IsTracked s t (finish_child i c e f) v = set_child-IsTracked i c _ s _ e refl v
Step-IsTracked s t cancel_parent v = record { cancels = v.cancels; quiet = v.quiet }
Step-IsTracked s t (watch_parent e f) v = record { cancels = v.cancels; quiet = tt }
Step-IsTracked s t (cancel_next i is c e f) v = cancel_child-IsTracked i is c s v
Step-IsTracked s t (watch_done e f) v = record {
  cancels = v.cancels;
  quiet = subst (λ w. IsQuiet w s.children) e v.quiet;
}
Step-IsTracked s t (close e) v = record { cancels = v.cancels; quiet = v.quiet }
Step-IsTracked s t (wait_over e f) v = record { cancels = v.cancels; quiet = v.quiet }

pub Reach-IsTracked : (s t : Supervisor) → Reach s t → IsTracked s → IsTracked t
Reach-IsTracked s t here v = v
Reach-IsTracked s t (next u _ r step) v = Step-IsTracked u t step (Reach-IsTracked s u r v)

pub start-IsTracked : IsTracked with_effect_handler
unfolding with_effect_handler
start-IsTracked = record { cancels = refl; quiet = tt }
