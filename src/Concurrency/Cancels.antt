-- ===== src/Concurrency/Cancels.antt =====
-- Which children the watcher of the parent's context cancels.
use effect_ive_go.Base.{
  ℕ, zero, suc, ◌+◌, ◌≤◌, ◌≡◌, refl, true, false, some, List, [], ◌∷◌, length, get_elem?, arith, ap,
  sym, ◌∙◌, ltb, length-append, length-set, subst,
}
use effect_ive_go.Concurrency.{
  Child, Supervisor, watching, cancelling, with_effect_handler, append_cancel, spawn, finish,
  cancel_child, Step, take_message, spawn_next, finish_child, cancel_parent, watch_parent,
  cancel_next, watch_done, close, wait_over, Reach, here, next,
}
use effect_ive_go.Concurrency.Marks.{
  count_from, count_from-nil, get_elem?-some, IsCancelledTo, IsCancelledTo-append,
  IsCancelledTo-set_same, IsCancelledTo-set_next, IsCancelledTo-get_elem?,
}
use effect_ive_go.Concurrency.Tracked.{IsQuiet, IsTracked, Reach-IsTracked, start-IsTracked}
use effect_ive_go.Concurrency.Children.{Reach-trans}

-- The watcher cancels `n` children, and has come to some.
pub record IsCancelling (n : ℕ) (s : Supervisor) : Type 0 where
  pub reached : ℕ
  pub left : ℕ
  pub to_cancel : s.watcher ≡ cancelling (count_from reached left)
  pub all_of_them : reached + left ≡ n
  pub made : n ≤ length s.children
  pub marks : IsCancelledTo reached s.children

spawn-IsCancelling : (n : ℕ) (s : Supervisor) → IsCancelling n s → IsCancelling n (spawn s)
unfolding spawn append_cancel
spawn-IsCancelling n s v = record {
  reached = v.reached;
  left = v.left;
  to_cancel = v.to_cancel;
  all_of_them = v.all_of_them;
  made = omega (
    arith,
    v.made,
    length-append s.children (record { cancelled = false; finished = false } ∷ []),
  );
  marks =
      IsCancelledTo-append v.reached s.children _ (omega (arith, v.made, v.all_of_them)) refl
        v.marks;
}

finish-IsCancelling :
    (n i : ℕ) (c : Child) (s : Supervisor)
    → get_elem? s.children i ≡ some c
    → IsCancelling n s
    → IsCancelling n (finish i c s)
unfolding finish
finish-IsCancelling n i c s e v = record {
  reached = v.reached;
  left = v.left;
  to_cancel = v.to_cancel;
  all_of_them = v.all_of_them;
  made = omega (arith, v.made, length-set s.children i (record c { finished = true }));
  marks = IsCancelledTo-set_same v.reached s.children i c _ e refl v.marks;
}

-- The head of the list of cancel functions to call.
cancel_next-IsCancelling :
    (n i : ℕ) (is : List ℕ) (c : Child) (s : Supervisor) (k m : ℕ)
    → s.watcher ≡ cancelling (i ∷ is)
    → s.watcher ≡ cancelling (count_from k m)
    → k + m ≡ n
    → n ≤ length s.children
    → IsCancelledTo k s.children
    → IsCancelling n (cancel_child i c (record s { watcher = cancelling is }))
unfolding cancel_child
cancel_next-IsCancelling n i is c s k zero e f sum le marks = cc (e, f)
cancel_next-IsCancelling n i is c s k (suc m) e f sum le marks = record {
  reached = suc k;
  left = m;
  to_cancel = cc (e, f);
  all_of_them = omega (arith, sum);
  made = omega (arith, le, length-set s.children i (record c { cancelled = true }));
  marks =
      let same : i ≡ k = cc (e, f) in
      rw same (IsCancelledTo-set_next k s.children _ (omega (arith, sum, le)) refl marks);
}

-- What a step of another goroutine leaves as it is.
same-IsCancelling :
    (n : ℕ) (s t : Supervisor)
    → t.watcher ≡ s.watcher
    → t.children ≡ s.children
    → IsCancelling n s
    → IsCancelling n t
same-IsCancelling n s t e f v = record {
  reached = v.reached;
  left = v.left;
  to_cancel = e ∙ v.to_cancel;
  all_of_them = v.all_of_them;
  made = rw f v.made;
  marks = subst (IsCancelledTo v.reached) (sym f) v.marks;
}

Step-IsCancelling : (n : ℕ) (s t : Supervisor) → Step s t → IsCancelling n s → IsCancelling n t
Step-IsCancelling n s t (take_message m e) v = same-IsCancelling n s _ refl refl v
Step-IsCancelling n s t (spawn_next m e) v =
    spawn-IsCancelling n (record s { to_spawn = m }) (same-IsCancelling n s _ refl refl v)
Step-IsCancelling n s t (finish_child i c e f) v = finish-IsCancelling n i c s e v
Step-IsCancelling n s t cancel_parent v = same-IsCancelling n s _ refl refl v
Step-IsCancelling n s t (watch_parent e f) v = cc (e, v.to_cancel)
Step-IsCancelling n s t (cancel_next i is c e f) v =
    cancel_next-IsCancelling n i is c s v.reached v.left e v.to_cancel v.all_of_them v.made v.marks
Step-IsCancelling n s t (watch_done e f) v = cc (e, v.to_cancel)
Step-IsCancelling n s t (close e) v = same-IsCancelling n s _ refl refl v
Step-IsCancelling n s t (wait_over e f) v = same-IsCancelling n s _ refl refl v

Reach-IsCancelling : (n : ℕ) (s t : Supervisor) → Reach s t → IsCancelling n s → IsCancelling n t
Reach-IsCancelling n s t here v = v
Reach-IsCancelling n s t (next u _ r step) v =
    Step-IsCancelling n u t step (Reach-IsCancelling n s u r v)

watch-IsCancelling :
    (s : Supervisor)
    → IsTracked s
    → s.watcher ≡ watching
    → IsCancelling (length s.children) (record s { watcher = cancelling s.children_cancels })
watch-IsCancelling s v e = record {
  reached = 0;
  left = length s.children;
  to_cancel = ap cancelling v.cancels;
  all_of_them = omega arith;
  made = omega arith;
  marks = subst (λ w. IsQuiet w s.children) e v.quiet;
}

cancelled_prefix :
    (n : ℕ) (s : Supervisor) (i : ℕ) (c : Child)
    → IsCancelling n s
    → s.watcher ≡ cancelling []
    → get_elem? s.children i ≡ some c
    → c.cancelled ≡ ltb i n
cancelled_prefix n s i c v e f =
    let none_left = count_from-nil v.reached v.left (cc (e, v.to_cancel)) in
    let all : v.reached ≡ n = omega (arith, none_left, v.all_of_them) in
    rw (← all) (IsCancelledTo-get_elem? v.reached s.children i c v.marks f)

-- In every run in which the watcher finds the parent's context done while it is in its select, at
-- the end of its loop exactly the children that were there at the loop's start are cancelled; those
-- that are spawned during the loop, or later, are not.
pub watch-cancelled :
    (s t : Supervisor) (i : ℕ) (c : Child)
    → Reach with_effect_handler s
    → s.watcher ≡ watching
    → s.parent_done ≡ true
    → Reach (record s { watcher = cancelling s.children_cancels }) t
    → t.watcher ≡ cancelling []
    → get_elem? t.children i ≡ some c
    → c.cancelled ≡ ltb i (length s.children)
watch-cancelled s t i c r e _ q f g =
    let tracked = Reach-IsTracked with_effect_handler s r start-IsTracked in
    let from = watch-IsCancelling s tracked e in
    cancelled_prefix (length s.children) t i c (Reach-IsCancelling (length s.children) _ t q from) f
      g

cancel_rest :
    (m k : ℕ) (s : Supervisor)
    → s.watcher ≡ cancelling (count_from k m)
    → k + m ≤ length s.children
    → (t : Supervisor) × (Reach s t × (t.watcher ≡ cancelling []))
unfolding cancel_child
cancel_rest zero k s e le = (s, (here, e))
cancel_rest (suc m) k s e le =
    let child = get_elem?-some s.children k (omega (arith, le)) in
    let t = cancel_child k child.0 (record s { watcher = cancelling (count_from (suc k) m) }) in
    let made = length-set s.children k (record child.0 { cancelled = true }) in
    let rest = cancel_rest m (suc k) t refl (omega (arith, le, made)) in
    let step = cancel_next k (count_from (suc k) m) child.0 e child.1 in
    (rest.0, (Reach-trans s t rest.0 (next s t here step) rest.1.0, rest.1.1))

-- In every such run the loop can come to its end, whatever happened in between.
pub watch_can_end :
    (s t : Supervisor)
    → Reach with_effect_handler s
    → s.watcher ≡ watching
    → s.parent_done ≡ true
    → Reach (record s { watcher = cancelling s.children_cancels }) t
    → (u : Supervisor) × (Reach t u × (u.watcher ≡ cancelling []))
watch_can_end s t r e _ q =
    let tracked = Reach-IsTracked with_effect_handler s r start-IsTracked in
    let from = watch-IsCancelling s tracked e in
    let v = Reach-IsCancelling (length s.children) _ t q from in
    cancel_rest v.left v.reached t v.to_cancel (omega (arith, v.all_of_them, v.made))
