-- ===== src/Concurrency/Marks.antt =====
-- Lists of children of which a prefix is cancelled.
use effect_ive_go.Base.{
  ℕ, zero, suc, ◌+◌, ◌≤◌, ◌<◌, ◌≡◌, refl, true, false, some, List, [], ◌∷◌, ◌++◌, length, get_elem?,
  set, arith, ap, ◌∙◌, ltb,
}
use effect_ive_go.Concurrency.{Child}

-- The numbers `k`, `k + 1`, …, of which there are `m`.
abbrev pub count_from : ℕ → ℕ → List ℕ
count_from k zero = []
count_from k (suc m) = k ∷ count_from (suc k) m

pub count_from-append : (k m n : ℕ) → n ≡ k + m → count_from k m ++ n ∷ [] ≡ count_from k (suc m)
count_from-append k zero n e = ap (λ x. x ∷ []) (omega (arith, e))
count_from-append k (suc m) n e = ap (◌∷◌ k) (count_from-append (suc k) m n (omega (arith, e)))

pub count_from-nil : (k m : ℕ) → count_from k m ≡ [] → m ≡ 0
count_from-nil k zero e = refl
count_from-nil k (suc m) e = cc e

-- An index in bounds has an element.
pub get_elem?-some {ℓ} :
    {A : Type ℓ} (xs : List A) (i : ℕ) → i < length xs → (x : A) × (get_elem? xs i ≡ some x)
get_elem?-some [] i lt = absurd (omega (arith, lt))
get_elem?-some (x ∷ xs) zero lt = (x, refl)
get_elem?-some (x ∷ xs) (suc i) lt = get_elem?-some xs i (omega (arith, lt))

-- The first `k` children are cancelled, and no other is.
abbrev pub IsCancelledTo : ℕ → List Child → Type 0
IsCancelledTo k [] = Unit
IsCancelledTo zero (c ∷ cs) = (c.cancelled ≡ false) × IsCancelledTo zero cs
IsCancelledTo (suc k) (c ∷ cs) = (c.cancelled ≡ true) × IsCancelledTo k cs

pub IsCancelledTo-append :
    (k : ℕ) (cs : List Child) (c : Child)
    → k ≤ length cs
    → c.cancelled ≡ false
    → IsCancelledTo k cs
    → IsCancelledTo k (cs ++ c ∷ [])
IsCancelledTo-append zero [] c le e v = (e, tt)
IsCancelledTo-append (suc k) [] c le e v = absurd (omega (arith, le))
IsCancelledTo-append zero (x ∷ cs) c le e v =
    (v.0, IsCancelledTo-append zero cs c (omega arith) e v.1)
IsCancelledTo-append (suc k) (x ∷ cs) c le e v =
    (v.0, IsCancelledTo-append k cs c (omega (arith, le)) e v.1)

-- A child is set to one that is cancelled as it was.
pub IsCancelledTo-set_same :
    (k : ℕ) (cs : List Child) (i : ℕ) (c new : Child)
    → get_elem? cs i ≡ some c
    → new.cancelled ≡ c.cancelled
    → IsCancelledTo k cs
    → IsCancelledTo k (set cs i new)
IsCancelledTo-set_same k [] i c new e f v = tt
IsCancelledTo-set_same zero (x ∷ cs) zero c new e f v = (ground (arith, e, f, v.0), v.1)
IsCancelledTo-set_same (suc k) (x ∷ cs) zero c new e f v = (ground (arith, e, f, v.0), v.1)
IsCancelledTo-set_same zero (x ∷ cs) (suc i) c new e f v =
    (v.0, IsCancelledTo-set_same zero cs i c new e f v.1)
IsCancelledTo-set_same (suc k) (x ∷ cs) (suc i) c new e f v =
    (v.0, IsCancelledTo-set_same k cs i c new e f v.1)

-- The next child is cancelled.
pub IsCancelledTo-set_next :
    (k : ℕ) (cs : List Child) (new : Child)
    → k < length cs
    → new.cancelled ≡ true
    → IsCancelledTo k cs
    → IsCancelledTo (suc k) (set cs k new)
IsCancelledTo-set_next k [] new lt e v = absurd (omega (arith, lt))
IsCancelledTo-set_next zero (x ∷ cs) new lt e v = (e, v.1)
IsCancelledTo-set_next (suc k) (x ∷ cs) new lt e v =
    (v.0, IsCancelledTo-set_next k cs new (omega (arith, lt)) e v.1)

pub IsCancelledTo-get_elem? :
    (k : ℕ) (cs : List Child) (i : ℕ) (c : Child)
    → IsCancelledTo k cs
    → get_elem? cs i ≡ some c
    → c.cancelled ≡ ltb i k
IsCancelledTo-get_elem? k [] i c v e = cc e
IsCancelledTo-get_elem? zero (x ∷ cs) zero c v e = ground (arith, e, v.0)
IsCancelledTo-get_elem? (suc k) (x ∷ cs) zero c v e = ground (arith, e, v.0)
IsCancelledTo-get_elem? zero (x ∷ cs) (suc i) c v e =
    IsCancelledTo-get_elem? zero cs i c v.1 e ∙ ground arith
IsCancelledTo-get_elem? (suc k) (x ∷ cs) (suc i) c v e =
    IsCancelledTo-get_elem? k cs i c v.1 e ∙ ground arith
