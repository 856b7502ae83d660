-- ===== src/Effects/Scopes.antt =====
-- Which handler an effect finds after a handler is installed (effects/helpers.go and the
-- constructors).
use effect_ive_go.Base.{
  ℕ, zero, suc, ◌≤◌, ◌<◌, ◌≡◌, refl, ◌⊎◌, inl, inr, false, Option, none, some, List, [], ◌∷◌, ◌++◌,
  ◌==◌, ◌&&◌, if◌then◌else◌, length, get_elem?, arith, Bool-cases, ap, ◌∙◌, length-append, eq_self,
}
use effect_ive_go.Helper.{ret, missing, fault, must_get_typed_value, get_typed_value_of}
use effect_ive_go.Dispatch.{Dispatcher}
use effect_ive_go.Effects.{
  Kind, Handler, Context, World, value_of, found_or_error, get_handler, same_kind, as_handler,
  handler_for, normalize_teardown, with_handler,
}

get_elem?-append_new {ℓ} :
    {A : Type ℓ} (xs : List A) (x : A) → get_elem? (xs ++ x ∷ []) (length xs) ≡ some x
get_elem?-append_new [] x = refl
get_elem?-append_new (y ∷ xs) x = get_elem?-append_new xs x

get_elem?-append_old {ℓ} :
    {A : Type ℓ} (xs : List A) (x : A) (i : ℕ)
    → (length xs ≤ i) ⊎ (get_elem? (xs ++ x ∷ []) i ≡ get_elem? xs i)
get_elem?-append_old [] x i = inl (omega arith)
get_elem?-append_old (y ∷ xs) x zero = inr refl
get_elem?-append_old (y ∷ xs) x (suc i) = elim (get_elem?-append_old xs x i) [
  | inl le ↦ inl (omega (arith, le))
  | inr e ↦ inr e
]

-- Every handler of the context was made.
abbrev pub IsScoped : Context → ℕ → Type 0
IsScoped [] n = Unit
IsScoped ((k, h) ∷ ctx) n = (h.effect_id < n) × IsScoped ctx n

IsScoped-mono : (ctx : Context) (m n : ℕ) → m ≤ n → IsScoped ctx m → IsScoped ctx n
IsScoped-mono [] m n le s = tt
IsScoped-mono ((k, h) ∷ ctx) m n le s = (omega (arith, s.0), IsScoped-mono ctx m n le s.1)

-- The handler that a lookup finds was made before any later number.
IsScoped-found :
    (ctx : Context) (n key : ℕ) (h : Handler)
    → IsScoped ctx n
    → value_of ctx key ≡ some h
    → h.effect_id < n
unfolding value_of
IsScoped-found [] n key h s e = cc e
IsScoped-found ((k, g) ∷ ctx) n key h s e = elim (Bool-cases (k == key)) [
  | inl t ↦ let same : some g ≡ some h = rw t at e in ground arith
  | inr f ↦ let rest : value_of ctx key ≡ some h = rw f at e in IsScoped-found ctx n key h s.1 rest
]

-- A lookup of a handler that is there, by a kind and a payload type.
pub found_handler :
    (kd : Kind) (p : ℕ) (h : Handler)
    → must_get_typed_value (as_handler kd p) (some h, none)
      ≡ (if same_kind h.kind kd && (h.payload_type == p) then ret h else missing)
unfolding must_get_typed_value get_typed_value_of as_handler
found_handler kd p h = elim (Bool-cases (same_kind h.kind kd && (h.payload_type == p))) [
  | inl t ↦ ground (arith, t)
  | inr f ↦ ground (arith, f)
]

value_of_new : (key : ℕ) (h : Handler) (ctx : Context) → value_of ((key, h) ∷ ctx) key ≡ some h
unfolding value_of
value_of_new key h ctx = rw (eq_self key)

value_of_other :
    (key k : ℕ) (h : Handler) (ctx : Context)
    → (k ≡ key) ⊎ (value_of ((key, h) ∷ ctx) k ≡ value_of ctx k)
unfolding value_of
value_of_other key k h ctx = elim (Bool-cases (key == k)) [
  | inl t ↦ inl (ground arith)
  | inr f ↦ inr (rw f)
]

module _ {T : Type 0} where
  -- The context `ctx` and the world `w'` after the installation of a handler.
  pub record Installed (kind : Kind) (payload_type key : ℕ) (queue : Dispatcher T) (pctx : Context)
      (w : World T) (ctx : Context) (id : ℕ) (w' : World T) : Type 0 where
    pub found :
        (kd : Kind) (p : ℕ)
        → handler_for kd p ctx key ≡ (
            if same_kind kind kd && (payload_type == p)
            then ret (record { kind = kind; payload_type = payload_type; effect_id = id })
            else missing)
    pub others :
        (kd : Kind) (p k : ℕ) → (k ≡ key) ⊎ (handler_for kd p ctx k ≡ handler_for kd p pctx k)
    pub scoped : IsScoped ctx (length w'.slots)
    pub new_number : id ≡ length w.slots
    pub slot :
        (td : Option ℕ) × (get_elem? w'.slots id
          ≡ some (record { dispatcher = queue; closed = false; teardown = td }))
    pub older : (i : ℕ) → (id ≤ i) ⊎ (get_elem? w'.slots i ≡ get_elem? w.slots i)
    pub history : w'.torn_down ≡ w.torn_down

  install :
      (kind : Kind) (payload_type key : ℕ) (queue : Dispatcher T) (pctx : Context) (w : World T)
      (td : Option ℕ)
      → IsScoped pctx (length w.slots)
      → Installed kind payload_type key queue pctx w
          ((key, record { kind = kind; payload_type = payload_type; effect_id = length w.slots })
            ∷ pctx)
          (length w.slots)
          (record w {
            slots = w.slots ++ record { dispatcher = queue; closed = false; teardown = td } ∷ [];
          })
  unfolding handler_for get_handler
  install kind payload_type key queue pctx w td s = record {
    found = λ kd p.
        ap (λ v. must_get_typed_value (as_handler kd p) (found_or_error v))
          (value_of_new key _ pctx)
        ∙ found_handler kd p _;
    others = λ kd p k. elim (value_of_other key k _ pctx) [
      | inl e ↦ inl e
      | inr e ↦ inr (ap (λ v. must_get_typed_value (as_handler kd p) (found_or_error v)) e)
    ];
    scoped = (
      omega (
        arith,
        length-append w.slots (record { dispatcher = queue; closed = false; teardown = td } ∷ []),
      ),
      IsScoped-mono pctx (length w.slots) _
          (omega (
            arith,
            length-append w.slots
                (record { dispatcher = queue; closed = false; teardown = td } ∷ []),
          ))
          s,
    );
    new_number = refl;
    slot = (td, get_elem?-append_new w.slots _);
    older = λ i. get_elem?-append_old w.slots _ i;
    history = refl;
  }

  -- A constructor with at most one teardown function makes a handler, in the context of which every effect under its key, of its kind
  -- and its payload type, finds the new handler, and one of another type panics; every other key
  -- finds what it found before. The handler has a number that none had and is open, the other
  -- handlers are as they were, and no teardown runs. With two teardown functions or more, the
  -- constructor panics. It is supposed that every handler of the context given was made.
  pub with_handler-Installed :
      (kind : Kind) (payload_type : ℕ) (queue : Dispatcher T) (key : ℕ) (teardown : List ℕ)
      (pctx : Context) (w : World T)
      → IsScoped pctx (length w.slots)
      → ((length teardown ≤ 1)
          × (r : Context × ℕ × World T) × ((with_handler kind payload_type queue key teardown pctx w
                ≡ ret r)
              × Installed kind payload_type key queue pctx w r.0 r.1 r.2))
        ⊎ ((2 ≤ length teardown)
            × (with_handler kind payload_type queue key teardown pctx w ≡ fault))
  unfolding with_handler normalize_teardown
  with_handler-Installed kind payload_type queue key [] pctx w s =
      inl (omega arith, _, (refl, install kind payload_type key queue pctx w none s))
  with_handler-Installed kind payload_type queue key (td ∷ []) pctx w s =
      inl (omega arith, _, (refl, install kind payload_type key queue pctx w (some td) s))
  with_handler-Installed kind payload_type queue key (td ∷ td' ∷ tds) pctx w s =
      inr (omega arith, refl)
