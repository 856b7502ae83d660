-- ===== src/Effects/Typed.antt =====
-- The type of the handler that an effect is performed by (`getHandler` of effects/helpers.go and
-- the type assertions of `MustGetTypedValue`).
use effect_ive_go.Base.{
  ℕ, ◌≡◌, ◌≢◌, refl, ap, ◌∙◌, ◌⊎◌, inl, inr, true, none, some, [], ◌∷◌, ◌==◌, ◌&&◌, if◌then◌else◌,
  Bool-cases, arith,
}
use effect_ive_go.Helper.{ret, missing, must_get_typed_value, get_typed_value_of}
use effect_ive_go.Effects.Scopes.{found_handler}
use effect_ive_go.Effects.{
  Kind, resumable, fire_and_forget, Handler, Context, value_of, found_or_error, get_handler,
  same_kind, as_handler, handler_for,
}

-- The handler stands under the key, and nothing inside it does.
pub data Innermost (key : ℕ) (h : Handler) : Context → Type 0 where
  here : (ctx : Context) → Innermost key h ((key, h) ∷ ctx)
  outside :
      (k : ℕ) (g : Handler) (ctx : Context)
      → k ≢ key
      → Innermost key h ctx
      → Innermost key h ((k, g) ∷ ctx)

-- Nothing stands under the key.
abbrev pub Unbound : ℕ → Context → Type 0
Unbound key [] = Unit
Unbound key ((k, h) ∷ ctx) = (k ≢ key) × Unbound key ctx

value_of-Innermost :
    (key : ℕ) (ctx : Context)
    → ((value_of ctx key ≡ none) × Unbound key ctx)
      ⊎ ((h : Handler) × (value_of ctx key ≡ some h) × Innermost key h ctx)
unfolding value_of
value_of-Innermost key [] = inl (refl, tt)
value_of-Innermost key ((k, h) ∷ ctx) = elim (Bool-cases (k == key)) [
  | inl t ↦ let same : k ≡ key = ground arith in inr (h, rw t refl, rw same (here ctx))
  | inr f ↦
      let other : k ≢ key = λ e. ground arith in
      elim (value_of-Innermost key ctx) [
        | inl (e, u) ↦ inl (rw f e, (other, u))
        | inr (g, e, i) ↦ inr (g, rw f e, outside k h ctx other i)
      ]
]

same_kind-true : (a b : Kind) → same_kind a b ≡ true → a ≡ b
same_kind-true resumable resumable e = refl
same_kind-true resumable fire_and_forget e = cc e
same_kind-true fire_and_forget resumable e = cc e
same_kind-true fire_and_forget fire_and_forget e = refl

same_kind_self : (a : Kind) → same_kind a a ≡ true
same_kind_self resumable = refl
same_kind_self fire_and_forget = refl

-- What the effect finds, by the handler that its key has.
handler_for-some :
    (kd : Kind) (p : ℕ) (ctx : Context) (key : ℕ) (h : Handler)
    → value_of ctx key ≡ some h
    → handler_for kd p ctx key
      ≡ (if same_kind h.kind kd && (h.payload_type == p) then ret h else missing)
unfolding handler_for get_handler
handler_for-some kd p ctx key h e =
    ap (λ v. must_get_typed_value (as_handler kd p) (found_or_error v)) e ∙ found_handler kd p h

handler_for-none :
    (kd : Kind) (p : ℕ) (ctx : Context) (key : ℕ)
    → value_of ctx key ≡ none
    → handler_for kd p ctx key ≡ missing
unfolding handler_for get_handler must_get_typed_value get_typed_value_of
handler_for-none kd p ctx key e =
    ap (λ v. must_get_typed_value (as_handler kd p) (found_or_error v)) e

-- An effect is performed by a handler `h` of the effect's own kind and payload type, the innermost
-- under its key, or panics: then nothing stands under the key, or the innermost handler there has
-- another kind or another payload type.
pub handler_for-Innermost :
    (kd : Kind) (p : ℕ) (ctx : Context) (key : ℕ)
    → ((h : Handler) × (handler_for kd p ctx key ≡ ret h)
        × Innermost key h ctx
        × (h.kind ≡ kd)
        × (h.payload_type ≡ p))
      ⊎ ((handler_for kd p ctx key ≡ missing)
          × (Unbound key ctx
              ⊎ ((h : Handler) × Innermost key h ctx × ((h.kind ≢ kd) ⊎ (h.payload_type ≢ p)))))
handler_for-Innermost kd p ctx key = elim (value_of-Innermost key ctx) [
  | inl (e, u) ↦ inr (handler_for-none kd p ctx key e, inl u)
  | inr (h, e, i) ↦
      let found = handler_for-some kd p ctx key h e in
      elim (Bool-cases (same_kind h.kind kd)) [
        | inl k ↦ elim (Bool-cases (h.payload_type == p)) [
          | inl t ↦ inl (h, rw (k, t) at found, i, same_kind-true h.kind kd k, ground arith)
          | inr f ↦ inr (rw (k, f) at found, inr (h, i, inr (λ z. ground arith)))
        ]
        | inr d ↦
            let other : h.kind ≢ kd =
              λ z. let w : same_kind h.kind kd ≡ true = rw z (same_kind_self kd) in cc (w, d) in
            inr (rw d at found, inr (h, i, inl other))
      ]
]
