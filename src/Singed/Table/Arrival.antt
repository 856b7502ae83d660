-- ===== src/Singed/Table/Arrival.antt =====
-- The calls of a move of examples/singed_poison_trail through the table of `nextCoord`.
use effect_ive_go.Base.{
  false, ℕ, zero, suc, ◌*◌, ◌^◌, ◌≤◌, ◌<◌, ◌≡◌, refl, ap, ◌∙◌, sym, inl, inr, true, some, List, [],
  ◌∷◌, length, arith, ltb, leb, Bool-cases,
}
use effect_ive_go.Trie.{Trie, ◌>>=◌, new_trie}
use effect_ive_go.Trie.Table.{new_trie-IsValid}
use effect_ive_go.Tableize.{table_keys, table_key}
use effect_ive_go.Tableize.Memo.{Pure, Memo, call-Called}
use effect_ive_go.Singed.{half, string_of, next_coord}
use effect_ive_go.Singed.Moves.{
  distance, next_coord-forward, next_coord-backward, coord_after, coord_after-arrives,
}
use effect_ive_go.Singed.Table.{
  Argument, coordinate, int32, text, Argument_discrete, stringer, tabulated, call_next_coord,
  next_coords,
}

-- The code points below the surrogates.
abbrev pub code_points : ℕ
code_points = 55296

abbrev arguments : ℕ → ℕ → ℕ → List Argument
arguments cur to speed = coordinate cur ∷ coordinate to ∷ int32 speed ∷ []

-- The arguments of a call between coordinates that are such code points.
pub record IsCall (args : List Argument) : Type 0 where
  pub cur : ℕ
  pub to_ : ℕ
  pub speed : ℕ
  pub is_call : args ≡ arguments cur to_ speed
  pub cur_below : cur < code_points
  pub to_below : to_ < code_points

string_of-code_point : (x : ℕ) → x < code_points → string_of x ≡ x ∷ []
unfolding string_of
string_of-code_point x lt = let below : ltb x 55296 ≡ true = ground arith in rw below refl

keys_of_call :
    (cur to speed : ℕ)
    → cur < code_points
    → to < code_points
    → table_keys stringer (arguments cur to speed)
      ≡ text (cur ∷ []) ∷ text (to ∷ []) ∷ int32 speed ∷ []
unfolding table_keys table_key stringer
keys_of_call cur to speed c t = rw (string_of-code_point cur c, string_of-code_point to t) refl

tabulated_call :
    (cur to speed : ℕ) → tabulated (arguments cur to speed) ≡ some (next_coord cur to speed)
unfolding tabulated
tabulated_call cur to speed = refl

same_arguments :
    (c t s c' t' s' : ℕ)
    → ◌≡◌ {A = List Argument}
        (text (c ∷ []) ∷ text (t ∷ []) ∷ int32 s ∷ [])
        (text (c' ∷ []) ∷ text (t' ∷ []) ∷ int32 s' ∷ [])
    → arguments c t s ≡ arguments c' t' s'
same_arguments c t s c' t' s' e = cc e

tabulated-Pure : Pure stringer Argument_discrete (λ next. false) IsCall 2 tabulated
tabulated-Pure = record {
  arity = λ args i. ap length i.is_call;
  total = λ args i.
      (next_coord i.cur i.to_ i.speed, ap tabulated i.is_call ∙ tabulated_call i.cur i.to_ i.speed);
  not_nil = λ args v i e. refl;
  keyed = λ args args' i i' e. ap tabulated (
      i.is_call
      ∙ same_arguments i.cur i.to_ i.speed i'.cur i'.to_ i'.speed (
          sym (keys_of_call i.cur i.to_ i.speed i.cur_below i.to_below)
          ∙ ap (table_keys stringer) (sym i.is_call)
          ∙ e
          ∙ ap (table_keys stringer) i'.is_call
          ∙ keys_of_call i'.cur i'.to_ i'.speed i'.cur_below i'.to_below)
      ∙ sym i'.is_call);
}

next_coord-below :
    (cur to speed : ℕ)
    → cur < code_points
    → to < code_points
    → 0 < speed
    → speed < half
    → next_coord cur to speed < code_points
next_coord-below cur to speed c t pos small = elim (Bool-cases (leb cur to)) [
  | inl up ↦
      let forward = next_coord-forward cur to speed (ground arith) (omega (arith, t)) pos small in
      ground (arith, forward)
  | inr down ↦
      let backward = next_coord-backward cur to speed (ground arith) (omega (arith, c)) pos small in
      ground (arith, backward)
]

abbrev IsRight : Trie Argument ℕ → Type 0
IsRight memo = Memo stringer Argument_discrete (λ next. false) IsCall 2 tabulated memo

call_next_coord-next_coord :
    (cur to speed : ℕ) (memo : Trie Argument ℕ)
    → cur < code_points
    → to < code_points
    → IsRight memo
    → (memo' : Trie Argument ℕ) × (call_next_coord cur to speed memo
        ≡ some (next_coord cur to speed, memo'))
      × IsRight memo'
unfolding call_next_coord
call_next_coord-next_coord cur to speed memo c t m =
    let call : IsCall (arguments cur to speed) = record {
      cur = cur;
      to_ = to;
      speed = speed;
      is_call = refl;
      cur_below = c;
      to_below = t;
    } in
    let r =
      call-Called stringer Argument_discrete (λ next. false) IsCall 2 tabulated tabulated-Pure
        (arguments cur to speed) memo call m in
    let plain = sym r.is_result ∙ tabulated_call cur to speed in
    let same : r.result ≡ next_coord cur to speed = cc plain in
    (r.memo, r.returns ∙ ap (λ v. some (v, r.memo)) same, r.keeps)

next_coords-coord_after :
    (n cur to speed : ℕ) (memo : Trie Argument ℕ)
    → cur < code_points
    → to < code_points
    → 0 < speed
    → speed < half
    → IsRight memo
    → (memo' : Trie Argument ℕ) × (next_coords n cur to speed memo
        ≡ some (coord_after n cur to speed, memo'))
unfolding next_coords
next_coords-coord_after zero cur to speed memo c t pos small m = (memo, refl)
next_coords-coord_after (suc n) cur to speed memo c t pos small m =
    let (memo1, called, m1) = call_next_coord-next_coord cur to speed memo c t m in
    let next = next_coord-below cur to speed c t pos small in
    let (memo2, rest) =
      next_coords-coord_after n (next_coord cur to speed) to speed memo1 next t pos small m1 in
    (memo2, rw (called, ◌>>=◌) rest)

-- Through a table of any positive size that starts empty, calls of `nextCoord` with the same
-- destination and the same positive speed, each from the coordinate that the one before returned, do
-- not panic, and the last returns the destination, if the start and the destination are code points
-- below the surrogates and the speed covers their distance in that number of calls.
pub next_coords-arrive :
    (max n cur to speed : ℕ)
    → 0 < max
    → max < 2 ^ 32
    → cur < code_points
    → to < code_points
    → 0 < speed
    → speed < half
    → distance cur to ≤ n * speed
    → (memo : Trie Argument ℕ) × ((new_trie max >>= next_coords n cur to speed) ≡ some (to, memo))
next_coords-arrive max n cur to speed size word c t pos small enough =
    elim (new_trie-IsValid {O = ℕ} Argument_discrete 2 max word) [
      | inl (zero_, _) ↦ absurd (omega arith)
      | inr (memo, made, valid, _, nothing) ↦
          let m : IsRight memo = record {
            valid = valid;
            right = λ a v i e. cc (nothing (table_keys stringer a));
          } in
          let (memo', ran) = next_coords-coord_after n cur to speed memo c t pos small m in
          let arrived =
            coord_after-arrives n cur to speed (omega (arith, c)) (omega (arith, t)) pos small
              enough in
          (memo', rw (made, ◌>>=◌, ran, arrived) refl)
    ]
