-- ===== src/Singed/Table.antt =====
-- `nextCoord` of examples/singed_poison_trail/jobs.go as it is called: through the table of purefn,
-- which has the texts of its coordinates as keys.
pub mod Arrival
mod Tests
use effect_ive_go.Base.{
  false, ℕ, zero, suc, Option, none, some, List, [], ◌∷◌, get_elem?, ℕ_discrete,
}
use effect_ive_go.Trie.{Trie, ◌>>=◌}
use effect_ive_go.Tableize.{tableize}
use effect_ive_go.Singed.{string_of, next_coord}
use mathlib.Core.List.{List-discrete}

-- The dynamic values that the table meets: a `*Coordinate` by its value, an `int32`, and the
-- strings that stand for coordinates in keys.
pub data Argument : Type 0 where
  coordinate : ℕ → Argument
  int32 : ℕ → Argument
  text : List ℕ → Argument

texts_discrete : Discrete (List ℕ)
texts_discrete = List-discrete ℕ_discrete

pub Argument_discrete : Discrete Argument
Argument_discrete = hlevel (ℕ_discrete, texts_discrete)

-- The `fmt.Stringer` among them.
unfoldable pub stringer : Argument → Option Argument
unfolding string_of
stringer (coordinate x) = some (text (string_of x))
stringer (int32 x) = none
stringer (text s) = none

-- The assertions of `TableizeI3O1` to the types of the function's parameters.
abbrev pub as_coordinate : Argument → Option ℕ
as_coordinate (coordinate x) = some x
as_coordinate _ = none

abbrev pub as_int32 : Argument → Option ℕ
as_int32 (int32 x) = some x
as_int32 _ = none

unfoldable pub tabulated : List Argument → Option ℕ
unfolding next_coord
tabulated args = get_elem? args 0 >>= λ a. as_coordinate a >>= λ cur. get_elem? args 1 >>= λ b.
    as_coordinate b >>= λ to.
    get_elem? args 2 >>= λ c. as_int32 c >>= λ speed. some (next_coord cur to speed)

-- A call of `nextCoord`.
unfoldable pub call_next_coord : ℕ → ℕ → ℕ → Trie Argument ℕ → Option (ℕ × Trie Argument ℕ)
unfolding tabulated stringer
call_next_coord cur to speed =
    tableize stringer Argument_discrete (λ next. false) tabulated
      (coordinate cur ∷ coordinate to ∷ int32 speed ∷ [])

-- Some calls in a row, each from the coordinate that the one before returned.
unfoldable pub next_coords : ℕ → ℕ → ℕ → ℕ → Trie Argument ℕ → Option (ℕ × Trie Argument ℕ)
unfolding call_next_coord
next_coords zero cur to speed memo = some (cur, memo)
next_coords (suc n) cur to speed memo =
    call_next_coord cur to speed memo >>= λ r. next_coords n r.0 to speed r.1
