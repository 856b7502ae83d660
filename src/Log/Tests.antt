-- ===== src/Log/Tests.antt =====
-- The log handler with short maps of fields.
use effect_ive_go.Base.{suc, ◌≡◌, refl, Option, none, some, List, [], ◌∷◌, length}
use effect_ive_go.Helper.{ret, fault}
use effect_ive_go.Log.{log_warn, other_level, info, warn, Fields, Payload, handle_all, teardown}
use effect_ive_go.Log.Fields.{Line, recorder, HasLine, handle_all-HasLine}

-- The second message has no fields of its own, and an unknown level.
abbrev two_messages : List Payload
two_messages =
    record { level = log_warn; message = 1; fields = (7, 70) ∷ [] }
    ∷ record { level = other_level 3; message = 2; fields = [] }
    ∷ []

field_stays :
    handle_all recorder two_messages (some ((5, 50) ∷ []) ∷ []) []
    ≡ ret (
      some ((7, 70) ∷ (5, 50) ∷ []) ∷ [],
      (warn, 1, some ((7, 70) ∷ (5, 50) ∷ [])) ∷ (info, 2, some ((7, 70) ∷ (5, 50) ∷ [])) ∷ [],
    )
unfolding handle_all
field_stays = refl

without_defaults : handle_all recorder two_messages [] [] ≡ fault
unfolding handle_all
without_defaults = refl

nil_defaults : handle_all recorder two_messages (none ∷ []) [] ≡ fault
unfolding handle_all
nil_defaults = refl

-- A logger that cannot be synced.
sync_fails :
    teardown (record recorder { sync = λ lines. (some 4, lines) }) (λ err. suc err) []
    ≡ ret ((warn, 5, none) ∷ [])
unfolding teardown
sync_fails = refl

handle_all-HasLine_example :
    (d : List (Option Fields)) × (out : List Line) × (handle_all recorder two_messages
        (some ((5, 50) ∷ []) ∷ [])
        []
      ≡ ret (d, out))
    × (length out ≡ 2)
    × HasLine out 1
        (record { level = other_level 3; message = 2; fields = [] })
        two_messages
        ((5, 50) ∷ [])
handle_all-HasLine_example =
    handle_all-HasLine two_messages ((5, 50) ∷ []) [] 1
      (record { level = other_level 3; message = 2; fields = [] }) refl
