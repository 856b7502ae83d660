-- ===== src/Effects/Tests.antt =====
-- Contexts and handlers at concrete values.
use effect_ive_go.Base.{
  ℕ, ◌≡◌, ◌≢◌, refl, ◌≤◌, false, some, [], ◌∷◌, get_elem?, if◌then◌else◌, ◌⊎◌, arith, is_member,
}
use effect_ive_go.Helper.{ret, missing, fault, ◌>>=◌}
use effect_ive_go.Dispatch.{Dispatcher, new_single_queue}
use effect_ive_go.Effects.{
  resumable, fire_and_forget, Handler, Context, World, handler_for, with_handler, end_of_handler,
}
use effect_ive_go.Effects.Scopes.{Installed, with_handler-Installed}
use effect_ive_go.Effects.Typed.{Innermost, Unbound, handler_for-Innermost}
use effect_ive_go.Effects.Teardown.{
  Lives, start, make, shut, closed_slot, end_all, end_all-once, times,
}

abbrev queue : Dispatcher ℕ
queue = new_single_queue 1

abbrev no_handlers : World ℕ
no_handlers = record { slots = []; torn_down = [] }

abbrev outer : Context
outer = (7, record { kind = fire_and_forget; payload_type = 1; effect_id = 0 }) ∷ []

-- The handler of key 7, with a teardown function.
abbrev one_handler : World ℕ
one_handler = record {
  slots = record { dispatcher = queue; closed = false; teardown = some 5 } ∷ [];
  torn_down = [];
}

-- A handler hides another of the same key, whatever its kind is.
inner_hides :
    (with_handler resumable 2 queue 7 [] outer one_handler >>= λ r.
    handler_for fire_and_forget 1 r.0 7)
    ≡ missing
unfolding with_handler handler_for
inner_hides = refl

closed_twice : (end_of_handler outer 0 (end_of_handler outer 0 one_handler).1).1.torn_down ≡ 0 ∷ []
unfolding end_of_handler
closed_twice = refl

with_handler-Installed_example :
    ((1 ≤ 1)
      × (r : Context × ℕ × World ℕ) × ((with_handler resumable 2 queue 8 (6 ∷ []) outer one_handler
            ≡ ret r)
          × Installed resumable 2 8 queue outer one_handler r.0 r.1 r.2))
    ⊎ ((2 ≤ 1) × (with_handler resumable 2 queue 8 (6 ∷ []) outer one_handler ≡ fault))
with_handler-Installed_example =
    with_handler-Installed resumable 2 queue 8 (6 ∷ []) outer one_handler (omega arith, tt)

one_handler-Lives : Lives (λ m. some 0) one_handler
unfolding with_handler
one_handler-Lives =
    make fire_and_forget 1 queue 7 (5 ∷ []) [] no_handlers (outer, 0, one_handler) start refl

end_all-once_example :
    (get_elem? (end_all outer (0 ∷ 0 ∷ []) one_handler).slots 0 ≡ (
      if is_member 0 (0 ∷ 0 ∷ [])
      then shut (get_elem? one_handler.slots 0)
      else get_elem? one_handler.slots 0))
    × (times 0 (end_all outer (0 ∷ 0 ∷ []) one_handler).torn_down ≡ (
        if closed_slot (get_elem? (end_all outer (0 ∷ 0 ∷ []) one_handler).slots 0) then 1 else 0))
end_all-once_example = end_all-once (λ m. some 0) outer (0 ∷ 0 ∷ []) one_handler one_handler-Lives 0

handler_for-Innermost_example :
    ((h : Handler) × (handler_for fire_and_forget 1 outer 7 ≡ ret h)
      × Innermost 7 h outer
      × (h.kind ≡ fire_and_forget)
      × (h.payload_type ≡ 1))
    ⊎ ((handler_for fire_and_forget 1 outer 7 ≡ missing)
        × (Unbound 7 outer
            ⊎ ((h : Handler) × Innermost 7 h outer
                × ((h.kind ≢ fire_and_forget) ⊎ (h.payload_type ≢ 1)))))
handler_for-Innermost_example = handler_for-Innermost fire_and_forget 1 outer 7
