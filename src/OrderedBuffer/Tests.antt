-- ===== src/OrderedBuffer/Tests.antt =====
-- The ordered buffer of shared/orderedbuffer on small inputs.
use Prim.Native.Nat.{compare}
use mathlib.Core.List.{Perm}
use effect_ive_go.Base.{ℕ, ◌==◌, some, ◌≡◌, refl, true, false, List, [], ◌∷◌, arith}
use effect_ive_go.OrderedBuffer.{
  Buffer, search_loop, search, shift_right, insert_at, goes_before, evict, insert, insert_all,
  flush, close, order_by, living, Selects, forward, new_ordered_bounded_buffer,
}
use effect_ive_go.OrderedBuffer.Order.{
  WeakOrder, IsSorted, ordered_insert, ideal_insert, insert-eq-ideal_insert,
}
use effect_ive_go.OrderedBuffer.Window.{count_above}
use effect_ive_go.OrderedBuffer.Stream.{Inserted, insert-Inserted, order_by-IsSorted}
use effect_ive_go.OrderedBuffer.Drops.{Within, order_by-Within}

nat_order : WeakOrder compare
nat_order = record { asym = λ a b h. ground arith; neg_trans = λ a b c h k. ground arith }

abbrev late_by_one : List ℕ
late_by_one = 2 ∷ 1 ∷ 4 ∷ 3 ∷ []

program : Unit {0}
unfolding search_loop search shift_right insert_at goes_before evict insert insert_all flush close
    order_by forward new_ordered_bounded_buffer ordered_insert ideal_insert count_above
program = tt

order_by-late_by_one : order_by 1 compare living late_by_one ≡ (1 ∷ 2 ∷ 3 ∷ 4 ∷ [], true)
unfolding program
order_by-late_by_one = refl

-- The window of one is too short for an element that is late by two.
order_by_late_by_two : order_by 1 compare living (3 ∷ 2 ∷ 1 ∷ []) ≡ (2 ∷ 1 ∷ 3 ∷ [], true)
unfolding program
order_by_late_by_two = refl

abbrev held : Buffer ℕ
held = record {
  contents = 2 ∷ 5 ∷ [];
  max_buf_len = 2;
  sent = [];
  closed = false;
  sink_closed = false;
}

insert_evicts :
    insert compare false 3 held ≡ (true, record held { contents = 3 ∷ 5 ∷ []; sent = 2 ∷ [] })
unfolding program
insert_evicts = refl

insert-eq-ideal_insert_example : insert compare false 3 held ≡ ideal_insert compare false 3 held
insert-eq-ideal_insert_example =
    insert-eq-ideal_insert compare nat_order false 3 held refl ((refl, tt), (tt, tt))

insert-Inserted_example :
    ((insert compare false 3 held).0 ≡ true) × Inserted 3 held (insert compare false 3 held).1
insert-Inserted_example = insert-Inserted compare 3 held refl (omega arith)

-- The context is seen as done by the second insertion's select, and by the last one of the goroutine
-- that passes on.
abbrev ending : Selects
ending = record { inserts = λ i. i == 1; stop = some 4; forwards = λ i. i == 2 }

order_by-Within_example :
    Within (order_by 1 compare ending late_by_one).0 late_by_one
    × Perm (order_by 1 compare living late_by_one).0 late_by_one
    × ((order_by 1 compare living late_by_one).1 ≡ true)
order_by-Within_example = order_by-Within 1 compare ending late_by_one

order_by-IsSorted_example : IsSorted compare (order_by 1 compare living late_by_one).0
unfolding program
order_by-IsSorted_example = order_by-IsSorted compare nat_order 1 late_by_one (omega arith)
