-- ===== src/Tableize/Tests.antt =====
-- Tableized functions of purefn on small inputs.
use effect_ive_go.Base.{
  false, ℕ, ◌+◌, ◌≡◌, refl, Option, none, some, List, [], ◌∷◌, arith, ℕ_discrete, ap, length, ◌∙◌,
  sym, ◌/◌, ◌%◌,
}
use effect_ive_go.Trie.{
  Trie, empty, ◌>>=◌, new_trie, map_load, map_store, traverse, load_from, store_in, load, rotate,
  store,
}
use effect_ive_go.Trie.Maps.{find}
use effect_ive_go.Tableize.{
  table_keys, tableize, apply2, tableize_dual_output, Result, tableize_i2_o2,
}
use effect_ive_go.Tableize.Memo.{Pure, run_calls, run_plain, tableize-eq-plain}
use effect_ive_go.Tableize.Arity.{apply2-total, pack, tableize_dual_output-eq-tableize}

-- No argument is a `Stringer`.
abbrev plain : ℕ → Option ℕ
plain a = none

-- Every argument has the same text.
abbrev constant : ℕ → Option ℕ
constant a = some 0

program : Unit {0}
unfolding new_trie map_load map_store traverse load_from store_in load rotate store find ℕ_discrete
    table_keys tableize apply2 run_calls run_plain tableize_dual_output
program = tt

abbrev sum_of : List ℕ → Option ℕ
sum_of = apply2 (λ a b. a + b)

abbrev calls : List (List ℕ)
calls = (1 ∷ 2 ∷ []) ∷ (2 ∷ 2 ∷ []) ∷ (1 ∷ 2 ∷ []) ∷ []

plain_keys : (args : List ℕ) → table_keys plain args ≡ args
unfolding table_keys
plain_keys [] = refl
plain_keys (a ∷ args) = ap (◌∷◌ a) (plain_keys args)

-- Two arguments.
abbrev Two : List ℕ → Type 0
Two args = length args ≡ 2

sum_of-Pure : Pure plain ℕ_discrete (λ v. false) Two 1 sum_of
sum_of-Pure = record {
  arity = λ args l. l;
  total = apply2-total (λ a b. a + b);
  not_nil = λ args v l e. refl;
  keyed = λ args args' l l' e. ap sum_of (sym (plain_keys args) ∙ e ∙ plain_keys args');
}

abbrev fresh : Trie ℕ ℕ
fresh = record { memo0 = empty; memo1 = empty; head_idx = 0; size = 0; max_size = 2 }

runs :
    (new_trie 2 >>= run_calls plain ℕ_discrete (λ v. false) sum_of calls >>= λ r. some r.0)
    ≡ some (3 ∷ 4 ∷ 3 ∷ [])
unfolding program
runs = refl

tableize-eq-plain_example :
    (vs : List ℕ) × (t : Trie ℕ ℕ) × ((new_trie 2
        >>= run_calls plain ℕ_discrete (λ v. false) sum_of calls)
      ≡ some (vs, t))
    × (run_plain plain ℕ_discrete (λ v. false) sum_of calls ≡ some vs)
tableize-eq-plain_example =
    tableize-eq-plain plain ℕ_discrete (λ v. false) Two 1 2 sum_of calls sum_of-Pure
      (refl, (refl, (refl, tt))) (omega arith) (omega arith)

-- All arguments have the same text, so the second call gets the result of the first.
collision :
    (new_trie 2
      >>= run_calls constant ℕ_discrete (λ v. false) sum_of ((1 ∷ 2 ∷ []) ∷ (5 ∷ 6 ∷ []) ∷ [])
      >>= λ r. some r.0)
    ≡ some (3 ∷ 3 ∷ [])
unfolding program
collision = refl

abbrev divide : List ℕ → Option (ℕ × ℕ)
divide args = some (length args, 1)

abbrev dual : Trie ℕ (Result ℕ ℕ)
dual = record { memo0 = empty; memo1 = empty; head_idx = 0; size = 0; max_size = 2 }

tableize_dual_output-eq-tableize_example :
    tableize_dual_output plain ℕ_discrete divide (1 ∷ []) dual ≡ (
      tableize plain ℕ_discrete
        (λ v. false)
        (λ as_. pack plain ℕ_discrete (divide as_))
        (1 ∷ [])
        dual
      >>= λ r. some ((r.0.o1, r.0.o2), r.1))
tableize_dual_output-eq-tableize_example =
    tableize_dual_output-eq-tableize plain ℕ_discrete divide (1 ∷ []) dual

-- The quotient and the remainder of two numbers, and then a call that finds their entry.
divided_twice : Option ((ℕ × ℕ) × (ℕ × ℕ))
divided_twice = tableize_i2_o2 plain ℕ_discrete (λ a b. (a / b, a % b)) 17 5 dual >>= λ r.
    tableize_i2_o2 plain ℕ_discrete (λ a b. (0, 0)) 17 5 r.1 >>= λ q. some (r.0, q.0)

divide_once : divided_twice ≡ some ((3, 2), (3, 2))
unfolding divided_twice tableize_i2_o2 tableize_dual_output apply2 table_keys load store rotate
    load_from store_in traverse map_load map_store ℕ_discrete
divide_once = refl
