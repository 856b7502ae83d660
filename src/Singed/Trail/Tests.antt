-- ===== src/Singed/Trail/Tests.antt =====
-- Poison at a place that has none.
use effect_ive_go.Base.{
  ℕ, ◌+◌, ◌≡◌, refl, true, false, Option, none, List, [], ◌∷◌, ◌==◌, ℕ_discrete, arith,
}
use effect_ive_go.State.{Values, cas_impl, in_mem_store}
use effect_ive_go.State.Delegate.{Handler}
use effect_ive_go.State.Memory.{IsMemory, in_mem_store-Refines}
use effect_ive_go.Singed.{Words}
use effect_ive_go.Singed.Trail.{Trailed, trail_poison-Trailed}
use mathlib.Core.List.{List-discrete}

abbrev words : Words
words = record {
  environment_key = 101 ∷ 110 ∷ 118 ∷ [];
  coordinates = 99 ∷ [];
  ops = 111 ∷ [];
  hp = 104 ∷ 112 ∷ [];
  adjust = 97 ∷ [];
}

-- One digit.
abbrev digit : ℕ → List ℕ
digit n = (48 + n) ∷ []

-- Rates in tenths.
abbrev rates : Values ℕ
rates = record { type_of = λ v. 0; equatable = λ v. none; same = ◌==◌ }

abbrev no_poison : List ℕ → Option ℕ
no_poison key = none

abbrev environment : Handler (List ℕ) ℕ (List ℕ → Option ℕ)
environment = record {
  store = cas_impl (in_mem_store (List-discrete ℕ_discrete) rates) no_poison;
  timers = λ k. none;
  clocks = [];
  senders = [];
  sink = [];
  sink_cap = 4;
  delegation = false;
}

rates-same : (v : ℕ) → rates.same v v ≡ true
rates-same v = ground arith

trail_poison-Trailed_example :
    Trailed digit words
      (List-discrete ℕ_discrete)
      rates
      (IsMemory (List-discrete ℕ_discrete) rates)
      (in_mem_store-Refines (List-discrete ℕ_discrete) rates)
      8
      0
      5
      7
      1000
      325001000
      environment
      no_poison
trail_poison-Trailed_example =
    trail_poison-Trailed digit words (List-discrete ℕ_discrete) rates
      (IsMemory (List-discrete ℕ_discrete) rates)
      (in_mem_store-Refines (List-discrete ℕ_discrete) rates) 8 0 5 7 1000 325001000 environment
      no_poison refl refl rates-same
