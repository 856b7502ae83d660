-- ===== src/State/Tests.antt =====
-- State handlers over small stores.
use effect_ive_go.Base.{
  ℕ, ◌≡◌, refl, Bool, true, false, Option, none, some, List, [], ◌∷◌, ◌==◌, ℕ_discrete, ◌⊎◌, ◌&&◌,
  leb, arith, length, take,
}
use effect_ive_go.Helper.{ret}
use effect_ive_go.State.{
  Values, equals, Payload, load, insert_if_absent, compare_and_swap, compare_and_delete, SetStore,
  cas_impl, set_impl, in_mem_store, update,
}
use effect_ive_go.State.Delegate.{bool, Reply, Handler, Timer}
use effect_ive_go.State.Stack.{Stack, fire}
use effect_ive_go.State.Memory.{LawfulSet, PlainValues, IsMemory, in_mem_store-Refines}
use effect_ive_go.State.Single.{effect_run, announces, map_step}
use effect_ive_go.State.Events.{timed_run, events_of, run_senders, timed_run-events}
use effect_ive_go.State.Tiers.{Identities, Tiers, tiers_step, tiers_run}
use effect_ive_go.State.Tiers.Refinement.{effect_run-tiers_run}
use effect_ive_go.State.Stores.{set_store-eq-in_mem_store}
use effect_ive_go.State.Expiry.{nothing_above, Expired, fire-Expired}
use effect_ive_go.State.Overlay.{mem}

abbrev values : Values ℕ
values = record { type_of = λ v. 0; equatable = λ v. none; same = ◌==◌ }

abbrev table : ℕ → Option ℕ
table = update ℕ_discrete (λ k. none) 1 (some 10)

abbrev empty : ℕ → Option ℕ
empty = λ k. none

abbrev over : Bool → (ℕ → Option ℕ) → Handler ℕ ℕ (ℕ → Option ℕ)
over delegation m = record {
  store = mem ℕ_discrete values m;
  timers = λ k. none;
  clocks = [];
  senders = [];
  sink = [];
  sink_cap = 4;
  delegation = delegation;
}

abbrev nested : Stack 2 ℕ ℕ (ℕ → Option ℕ)
nested = (over true empty, (over false table, tt))

abbrev script : List (Payload ℕ ℕ)
script =
    insert_if_absent 1 11
    ∷ compare_and_swap 1 10 12
    ∷ load 1
    ∷ compare_and_delete 1 12
    ∷ load 1
    ∷ []

values-Identities : Identities ℕ_discrete values
unfolding equals
values-Identities = record {
  plain = λ i j. refl;
  reflects = λ i j e. ground arith;
  reflexive = λ i. ground arith;
}

-- An insertion that the cache refuses overwrites the value of the store behind it.
refused_insertion :
    tiers_step ℕ_discrete values (insert_if_absent 1 11) (table ∷ table ∷ [])
    ≡ ((bool false, none), table ∷ update ℕ_discrete table 1 (some 11) ∷ [])
unfolding tiers_step ℕ_discrete
refused_insertion = refl

effect_run-tiers_run_example :
    (s : Stack 2 ℕ ℕ (ℕ → Option ℕ)) × (effect_run
        (ℕ → Option ℕ)
        ℕ_discrete
        values
        0
        2
        script
        nested
      ≡ ret ((tiers_run ℕ_discrete values script (empty ∷ table ∷ [])).0, s))
    × Tiers ℕ_discrete values
        (IsMemory ℕ_discrete values)
        1
        s
        (tiers_run ℕ_discrete values script (empty ∷ table ∷ [])).1
effect_run-tiers_run_example =
    effect_run-tiers_run ℕ_discrete values (IsMemory ℕ_discrete values)
      (in_mem_store-Refines ℕ_discrete values) values-Identities 0 1 script nested
      (empty ∷ table ∷ []) (tt, (tt, (tt, (tt, (tt, tt))))) (refl, refl, (refl, refl))

abbrev plain_ops : SetStore ℕ ℕ (ℕ → Option ℕ)
plain_ops = record {
  get = λ k m. ((m k, none), m);
  set = λ k v m. (none, update ℕ_discrete m k (some v));
  delete = λ k m. (none, update ℕ_discrete m k none);
}

plain_ops-LawfulSet : LawfulSet ℕ_discrete values plain_ops (λ m. m)
plain_ops-LawfulSet = record {
  get_found = λ k t. refl;
  get_kept = λ k t. refl;
  set_view = λ k v t. refl;
  delete_view = λ k t. refl;
}

values-PlainValues : PlainValues ℕ_discrete values
unfolding equals
values-PlainValues i j = refl

set_store-eq-in_mem_store_example :
    (replies : List (Reply ℕ)) × (h : Handler ℕ ℕ (ℕ → Option ℕ)) × (g : Handler ℕ ℕ (ℕ → Option ℕ))
    × (t : ℕ → Option ℕ) × (effect_run
          (ℕ → Option ℕ)
          ℕ_discrete
          values
          0
          1
          script
          (record (over false table) { store = set_impl plain_ops table }, tt)
        ≡ ret (replies, (h, tt)))
    × (effect_run (ℕ → Option ℕ) ℕ_discrete values 0 1 script (over false table, tt)
        ≡ ret (replies, (g, tt)))
    × (h.store ≡ set_impl plain_ops t)
    × (g.store ≡ cas_impl (in_mem_store ℕ_discrete values) t)
set_store-eq-in_mem_store_example =
    set_store-eq-in_mem_store ℕ_discrete values plain_ops (λ m. m) 0 script table
      (record (over false table) { store = set_impl plain_ops table }) (over false table)
      plain_ops-LawfulSet values-PlainValues (tt, (tt, (tt, (tt, (tt, tt))))) refl refl refl refl

-- A timer of the key 1 that is due at 5.
abbrev timer : Timer ℕ
timer = record { key = 1; deadline = 5; waiting = true }

abbrev ticking : Handler ℕ ℕ (ℕ → Option ℕ)
ticking = record (over false table) { clocks = timer ∷ [] }

same_self : (v : ℕ) → values.same v v ≡ true
same_self v = ground arith

fire-Expired_example :
    ((timer.waiting && leb timer.deadline 6 ≡ true)
      × (h : Handler ℕ ℕ (ℕ → Option ℕ)) × (m : ℕ → Option ℕ) × (fire ℕ_discrete values
            (nothing_above ℕ_discrete values
              (IsMemory ℕ_discrete values)
              (in_mem_store-Refines ℕ_discrete values)
              6)
            0
            6
            0
            ticking
            tt
          ≡ ret (h, tt))
      × IsMemory ℕ_discrete values h.store m
      × Expired ℕ_discrete values
          (IsMemory ℕ_discrete values)
          (in_mem_store-Refines ℕ_discrete values)
          6
          1
          table
          m)
    ⊎ ((timer.waiting && leb timer.deadline 6 ≡ false)
        × (fire ℕ_discrete values
              (nothing_above ℕ_discrete values
                (IsMemory ℕ_discrete values)
                (in_mem_store-Refines ℕ_discrete values)
                6)
              0
              6
              0
              ticking
              tt
            ≡ ret (ticking, tt)))
fire-Expired_example =
    fire-Expired ℕ_discrete values (IsMemory ℕ_discrete values)
      (in_mem_store-Refines ℕ_discrete values) 6 0 0 timer ticking table refl refl refl same_self

-- The script, an effect at each second.
abbrev timed_script : List (ℕ × Payload ℕ ℕ)
timed_script =
    (1_000_000_000, insert_if_absent 1 11)
    ∷ (2_000_000_000, compare_and_swap 1 10 12)
    ∷ (3_000_000_000, compare_and_delete 1 10)
    ∷ []

-- The refused insertion is announced, the refused deletion is not.
two_events : length (events_of ℕ_discrete values timed_script table) ≡ 2
unfolding announces map_step ℕ_discrete
two_events = refl

timed_run-events_example :
    (replies : List (Reply ℕ)) × (h : Handler ℕ ℕ (ℕ → Option ℕ)) × (timed_run ℕ_discrete values
        timed_script
        (over false table, tt)
      ≡ ret (replies, (h, tt)))
    × (h.senders ≡ events_of ℕ_discrete values timed_script table)
    × ((run_senders (length (events_of ℕ_discrete values timed_script table)) h).senders ≡ [])
    × ((run_senders (length (events_of ℕ_discrete values timed_script table)) h).sink
        ≡ take 4 (events_of ℕ_discrete values timed_script table))
timed_run-events_example =
    timed_run-events ℕ_discrete values (IsMemory ℕ_discrete values)
      (in_mem_store-Refines ℕ_discrete values) timed_script (over false table) table
      (tt, (tt, (tt, tt))) refl refl refl
