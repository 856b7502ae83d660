-- ===== src/CachedDatabase/Tests.antt =====
-- The store over a table that is a function from its index.
use effect_ive_go.Base.{
  Bool, true, false, not, if◌then◌else◌, ◌∙◌, ℕ, ◌≡◌, refl, inl, true, Option, none, some, List, [],
  ◌∷◌, ◌==◌, ℕ_discrete, ap, arith,
}
use effect_ive_go.State.{Values, update}
use effect_ive_go.CachedDatabase.{MemDb, mem_db_store}
use effect_ive_go.CachedDatabase.Rows.{
  Call, load, insert_if_absent, compare_and_swap, compare_and_delete, found, done, calls_of,
  map_calls, IsTable, IsIndexed, mem_db_store-map_calls,
}
use effect_ive_go.Helper.{no_such_key}
use effect_ive_go.Registry.{Registry}
use effect_ive_go.State.{cas_impl, in_mem_store, StateStore}
use effect_ive_go.CachedDatabase.Tiers.{Channels, Data}

-- A person with an e-mail address, which is the index, and an age.
pub record Person : Type 0 where
  pub email : ℕ
  pub age : ℕ

abbrev person_table : MemDb ℕ Person (ℕ → Option Person)
person_table = record {
  first = λ k t. (t k, none);
  insert = λ v t.
      if v.email == 0 then (some no_such_key, t) else (none, update ℕ_discrete t v.email (some v));
  delete = λ v t. elim (t v.email) [
    | some row ↦ (none, update ℕ_discrete t v.email none)
    | none ↦ (some no_such_key, t)
  ];
}

abbrev persons : Values Person
persons = record {
  type_of = λ v. 0;
  equatable = λ v. some (λ w. v.age == w.age);
  same = λ v w. v.age == w.age;
}

abbrev no_rows : ℕ → Option Person
no_rows k = none

abbrev ann : Person
ann = record { email = 1; age = 30 }

abbrev ben : Person
ben = record { email = 2; age = 40 }

-- Inserted under keys that are not their addresses, as `main` does, the first is not found, and the
-- second insertion under the same key succeeds.
other_keys :
    (calls_of
      (mem_db_store persons person_table)
      (insert_if_absent 9 ann ∷ load 9 ∷ insert_if_absent 9 ben ∷ [])
      no_rows).0
    ≡ done (true, none) ∷ found (none, none) ∷ done (true, none) ∷ []
unfolding mem_db_store ℕ_discrete
other_keys = refl

abbrev has_email : Person → Bool
has_email v = not (v.email == 0)

person_table-IsTable : IsTable ℕ_discrete (λ v. v.email) has_email person_table (λ t m. t ≡ m)
person_table-IsTable = record {
  firsts = λ k t m e. ap (λ f. (f k, none)) e;
  inserts = λ v t m e fits.
      let there : (v.email == 0) ≡ false = ground (arith, fits) in
      (_, rw there refl, ap (λ f. update ℕ_discrete f v.email (some v)) e);
  deletes = λ v t m e there.
      let row : t v.email ≡ some v = ap (λ f. f v.email) e ∙ there in
      (_, rw row refl, ap (λ f. update ℕ_discrete f v.email none) e);
}

abbrev some_calls : List (Call ℕ Person)
some_calls =
    insert_if_absent 1 ann
    ∷ compare_and_swap 1 ann (record { email = 1; age = 31 })
    ∷ compare_and_delete 1 ann
    ∷ load 1
    ∷ []

mem_db_store-map_calls_example :
    (t : ℕ → Option Person) × (calls_of (mem_db_store persons person_table) some_calls no_rows
      ≡ ((map_calls ℕ_discrete persons some_calls no_rows).0, t))
    × (t ≡ (map_calls ℕ_discrete persons some_calls no_rows).1)
    × IsIndexed (λ v. v.email) (map_calls ℕ_discrete persons some_calls no_rows).1
mem_db_store-map_calls_example =
    mem_db_store-map_calls ℕ_discrete persons (λ v. v.email) has_email person_table (λ t m. t ≡ m)
      person_table-IsTable some_calls no_rows no_rows refl (λ k. inl refl)
      ((refl, refl), ((refl, refl), (tt, (tt, tt))))

abbrev ages : Values ℕ
ages = record { type_of = λ v. 0; equatable = λ v. none; same = ◌==◌ }

abbrev empty_store : StateStore ℕ ℕ (ℕ → Option ℕ)
empty_store = cas_impl (in_mem_store ℕ_discrete ages) (λ k. none)

abbrev channels : Channels
channels = record { db_sink = 1; db_source = 2; cache_sink = 3; cache_source = 4; dropped = 5 }

abbrev three : Data ℕ ℕ
three = record { key1 = 1; key2 = 2; key3 = 3; person1 = 10; person2 = 20; person3 = 30 }

abbrev no_streams : Registry
no_streams = record { entries = λ key. none; next_address = 0; arbiters = [] }
