-- ===== src/CachedDatabase.antt =====
-- examples/cached_database: the stores over go-memdb and ristretto that the state effect is used
-- with.
--
-- The database and the cache are parameters. A transaction works on a copy of the database, `T`,
-- which a commit puts in its place and an abort drops. Tables and indexes other than the store's
-- are left out.
pub mod Rows
pub mod Tiers
mod Tests
use effect_ive_go.Base.{ℕ, Bool, true, false, not, Option, none, some, if◌then◌else◌, ◌||◌}
use effect_ive_go.Helper.{Err}
use effect_ive_go.State.{Values, equals, Done, Found, CasStore, SetStore}

-- What the store uses of go-memdb: `First` by the index, which gives nil if there is no row, and
-- `Insert` and `Delete` in a write transaction.
pub record MemDb (K V T : Type 0) : Type 0 where
  pub first : K → T → Option V × Option Err
  pub insert : V → T → Option Err × T
  pub delete : V → T → Option Err × T

-- The end of a write: the deferred abort after an error, or else the commit.
abbrev pub commit_if : {T : Type 0} → T → Option Err × T → Done × T
commit_if t (some err, t') = ((false, some err), t)
commit_if t (none, t') = ((true, none), t')

-- `Load`, with what `First` returned.
unfoldable pub load_first : {V : Type 0} → Option V × Option Err → Found V
load_first (raw, some err) = (none, some err)
load_first (raw, none) = (raw, none)

-- `InsertIfAbsent`, with what `First` returned.
unfoldable pub insert_if_no_row :
    {K V T : Type 0} → MemDb K V T → V → T → Option V × Option Err → Done × T
insert_if_no_row db value t (old, some err) = ((false, some err), t)
insert_if_no_row db value t (some old, none) = ((false, none), t)
insert_if_no_row db value t (none, none) = commit_if t (db.insert value t)

-- `CompareAndSwap` and `CompareAndDelete`, with what `First` returned; `write` is the change.
unfoldable pub write_if_row :
    {V T : Type 0} → Values V → V → (V → T → Option Err × T) → T → Option V × Option Err → Done × T
write_if_row vs old write t (actual, some err) = ((false, some err), t)
write_if_row vs old write t (none, none) = ((false, none), t)
write_if_row vs old write t (some actual, none) =
    if not (equals vs old actual) then ((false, none), t) else commit_if t (write actual t)

module _ {K V T : Type 0} where
  -- `MemDBStore`.
  unfoldable pub mem_db_store : Values V → MemDb K V T → CasStore K V T
  unfolding load_first insert_if_no_row write_if_row
  mem_db_store vs db = record {
    load = λ key t. (load_first (db.first key t), t);
    insert_if_absent = λ key value t. insert_if_no_row db value t (db.first key t);
    compare_and_swap =
        λ key old new t. write_if_row vs old (λ actual. db.insert new) t (db.first key t);
    compare_and_delete = λ key old t. write_if_row vs old db.delete t (db.first key t);
  }

-- What `Ristretto` uses of the cache; `set` takes a cost, and tells whether the item was taken.
pub record Cache (K V T : Type 0) : Type 0 where
  pub get : K → T → Option V × T
  pub set : K → V → ℕ → T → Bool × T
  pub del : K → T → T

module _ {K V T : Type 0} where
  -- `Ristretto`: no operation has an error, also if the cache did not take the item.
  unfoldable pub ristretto : Cache K V T → SetStore K V T
  ristretto cache = record {
    get = λ key t. let r = cache.get key t in ((r.0, none), r.1);
    set = λ key value t. let r = cache.set key value 32768 t in (none, r.1);
    delete = λ key t. (none, cache.del key t);
  }
