-- ===== src/State/Stores.antt =====
-- A `SetStore` serves a handler as well as the in-memory store.
use effect_ive_go.Base.{ℕ, ◌≡◌, refl, false, List}
use effect_ive_go.Helper.{ret}
use effect_ive_go.State.{Values, Payload, SetStore, cas_impl, set_impl, in_mem_store}
use effect_ive_go.State.Delegate.{Reply, Handler}
use effect_ive_go.State.Memory.{
  Map, LawfulSet, PlainValues, Models, IsMemory, set_store-Refines, in_mem_store-Refines,
}
use effect_ive_go.State.Single.{AllData, effect_run, map_run, effect_run-map_run}

-- On plain values, a handler over a `SetStore` that reads and writes the map `m` without errors
-- gives any sequence of loads, insertions, compare-and-swaps and compare-and-deletes the same
-- replies as a handler over the in-memory store with the contents `m`, both without delegation and
-- with no handler above; and it leaves in its store what that leaves.
pub set_store-eq-in_mem_store :
    {K V T : Type 0} (dec : Discrete K) (vs : Values V) (ops : SetStore K V T)
    (view : T → Map dec vs) (now : ℕ) (ps : List (Payload K V)) (t : T) (h : Handler K V T)
    (g : Handler K V (Map dec vs))
    → LawfulSet dec vs ops view
    → PlainValues dec vs
    → AllData dec vs ps
    → h.store ≡ set_impl ops t
    → g.store ≡ cas_impl (in_mem_store dec vs) (view t)
    → h.delegation ≡ false
    → g.delegation ≡ false
    → (replies : List (Reply V)) × (h' : Handler K V T) × (g' : Handler K V (Map dec vs)) × (t' : T)
      × (effect_run T dec vs now 1 ps (h, tt) ≡ ret (replies, (h', tt)))
      × (effect_run (Map dec vs) dec vs now 1 ps (g, tt) ≡ ret (replies, (g', tt)))
      × (h'.store ≡ set_impl ops t')
      × (g'.store ≡ cas_impl (in_mem_store dec vs) (view t'))
set_store-eq-in_mem_store dec vs ops view now ps t h g l plain d eh eg ah ag =
    let (h', run_h, (t', is_set, seen)) =
      effect_run-map_run dec vs (Models dec vs ops view) (set_store-Refines dec vs ops view l plain)
        now ps h (view t) d (t, eh, refl) ah in
    let (g', run_g, is_mem) =
      effect_run-map_run dec vs (IsMemory dec vs) (in_mem_store-Refines dec vs) now ps g (view t) d
        eg ag in
    ((map_run dec vs ps (view t)).0, h', g', t', run_h, run_g, is_set, rw seen is_mem)
