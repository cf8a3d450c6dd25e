-- ===== src/Cache/Memory/Tests.antt =====
-- Runs of the memory store of a cache (cache/memory.go), and the theorems at them.
use tug.Common.{◌≡◌, refl, arith, List, [], ◌∷◌, none, some, lookup, insert, str_eq}
use tug.Cache.Memory.{
  empty, saw, sweep, set, found, get, add, delete_if, keeps, Op, gets, sets, adds, deletes_if, step,
  run,
}
use tug.Cache.Memory.Refines.{keep_run, nothing, is_none, run_refines}

abbrev calls : List Op
calls =
    sets (1 ∷ []) (7 ∷ []) 20
    ∷ adds (1 ∷ []) (8 ∷ []) 40 10
    ∷ gets (1 ∷ []) 11
    ∷ deletes_if (1 ∷ []) (8 ∷ [])
    ∷ []

-- A value is read until it expires.
reads_until_expired :
    ((get (run empty calls) (1 ∷ []) 19).1 ≡ some (7 ∷ []))
    × ((get (run empty calls) (1 ∷ []) 20).1 ≡ none)
unfolding get run step set add saw sweep found lookup delete_if keeps insert str_eq
reads_until_expired = (refl, refl)

run_refines_example :
    ((get (run empty calls) (1 ∷ []) 12).1 ≡ found 12 (keep_run nothing calls (1 ∷ [])))
    × ((add (run empty calls) (1 ∷ []) (9 ∷ []) 50 12).1
        ≡ is_none (found 12 (keep_run nothing calls (1 ∷ []))))
run_refines_example =
    run_refines calls 11 12 (1 ∷ []) (9 ∷ []) 50 (omega arith, (omega arith, omega arith))
      (omega arith)
