-- ===== src/Tests/RefCount.antt =====
-- include/gpcl/detail/ref_count_base.hpp in concrete runs.
use gpcl.Base.{◌≤◌, ◌<◌, ◌≡◌, ◌⊎◌, refl, arith}
use gpcl.RefCount.Counting.{Reachable-safe, Reachable-complete}
use gpcl.RefCount.{
  State, created, get, put, destroy, release, delete, get_step, put_step, destroy_step,
  release_step, weak_get_step, weak_put_step, delete_step, lock_step, act, step, Reachable, start,
  then_step,
}

program : Unit {0}
unfolding step act get_step put_step destroy_step release_step weak_get_step weak_put_step
    delete_step lock_step
program = tt

-- A second reference, taken and given back
abbrev shared : State
shared = record created { use_count = 2; strong = 2 }

shared-Reachable : Reachable shared
unfolding program
shared-Reachable = then_step get start (omega arith) refl

-- The last reference is given back, and the thread goes through `put`.
abbrev finished : State
finished = record created { use_count = 0; weak_count = 0; strong = 0; destroyed = 1; deleted = 1 }

finished-Reachable : Reachable finished
unfolding program
finished-Reachable =
    then_step delete
      (then_step release
        (then_step destroy (then_step put start (omega arith) refl) (omega arith) refl)
        (omega arith) refl)
      (omega arith) refl

Reachable-safe_example :
    (shared.destroyed ≤ 1)
    × (0 < shared.strong → shared.destroyed ≡ 0)
    × (shared.deleted ≤ 1)
    × ((0 < shared.strong) ⊎ (0 < shared.weak) → shared.deleted ≡ 0)
Reachable-safe_example = Reachable-safe shared shared-Reachable

Reachable-complete_example : (finished.destroyed ≡ 1) × (finished.deleted ≡ 1)
Reachable-complete_example = Reachable-complete finished finished-Reachable refl refl refl refl refl
