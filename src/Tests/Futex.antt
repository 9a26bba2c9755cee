-- ===== src/Tests/Futex.antt =====
-- include/gpcl/detail/impl/futex_mutex.ipp and futex_condition_variable.ipp with two threads.
use gpcl.Base.{ℕ, ◌+◌, ◌≤◌, ◌≡◌, ◌≢◌, refl, Bool, true, false, [], ◌∷◌, some, get_elem?, arith}
use gpcl.Futex.{
  State, Place, asleep, holding, unreachable, spin_step, attempt_step, wait_step, interrupt_step,
  unlock_step, try_lock_step, start_lock, spin, attempt, wait, interrupt, Reachable, start,
  then_step,
}
use gpcl.Futex.Threads.{holds, attends}
use gpcl.Futex.Exclusion.{Reachable-exclusive, Reachable-attended, Reachable-sound}
use gpcl.Futex.Condition.{
  notify_store, wake_one, futex_wait, store, check, wake_all, lock_again, notify, notify-lost,
  starts, goes_on, checks, waits, notifies, wakes_one,
}
use gpcl.Futex.Condition

abbrev contended : State
contended = record { fut = 0; threads = holding ∷ asleep ∷ [] }

program : Unit {0}
unfolding spin_step attempt_step wait_step interrupt_step unlock_step try_lock_step
program = tt

-- The first thread takes the mutex; the second one spins, tries once more, and goes to sleep.
contended_Reachable : (b : Bool) → Reachable b 2 contended
unfolding program
contended_Reachable b =
    let first = then_step (then_step start (start_lock _ 0 refl)) (spin _ 0 0 refl) in
    let spins =
      then_step
        (then_step
          (then_step
            (then_step (then_step (then_step first (start_lock _ 1 refl)) (spin _ 1 0 refl))
              (spin _ 1 1 refl))
            (spin _ 1 2 refl))
          (spin _ 1 3 refl))
        (spin _ 1 4 refl) in
    let spun =
      then_step
        (then_step
          (then_step (then_step (then_step spins (spin _ 1 5 refl)) (spin _ 1 6 refl))
            (spin _ 1 7 refl))
          (spin _ 1 8 refl))
        (spin _ 1 9 refl) in
    then_step (then_step spun (attempt _ 1 refl)) (wait _ 1 refl)

-- A signal makes the sleeping thread fail.
interrupted : Reachable true 2 (record { fut = 0; threads = holding ∷ unreachable ∷ [] })
unfolding program
interrupted = then_step (contended_Reachable true) (interrupt contended 1 refl refl)

Reachable-exclusive_example : holds holding + holds asleep ≤ 1
Reachable-exclusive_example =
    Reachable-exclusive 0 1 holding asleep (contended_Reachable true) refl refl
      (λ c. absurd (omega arith))

Reachable-attended_example :
    (j : ℕ) × ((p : Place) × (get_elem? contended.threads j ≡ some p) × (1 ≤ holds p + attends p))
Reachable-attended_example = Reachable-attended 1 (contended_Reachable true) refl

Reachable-sound_example : asleep ≢ unreachable
Reachable-sound_example = Reachable-sound 1 asleep (contended_Reachable false) refl

-- One thread was woken and has not stored its 0 yet; another one is about to wait.
abbrev woken : Condition.State
woken = record { fut = 1; entering = 1; sleeping = 0; storing = 1; locking = 0; returned = 0 }

woken-Reachable : Condition.Reachable woken
unfolding notify_store wake_one futex_wait store check
woken-Reachable =
    goes_on
      (goes_on
        (goes_on
          (goes_on (goes_on (goes_on starts (checks false)) (waits (omega arith))) (checks false))
          notifies)
        wakes_one)
      notifies

notify-lost_example :
    ((futex_wait (notify true woken)).sleeping ≡ (notify true woken).sleeping)
    × Condition.Reachable (futex_wait (store (notify true woken)))
    × ((futex_wait (store (notify true woken))).sleeping ≡ (notify true woken).sleeping + 1)
    × ((futex_wait (store (notify true woken))).fut ≡ 0)
notify-lost_example = notify-lost true woken woken-Reachable (omega arith) (omega arith)
