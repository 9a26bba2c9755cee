-- ===== src/Futex/Condition.antt =====
-- include/gpcl/detail/impl/futex_condition_variable.ipp: the word of a condition variable, and how many
-- threads stand where in `wait` and in the two `notify`.
use gpcl.Base.{
  false, refl, ◌≤◌, Bool-cases, inl, inr, Bool, not, ◌&&◌, ℕ, ◌+◌, ◌-◌, ◌<◌, ◌≡◌, true, ◌==◌,
  if◌then◌else◌, arith,
}

pub record State : Type 0 where
  pub fut : ℕ
  -- In `wait`: behind `mtx.unlock()` and before FUTEX_WAIT, asleep in it, before the store, before
  -- `mtx.lock()`, and returned
  pub entering : ℕ
  pub sleeping : ℕ
  pub storing : ℕ
  pub locking : ℕ
  pub returned : ℕ

-- The compare and exchange of `wait`, which returns at once if it takes the 1. It is a weak one, which
-- may fail although the word has the expected value.
unfoldable pub check : Bool → State → State
check fails s =
    if s.fut == 1 && not fails
    then record s { fut = 0; returned = s.returned + 1 }
    else record s { entering = s.entering + 1 }

-- FUTEX_WAIT with the expected value 0; every answer leads to the store.
unfoldable pub futex_wait : State → State
futex_wait s =
    if s.fut == 0
    then record s { entering = s.entering - 1; sleeping = s.sleeping + 1 }
    else record s { entering = s.entering - 1; storing = s.storing + 1 }

unfoldable pub store : State → State
store s = record s { fut = 0; storing = s.storing - 1; locking = s.locking + 1 }

-- The destructor of `locker`
unfoldable pub lock_again : State → State
lock_again s = record s { locking = s.locking - 1; returned = s.returned + 1 }

-- Both `notify` begin with the store of 1.
unfoldable pub notify_store : State → State
notify_store s = record s { fut = 1 }

-- FUTEX_WAKE for one thread
unfoldable pub wake_one : State → State
wake_one s =
    if s.sleeping == 0 then s else record s { sleeping = s.sleeping - 1; storing = s.storing + 1 }

-- FUTEX_WAKE for all
unfoldable pub wake_all : State → State
wake_all s = record s { sleeping = 0; storing = s.storing + s.sleeping }

-- A step of some thread that stands there
pub data Step : State → State → Type 0 where
  checks : {s : State} (fails : Bool) → Step s (check fails s)
  waits : {s : State} → 0 < s.entering → Step s (futex_wait s)
  stores : {s : State} → 0 < s.storing → Step s (store s)
  locks_again : {s : State} → 0 < s.locking → Step s (lock_again s)
  notifies : {s : State} → Step s (notify_store s)
  wakes_one : {s : State} → Step s (wake_one s)
  wakes_all : {s : State} → Step s (wake_all s)

abbrev pub initial : State
initial = record { fut = 0; entering = 0; sleeping = 0; storing = 0; locking = 0; returned = 0 }

pub data Reachable : State → Type 0 where
  starts : Reachable initial
  goes_on : {s t : State} → Reachable s → Step s t → Reachable t

-- `notify_one` or `notify_all`, without another step in between
abbrev pub notify : Bool → State → State
notify all s = if all then wake_all (notify_store s) else wake_one (notify_store s)

notify-Reachable : (all : Bool) (s : State) → Reachable s → Reachable (notify all s)
notify-Reachable true s r = goes_on (goes_on r notifies) wakes_all
notify-Reachable false s r = goes_on (goes_on r notifies) wakes_one

-- A notification changes neither the threads that are entering nor takes any from the store.
notify_lem :
    (all : Bool) (s : State)
    → ((notify all s).fut ≡ 1)
      × ((notify all s).entering ≡ s.entering)
      × (s.storing ≤ (notify all s).storing)
unfolding notify_store wake_one wake_all
notify_lem true s = (refl, refl, omega arith)
notify_lem false s = elim (Bool-cases (s.sleeping == 0)) [
  | inl t ↦ rw t (refl, refl, omega arith)
  | inr t ↦ rw t (refl, refl, omega arith)
]

-- A thread that is entering `wait` when a notification comes hears it, if FUTEX_WAIT is next: it does
-- not go to sleep. But where a thread that was woken before is about to store its 0, a run goes on
-- with that store, and the notification is lost: the other thread goes to sleep, although it had come
-- before the notification, which is one of either kind.
pub notify-lost :
    (all : Bool) (s : State)
    → Reachable s
    → 0 < s.entering
    → 0 < s.storing
    → ((futex_wait (notify all s)).sleeping ≡ (notify all s).sleeping)
      × Reachable (futex_wait (store (notify all s)))
      × ((futex_wait (store (notify all s))).sleeping ≡ (notify all s).sleeping + 1)
      × ((futex_wait (store (notify all s))).fut ≡ 0)
unfolding futex_wait store
notify-lost all s r e w =
    let (set, same, more) = notify_lem all s in
    let awake : ((notify all s).fut == 0) ≡ false = ground (arith, set) in
    let stored : Reachable (store (notify all s)) =
      goes_on (notify-Reachable all s r) (stores (omega (arith, more))) in
    (rw awake refl, goes_on stored (waits (omega (arith, same))), refl, refl)
