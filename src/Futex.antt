-- ===== src/Futex.antt =====
-- include/gpcl/detail/impl/futex_mutex.ipp and include/gpcl/detail/futex_mutex.hpp: a mutex in one word,
-- and include/gpcl/detail/impl/futex_condition_variable.ipp, a condition variable in another.
-- A state is the word and where each thread stands. A step is an atomic one of one thread: a compare and
-- exchange, or a system call with the answer of the kernel. The kernel puts a thread to sleep only if the
-- word has the expected value, may wake it for no reason, and may interrupt it by a signal.
pub mod Threads
pub mod Exclusion
pub mod Condition
use gpcl.Base.{
  ℕ, zero, suc, ◌+◌, Bool, true, false, List, [], ◌∷◌, Option, none, some, ltb, ◌==◌, if◌then◌else◌,
  get_elem?, replicate, ◌≡◌,
}

abbrev pub futex_locked : ℕ
futex_locked = 0

abbrev pub futex_unlocked : ℕ
futex_unlocked = 1

-- Where a thread stands: outside, in the first loop of `lock` behind some tries, before the compare and
-- exchange of the second loop, before FUTEX_WAIT, asleep in it, with the mutex, in `unlock` before the
-- compare and exchange and before FUTEX_WAKE, or at GPCL_UNREACHABLE
pub data Place : Type 0 where
  outside trying waiting asleep holding unlocking waking unreachable : Place
  spinning : ℕ → Place

pub record State : Type 0 where
  pub fut : ℕ
  pub threads : List Place

abbrev pub set : List Place → ℕ → Place → List Place
set [] i p = []
set (q ∷ qs) zero p = p ∷ qs
set (q ∷ qs) (suc i) p = q ∷ set qs i p

abbrev pub moved : State → ℕ → Place → State
moved s i p = record s { threads = set s.threads i p }

-- `__atomic_compare_exchange_n`: the word behind it, if it had the expected value
abbrev pub compare_exchange : ℕ → ℕ → ℕ → Option ℕ
compare_exchange word expected desired = if word == expected then some desired else none

abbrev pub lock_or : State → ℕ → Place → State
lock_or s i p = elim (compare_exchange s.fut futex_unlocked futex_locked) [
  | some w ↦ record (moved s i holding) { fut = w }
  | none ↦ moved s i p
]

-- A round of the first loop of `lock`, of 10
unfoldable pub spin_step : State → ℕ → ℕ → State
spin_step s i n = lock_or s i (if ltb (n + 1) 10 then spinning (n + 1) else trying)

-- The compare and exchange of the second loop
unfoldable pub attempt_step : State → ℕ → State
attempt_step s i = lock_or s i waiting

-- FUTEX_WAIT with the expected value 0, or EAGAIN
unfoldable pub wait_step : State → ℕ → State
wait_step s i = if s.fut == 0 then moved s i asleep else moved s i trying

-- EINTR is an error that the code does not expect.
unfoldable pub interrupt_step : State → ℕ → State
interrupt_step s i = moved s i unreachable

unfoldable pub unlock_step : State → ℕ → State
unlock_step s i = elim (compare_exchange s.fut futex_locked futex_unlocked) [
  | some w ↦ record (moved s i waking) { fut = w }
  | none ↦ moved s i unreachable
]

unfoldable pub try_lock_step : State → ℕ → State
try_lock_step s i = lock_or s i outside

abbrev pub is_asleep : Place → Bool
is_asleep asleep = true
is_asleep outside = false
is_asleep trying = false
is_asleep waiting = false
is_asleep holding = false
is_asleep unlocking = false
is_asleep waking = false
is_asleep unreachable = false
is_asleep (spinning n) = false

abbrev pub any_asleep : List Place → Bool
any_asleep [] = false
any_asleep (p ∷ ps) = let others = any_asleep ps in if is_asleep p then true else others

-- The steps of the threads; those by which the kernel interrupts a thread are there if `signals` is true.
-- FUTEX_WAKE wakes one thread that is asleep, if there is one.
pub data Step (signals : Bool) : State → State → Type 0 where
  start_lock :
      (s : State) (i : ℕ)
      → get_elem? s.threads i ≡ some outside
      → Step signals s (moved s i (spinning 0))
  spin :
      (s : State) (i n : ℕ)
      → get_elem? s.threads i ≡ some (spinning n)
      → Step signals s (spin_step s i n)
  attempt :
      (s : State) (i : ℕ) → get_elem? s.threads i ≡ some trying → Step signals s (attempt_step s i)
  wait : (s : State) (i : ℕ) → get_elem? s.threads i ≡ some waiting → Step signals s (wait_step s i)
  wake_spuriously :
      (s : State) (i : ℕ) → get_elem? s.threads i ≡ some asleep → Step signals s (moved s i trying)
  interrupt :
      (s : State) (i : ℕ)
      → signals ≡ true
      → get_elem? s.threads i ≡ some asleep
      → Step signals s (interrupt_step s i)
  try_lock :
      (s : State) (i : ℕ)
      → get_elem? s.threads i ≡ some outside
      → Step signals s (try_lock_step s i)
  start_unlock :
      (s : State) (i : ℕ)
      → get_elem? s.threads i ≡ some holding
      → Step signals s (moved s i unlocking)
  unlock :
      (s : State) (i : ℕ)
      → get_elem? s.threads i ≡ some unlocking
      → Step signals s (unlock_step s i)
  wake_none :
      (s : State) (i : ℕ)
      → get_elem? s.threads i ≡ some waking
      → any_asleep s.threads ≡ false
      → Step signals s (moved s i outside)
  wake :
      (s : State) (i j : ℕ)
      → get_elem? s.threads i ≡ some waking
      → get_elem? s.threads j ≡ some asleep
      → Step signals s (moved (moved s j trying) i outside)

-- The states of runs from an unlocked mutex and any number of threads outside
pub data Reachable (signals : Bool) (n : ℕ) : State → Type 0 where
  start : Reachable signals n (record { fut = futex_unlocked; threads = replicate n outside })
  then_step : {s s' : State} → Reachable signals n s → Step signals s s' → Reachable signals n s'
