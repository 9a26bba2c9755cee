-- ===== src/Futex/Exclusion.antt =====
-- include/gpcl/detail/impl/futex_mutex.ipp: one thread at a time has the mutex, and no wake is lost.
use gpcl.Base.{
  ℕ, ◌+◌, ◌≤◌, ◌≡◌, ◌≢◌, ◌⊎◌, refl, ap, ◌∙◌, some, Bool, true, false, ltb, ◌==◌, get_elem?, inl,
  inr, Bool-cases, arith,
}
use gpcl.Futex.{
  State, Place, outside, spinning, trying, waiting, asleep, holding, unlocking, waking, unreachable,
  set, moved, lock_or, spin_step, attempt_step, wait_step, interrupt_step, unlock_step,
  try_lock_step, Step, start_lock, spin, attempt, wait, wake_spuriously, interrupt, try_lock,
  start_unlock, unlock, wake_none, wake, Reachable, start, then_step,
}
use gpcl.Futex.Threads.{
  holds, attends, sleeps, failed, total, total-set, total-replicate, any_asleep-total,
  total-positive, total-pair, total-find, total-sum, get_elem?-set_other, places_differ,
}

-- The word is 1 exactly when no thread has the mutex. If threads sleep, one has the mutex or will try the
-- word again or wake another one.
pub record Safe (s : State) : Type 0 where
  pub exclusive : total holds s.threads + s.fut ≡ 1
  pub attended :
      (total sleeps s.threads ≡ 0) ⊎ (1 ≤ total holds s.threads + total attends s.threads)

module _ (s : State) (i : ℕ) (p q : Place) (e : get_elem? s.threads i ≡ some p) where
  -- A thread goes to where it attends to the sleeping ones.
  Safe-attends :
      (w : ℕ)
      → Safe s
      → holds q + w ≡ holds p + s.fut
      → 1 ≤ holds q + attends q
      → Safe (record (moved s i q) { fut = w })
  Safe-attends w v h a =
      let th = total-set holds s.threads i p q e in
      let ta = total-set attends s.threads i p q e in
      let ph = total-positive holds s.threads i p e in
      let pa = total-positive attends s.threads i p e in
      record { exclusive = omega (arith, v.exclusive); attended = inr (omega arith) }

  -- A thread that did not attend goes to where it does not, and does not go to sleep.
  Safe-aside :
      Safe s → holds q ≡ holds p → attends q ≡ attends p → sleeps q ≤ sleeps p → Safe (moved s i q)
  Safe-aside v h a l =
      let th = total-set holds s.threads i p q e in
      let ta = total-set attends s.threads i p q e in
      let ts = total-set sleeps s.threads i p q e in
      record {
        exclusive = omega (arith, v.exclusive);
        attended = elim v.attended [ inl z ↦ inl (omega arith) | inr b ↦ inr (omega arith) ];
      }

-- The compare and exchange takes the mutex, or the thread goes on.
Safe-lock_or :
    (s : State) (i : ℕ) (p q : Place)
    → get_elem? s.threads i ≡ some p
    → Safe s
    → holds p ≡ 0
    → Safe (moved s i q)
    → Safe (lock_or s i q)
Safe-lock_or s i p q e v h other = elim (Bool-cases (s.fut == 1)) [
  | inl t ↦
      let free : s.fut ≡ 1 = ground arith in
      rw (lock_or, t) (Safe-attends s i p holding e 0 v (omega (arith, h)) (omega arith))
  | inr t ↦ rw (lock_or, t) other
]

Safe-wait :
    (s : State) (i : ℕ) → get_elem? s.threads i ≡ some waiting → Safe s → Safe (wait_step s i)
unfolding wait_step
Safe-wait s i e v = elim (Bool-cases (s.fut == 0)) [
  | inl t ↦
      let locked : s.fut ≡ 0 = ground arith in
      let th = total-set holds s.threads i waiting asleep e in
      rw t (record {
        exclusive = omega (arith, v.exclusive);
        attended = inr (omega (arith, v.exclusive));
      })
  | inr t ↦ rw t (Safe-attends s i waiting trying e s.fut v refl (omega arith))
]

-- A thread that has the mutex finds the word locked.
Safe-unlock :
    (s : State) (i : ℕ) → get_elem? s.threads i ≡ some unlocking → Safe s → Safe (unlock_step s i)
unfolding unlock_step
Safe-unlock s i e v =
    let locked : s.fut ≡ 0 =
      omega (arith, v.exclusive, total-positive holds s.threads i unlocking e) in
    let t : (s.fut == 0) ≡ true = ground arith in
    rw (unlock_step, t) (Safe-attends s i unlocking waking e 1 v (omega arith) (omega arith))

Safe-wake :
    (s : State) (i j : ℕ)
    → get_elem? s.threads i ≡ some waking
    → get_elem? s.threads j ≡ some asleep
    → Safe s
    → Safe (moved (moved s j trying) i outside)
Safe-wake s i j e f v =
    let differ =
      places_differ attends s.threads i j waking asleep e f (λ c. absurd (omega arith)) in
    let e' = get_elem?-set_other s.threads i j trying differ ∙ e in
    let hj = total-set holds s.threads j asleep trying f in
    let hi = total-set holds (set s.threads j trying) i waking outside e' in
    let aj = total-set attends s.threads j asleep trying f in
    let ai = total-set attends (set s.threads j trying) i waking outside e' in
    let pa = total-positive attends s.threads i waking e in
    record { exclusive = omega (arith, v.exclusive); attended = inr (omega arith) }

-- Every step keeps the invariant.
Safe-Step : {b : Bool} {s s' : State} → Step b s s' → Safe s → Safe s'
unfolding spin_step attempt_step interrupt_step try_lock_step
Safe-Step (start_lock s i e) v = Safe-attends s i outside (spinning 0) e s.fut v refl (omega arith)
Safe-Step (spin s i n e) v = elim (Bool-cases (ltb (n + 1) 10)) [
  | inl t ↦ rw t (
      Safe-lock_or s i (spinning n) (spinning (n + 1)) e v refl
        (Safe-attends s i (spinning n) (spinning (n + 1)) e s.fut v refl (omega arith)))
  | inr t ↦ rw t (
      Safe-lock_or s i (spinning n) trying e v refl
        (Safe-attends s i (spinning n) trying e s.fut v refl (omega arith)))
]
Safe-Step (attempt s i e) v =
    Safe-lock_or s i trying waiting e v refl
      (Safe-attends s i trying waiting e s.fut v refl (omega arith))
Safe-Step (wait s i e) v = Safe-wait s i e v
Safe-Step (wake_spuriously s i e) v = Safe-attends s i asleep trying e s.fut v refl (omega arith)
Safe-Step (interrupt s i b e) v = Safe-aside s i asleep unreachable e v refl refl (omega arith)
Safe-Step (try_lock s i e) v =
    Safe-lock_or s i outside outside e v refl
      (Safe-aside s i outside outside e v refl refl (omega arith))
Safe-Step (start_unlock s i e) v = Safe-attends s i holding unlocking e s.fut v refl (omega arith)
Safe-Step (unlock s i e) v = Safe-unlock s i e v
Safe-Step (wake_none s i e f) v =
    let th = total-set holds s.threads i waking outside e in
    let ts = total-set sleeps s.threads i waking outside e in
    let none_asleep = any_asleep-total s.threads f in
    record { exclusive = omega (arith, v.exclusive); attended = inl (omega arith) }
Safe-Step (wake s i j e f) v = Safe-wake s i j e f v

Reachable-Safe : {b : Bool} {n : ℕ} {s : State} → Reachable b n s → Safe s
Reachable-Safe {n} start = record {
  exclusive = omega (arith, total-replicate holds n outside refl);
  attended = inl (total-replicate sleeps n outside refl);
}
Reachable-Safe (then_step r t) = Safe-Step t (Reachable-Safe r)

-- In every reachable state at most one of two different threads has the mutex.
pub Reachable-exclusive :
    {b : Bool} {n : ℕ} {s : State} (i j : ℕ) (p q : Place)
    → Reachable b n s
    → get_elem? s.threads i ≡ some p
    → get_elem? s.threads j ≡ some q
    → i ≢ j
    → holds p + holds q ≤ 1
Reachable-exclusive {s = s} i j p q r e f h =
    omega (arith, (Reachable-Safe r).exclusive, total-pair holds s.threads i j p q e f h)

-- In every reachable state in which a thread sleeps, there is one that has the mutex, and so will
-- release it and wake a thread, or one that is on its way to try the word or to wake a thread.
pub Reachable-attended :
    {b : Bool} {n : ℕ} {s : State} (i : ℕ)
    → Reachable b n s
    → get_elem? s.threads i ≡ some asleep
    → (j : ℕ) × ((p : Place) × (get_elem? s.threads j ≡ some p) × (1 ≤ holds p + attends p))
Reachable-attended {s = s} i r e =
    let v = Reachable-Safe r in
    let ps = total-positive sleeps s.threads i asleep e in
    elim v.attended [
      | inl z ↦ absurd (omega arith)
      | inr a ↦
          total-find (λ p. holds p + attends p) s.threads
            (omega (arith, total-sum holds attends s.threads))
    ]

-- No thread is at GPCL_UNREACHABLE.
abbrev Sound : State → Type 0
Sound s = total failed s.threads ≡ 0

Sound-moved :
    (s : State) (i : ℕ) (p q : Place)
    → get_elem? s.threads i ≡ some p
    → failed q ≡ 0
    → Sound s
    → total failed (set s.threads i q) ≡ 0
Sound-moved s i p q e h k = omega (arith, total-set failed s.threads i p q e)

Sound-lock_or :
    (s : State) (i : ℕ) (p q : Place)
    → get_elem? s.threads i ≡ some p
    → failed q ≡ 0
    → Sound s
    → Sound (lock_or s i q)
Sound-lock_or s i p q e h k = elim (Bool-cases (s.fut == 1)) [
  | inl t ↦ rw (lock_or, t) (Sound-moved s i p holding e refl k)
  | inr t ↦ rw (lock_or, t) (Sound-moved s i p q e h k)
]

Sound-Step : {s s' : State} → Step false s s' → Safe s → Sound s → Sound s'
unfolding spin_step attempt_step interrupt_step try_lock_step wait_step unlock_step
Sound-Step (start_lock s i e) v k = Sound-moved s i outside (spinning 0) e refl k
Sound-Step (spin s i n e) v k = elim (Bool-cases (ltb (n + 1) 10)) [
  | inl t ↦ rw t (Sound-lock_or s i (spinning n) (spinning (n + 1)) e refl k)
  | inr t ↦ rw t (Sound-lock_or s i (spinning n) trying e refl k)
]
Sound-Step (attempt s i e) v k = Sound-lock_or s i trying waiting e refl k
Sound-Step (wait s i e) v k = elim (Bool-cases (s.fut == 0)) [
  | inl t ↦ rw t (Sound-moved s i waiting asleep e refl k)
  | inr t ↦ rw t (Sound-moved s i waiting trying e refl k)
]
Sound-Step (wake_spuriously s i e) v k = Sound-moved s i asleep trying e refl k
Sound-Step (interrupt s i b e) v k = absurd (ground arith)
Sound-Step (try_lock s i e) v k = Sound-lock_or s i outside outside e refl k
Sound-Step (start_unlock s i e) v k = Sound-moved s i holding unlocking e refl k
Sound-Step (unlock s i e) v k =
    let locked : s.fut ≡ 0 =
      omega (arith, v.exclusive, total-positive holds s.threads i unlocking e) in
    let t : (s.fut == 0) ≡ true = ground arith in
    rw (unlock_step, t) (Sound-moved s i unlocking waking e refl k)
Sound-Step (wake_none s i e f) v k = Sound-moved s i waking outside e refl k
Sound-Step (wake s i j e f) v k =
    let differ =
      places_differ attends s.threads i j waking asleep e f (λ c. absurd (omega arith)) in
    let e' = get_elem?-set_other s.threads i j trying differ ∙ e in
    Sound-moved (moved s j trying) i waking outside e' refl (Sound-moved s j asleep trying f refl k)

Reachable-Sound : {n : ℕ} {s : State} → Reachable false n s → Sound s
Reachable-Sound {n} start = total-replicate failed n outside refl
Reachable-Sound (then_step r t) = Sound-Step t (Reachable-Safe r) (Reachable-Sound r)

-- Without signals no thread arrives at GPCL_UNREACHABLE: `unlock` finds the word locked.
pub Reachable-sound :
    {n : ℕ} {s : State} (i : ℕ) (p : Place)
    → Reachable false n s
    → get_elem? s.threads i ≡ some p
    → p ≢ unreachable
Reachable-sound {s = s} i p r e c =
    absurd (omega (arith, Reachable-Sound r, total-positive failed s.threads i p e, ap failed c))
