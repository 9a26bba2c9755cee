-- ===== src/RefCount.antt =====
-- include/gpcl/detail/ref_count_base.hpp: the control block of a shared object.
-- A state is the two counters and, beside them, what the threads hold: strong and weak references,
-- and the threads of `put` and `weak_put` that stand between two atomic steps. An action is one atomic
-- step of one thread, and a run is any order of them. The counters do not reach the end of `long`.
pub mod Counting
use gpcl.Base.{
  ◌≡◌, ℕ, suc, ◌+◌, ◌-◌, ◌<◌, ◌⊎◌, Bool, true, false, Option, none, some, ◌==◌, if◌then◌else◌,
}

pub record State : Type 0 where
  pub use_count : ℕ
  pub weak_count : ℕ
  -- References that threads hold
  pub strong : ℕ
  pub weak : ℕ
  -- Threads in `put`: before the object is destroyed, and behind that before `weak_count_` is reduced
  pub destroying : ℕ
  pub releasing : ℕ
  -- Threads before `delete_control_block`
  pub deleting : ℕ
  -- Calls made of `destroy_managed_object` and `delete_control_block`
  pub destroyed : ℕ
  pub deleted : ℕ

-- What `ref_count_base()` makes: one strong reference
abbrev pub created : State
created = record {
  use_count = 1;
  weak_count = 1;
  strong = 1;
  weak = 0;
  destroying = 0;
  releasing = 0;
  deleting = 0;
  destroyed = 0;
  deleted = 0;
}

-- `lock old` is the compare and exchange of `lock` with the value `old` that the loop has read.
pub data Action : Type 0 where
  get put destroy release weak_get weak_put delete : Action
  lock : ℕ → Action

unfoldable pub get_step : State → Option State
get_step s =
    if s.use_count == 0
    then none
    else some (record s { use_count = s.use_count + 1; strong = s.strong + 1 })

-- The assert and `use_count_.fetch_sub`
unfoldable pub put_step : State → Option State
put_step s =
    if s.use_count == 0
    then none
    else if s.use_count == 1
    then some (record s { use_count = 0; strong = s.strong - 1; destroying = s.destroying + 1 })
    else some (record s { use_count = s.use_count - 1; strong = s.strong - 1 })

unfoldable pub destroy_step : State → Option State
destroy_step s = some (record s {
  destroying = s.destroying - 1;
  releasing = s.releasing + 1;
  destroyed = s.destroyed + 1;
})

-- `weak_count_.fetch_sub` in `put`
unfoldable pub release_step : State → Option State
release_step s =
    if s.weak_count == 1
    then some (record s { weak_count = 0; releasing = s.releasing - 1; deleting = s.deleting + 1 })
    else some (record s { weak_count = s.weak_count - 1; releasing = s.releasing - 1 })

unfoldable pub weak_get_step : State → Option State
weak_get_step s =
    if s.weak_count == 0
    then none
    else some (record s { weak_count = s.weak_count + 1; weak = s.weak + 1 })

unfoldable pub weak_put_step : State → Option State
weak_put_step s =
    if s.weak_count == 0
    then none
    else if s.weak_count == 1
    then (if s.use_count == 0
        then some (record s { weak_count = 0; weak = s.weak - 1; deleting = s.deleting + 1 })
        else none)
    else some (record s { weak_count = s.weak_count - 1; weak = s.weak - 1 })

unfoldable pub delete_step : State → Option State
delete_step s = some (record s { deleting = s.deleting - 1; deleted = s.deleted + 1 })

-- A value read of 0 ends the loop; another one is exchanged if it is still there.
unfoldable pub lock_step : ℕ → State → Option State
lock_step old s =
    if s.weak_count == 0
    then none
    else if old == 0
    then some s
    else if s.use_count == old
    then some (record s { use_count = old + 1; strong = s.strong + 1 })
    else some s

unfoldable pub act : Action → State → Option State
unfolding get_step put_step destroy_step release_step weak_get_step weak_put_step delete_step
    lock_step
act get s = get_step s
act put s = put_step s
act destroy s = destroy_step s
act release s = release_step s
act weak_get s = weak_get_step s
act weak_put s = weak_put_step s
act delete s = delete_step s
act (lock old) s = lock_step old s

-- A step on a control block that is gone is undefined, as a failed assert is.
unfoldable pub step : Action → State → Option State
unfolding act
step a s = if s.deleted == 0 then act a s else none

-- What a thread must hold, or where it must stand, to make a step
abbrev pub Enabled : Action → State → Type 0
Enabled get s = 0 < s.strong
Enabled put s = 0 < s.strong
Enabled destroy s = 0 < s.destroying
Enabled release s = 0 < s.releasing
Enabled weak_get s = (0 < s.strong) ⊎ (0 < s.weak)
Enabled weak_put s = 0 < s.weak
Enabled delete s = 0 < s.deleting
Enabled (lock old) s = 0 < s.weak

-- The states of runs in which threads use only what they hold
pub data Reachable : State → Type 0 where
  start : Reachable created
  then_step :
      {s s' : State} (a : Action) → Reachable s → Enabled a s → step a s ≡ some s' → Reachable s'
