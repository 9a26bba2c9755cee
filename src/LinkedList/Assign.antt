-- ===== src/LinkedList/Assign.antt =====
-- include/gpcl/list.hpp: the copy constructor, and both assignments of lists with equal allocators. The
-- assignment of `T` copies the value; like a constructor it may throw, and what it leaves of the old
-- value and the new one then is an argument, `torn`.
pub mod Overwrite
pub mod Overlay
pub mod Steps
pub mod Whole
use gpcl.Base.{
  ℕ, zero, suc, Bool, true, false, List, [], ◌∷◌, Option, none, some, ltb, ◌==◌, if◌then◌else◌,
  length,
}
use gpcl.Base.Addresses.{assign}
use gpcl.LinkedList.Insert.{insert_range}
use gpcl.LinkedList.Splice.{splice_all}
use gpcl.LinkedList.{
  Memory, Command, Outcome, returned, threw, undefined, and_then, ◌>>=◌, ◌>>◌, pure, throws, later,
  get_next, get_val, get_size, create_list, erase_range, clear,
}

module _ {A : Type 0} (torn : A → A → A) where
  -- The assignment of `T` to the object of a node
  unfoldable pub set_val : ℕ → A → Command A (Unit {0})
  unfolding get_val
  set_val p x = do
    old ← get_val p
    (λ m.
        if throws m.faults
        then threw (record m { val = assign m.val p (some (torn old x)); faults = later m.faults })
        else returned tt (record m { val = assign m.val p (some x); faults = later m.faults }))

  -- Both loops of the copy assignment, which differ in the test `stop`. The nodes that are assigned are
  -- live and different.
  unfoldable pub overwrite_loop : ℕ → (ℕ → ℕ → Bool) → ℕ → ℕ → Command A (ℕ × ℕ)
  unfolding get_val set_val get_next
  overwrite_loop zero stop first other_first = λ m. undefined
  overwrite_loop (suc fuel) stop first other_first =
      if stop first other_first then pure (first, other_first) else do
        x ← get_val other_first
        set_val first x
        after ← get_next first
        other_after ← get_next other_first
        overwrite_loop fuel stop after other_after

  unfoldable pub overwrite : (ℕ → ℕ → Bool) → ℕ → ℕ → Command A (ℕ × ℕ)
  unfolding overwrite_loop
  overwrite stop first other_first m = overwrite_loop (suc (length m.live)) stop first other_first m

module _ {A : Type 0} where
  -- The values of a range
  unfoldable pub read_loop : ℕ → ℕ → ℕ → Command A (List A)
  unfolding get_val get_next
  read_loop zero first last = λ m. undefined
  read_loop (suc fuel) first last = if first == last then pure [] else do
    x ← get_val first
    after ← get_next first
    xs ← read_loop fuel after last
    pure (x ∷ xs)

  unfoldable pub read : ℕ → ℕ → Command A (List A)
  unfolding read_loop
  read first last m = read_loop (suc (length m.live)) first last m

module _ {A : Type 0} (place : List ℕ → ℕ) where
  -- `insert(pos, first, last)` with a range of another list, which it does not change
  unfoldable pub insert_nodes : ℕ → ℕ → ℕ → ℕ → Command A ℕ
  unfolding read insert_range
  insert_nodes this pos first last = do xs ← read first last; insert_range place this pos xs

  -- `list(other, a)`
  unfoldable pub copy_list : ℕ → ℕ → Command A (Unit {0})
  unfolding create_list get_next insert_nodes
  copy_list this other = do
    create_list this
    first ← get_next other
    insert_nodes this this first other
    pure tt

  -- `operator=(const list &)`, where the other list is the longer one
  unfoldable pub copy_longer : (A → A → A) → ℕ → ℕ → Command A ℕ
  unfolding get_next overwrite insert_nodes
  copy_longer torn this other = do
    first ← get_next this
    other_first ← get_next other
    ends ← overwrite torn (λ a b. a == this) first other_first
    insert_nodes this this ends.1 other

module _ {A : Type 0} where
  -- The other branch
  unfoldable pub copy_shorter : (A → A → A) → ℕ → ℕ → Command A ℕ
  unfolding get_next overwrite erase_range
  copy_shorter torn this other = do
    first ← get_next this
    other_first ← get_next other
    ends ← overwrite torn (λ a b. b == other) first other_first
    erase_range this ends.0 this

  unfoldable pub copy_assign : (List ℕ → ℕ) → (A → A → A) → ℕ → ℕ → Command A ℕ
  unfolding get_size copy_longer copy_shorter
  copy_assign place torn this other = do
    size ← get_size this
    other_size ← get_size other
    if ltb size other_size then copy_longer place torn this other else copy_shorter torn this other

-- `operator=(list &&)`
unfoldable pub move_assign : {A : Type 0} → ℕ → ℕ → Command A (Unit {0})
unfolding clear splice_all
move_assign this other = do clear this; splice_all this this other
