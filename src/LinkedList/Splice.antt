-- ===== src/LinkedList/Splice.antt =====
-- include/gpcl/list.hpp: the operations of `list` that move nodes: `splice`, `swap` and `sort`.
pub mod Relink
pub mod Same
pub mod Other
pub mod Empty
use gpcl.Base.{ℕ, zero, suc, ◌+◌, Bool, true, false, not, ltb, ◌==◌, if◌then◌else◌, length}
use gpcl.LinkedList.{
  Memory, Command, Outcome, returned, threw, undefined, and_then, ◌>>=◌, ◌>>◌, pure, get_next,
  get_prev, get_val, get_size, set_next, set_prev, add_size, sub_size,
}
use gpcl.Base.Addresses.{assign}

module _ {A : Type 0} where
  -- `std::distance(first, last)`
  unfoldable pub distance : ℕ → ℕ → ℕ → Command A ℕ
  unfolding get_next
  distance zero first last = λ m. undefined
  distance (suc fuel) first last =
      if first == last
      then pure 0
      else do after ← get_next first; n ← distance fuel after last; pure (suc n)

  -- The sizes, if the lists are different ones. The nodes counted are live and different.
  unfoldable pub move_size : ℕ → ℕ → ℕ → ℕ → Command A (Unit {0})
  unfolding distance add_size sub_size
  move_size this other first last m =
      (if this == other then pure tt else do
        count ← distance (suc (length m.live)) first last
        sub_size other count
        add_size this count)
        m

  -- `splice(pos, std::move(other), first, last)`
  unfoldable pub splice_range : ℕ → ℕ → ℕ → ℕ → ℕ → Command A (Unit {0})
  unfolding move_size get_prev set_next set_prev
  splice_range this pos other first last = do
    move_size this other first last
    before ← get_prev first
    node_last ← get_prev last
    set_next before last
    set_prev last before
    pos_prev ← get_prev pos
    set_prev first pos_prev
    set_next node_last pos
    set_next pos_prev first
    set_prev pos node_last

  -- `splice(pos, std::move(other))`
  unfoldable pub splice_all : ℕ → ℕ → ℕ → Command A (Unit {0})
  unfolding get_next splice_range
  splice_all this pos other = do first ← get_next other; splice_range this pos other first other

  -- `splice(pos, std::move(other), it)`
  unfoldable pub splice_one : ℕ → ℕ → ℕ → ℕ → Command A (Unit {0})
  unfolding get_next splice_range
  splice_one this pos other it = do after ← get_next it; splice_range this pos other it after

  -- `list_node::swap`
  unfoldable pub swap_nodes : ℕ → ℕ → Command A (Unit {0})
  unfolding get_next get_prev set_next set_prev
  swap_nodes this other = if this == other then pure tt else do
    before ← get_prev this
    after ← get_next this
    other_prev ← get_prev other
    other_next ← get_next other
    set_prev this other_prev
    set_next this other_next
    set_next before other
    set_prev after other
    set_next other_prev this
    set_prev other_next this
    set_prev other before
    set_next other after

  unfoldable pub swap_sizes : ℕ → ℕ → Command A (Unit {0})
  swap_sizes this other m =
      returned tt
        (record m { size = assign (assign m.size this (m.size other)) other (m.size this) })

  -- `swap(list &)` where the allocators are not swapped
  unfoldable pub swap : ℕ → ℕ → Command A (Unit {0})
  unfolding swap_nodes swap_sizes
  swap this other = swap_nodes this other >> swap_sizes this other

-- `less` is `operator<` of the values.
module _ {A : Type 0} (less : A → A → Bool) where
  -- The inner loop of `sort`, with its iterators `i` and `j`; it returns `i`.
  unfoldable pub sort_inner : ℕ → ℕ → ℕ → ℕ → Command A ℕ
  unfolding get_next get_val splice_one
  sort_inner zero this i j = λ m. undefined
  sort_inner (suc fuel) this i j = if j == this then pure i else do
    y ← get_val j
    x ← get_val i
    after ← get_next j
    if less y x
        then splice_one this i this j >> sort_inner fuel this j after
        else sort_inner fuel this i after

  unfoldable pub sort_outer : ℕ → ℕ → ℕ → Command A (Unit {0})
  unfolding get_next sort_inner
  sort_outer zero this i = λ m. undefined
  sort_outer (suc fuel) this i = if i == this then pure tt else do
    m ← (λ m. returned m m)
    j ← get_next i
    least ← sort_inner (suc (length m.live)) this i j
    after ← get_next least
    sort_outer fuel this after

  -- Each round of a loop goes on by one node.
  unfoldable pub sort : ℕ → Command A (Unit {0})
  unfolding get_next sort_outer
  sort this m = (do first ← get_next this; sort_outer (suc (length m.live)) this first) m
