-- ===== src/LinkedList/Insert.antt =====
-- include/gpcl/list.hpp: the operations of `list` that allocate nodes.
pub mod Emplace
pub mod Rollback
pub mod Many
pub mod Resize
use gpcl.Base.{
  ℕ, zero, suc, ◌+◌, ◌-◌, Bool, true, false, List, [], ◌∷◌, ◌++◌, replicate, ltb, leb, ◌==◌,
  if◌then◌else◌,
}
use gpcl.LinkedList.{
  Memory, Command, Outcome, returned, threw, undefined, and_then, ◌>>=◌, ◌>>◌, catch, rethrow, pure,
  throws, later, get_next, get_prev, set_next, set_prev, get_size, add_size, deallocate, construct,
  erase, pop_back,
}

abbrev pub reversed : {A : Type 0} → List A → List A
reversed [] = []
reversed (x ∷ xs) = reversed xs ++ (x ∷ [])

module _ {A : Type 0} where
  -- The loops of the catches: `n` times `pos = erase(pos)`
  unfoldable pub roll_back : ℕ → ℕ → ℕ → Command A ℕ
  unfolding erase
  roll_back this zero pos = pure pos
  roll_back this (suc n) pos = do next ← erase this pos; roll_back this n next

  -- `while (size_ > count) pop_back()`
  unfoldable pub shrink_loop : ℕ → ℕ → ℕ → Command A (Unit {0})
  unfolding get_size pop_back
  shrink_loop zero this count = λ m. undefined
  shrink_loop (suc fuel) this count = do
    size ← get_size this
    if leb size count then pure tt else do pop_back this; shrink_loop fuel this count

  -- The assert at the end of both `resize`
  unfoldable pub check_size : ℕ → ℕ → Command A (Unit {0})
  check_size this count m = if count == m.size this then returned tt m else undefined

-- `place` gives the address of a new node, for the nodes that are live.
module _ {A : Type 0} (place : List ℕ → ℕ) where
  abbrev pub allocate : Command A ℕ
  allocate m =
      if throws m.faults
      then threw (record m { faults = later m.faults })
      else returned (place m.live)
          (record m { live = place m.live ∷ m.live; faults = later m.faults })

  unfoldable pub create_node : ℕ → ℕ → A → Command A ℕ
  unfolding construct deallocate
  create_node before after x = do
    p ← allocate
    (λ m. catch (construct p before after x m) (deallocate p))
    pure p

  unfoldable pub emplace : ℕ → ℕ → A → Command A ℕ
  unfolding get_prev create_node set_next set_prev add_size
  emplace this pos x = do
    before ← get_prev pos
    node ← create_node before pos x
    before ← get_prev pos
    set_next before node
    set_prev pos node
    add_size this 1
    pure node

  -- Both loops that insert: the values to be inserted, each in front of the one before, and the
  -- number of those that are
  unfoldable pub insert_loop : ℕ → List A → ℕ → ℕ → Command A ℕ
  unfolding emplace roll_back
  insert_loop this [] n pos = pure pos
  insert_loop this (x ∷ xs) n pos = do
    node ← (λ m. catch (emplace this pos x m) (roll_back this n pos))
    insert_loop this xs (suc n) node

  -- `insert(pos, count, value)`
  unfoldable pub insert_count : ℕ → ℕ → ℕ → A → Command A ℕ
  unfolding insert_loop
  insert_count this pos count x = insert_loop this (replicate count x) 0 pos

  -- `insert(pos, first, last)`, from the last value of the range to its first
  unfoldable pub insert_range : ℕ → ℕ → List A → Command A ℕ
  unfolding insert_loop
  insert_range this pos xs = insert_loop this (reversed xs) 0 pos

  unfoldable pub push_front : ℕ → A → Command A ℕ
  unfolding get_next emplace
  push_front this x = do first ← get_next this; emplace this first x

  unfoldable pub push_back : ℕ → A → Command A ℕ
  unfolding emplace
  push_back this x = emplace this this x

  -- `while (count > size_) emplace_back()`, with a value in place of the default one
  unfoldable pub grow_loop : ℕ → ℕ → ℕ → A → Command A (Unit {0})
  unfolding get_size push_back
  grow_loop zero this count x = λ m. undefined
  grow_loop (suc fuel) this count x = do
    size ← get_size this
    if leb count size then pure tt else do push_back this x; grow_loop fuel this count x

  -- `resize(count)`; each round of a loop brings the size nearer by 1.
  unfoldable pub resize_default : ℕ → ℕ → A → Command A (Unit {0})
  unfolding get_size grow_loop shrink_loop check_size
  resize_default this count x = do
    size ← get_size this
    if ltb size count
        then grow_loop (suc (count - size)) this count x
        else shrink_loop (suc (size - count)) this count
    check_size this count

  -- `resize(count, value)`
  unfoldable pub resize : ℕ → ℕ → A → Command A (Unit {0})
  unfolding get_size insert_count shrink_loop check_size
  resize this count x = do
    size ← get_size this
    if ltb size count
        then insert_count this this (count - size) x >> pure tt
        else shrink_loop (suc (size - count)) this count
    check_size this count
