-- ===== src/LinkedList.antt =====
-- include/gpcl/list.hpp: nodes in memory, and the operations of `list` that make and destroy them.
-- A node is an address, and memory maps addresses to the members `prev_` and `next_` and to the object
-- in `val_`, if there is one. A list is the address of its past-the-end node, to which memory maps
-- `size_` too; an iterator is the address of a node. An access to a node that is not live, the reading
-- or destruction of an object that is not there and a failed assert are `undefined`.
-- The allocator is an argument: it places a node beside the live ones. The calls of the allocator and
-- of the constructors of `T` take their outcomes, in the order of the calls, from a list of faults:
-- `true` is a call that throws, and behind the end none does.
pub mod Trail
pub mod Link
pub mod Detach
pub mod Ring
pub mod Insert
pub mod Erase
pub mod Splice
pub mod Sort
pub mod Assign
use gpcl.Base.{
  ℕ, zero, suc, ◌+◌, ◌-◌, ◌%◌, ◌^◌, Bool, true, false, List, [], ◌∷◌, ◌++◌, Option, none, some, ltb,
  ◌==◌, if◌then◌else◌, length,
}
use gpcl.Base.Addresses.{assign}

pub record Memory (A : Type 0) : Type 0 where
  pub next : ℕ → ℕ
  pub prev : ℕ → ℕ
  pub val : ℕ → Option A
  pub size : ℕ → ℕ
  -- The nodes allocated, and the past-the-end nodes
  pub live : List ℕ
  pub faults : List Bool

pub data Outcome (A : Type 0) (R : Type 0) : Type 0 where
  returned : R → Memory A → Outcome A R
  threw : Memory A → Outcome A R
  undefined : Outcome A R

abbrev pub Command : Type 0 → Type 0 → Type 0
Command A R = Memory A → Outcome A R

-- Whether an address is in a list
abbrev pub mem : ℕ → List ℕ → Bool
mem a [] = false
mem a (x ∷ xs) = if a == x then true else mem a xs

abbrev pub without : ℕ → List ℕ → List ℕ
without a [] = []
without a (x ∷ xs) = let others = without a xs in if a == x then others else x ∷ others

-- Whether the next call that may throw does, and the faults behind it
abbrev pub throws : List Bool → Bool
throws [] = false
throws (f ∷ fs) = f

abbrev pub later : List Bool → List Bool
later [] = []
later (f ∷ fs) = fs

module _ {A R S : Type 0} where
  abbrev pub and_then : Outcome A R → (R → Command A S) → Outcome A S
  and_then (returned r m) k = k r m
  and_then (threw m) k = threw m
  and_then undefined k = undefined

  infixl 5 ◌>>=◌ ◌>>◌
  abbrev pub ◌>>=◌ : Command A R → (R → Command A S) → Command A S
  c >>= k = λ m. and_then (c m) k

  abbrev pub ◌>>◌ : Command A R → Command A S → Command A S
  c >> d = c >>= λ r. d

  -- `GPCL_CATCH(...)` with a body that ends in `GPCL_RETHROW`
  abbrev pub rethrow : Outcome A S → Outcome A R
  rethrow (returned r m) = threw m
  rethrow (threw m) = threw m
  rethrow undefined = undefined

  abbrev pub catch : Outcome A R → Command A S → Outcome A R
  catch (returned r m) handler = returned r m
  catch (threw m) handler = rethrow (handler m)
  catch undefined handler = undefined

module _ {A : Type 0} where
  abbrev pub pure : {R : Type 0} → R → Command A R
  pure = returned

  unfoldable pub get_next : ℕ → Command A ℕ
  get_next p m = if mem p m.live then returned (m.next p) m else undefined

  unfoldable pub get_prev : ℕ → Command A ℕ
  get_prev p m = if mem p m.live then returned (m.prev p) m else undefined

  unfoldable pub get_val : ℕ → Command A A
  get_val p m =
      if mem p m.live
      then elim (m.val p) [ none ↦ undefined | some x ↦ returned x m ]
      else undefined

  unfoldable pub set_next : ℕ → ℕ → Command A (Unit {0})
  set_next p q m =
      if mem p m.live then returned tt (record m { next = assign m.next p q }) else undefined

  unfoldable pub set_prev : ℕ → ℕ → Command A (Unit {0})
  set_prev p q m =
      if mem p m.live then returned tt (record m { prev = assign m.prev p q }) else undefined

  unfoldable pub get_size : ℕ → Command A ℕ
  get_size this m = returned (m.size this) m

  -- `size_ += n` and `size_ -= n`, on `std::size_t`
  unfoldable pub add_size : ℕ → ℕ → Command A (Unit {0})
  add_size this n m =
      returned tt (record m { size = assign m.size this ((m.size this + n) % 2 ^ 64) })

  unfoldable pub sub_size : ℕ → ℕ → Command A (Unit {0})
  sub_size this n m =
      returned tt
        (record m { size = assign m.size this ((m.size this + (2 ^ 64 - n % 2 ^ 64)) % 2 ^ 64) })

  -- `deallocate(node, 1)`
  unfoldable pub deallocate : ℕ → Command A (Unit {0})
  deallocate p m =
      if mem p m.live then returned tt (record m { live = without p m.live }) else undefined

  -- `destroy_node`: the object goes, and the memory of the node.
  unfoldable pub destroy_node : ℕ → Command A (Unit {0})
  unfolding deallocate
  destroy_node p m = elim (m.val p) [
    | none ↦ undefined
    | some x ↦ deallocate p (record m { val = assign m.val p none })
  ]

  -- `construct(p, prev, next, args...)`
  unfoldable pub construct : ℕ → ℕ → ℕ → A → Command A (Unit {0})
  construct p before after x m =
      if throws m.faults
      then threw (record m { faults = later m.faults })
      else returned tt (record m {
        prev = assign m.prev p before;
        next = assign m.next p after;
        val = assign m.val p (some x);
        faults = later m.faults;
      })

  -- `list(a)`, for an object at the address `this`
  unfoldable pub create_list : ℕ → Command A (Unit {0})
  create_list this m = returned tt (record m {
    prev = assign m.prev this this;
    next = assign m.next this this;
    val = assign m.val this none;
    size = assign m.size this 0;
    live = this ∷ m.live;
  })

  unfoldable pub empty : ℕ → Command A Bool
  unfolding get_next
  empty this = do first ← get_next this; pure (first == this)

  -- `front` and `back`, by their values
  unfoldable pub front : ℕ → Command A A
  unfolding get_next get_val
  front this = do first ← get_next this; get_val first

  unfoldable pub back : ℕ → Command A A
  unfolding get_prev get_val
  back this = do last ← get_prev this; get_val last

  -- `erase(pos)`
  unfoldable pub erase : ℕ → ℕ → Command A ℕ
  unfolding get_prev get_next destroy_node sub_size set_next set_prev
  erase this pos = do
    before ← get_prev pos
    after ← get_next pos
    destroy_node pos
    sub_size this 1
    set_next before after
    set_prev after before
    pure after

  -- The loop of `erase(first, last)`
  unfoldable pub erase_loop : ℕ → ℕ → ℕ → ℕ → Command A (Unit {0})
  unfolding get_next destroy_node sub_size
  erase_loop zero this node last = λ m. undefined
  erase_loop (suc fuel) this node last = if node == last then pure tt else do
    after ← get_next node
    destroy_node node
    sub_size this 1
    erase_loop fuel this after last

  -- `erase(first, last)`. Each round frees a node, so that the number of live ones is enough fuel.
  unfoldable pub erase_range : ℕ → ℕ → ℕ → Command A ℕ
  unfolding get_prev erase_loop set_next set_prev
  erase_range this first last m =
      (do
        before ← get_prev first
        erase_loop (suc (length m.live)) this first last
        set_next before last
        set_prev last before
        pure last)
        m

  unfoldable pub clear : ℕ → Command A ℕ
  unfolding get_next erase_range
  clear this = do first ← get_next this; erase_range this first this

  unfoldable pub pop_front : ℕ → Command A ℕ
  unfolding get_next erase
  pop_front this = do first ← get_next this; erase this first

  unfoldable pub pop_back : ℕ → Command A ℕ
  unfolding get_prev erase
  pop_back this = do last ← get_prev this; erase this last
