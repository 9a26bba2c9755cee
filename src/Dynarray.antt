-- ===== src/Dynarray.antt =====
-- include/gpcl/dynarray.hpp: an array in one allocation.
-- A cell of the allocation holds an object or is raw memory. Objects built over objects or outside
-- the allocation, destroyed or read where there are none, and failed asserts are `undefined`.
-- The calls of the allocator and of the constructors of `T` take their outcomes, in the order of the
-- calls, from a list of faults: `true` is a call that throws, and behind the end none does. `T` has
-- copies, or moves that do not throw, so that a loop that throws leaves its source alone. Arguments are
-- values: a reference to an element of the array itself, which may dangle once the array has moved to a
-- new allocation, is not among them.
pub mod Cells
pub mod Grow
pub mod Resize
pub mod Assign
pub mod Pop
use gpcl.Base.{
  ℕ, zero, suc, ◌+◌, ◌-◌, ◌*◌, ◌/◌, ◌%◌, ◌^◌, Bool, true, false, List, [], ◌∷◌, Option, none, some,
  ltb, leb, ◌==◌, if◌then◌else◌, replicate, length, get_elem?, not, ◌||◌,
}

pub data Outcome (S : Type 0) : Type 0 where
  returned : S → List Bool → Outcome S
  threw : S → List Bool → Outcome S
  undefined : Outcome S

abbrev pub first : List Bool → Bool
first [] = false
first (f ∷ fs) = f

abbrev pub rest : List Bool → List Bool
rest [] = []
rest (f ∷ fs) = fs

module _ {S : Type 0} where
  infixl 5 ◌>>>◌
  abbrev pub ◌>>>◌ : Outcome S → (S → List Bool → Outcome S) → Outcome S
  returned s fs >>> f = f s fs
  threw s fs >>> f = threw s fs
  undefined >>> f = undefined

  -- `GPCL_CATCH(...)` with a body that ends in `GPCL_RETHROW`
  abbrev pub catch : Outcome S → (S → Option S) → Outcome S
  catch (returned s fs) f = returned s fs
  catch (threw s fs) f = elim (f s) [ none ↦ undefined | some s' ↦ threw s' fs ]
  catch undefined f = undefined

module _ (A : Type 0) where
  -- `p_.second()`: its cells; none is the null pointer.
  pub record Dynarray : Type 0 where
    pub cells : List (Option A)
    pub size : ℕ
    pub capacity : ℕ

module _ {A : Type 0} where
  unfoldable pub construct_at : List (Option A) → ℕ → A → Option (List (Option A))
  construct_at [] i x = none
  construct_at (none ∷ cs) zero x = some (some x ∷ cs)
  construct_at (some y ∷ cs) zero x = none
  construct_at (c ∷ cs) (suc i) x = elim (construct_at cs i x) [
    | none ↦ none
    | some cs' ↦ some (c ∷ cs')
  ]

  unfoldable pub destroy_at : List (Option A) → ℕ → Option (List (Option A))
  destroy_at [] i = none
  destroy_at (none ∷ cs) zero = none
  destroy_at (some y ∷ cs) zero = some (none ∷ cs)
  destroy_at (c ∷ cs) (suc i) = elim (destroy_at cs i) [ none ↦ none | some cs' ↦ some (c ∷ cs') ]

  abbrev pub object_at : List (Option A) → ℕ → Option A
  object_at [] i = none
  object_at (c ∷ cs) zero = c
  object_at (c ∷ cs) (suc i) = object_at cs i

  -- `count` rounds of `construct(&s[size_], ...); ++size_`, with the value that `source` has for `size_`
  unfoldable pub construct_loop : ℕ → (ℕ → Option A) → Dynarray A → List Bool → Outcome (Dynarray A)
  construct_loop zero source d fs = returned d fs
  construct_loop (suc count) source d fs = elim (first fs) [
    | true ↦ threw d (rest fs)
    | false ↦ elim (source d.size) [
      | none ↦ undefined
      | some x ↦ elim (construct_at d.cells d.size x) [
        | none ↦ undefined
        | some cs ↦
            construct_loop count source (record d { cells = cs; size = suc d.size }) (rest fs)
      ]
    ]
  ]

  -- `count` rounds of `destroy(&p[size_ - 1]); --size_`
  unfoldable pub destroy_loop : ℕ → Dynarray A → Option (Dynarray A)
  destroy_loop zero d = some d
  destroy_loop (suc count) d = elim (destroy_at d.cells (d.size - 1)) [
    | none ↦ none
    | some cs ↦ destroy_loop count (record d { cells = cs; size = d.size - 1 })
  ]

  unfoldable pub keep_first_n : Dynarray A → ℕ → Option (Dynarray A)
  unfolding destroy_loop
  keep_first_n d num_to_keep =
      if leb num_to_keep d.size then destroy_loop (d.size - num_to_keep) d else none

  unfoldable pub clear : Dynarray A → Option (Dynarray A)
  unfolding keep_first_n
  clear d = keep_first_n d 0

  unfoldable pub release : Dynarray A → Option (Dynarray A)
  unfolding clear
  release d = elim (clear d) [
    | none ↦ none
    | some d' ↦ some (record d' { cells = []; capacity = 0 })
  ]

  -- `allocate(n)` for an array of `capacity_` n; a throw leaves everything else as it was set before.
  abbrev pub allocate : Dynarray A → List Bool → Outcome (Dynarray A)
  allocate d fs = elim (first fs) [
    | true ↦ threw d (rest fs)
    | false ↦ returned (record d { cells = replicate d.capacity none }) (rest fs)
  ]

  -- `dynarray(n)` and `dynarray(first, last)`: `source` has the values. A constructor that throws
  -- leaves no array, which is the empty state here.
  unfoldable pub construct : ℕ → (ℕ → Option A) → List Bool → Outcome (Dynarray A)
  unfolding construct_loop release
  construct n source fs = allocate (record { cells = []; size = 0; capacity = n }) fs >>> λ d fs.
      catch (construct_loop n source d fs) release

  -- Behind a loop that returned: the objects of the old allocation are destroyed.
  abbrev pub dispose : Dynarray A → Dynarray A → List Bool → Outcome (Dynarray A)
  dispose old d fs = elim (destroy_loop old.size old) [
    | none ↦ undefined
    | some gone ↦ returned d fs
  ]

  -- The catch: what was built is released, and the old members are put back.
  abbrev pub restore : Dynarray A → Dynarray A → Option (Dynarray A)
  restore old d = elim (release d) [ none ↦ none | some gone ↦ some old ]

  unfoldable pub reserve : Dynarray A → ℕ → List Bool → Outcome (Dynarray A)
  unfolding construct_loop destroy_loop release
  reserve d n fs =
      if leb n d.capacity
      then returned d fs
      else allocate (record d { size = 0; capacity = n }) fs >>> λ d' fs.
          catch (construct_loop d.size (object_at d.cells) d' fs >>> dispose d) (restore d)

  abbrev pub asserted : Bool → Dynarray A → List Bool → Outcome (Dynarray A)
  asserted true d fs = returned d fs
  asserted false d fs = undefined

  unfoldable pub grow : Dynarray A → ℕ → List Bool → Outcome (Dynarray A)
  unfolding reserve
  grow d n fs =
      (if d.capacity == 0
        then (if n == 0 then returned d fs else reserve d n fs)
        else if ltb d.capacity n
        then reserve d ((n + d.capacity - 1) / d.capacity * d.capacity) fs
        else returned d fs)
      >>> λ d' fs. asserted (leb n d'.capacity) d' fs

  -- `resize(n, x)`; `resize(n)` is the one with the value of `T()`.
  unfoldable pub resize : Dynarray A → ℕ → A → List Bool → Outcome (Dynarray A)
  unfolding reserve keep_first_n construct_loop
  resize d n x fs = reserve d n fs >>> λ d fs.
      if leb n d.size
      then elim (keep_first_n d n) [ none ↦ undefined | some d' ↦ returned d' fs ]
      else catch (construct_loop (n - d.size) (λ i. some x) d fs) (λ d'. keep_first_n d' d.size)

  unfoldable pub emplace_back : Dynarray A → A → List Bool → Outcome (Dynarray A)
  unfolding grow construct_loop
  emplace_back d x fs = grow d (d.size + 1) fs >>> λ d fs. construct_loop 1 (λ i. some x) d fs

  unfoldable pub push_back : Dynarray A → A → List Bool → Outcome (Dynarray A)
  unfolding emplace_back
  push_back d x fs = emplace_back d x fs

  -- It is noexcept: a constructor that throws ends the program. `size_` is of 64 bits.
  unfoldable pub pop_back : Dynarray A → A → Option (Dynarray A)
  pop_back d x = elim (construct_at d.cells d.size x) [
    | none ↦ none
    | some cs ↦ some (record d { cells = cs; size = (d.size + (2 ^ 64 - 1)) % 2 ^ 64 })
  ]

  -- A temporary array of the values is built and swapped in, by its pointer, as where allocators are
  -- always equal; the old objects go with it. It is also what `assign` does where there are more values
  -- than objects or copies may throw.
  unfoldable pub replace : Dynarray A → ℕ → (ℕ → Option A) → List Bool → Outcome (Dynarray A)
  unfolding construct release
  replace d n source fs = elim (construct n source fs) [
    | returned t gs ↦ elim (release d) [ none ↦ undefined | some gone ↦ returned t gs ]
    | threw t gs ↦ threw d gs
    | undefined ↦ undefined
  ]

  unfoldable pub shrink_to_fit : Dynarray A → List Bool → Outcome (Dynarray A)
  unfolding replace
  shrink_to_fit d fs = replace d d.size (object_at d.cells) fs

  unfoldable pub assign_at : List (Option A) → ℕ → A → Option (List (Option A))
  assign_at [] i x = none
  assign_at (none ∷ cs) zero x = none
  assign_at (some y ∷ cs) zero x = some (some x ∷ cs)
  assign_at (c ∷ cs) (suc i) x = elim (assign_at cs i x) [ none ↦ none | some cs' ↦ some (c ∷ cs') ]

  -- `for (i = 0; i != count; ++i) (*this)[i] = *first++`, from `i` on
  unfoldable pub assign_loop : List (Option A) → ℕ → List A → Option (List (Option A))
  assign_loop cs i [] = some cs
  assign_loop cs i (x ∷ xs) = elim (assign_at cs i x) [
    | none ↦ none
    | some cs' ↦ assign_loop cs' (suc i) xs
  ]

  -- `assign` for an allocator that is always equal; the values are not the array's own.
  unfoldable pub assign : Bool → Dynarray A → List A → List Bool → Outcome (Dynarray A)
  unfolding replace keep_first_n assign_loop
  assign is_nothrow d xs fs =
      if ltb d.size (length xs) || not is_nothrow
      then replace d (length xs) (get_elem? xs) fs
      else elim (keep_first_n d (length xs)) [
        | none ↦ undefined
        | some d' ↦ elim (assign_loop d'.cells 0 xs) [
          | none ↦ undefined
          | some cs ↦ returned (record d' { cells = cs }) fs
        ]
      ]

  -- `operator[]`, whose assert gives `none`; `at`, whose `none` is `std::out_of_range`
  unfoldable pub at : Dynarray A → ℕ → Option A
  at d i = if ltb i d.size then object_at d.cells i else none

  unfoldable pub front : Dynarray A → Option A
  front d = if d.size == 0 then none else object_at d.cells 0

  unfoldable pub back : Dynarray A → Option A
  back d = if d.size == 0 then none else object_at d.cells (d.size - 1)

  -- `dynarray(n)`, whose objects all have the value of `T()`
  unfoldable pub construct_default : ℕ → A → List Bool → Outcome (Dynarray A)
  unfolding construct
  construct_default n x fs = construct n (λ i. some x) fs

  -- `resize(n)`, where `x` is the value of `T()`
  unfoldable pub resize_default : Dynarray A → ℕ → A → List Bool → Outcome (Dynarray A)
  unfolding resize
  resize_default d n x fs = resize d n x fs

  -- What the move constructor makes: the new array, and what is left of the other
  unfoldable pub move_construct : Dynarray A → Dynarray A × Dynarray A
  move_construct other = (other, record { cells = []; size = 0; capacity = 0 })

  -- With an allocator: its objects are moved one by one where the allocators differ, and the other
  -- array keeps them.
  unfoldable pub move_construct_with :
      Bool → Dynarray A → List Bool → Outcome (Dynarray A × Dynarray A)
  unfolding move_construct construct
  move_construct_with is_same_allocator other fs =
      if is_same_allocator
      then returned (move_construct other) fs
      else elim (construct other.size (object_at other.cells) fs) [
        | returned d gs ↦ returned (d, other) gs
        | threw d gs ↦ threw (d, other) gs
        | undefined ↦ undefined
      ]

  -- `do_swap` where the allocators are equal or swap with the arrays
  unfoldable pub swap : Dynarray A → Dynarray A → Dynarray A × Dynarray A
  swap d other = (other, d)
