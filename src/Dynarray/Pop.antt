-- ===== src/Dynarray/Pop.antt =====
-- include/gpcl/dynarray.hpp: `pop_back`, element access, and an allocation that fails.
use gpcl.Base.{
  ℕ, zero, suc, ◌+◌, ◌-◌, ◌%◌, ◌^◌, ◌≤◌, ◌<◌, ◌≡◌, refl, ap, sym, ◌∙◌, Bool, true, false, inl, inr,
  Bool-cases, List, [], ◌∷◌, ◌++◌, Option, none, some, arith, length, leb, ltb, ◌==◌, get_elem?,
}
use gpcl.Dynarray.Cells.{
  cells_of, held, object_at-get_elem?, construct_at_end, construct_at_full, length-snoc,
}
use gpcl.Dynarray.{
  threw, undefined, Dynarray, allocate, first, rest, construct_at, construct_loop, reserve, grow,
  emplace_back, pop_back, at,
}

module _ {A : Type 0} where
  get_elem?-beyond : (xs : List A) (i : ℕ) → length xs ≤ i → get_elem? xs i ≡ none
  get_elem?-beyond [] i h = refl
  get_elem?-beyond (x ∷ xs) zero h = absurd (omega arith)
  get_elem?-beyond (x ∷ xs) (suc i) h = get_elem?-beyond xs i (omega arith)

  -- `at` gives the object at each index below the size, and throws at every other.
  at-get_elem? : (xs : List A) (k i : ℕ) → at (held xs k) i ≡ get_elem? xs i
  unfolding at
  at-get_elem? xs k i = elim (Bool-cases (ltb i (length xs))) [
    | inl t ↦ rw t (object_at-get_elem? xs k i)
    | inr t ↦ rw t (sym (get_elem?-beyond xs i (ground arith)))
  ]

  objects : List (Option A) → ℕ
  objects [] = 0
  objects (none ∷ cs) = objects cs
  objects (some x ∷ cs) = suc (objects cs)

  objects-cells_of : (xs : List A) (k : ℕ) → objects (cells_of xs k) ≡ length xs
  unfolding objects
  objects-cells_of [] zero = refl
  objects-cells_of [] (suc k) = objects-cells_of [] k
  objects-cells_of (x ∷ xs) k = ap suc (objects-cells_of xs k)

  -- `pop_back` builds an object behind the last one where it is to destroy the last one: on an array
  -- without room it is undefined, and with room it leaves more objects in the allocation than the
  -- size tells, which is the state of no array.
  pop_back-leaks :
      (xs : List A) (k : ℕ) (x : A)
      → (pop_back (held xs 0) x ≡ none)
        × ((d : Dynarray A) × (pop_back (held xs (suc k)) x ≡ some d)
            × ((ys : List A) (j : ℕ) → ¬ (d ≡ held ys j)))
  unfolding pop_back
  pop_back-leaks xs k x = (
    rw (construct_at_full xs x, pop_back) refl,
    (
      record {
        cells = cells_of (xs ++ x ∷ []) k;
        size = (length xs + (2 ^ 64 - 1)) % 2 ^ 64;
        capacity = length xs + suc k;
      },
      rw (construct_at_end xs k x, pop_back) refl,
      λ ys j e.
          let alive = ap (λ d. objects d.cells) e ∙ objects-cells_of ys j in
          let told = ap (λ d. d.size) e in
          let built = objects-cells_of (xs ++ x ∷ []) k ∙ length-snoc xs x in omega arith,
    ),
  )

  -- An allocation that fails in `reserve` leaves the array with a size of 0 and the capacity asked
  -- for over the old objects: the next `emplace_back` builds an object over the first of them, which
  -- is undefined.
  reserve-lost :
      (y : A) (xs : List A) (k n : ℕ) (x : A) (fs gs : List Bool)
      → length (y ∷ xs) + k < n
      → first fs ≡ true
      → first gs ≡ false
      → (d : Dynarray A) × (reserve (held (y ∷ xs) k) n fs ≡ threw d (rest fs))
        × (emplace_back d x gs ≡ undefined)
  unfolding reserve emplace_back grow construct_loop construct_at
  reserve-lost y xs k n x fs gs h f g =
      let beyond : leb n (suc (length xs) + k) ≡ false = ground arith in
      let asked : (n == 0) ≡ false = ground arith in
      let enough : ltb n (0 + 1) ≡ false = ground arith in
      let granted : leb (0 + 1) n ≡ true = ground arith in
      (
        record { cells = cells_of (y ∷ xs) k; size = 0; capacity = n },
        rw (beyond, f, allocate) refl,
        rw (asked, enough, granted, g, construct_loop) refl,
      )
