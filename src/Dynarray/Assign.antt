-- ===== src/Dynarray/Assign.antt =====
-- include/gpcl/dynarray.hpp: the constructors, `shrink_to_fit` and `assign`.
use gpcl.Base.{
  ℕ, suc, ◌+◌, ◌-◌, ◌≤◌, ◌≡◌, refl, ap, subst, ◌∙◌, Bool, Bool-cases, inl, inr, List, [], ◌∷◌, ◌++◌,
  append_assoc, Option, none, some, arith, length, ltb, get_elem?, take, length-take, not, ◌||◌,
}
use gpcl.Dynarray.Cells.{
  cells_of, held, Faulty, Faulty-first, Faulty-rest, Built, construct_loop_lem, object_at-get_elem?,
  length-snoc,
}
use gpcl.Dynarray.Grow.{release_lem, Supplies-all}
use gpcl.Dynarray.Resize.{keep_first_n_lem}
use gpcl.Dynarray.{
  Outcome, returned, threw, undefined, catch, Dynarray, allocate, first, rest, object_at, release,
  construct, replace, shrink_to_fit, assign_at, assign_loop, assign,
}

module _ {A : Type 0} where
  -- A new array of the values; or none
  abbrev Constructed : List A → List Bool → Outcome (Dynarray A) → Type 0
  Constructed ys fs (returned d gs) = d ≡ held ys 0
  Constructed ys fs (threw d gs) = Faulty fs
  Constructed ys fs undefined = ⊥

  caught :
      (ys : List A) (fs : List Bool) (o : Outcome (Dynarray A))
      → Built [] ys 0 (rest fs) (length ys) o
      → Constructed ys fs (catch o release)
  caught ys fs (returned d gs) (e, q) =
      let c : length ys ≡ length ys + 0 = omega arith in
      e ∙ ap (λ c. record { cells = cells_of ys 0; size = length ys; capacity = c }) c
  caught ys fs (threw d gs) (zs, j, e, l, f) =
      let gone : release d ≡ some (record { cells = []; size = 0; capacity = 0 }) =
        ap release e ∙ release_lem zs (length zs) j (length ys) refl in
      rw (gone, catch) (Faulty-rest fs f)
  caught ys fs undefined h = h

  construct_lem :
      (ys : List A) (source : ℕ → Option A) (fs : List Bool)
      → ((i : ℕ) → source i ≡ get_elem? ys i)
      → Constructed ys fs (construct (length ys) source fs)
  unfolding construct
  construct_lem ys source fs h = elim (Bool-cases (first fs)) [
    | inl t ↦ rw (t, allocate) (Faulty-first fs t)
    | inr t ↦
        rw (t, allocate)
          (caught ys fs _ (
            construct_loop_lem ys source [] 0 (length ys) 0 (length ys) (rest fs) refl (omega arith)
              (Supplies-all ys source h)))
  ]

  -- The new objects, or the array as before
  abbrev pub Replaced : List A → ℕ → List A → List Bool → Outcome (Dynarray A) → Type 0
  Replaced xs k ys fs (returned d gs) = (k' : ℕ) × (d ≡ held ys k')
  Replaced xs k ys fs (threw d gs) = (d ≡ held xs k) × Faulty fs
  Replaced xs k ys fs undefined = ⊥

  replaced :
      (xs : List A) (k : ℕ) (ys : List A) (fs : List Bool) (o : Outcome (Dynarray A))
      → Constructed ys fs o
      → Replaced xs k ys fs (elim o [
        | returned t gs ↦ elim (release (held xs k)) [
          | none ↦ undefined
          | some gone ↦ returned t gs
        ]
        | threw t gs ↦ threw (held xs k) gs
        | undefined ↦ undefined
      ])
  replaced xs k ys fs (returned t gs) e =
      rw (release_lem xs (length xs) k (length xs + k) refl) (0, e)
  replaced xs k ys fs (threw t gs) f = (refl, f)
  replaced xs k ys fs undefined h = h

  replace_lem :
      (xs : List A) (k : ℕ) (ys : List A) (source : ℕ → Option A) (fs : List Bool)
      → ((i : ℕ) → source i ≡ get_elem? ys i)
      → Replaced xs k ys fs (replace (held xs k) (length ys) source fs)
  unfolding replace
  replace_lem xs k ys source fs h = replaced xs k ys fs _ (construct_lem ys source fs h)

  -- `shrink_to_fit` keeps the objects; where any call throws, the allocation too, the array is as
  -- before.
  shrink_to_fit-Replaced :
      (xs : List A) (k : ℕ) (fs : List Bool) → Replaced xs k xs fs (shrink_to_fit (held xs k) fs)
  unfolding shrink_to_fit
  shrink_to_fit-Replaced xs k fs =
      replace_lem xs k xs (object_at (cells_of xs k)) fs (object_at-get_elem? xs k)

  assign_at_lem :
      (ys : List A) (z x : A) (zs : List A) (k : ℕ)
      → assign_at (cells_of (ys ++ z ∷ zs) k) (length ys) x ≡ some (cells_of (ys ++ x ∷ zs) k)
  unfolding assign_at
  assign_at_lem [] z x zs k = refl
  assign_at_lem (y ∷ ys) z x zs k = rw (assign_at_lem ys z x zs k) refl

  assign_loop_lem :
      (xs ys zs : List A) (i k : ℕ)
      → i ≡ length ys
      → length zs ≡ length xs
      → assign_loop (cells_of (ys ++ zs) k) i xs ≡ some (cells_of (ys ++ xs) k)
  unfolding assign_loop
  assign_loop_lem [] ys [] i k e l = refl
  assign_loop_lem [] ys (z ∷ zs) i k e l = absurd (omega arith)
  assign_loop_lem (x ∷ xs) ys [] i k e l = absurd (omega arith)
  assign_loop_lem (x ∷ xs) ys (z ∷ zs) i k e l =
      let here : assign_at (cells_of (ys ++ z ∷ zs) k) i x ≡ some (cells_of (ys ++ x ∷ zs) k) =
        rw e (assign_at_lem ys z x zs k) in
      let there : assign_loop (cells_of ((ys ++ x ∷ []) ++ zs) k) (suc i) xs
          ≡ some (cells_of ((ys ++ x ∷ []) ++ xs) k) =
        assign_loop_lem xs (ys ++ x ∷ []) zs (suc i) k (omega (arith, length-snoc ys x))
          (omega arith) in
      rw (here, assign_loop)
        (subst (λ l. assign_loop (cells_of l k) (suc i) xs ≡ some (cells_of (ys ++ x ∷ xs) k))
          (append_assoc ys (x ∷ []) zs)
          (there ∙ ap (λ l. some (cells_of l k)) (append_assoc ys (x ∷ []) xs)))

  -- Where the allocator is always equal, `assign` makes the array hold the new values, which are not its
  -- own elements, in place or in a new allocation; where any call throws, the array is as before.
  pub assign-Replaced :
      (is_nothrow : Bool) (xs : List A) (k : ℕ) (ys : List A) (fs : List Bool)
      → Replaced xs k ys fs (assign is_nothrow (held xs k) ys fs)
  unfolding assign
  assign-Replaced is_nothrow xs k ys fs =
      elim (Bool-cases (ltb (length xs) (length ys) || not is_nothrow)) [
        | inl t ↦ rw t (replace_lem xs k ys (get_elem? ys) fs (λ i. refl))
        | inr t ↦
            let within : length ys ≤ length xs = ground (arith, t) in
            let kept = keep_first_n_lem xs (length xs) (length ys) k (length xs + k) refl within in
            let shorter : length (take (length ys) xs) ≡ length ys =
              omega (arith, length-take (length ys) xs) in
            let assigned =
              assign_loop_lem ys [] (take (length ys) xs) 0 (length xs - length ys + k) refl
                shorter in
            let capacity : length xs + k ≡ length ys + (length xs - length ys + k) = omega arith in
            rw (t, kept, assigned)
              (
                length xs - length ys + k,
                ap
                    (λ c. record {
                      cells = cells_of ys (length xs - length ys + k);
                      size = length ys;
                      capacity = c;
                    })
                    capacity,
              )
      ]
