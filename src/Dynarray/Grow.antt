-- ===== src/Dynarray/Grow.antt =====
-- include/gpcl/dynarray.hpp: `reserve`, `grow` and `emplace_back`.
use gpcl.Base.{
  ℕ, zero, suc, ◌+◌, ◌-◌, ◌*◌, ◌/◌, ◌≤◌, ◌<◌, ◌≡◌, refl, ap, sym, subst, ◌∙◌, Bool, true, false,
  Bool-cases, inl, inr, ◌⊎◌, List, [], ◌∷◌, ◌++◌, Option, some, arith, length, leb, ltb, ◌==◌,
  ==_iff, get_elem?, append_assoc,
}
use native.Mathlib.Nat.{div-add-mod', mod-lt}
use gpcl.Dynarray.Cells.{
  cells_of, held, Faulty, Faulty-first, Faulty-rest, Built, Supplies, construct_loop_lem,
  destroy_loop_lem, object_at-get_elem?, construct_at_end, get_elem?-append, length-snoc,
}
use gpcl.Dynarray.{
  Outcome, returned, threw, undefined, ◌>>>◌, catch, Dynarray, allocate, dispose, restore, asserted,
  first, rest, object_at, construct_loop, keep_first_n, clear, release, reserve, grow, emplace_back,
}

-- The capacity that `grow` asks for is a multiple of the one there is, at least `n`, and less than
-- one such step above it.
multiple_bounds : (n c : ℕ) → 0 < c → (n ≤ (n + c - 1) / c * c) × ((n + c - 1) / c * c < n + c)
multiple_bounds n c h =
    let e = div-add-mod' (n + c - 1) c in let l = mod-lt (n + c - 1) h in (omega arith, omega arith)

module _ {A : Type 0} where
  -- The objects `xs` are moved to room for `k`, or all is as before, where some call throws.
  abbrev pub Reserved : List A → ℕ → ℕ → List Bool → Outcome (Dynarray A) → Type 0
  Reserved xs k k' fs (returned d gs) = (d ≡ held xs k') × (Faulty gs → Faulty fs)
  Reserved xs k k' fs (threw d gs) = (d ≡ held xs k) × Faulty fs
  Reserved xs k k' fs undefined = ⊥

  pub release_lem :
      (xs : List A) (n k c : ℕ)
      → n ≡ length xs
      → release (record { cells = cells_of xs k; size = n; capacity = c })
        ≡ some (record { cells = []; size = 0; capacity = 0 })
  unfolding release clear keep_first_n
  release_lem xs n k c e =
      let within : leb 0 n ≡ true = ground arith in
      let all : n - 0 ≡ n = omega arith in
      rw (release, clear, keep_first_n, within, all, destroy_loop_lem n xs n 0 k c e (omega arith))
        refl

  Supplies-suffix :
      (ys xs : List A) (source : ℕ → Option A) (n : ℕ)
      → ((i : ℕ) → source i ≡ get_elem? (xs ++ ys) i)
      → n ≡ length xs
      → Supplies source n ys
  Supplies-suffix [] xs source n h e = tt
  Supplies-suffix (y ∷ ys) xs source n h e = (
    ap source e ∙ h (length xs) ∙ get_elem?-append xs y ys,
    Supplies-suffix ys (xs ++ y ∷ []) source (suc n)
        (λ i. h i ∙ ap (λ l. get_elem? l i) (sym (append_assoc xs (y ∷ []) ys)))
        (omega (arith, length-snoc xs y)),
  )

  -- All values, in order
  pub Supplies-all :
      (xs : List A) (source : ℕ → Option A)
      → ((i : ℕ) → source i ≡ get_elem? xs i)
      → Supplies source 0 xs
  Supplies-all xs source h = Supplies-suffix xs [] source 0 h refl

  restore_lem :
      (old d : Dynarray A) (zs : List A) (j c : ℕ)
      → d ≡ record { cells = cells_of zs j; size = length zs; capacity = c }
      → restore old d ≡ some old
  restore_lem old d zs j c e =
      let gone : release d ≡ some (record { cells = []; size = 0; capacity = 0 }) =
        ap release e ∙ release_lem zs (length zs) j c refl in
      rw (restore, gone) refl

  moved :
      (xs : List A) (k n : ℕ) (fs : List Bool) (o : Outcome (Dynarray A))
      → length xs ≤ n
      → Built [] xs (n - length xs) (rest fs) n o
      → Reserved xs k (n - length xs) fs (catch (o >>> dispose (held xs k)) (restore (held xs k)))
  moved xs k n fs (returned d gs) h b =
      let gone =
        destroy_loop_lem (length xs) xs (length xs) 0 k (length xs + k) refl (omega arith) in
      let c : n ≡ length xs + (n - length xs) = omega arith in
      rw (gone, dispose)
        (
          b.0
              ∙ ap
                  (λ c. record {
                    cells = cells_of xs (n - length xs);
                    size = length xs;
                    capacity = c;
                  })
                  c,
          λ f. Faulty-rest fs (b.1 f),
        )
  moved xs k n fs (threw d gs) h (zs, j, e, l, f) =
      rw (restore_lem (held xs k) d zs j n e, catch) (refl, Faulty-rest fs f)
  moved xs k n fs undefined h b = b

  -- `reserve` beyond the capacity, where the allocation succeeds, moves the objects to an allocation
  -- of exactly the capacity asked for, or a constructor throws and the array is as before.
  pub reserve-Reserved :
      (xs : List A) (k n : ℕ) (fs : List Bool)
      → length xs + k < n
      → first fs ≡ false
      → Reserved xs k (n - length xs) fs (reserve (held xs k) n fs)
  unfolding reserve
  reserve-Reserved xs k n fs h a =
      let beyond : leb n (length xs + k) ≡ false = ground arith in
      rw (beyond, a, allocate)
        (moved xs k n fs _ (omega arith) (
          construct_loop_lem xs (object_at (cells_of xs k)) [] 0 n (n - length xs) n (rest fs) refl
            (omega arith) (Supplies-all xs (object_at (cells_of xs k)) (object_at-get_elem? xs k))))

  -- Within the capacity nothing happens.
  pub reserve_within :
      (xs : List A) (k n : ℕ) (fs : List Bool)
      → n ≤ length xs + k
      → reserve (held xs k) n fs ≡ returned (held xs k) fs
  unfolding reserve
  reserve_within xs k n fs h =
      let within : leb n (length xs + k) ≡ true = ground arith in rw within refl

  abbrev pub Grown : List A → ℕ → ℕ → List Bool → Outcome (Dynarray A) → Type 0
  Grown xs k n fs (returned d gs) =
      (k' : ℕ) × (d ≡ held xs k') × (n ≤ length xs + k') × (k' ≤ n + k) × (Faulty gs → Faulty fs)
  Grown xs k n fs (threw d gs) = (d ≡ held xs k) × Faulty fs
  Grown xs k n fs undefined = ⊥

  grown :
      (xs : List A) (k n k' : ℕ) (fs : List Bool) (o : Outcome (Dynarray A))
      → n ≤ length xs + k'
      → k' ≤ n + k
      → Reserved xs k k' fs o
      → Grown xs k n fs (o >>> λ d' gs. asserted (leb n d'.capacity) d' gs)
  grown xs k n k' fs (returned d gs) h u (e, q) =
      let enough : leb n (length xs + k') ≡ true = ground arith in
      rw (e, enough) (k', refl, h, u, q)
  grown xs k n k' fs (threw d gs) h u e = e
  grown xs k n k' fs undefined h u e = e

  reserved :
      (xs : List A) (k n r : ℕ) (fs : List Bool)
      → length xs + k < r
      → n ≤ r
      → r ≤ n + (length xs + k)
      → first fs ≡ false
      → Grown xs k n fs (reserve (held xs k) r fs >>> λ d' gs. asserted (leb n d'.capacity) d' gs)
  reserved xs k n r fs l h u a =
      grown xs k n (r - length xs) fs _ (omega arith) (omega arith) (reserve-Reserved xs k r fs l a)

  grow_within :
      (xs : List A) (k n : ℕ) (fs : List Bool)
      → n ≤ length xs + k
      → Grown xs k n fs (grow (held xs k) n fs)
  unfolding grow
  grow_within xs k n fs h = elim (Bool-cases (length xs + k == 0)) [
    | inl z ↦
        let none_asked : (n == 0) ≡ true = ground (arith, (==_iff (length xs + k) 0).0 z) in
        rw (z, none_asked)
          (grown xs k n k fs (returned (held xs k) fs) h (omega arith) (refl, λ f. f))
    | inr z ↦
        let enough : ltb (length xs + k) n ≡ false = ground arith in
        rw (z, enough) (grown xs k n k fs (returned (held xs k) fs) h (omega arith) (refl, λ f. f))
  ]

  grow_beyond :
      (xs : List A) (k n : ℕ) (fs : List Bool)
      → length xs + k < n
      → first fs ≡ false
      → Grown xs k n fs (grow (held xs k) n fs)
  unfolding grow
  grow_beyond xs k n fs h a = elim (Bool-cases (length xs + k == 0)) [
    | inl z ↦
        let asked : (n == 0) ≡ false = ground arith in
        rw (z, asked) (reserved xs k n n fs h (omega arith) (omega arith) a)
    | inr z ↦
        let short : ltb (length xs + k) n ≡ true = ground arith in
        let positive : 0 < length xs + k = ground arith in
        let (enough, tight) = multiple_bounds n (length xs + k) positive in
        rw (z, short)
          (reserved xs k n ((n + (length xs + k) - 1) / (length xs + k) * (length xs + k)) fs
            (omega arith) enough (omega arith) a)
  ]

  -- `grow` keeps the objects and makes the capacity at least `n`, with room for at most `n` more
  -- objects than before; where a constructor throws, the array is as before. It is so if the capacity
  -- suffices or the allocation succeeds.
  grow-Grown :
      (xs : List A) (k n : ℕ) (fs : List Bool)
      → (n ≤ length xs + k) ⊎ (first fs ≡ false)
      → Grown xs k n fs (grow (held xs k) n fs)
  grow-Grown xs k n fs (inl h) = grow_within xs k n fs h
  grow-Grown xs k n fs (inr a) = elim (Bool-cases (ltb (length xs + k) n)) [
    | inl l ↦ grow_beyond xs k n fs (ground arith) a
    | inr l ↦ grow_within xs k n fs (ground arith)
  ]

  -- The object appended, or the old objects, where some call throws
  abbrev pub Appended : List A → A → List Bool → Outcome (Dynarray A) → Type 0
  Appended xs x fs (returned d gs) = (k : ℕ) × (d ≡ held (xs ++ x ∷ []) k)
  Appended xs x fs (threw d gs) = (k : ℕ) × (d ≡ held xs k) × Faulty fs
  Appended xs x fs undefined = ⊥

  construct_one :
      (xs : List A) (j : ℕ) (x : A) (fs gs : List Bool)
      → (Faulty gs → Faulty fs)
      → Appended xs x fs (construct_loop 1 (λ i. some x) (held xs (suc j)) gs)
  unfolding construct_loop
  construct_one xs j x fs gs q = elim (Bool-cases (first gs)) [
    | inl t ↦ rw (t, construct_loop) (suc j, refl, q (Faulty-first gs t))
    | inr t ↦
        let l : length (xs ++ x ∷ []) ≡ suc (length xs) = length-snoc xs x in
        let c : length xs + suc j ≡ suc (length xs) + j = omega arith in
        rw (t, construct_at_end xs j x, construct_loop) (j, rw (l, c) refl)
  ]

  appended :
      (xs : List A) (k : ℕ) (x : A) (fs : List Bool) (o : Outcome (Dynarray A))
      → Grown xs k (length xs + 1) fs o
      → Appended xs x fs (o >>> λ d gs. construct_loop 1 (λ i. some x) d gs)
  appended xs k x fs (returned d gs) (zero, e, h, u, q) = absurd (omega arith)
  appended xs k x fs (returned d gs) (suc j, e, h, u, q) =
      subst (λ d. Appended xs x fs (construct_loop 1 (λ i. some x) d gs)) (sym e)
        (construct_one xs j x fs gs q)
  appended xs k x fs (threw d gs) (e, f) = (k, e, f)
  appended xs k x fs undefined h = h

  -- `emplace_back` puts the object behind the others, or, where a constructor throws, the objects are
  -- as before. It is so if there is room or the allocation succeeds, and the argument is not an element
  -- of the array.
  pub emplace_back-Appended :
      (xs : List A) (k : ℕ) (x : A) (fs : List Bool)
      → (0 < k) ⊎ (first fs ≡ false)
      → Appended xs x fs (emplace_back (held xs k) x fs)
  unfolding emplace_back
  emplace_back-Appended xs k x fs (inl h) =
      appended xs k x fs _ (grow-Grown xs k (length xs + 1) fs (inl (omega arith)))
  emplace_back-Appended xs k x fs (inr a) =
      appended xs k x fs _ (grow-Grown xs k (length xs + 1) fs (inr a))
