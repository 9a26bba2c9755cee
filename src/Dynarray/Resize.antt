-- ===== src/Dynarray/Resize.antt =====
-- include/gpcl/dynarray.hpp: `keep_first_n` and `resize`.
use gpcl.Base.{
  ℕ, zero, suc, ◌+◌, ◌-◌, ◌≤◌, ◌<◌, ◌≡◌, refl, ap, subst, ◌∙◌, Bool, true, false, Bool-cases, inl,
  inr, ◌⊎◌, List, ◌++◌, append-nil, none, some, arith, length, leb, if◌then◌else◌, take, take-all,
  length-take, replicate, length-replicate, length-append, take-append_exact,
}
use gpcl.Dynarray.Cells.{
  cells_of, held, Faulty, Built, Supplies, construct_loop_lem, destroy_loop_lem,
}
use gpcl.Dynarray.Grow.{Reserved, Grown, reserve-Reserved, reserve_within}
use gpcl.Dynarray.{
  Outcome, returned, threw, undefined, ◌>>>◌, catch, Dynarray, first, construct_loop, keep_first_n,
  reserve, resize,
}

module _ {A : Type 0} where
  pub keep_first_n_lem :
      (xs : List A) (m n k c : ℕ)
      → m ≡ length xs
      → n ≤ m
      → keep_first_n (record { cells = cells_of xs k; size = m; capacity = c }) n
        ≡ some (record { cells = cells_of (take n xs) (m - n + k); size = n; capacity = c })
  unfolding keep_first_n
  keep_first_n_lem xs m n k c e h =
      let within : leb n m ≡ true = ground arith in
      rw within (destroy_loop_lem (m - n) xs m n k c e (omega arith))

  -- The first `n` objects, filled up with copies of `x`; or the old objects
  abbrev pub Resized : List A → A → ℕ → List Bool → Outcome (Dynarray A) → Type 0
  Resized xs x n fs (returned d gs) =
      (k : ℕ) × (d ≡ held (take n xs ++ replicate (n - length xs) x) k)
  Resized xs x n fs (threw d gs) = (k : ℕ) × (d ≡ held xs k) × Faulty fs
  Resized xs x n fs undefined = ⊥

  Supplies-replicate : (n i : ℕ) (x : A) → Supplies (λ i. some x) i (replicate n x)
  Supplies-replicate zero i x = tt
  Supplies-replicate (suc n) i x = (refl, Supplies-replicate n (suc i) x)

  construct_loop-replicate :
      (xs : List A) (x : A) (n r k c : ℕ) (fs : List Bool)
      → r ≡ n + k
      → Built xs (replicate n x) k fs c (
          construct_loop n
            (λ i. some x)
            (record { cells = cells_of xs r; size = length xs; capacity = c })
            fs)
  construct_loop-replicate xs x n r k c fs e =
      subst
        (λ m. Built xs (replicate n x) k fs c (
          construct_loop m (λ i. some x)
            (record { cells = cells_of xs r; size = length xs; capacity = c }) fs))
        (length-replicate n x)
        (construct_loop_lem (replicate n x) (λ i. some x) xs (length xs) r k c fs refl
          (omega (arith, length-replicate n x)) (Supplies-replicate n (length xs) x))

  -- What is built in vain is destroyed.
  undone :
      (xs zs : List A) (j c k : ℕ) (d : Dynarray A)
      → d ≡ record { cells = cells_of (xs ++ zs) j; size = length (xs ++ zs); capacity = c }
      → length zs + j ≡ k
      → c ≡ length xs + k
      → keep_first_n d (length xs) ≡ some (held xs k)
  undone xs zs j c k d e l h =
      let room : length (xs ++ zs) - length xs + j ≡ k = omega (arith, length-append xs zs) in
      ap (λ d. keep_first_n d (length xs)) e
      ∙ keep_first_n_lem (xs ++ zs) (length (xs ++ zs)) (length xs) j c refl
          (omega (arith, length-append xs zs))
      ∙ rw (take-append_exact xs zs, room, h) refl

  filled :
      (xs : List A) (x : A) (n k j c : ℕ) (fs gs : List Bool) (o : Outcome (Dynarray A))
      → length xs ≤ n
      → c ≡ length xs + k
      → n + j ≡ length xs + k
      → (Faulty gs → Faulty fs)
      → Built xs (replicate (n - length xs) x) j gs c o
      → Resized xs x n fs (catch o (λ d'. keep_first_n d' (length xs)))
  filled xs x n k j c fs gs (returned d hs) l e u q (b, r) =
      let total : c ≡ length (xs ++ replicate (n - length xs) x) + j = omega (
        arith,
        length-append xs (replicate (n - length xs) x),
        length-replicate (n - length xs) x,
      ) in
      rw (take-all n xs l) (
        j,
        b
            ∙ ap
                (λ c. record {
                  cells = cells_of (xs ++ replicate (n - length xs) x) j;
                  size = length (xs ++ replicate (n - length xs) x);
                  capacity = c;
                })
                total,
      )
  filled xs x n k j c fs gs (threw d hs) l e u q (zs, i, b, s, f) =
      rw (undone xs zs i c k d b (omega (arith, length-replicate (n - length xs) x)) e, catch)
        (k, refl, q f)
  filled xs x n k j c fs gs undefined l e u q b = b

  Resized-held :
      (xs : List A) (x : A) (n k : ℕ) (fs gs : List Bool)
      → n ≤ length xs + k
      → (Faulty gs → Faulty fs)
      → Resized xs x n fs (
          if leb n (length xs)
          then elim (keep_first_n (held xs k) n) [ none ↦ undefined | some d' ↦ returned d' gs ]
          else catch
              (construct_loop (n - length xs) (λ i. some x) (held xs k) gs)
              (λ d'. keep_first_n d' (length xs)))
  Resized-held xs x n k fs gs h q = elim (Bool-cases (leb n (length xs))) [
    | inl t ↦
        let within : n ≤ length xs = ground arith in
        let none_new : n - length xs ≡ 0 = omega arith in
        let kept : length (take n xs) ≡ n = omega (arith, length-take n xs) in
        let capacity : n + (length xs - n + k) ≡ length xs + k = omega arith in
        rw
          (
            t,
            keep_first_n_lem xs (length xs) n k (length xs + k) refl within,
            none_new,
            append-nil (take n xs),
          )
          (length xs - n + k, rw (kept, capacity) refl)
    | inr t ↦ rw t (
        filled xs x n k (length xs + k - n) (length xs + k) fs gs _ (ground arith) refl
          (omega arith) q
          (construct_loop-replicate xs x (n - length xs) k (length xs + k - n) (length xs + k) gs
            (ground arith)))
  ]

  resized :
      (xs : List A) (x : A) (n k : ℕ) (fs : List Bool) (o : Outcome (Dynarray A))
      → Grown xs k n fs o
      → Resized xs x n fs (
          o >>> λ d fs.
          if leb n d.size
          then elim (keep_first_n d n) [ none ↦ undefined | some d' ↦ returned d' fs ]
          else catch
              (construct_loop (n - d.size) (λ i. some x) d fs)
              (λ d'. keep_first_n d' d.size))
  resized xs x n k fs (returned d gs) (k', e, h, u, q) = rw e (Resized-held xs x n k' fs gs h q)
  resized xs x n k fs (threw d gs) (e, f) = (k, e, f)
  resized xs x n k fs undefined h = h

  Grown-reserve :
      (xs : List A) (k n : ℕ) (fs : List Bool)
      → (n ≤ length xs + k) ⊎ (first fs ≡ false)
      → Grown xs k n fs (reserve (held xs k) n fs)
  Grown-reserve xs k n fs g = elim (Bool-cases (leb n (length xs + k))) [
    | inl t ↦
        rw (reserve_within xs k n fs (ground arith)) (k, refl, ground arith, omega arith, λ f. f)
    | inr t ↦
        beyond (reserve (held xs k) n fs) (ground arith)
          (reserve-Reserved xs k n fs (ground arith) (ground (arith, g)))
  ]
    where
      beyond :
          (o : Outcome (Dynarray A))
          → length xs + k < n
          → Reserved xs k (n - length xs) fs o
          → Grown xs k n fs o
      beyond (returned d gs) h (e, q) = (n - length xs, e, omega arith, omega arith, q)
      beyond (threw d gs) h e = e
      beyond undefined h e = e

  -- `resize` keeps the first `n` objects and fills up with copies of the value; where some
  -- constructor throws, the objects are as before. It is so if there is room or the allocation
  -- succeeds, and the value is not an element of the array.
  pub resize-Resized :
      (xs : List A) (k n : ℕ) (x : A) (fs : List Bool)
      → (n ≤ length xs + k) ⊎ (first fs ≡ false)
      → Resized xs x n fs (resize (held xs k) n x fs)
  unfolding resize
  resize-Resized xs k n x fs g =
      resized xs x n k fs (reserve (held xs k) n fs) (Grown-reserve xs k n fs g)
