-- ===== src/Dynarray/Cells.antt =====
-- The cells of include/gpcl/dynarray.hpp as a list of objects, and its loops.
use gpcl.Base.{
  ℕ, zero, suc, ◌+◌, ◌-◌, ◌≤◌, ◌≡◌, refl, ap, ◌∙◌, Bool, true, false, Bool-cases, inl, inr, List,
  [], ◌∷◌, ◌++◌, append-nil, append_assoc, Option, none, some, arith, length, length-append,
  get_elem?, replicate, take, take-all, length-take,
}
use gpcl.Dynarray.{
  Outcome, returned, threw, undefined, Dynarray, construct_at, destroy_at, object_at,
  construct_loop, destroy_loop, first, rest,
}

-- Some call is to throw.
abbrev pub Faulty : List Bool → Type 0
Faulty [] = ⊥
Faulty (true ∷ fs) = Unit
Faulty (false ∷ fs) = Faulty fs

pub Faulty-first : (fs : List Bool) → first fs ≡ true → Faulty fs
Faulty-first [] e = cc
Faulty-first (true ∷ fs) e = tt
Faulty-first (false ∷ fs) e = cc

pub Faulty-rest : (fs : List Bool) → Faulty (rest fs) → Faulty fs
Faulty-rest [] h = h
Faulty-rest (true ∷ fs) h = tt
Faulty-rest (false ∷ fs) h = h

module _ {A : Type 0} where
  abbrev pub cells_of : List A → ℕ → List (Option A)
  cells_of [] k = replicate k none
  cells_of (x ∷ xs) k = some x ∷ cells_of xs k

  -- The array of the objects `xs` with room for `k` more: the state between operations
  abbrev pub held : List A → ℕ → Dynarray A
  held xs k = record { cells = cells_of xs k; size = length xs; capacity = length xs + k }

  -- What a loop makes of `xs` that builds `ys` behind them: all of `ys`, or a part before the throw
  abbrev pub Built : List A → List A → ℕ → List Bool → ℕ → Outcome (Dynarray A) → Type 0
  Built xs ys k fs c (returned d gs) =
      (d ≡ record { cells = cells_of (xs ++ ys) k; size = length (xs ++ ys); capacity = c })
      × (Faulty gs → Faulty fs)
  Built xs ys k fs c (threw d gs) =
      (zs : List A) × (j : ℕ) × (d
        ≡ record { cells = cells_of (xs ++ zs) j; size = length (xs ++ zs); capacity = c })
      × (length zs + j ≡ length ys + k)
      × Faulty fs
  Built xs ys k fs c undefined = ⊥

  pub construct_at_end :
      (xs : List A) (k : ℕ) (x : A)
      → construct_at (cells_of xs (suc k)) (length xs) x ≡ some (cells_of (xs ++ x ∷ []) k)
  unfolding construct_at
  construct_at_end [] k x = refl
  construct_at_end (y ∷ xs) k x = rw (construct_at_end xs k x) refl

  pub construct_at_full : (xs : List A) (x : A) → construct_at (cells_of xs 0) (length xs) x ≡ none
  unfolding construct_at
  construct_at_full [] x = refl
  construct_at_full (y ∷ xs) x = rw (construct_at_full xs x) refl

  destroy_at_end :
      (xs : List A) (k : ℕ) (x : A)
      → destroy_at (cells_of (xs ++ x ∷ []) k) (length xs) ≡ some (cells_of xs (suc k))
  unfolding destroy_at
  destroy_at_end [] k x = refl
  destroy_at_end (y ∷ xs) k x = rw (destroy_at_end xs k x) refl

  pub object_at-get_elem? : (xs : List A) (k i : ℕ) → object_at (cells_of xs k) i ≡ get_elem? xs i
  object_at-get_elem? [] zero i = refl
  object_at-get_elem? [] (suc k) zero = refl
  object_at-get_elem? [] (suc k) (suc i) = object_at-get_elem? [] k i
  object_at-get_elem? (x ∷ xs) k zero = refl
  object_at-get_elem? (x ∷ xs) k (suc i) = object_at-get_elem? xs k i

  pub get_elem?-append :
      (xs : List A) (y : A) (ys : List A) → get_elem? (xs ++ y ∷ ys) (length xs) ≡ some y
  get_elem?-append [] y ys = refl
  get_elem?-append (x ∷ xs) y ys = get_elem?-append xs y ys

  pub length-snoc : (xs : List A) (x : A) → length (xs ++ x ∷ []) ≡ suc (length xs)
  length-snoc xs x = omega (arith, length-append xs (x ∷ []))

  -- The values that `source` has from `i` on
  abbrev pub Supplies : (ℕ → Option A) → ℕ → List A → Type 0
  Supplies source i [] = Unit
  Supplies source i (y ∷ ys) = (source i ≡ some y) × Supplies source (suc i) ys

  Built-cons :
      (xs : List A) (y : A) (ys : List A) (k c : ℕ) (fs : List Bool) (o : Outcome (Dynarray A))
      → Built (xs ++ y ∷ []) ys k (rest fs) c o
      → Built xs (y ∷ ys) k fs c o
  Built-cons xs y ys k c fs (returned d gs) (e, q) = (
    e
        ∙ ap (λ l. record { cells = cells_of l k; size = length l; capacity = c })
            (append_assoc xs (y ∷ []) ys),
    λ f. Faulty-rest fs (q f),
  )
  Built-cons xs y ys k c fs (threw d gs) (zs, j, e, l, f) = (
    y ∷ zs,
    j,
    e
        ∙ ap (λ l. record { cells = cells_of l j; size = length l; capacity = c })
            (append_assoc xs (y ∷ []) zs),
    omega arith,
    Faulty-rest fs f,
  )
  Built-cons xs y ys k c fs undefined h = h

  -- The loop builds all values, or it stops where a constructor throws.
  pub construct_loop_lem :
      (ys : List A) (source : ℕ → Option A) (xs : List A) (n r k c : ℕ) (fs : List Bool)
      → n ≡ length xs
      → r ≡ length ys + k
      → Supplies source n ys
      → Built xs ys k fs c (
          construct_loop
            (length ys)
            source
            (record { cells = cells_of xs r; size = n; capacity = c })
            fs)
  unfolding construct_loop
  construct_loop_lem [] source xs n r k c fs e room h =
      let none_left : r ≡ k = omega arith in rw (none_left, append-nil xs, e) (refl, λ f. f)
  construct_loop_lem (y ∷ ys) source xs n r k c fs e room h = elim (Bool-cases (first fs)) [
    | inl t ↦
        rw (t, construct_loop) ([], r, rw (append-nil xs, e) refl, omega arith, Faulty-first fs t)
    | inr t ↦
        let more : r ≡ suc (length ys + k) = omega arith in
        let built : construct_at (cells_of xs r) n y
            ≡ some (cells_of (xs ++ y ∷ []) (length ys + k)) =
          rw (e, more) (construct_at_end xs (length ys + k) y) in
        rw (t, h.0, built, construct_loop)
          (Built-cons xs y ys k c fs _ (
            construct_loop_lem ys source (xs ++ y ∷ []) (suc n) (length ys + k) k c (rest fs)
              (omega (arith, length-snoc xs y)) refl h.1))
  ]

  destroy_at_last :
      (xs : List A) (m k : ℕ)
      → length xs ≡ suc m
      → destroy_at (cells_of xs k) m ≡ some (cells_of (take m xs) (suc k))
  unfolding destroy_at
  destroy_at_last [] m k e = absurd (omega arith)
  destroy_at_last (x ∷ []) zero k e = refl
  destroy_at_last (x ∷ y ∷ xs) zero k e = absurd (omega arith)
  destroy_at_last (x ∷ xs) (suc m) k e = rw (destroy_at_last xs m k (omega arith)) refl

  take-take : (m n : ℕ) (xs : List A) → m ≤ n → take m (take n xs) ≡ take m xs
  take-take zero n xs h = refl
  take-take (suc m) zero xs h = absurd (omega arith)
  take-take (suc m) (suc n) [] h = refl
  take-take (suc m) (suc n) (x ∷ xs) h = ap (◌∷◌ x) (take-take m n xs (omega arith))

  -- The loop that destroys the last `count` objects keeps the others.
  pub destroy_loop_lem :
      (count : ℕ) (xs : List A) (n m k c : ℕ)
      → n ≡ length xs
      → n ≡ m + count
      → destroy_loop count (record { cells = cells_of xs k; size = n; capacity = c })
        ≡ some (record { cells = cells_of (take m xs) (count + k); size = m; capacity = c })
  unfolding destroy_loop
  destroy_loop_lem zero xs n m k c e h =
      let same : n ≡ m = omega arith in
      let none_gone : 0 + k ≡ k = omega arith in
      rw (same, none_gone, take-all m xs (omega arith)) refl
  destroy_loop_lem (suc count) xs n m k c e h =
      let size : n - 1 ≡ m + count = omega arith in
      let last : destroy_at (cells_of xs k) (n - 1)
          ≡ some (cells_of (take (m + count) xs) (suc k)) =
        rw size (destroy_at_last xs (m + count) k (omega arith)) in
      let more : suc count + k ≡ count + suc k = omega arith in
      rw (last, more, destroy_loop)
        (destroy_loop_lem count (take (m + count) xs) (n - 1) m (suc k) c
            (omega (arith, length-take (m + count) xs)) size
          ∙ ap (λ l. some (record { cells = cells_of l (count + suc k); size = m; capacity = c }))
              (take-take m (m + count) xs (omega arith)))
