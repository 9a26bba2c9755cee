-- ===== src/LinkedList/Sort.antt =====
-- include/gpcl/list.hpp: what the loops of `sort` do to the values: each round of the outer one selects
-- the least of the values that are left.
pub mod Loops
pub mod Whole
use mathlib.Core.List.{Perm, perm_middle, perm_append_singleton}
use mathlib.Core.List.Perm
use gpcl.Base.{
  ℕ, zero, suc, ◌+◌, ◌<◌, ◌≤◌, ◌≡◌, refl, sym, ap, subst, ◌∙◌, Bool, true, false, List, [], ◌∷◌,
  ◌++◌, length, length-append, append-nil, append_assoc, if◌then◌else◌, Bool-cases, inl, inr, arith,
}

module _ {A : Type 0} (less : A → A → Bool) where
  -- The inner loop: the value at `i`, those between `i` and `j`, and those from `j` on
  abbrev pub select : A → List A → List A → A × List A
  select x ms [] = (x, ms)
  select x ms (y ∷ ys) =
      let moved = select y (x ∷ ms) ys in
      let stays = select x (ms ++ (y ∷ [])) ys in if less y x then moved else stays

  -- `n` rounds of the outer loop
  abbrev pub selected : ℕ → List A → List A
  selected zero xs = xs
  selected (suc n) [] = []
  selected (suc n) (x ∷ xs) = let rest = selected n (select x [] xs).1 in (select x [] xs).0 ∷ rest

  -- No value of the list is less than `x`.
  abbrev pub AtMost : A → List A → Type 0
  AtMost x [] = Unit
  AtMost x (y ∷ ys) = (less y x ≡ false) × AtMost x ys

  abbrev pub IsSorted : List A → Type 0
  IsSorted [] = Unit
  IsSorted (x ∷ xs) = AtMost x xs × IsSorted xs

  select-perm :
      (x : A) (ms ys : List A) → Perm (x ∷ ms ++ ys) ((select x ms ys).0 ∷ (select x ms ys).1)
  select-perm x ms [] =
      subst (λ l. Perm (x ∷ ms ++ []) (x ∷ l)) (append-nil ms) (Perm.refl (x ∷ ms ++ []))
  select-perm x ms (y ∷ ys) = elim (Bool-cases (less y x)) [
    | inl t ↦ rw t (Perm.trans (perm_middle (x ∷ ms) ys) (select-perm y (x ∷ ms) ys))
    | inr t ↦ rw t (
        subst
          (λ l. Perm (x ∷ l) ((select x (ms ++ (y ∷ [])) ys).0 ∷ (select x (ms ++ (y ∷ [])) ys).1))
          (append_assoc ms (y ∷ []) ys) (select-perm x (ms ++ (y ∷ [])) ys))
  ]

  pub selected-perm : (n : ℕ) (xs : List A) → Perm xs (selected n xs)
  selected-perm zero xs = Perm.refl xs
  selected-perm (suc n) [] = Perm.refl []
  selected-perm (suc n) (x ∷ xs) =
      Perm.trans (select-perm x [] xs)
        (Perm.cons (select x [] xs).0 (selected-perm n (select x [] xs).1))

  pub length-select : (x : A) (ms ys : List A) → length (select x ms ys).1 ≡ length ms + length ys
  length-select x ms [] = omega arith
  length-select x ms (y ∷ ys) = elim (Bool-cases (less y x)) [
    | inl t ↦ rw t (omega (arith, length-select y (x ∷ ms) ys))
    | inr t ↦ rw t (omega (arith, length-select x (ms ++ (y ∷ [])) ys, length-append ms (y ∷ [])))
  ]

  AtMost-append : (a : A) (xs ys : List A) → AtMost a xs → AtMost a ys → AtMost a (xs ++ ys)
  AtMost-append a [] ys h k = k
  AtMost-append a (x ∷ xs) ys h k = (h.0, AtMost-append a xs ys h.1 k)

  -- A value that is at most all of them is so behind the rounds.
  AtMost-select :
      (a x : A) (ms ys : List A)
      → less x a ≡ false
      → AtMost a ms
      → AtMost a ys
      → AtMost a ((select x ms ys).0 ∷ (select x ms ys).1)
  AtMost-select a x ms [] h k l = (h, k)
  AtMost-select a x ms (y ∷ ys) h k l = elim (Bool-cases (less y x)) [
    | inl t ↦ rw t (AtMost-select a y (x ∷ ms) ys l.0 (h, k) l.1)
    | inr t ↦
        rw t (AtMost-select a x (ms ++ (y ∷ [])) ys h (AtMost-append a ms (y ∷ []) k (l.0, tt)) l.1)
  ]

  AtMost-selected : (n : ℕ) (a : A) (xs : List A) → AtMost a xs → AtMost a (selected n xs)
  AtMost-selected zero a xs h = h
  AtMost-selected (suc n) a [] h = tt
  AtMost-selected (suc n) a (x ∷ xs) h =
      let k = AtMost-select a x [] xs h.0 tt h.1 in
      (k.0, AtMost-selected n a (select x [] xs).1 k.1)

  -- `less` is a strict order in which "not less" is transitive, as `operator<` has to be.
  pub record Order : Type 0 where
    pub asym : (x y : A) → less x y ≡ true → less y x ≡ false
    pub trans : (x y z : A) → less y x ≡ false → less z y ≡ false → less z x ≡ false

  module _ (order : Order) where
    AtMost-trans : (y x : A) (zs : List A) → less x y ≡ false → AtMost x zs → AtMost y zs
    AtMost-trans y x [] h k = tt
    AtMost-trans y x (z ∷ zs) h k = (order.trans y x z h k.0, AtMost-trans y x zs h k.1)

    select-AtMost :
        (x : A) (ms ys : List A) → AtMost x ms → AtMost (select x ms ys).0 (select x ms ys).1
    select-AtMost x ms [] h = h
    select-AtMost x ms (y ∷ ys) h = elim (Bool-cases (less y x)) [
      | inl t ↦
          let k = order.asym y x t in
          rw t (select-AtMost y (x ∷ ms) ys (k, AtMost-trans y x ms k h))
      | inr t ↦ rw t (select-AtMost x (ms ++ (y ∷ [])) ys (AtMost-append x ms (y ∷ []) h (t, tt)))
    ]

    pub selected-IsSorted : (n : ℕ) (xs : List A) → length xs ≤ n → IsSorted (selected n xs)
    selected-IsSorted zero [] h = tt
    selected-IsSorted zero (x ∷ xs) h = absurd (omega arith)
    selected-IsSorted (suc n) [] h = tt
    selected-IsSorted (suc n) (x ∷ xs) h = (
      AtMost-selected n (select x [] xs).0 (select x [] xs).1 (select-AtMost x [] xs tt),
      selected-IsSorted n (select x [] xs).1 (omega (arith, length-select x [] xs)),
    )
