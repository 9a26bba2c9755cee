-- ===== src/LinkedList/Ring.antt =====
-- include/gpcl/list.hpp: the invariant of `list`, and the nodes that are live.
use gpcl.Base.{
  ℕ, suc, ◌%◌, ◌^◌, ◌≡◌, ◌≢◌, refl, sym, ap, subst, ◌∙◌, true, false, List, [], ◌∷◌, ◌++◌, Option,
  some, ◌==◌, if◌then◌else◌, length, Bool-cases, inl, inr, arith,
}
use gpcl.Base.Addresses.{Absent, Distinct, assign, assign_other}
use gpcl.LinkedList.Link.{Ring}
use gpcl.LinkedList.Trail.{last_of, first_of}
use gpcl.LinkedList.{Memory, mem, without}

abbrev pub Alive : List ℕ → List ℕ → Type 0
Alive live [] = Unit
Alive live (p ∷ ps) = (mem p live ≡ true) × Alive live ps

-- The nodes hold the values, in this order.
abbrev pub Holds : {A : Type 0} → (ℕ → Option A) → List ℕ → List A → Type 0
Holds val [] [] = Unit
Holds val [] (x ∷ xs) = ⊥
Holds val (p ∷ ps) [] = ⊥
Holds val (p ∷ ps) (x ∷ xs) = (val p ≡ some x) × Holds val ps xs

-- The list `this` has the nodes `ps`, with the values `xs`.
pub record IsList {A : Type 0} (m : Memory A) (this : ℕ) (ps : List ℕ) (xs : List A) : Type 0 where
  pub ring : Ring m.next m.prev this ps
  pub distinct : Distinct (this ∷ ps)
  pub alive : Alive m.live (this ∷ ps)
  pub values : Holds m.val ps xs
  pub counted : m.size this ≡ length ps % 2 ^ 64

module _ (live : List ℕ) where
  pub Alive-append : (ps qs : List ℕ) → Alive live ps → Alive live qs → Alive live (ps ++ qs)
  Alive-append [] qs h k = k
  Alive-append (p ∷ ps) qs h k = (h.0, Alive-append ps qs h.1 k)

  pub Alive-left : (ps qs : List ℕ) → Alive live (ps ++ qs) → Alive live ps
  Alive-left [] qs h = tt
  Alive-left (p ∷ ps) qs h = (h.0, Alive-left ps qs h.1)

  pub Alive-right : (ps qs : List ℕ) → Alive live (ps ++ qs) → Alive live qs
  Alive-right [] qs h = h
  Alive-right (p ∷ ps) qs h = Alive-right ps qs h.1

  pub Alive-last_of : (a : ℕ) (ps : List ℕ) → Alive live (a ∷ ps) → mem (last_of a ps) live ≡ true
  Alive-last_of a [] h = h.0
  Alive-last_of a (p ∷ ps) h = Alive-last_of p ps h.1

  pub Alive-first_of : (qs : List ℕ) (s : ℕ) → Alive live (s ∷ qs) → mem (first_of qs s) live ≡ true
  Alive-first_of [] s h = h.0
  Alive-first_of (q ∷ qs) s h = h.1.0

  mem-cons : (a p : ℕ) → mem a live ≡ true → mem a (p ∷ live) ≡ true
  mem-cons a p h = elim (Bool-cases (a == p)) [ inl t ↦ rw t refl | inr t ↦ rw (t, h) refl ]

  pub Alive-cons : (p : ℕ) (ps : List ℕ) → Alive live ps → Alive (p ∷ live) ps
  Alive-cons p [] h = tt
  Alive-cons p (q ∷ qs) h = (mem-cons q p h.0, Alive-cons p qs h.1)

  -- A node that is not live is none of those that are.
  pub mem-Absent : (p : ℕ) (ps : List ℕ) → mem p live ≡ false → Alive live ps → Absent p ps
  mem-Absent p [] f h = tt
  mem-Absent p (q ∷ qs) f h = (
    λ e.
        absurd
          (let g : mem q live ≡ false = subst (λ r. mem r live ≡ false) e f in ground (arith, h.0)),
    mem-Absent p qs f h.1,
  )

pub without_absent : (p : ℕ) (live : List ℕ) → mem p live ≡ false → without p live ≡ live
without_absent p [] h = refl
without_absent p (q ∷ live) h = elim (Bool-cases (p == q)) [
  | inl t ↦ absurd (
      let c : true ≡ false = subst (λ b. (if b then true else mem p live) ≡ false) t h in
      ground arith)
  | inr t ↦ rw t (ap (◌∷◌ q) (without_absent p live (sym (rw t refl) ∙ h)))
]

pub mem-without : (p a : ℕ) (live : List ℕ) → a ≢ p → mem a (without p live) ≡ mem a live
mem-without p a [] h = refl
mem-without p a (q ∷ live) h = elim (Bool-cases (p == q)) [
  | inl t ↦ let other : (a == q) ≡ false = ground arith in rw (t, other) (mem-without p a live h)
  | inr t ↦ rw t (ap (λ b. if a == q then true else b) (mem-without p a live h))
]

pub Alive-without :
    (p : ℕ) (live ps : List ℕ) → Absent p ps → Alive live ps → Alive (without p live) ps
Alive-without p live [] f h = tt
Alive-without p live (q ∷ qs) f h =
    (mem-without p q live (λ e. f.0 (sym e)) ∙ h.0, Alive-without p live qs f.1 h.1)

module _ {A : Type 0} (val : ℕ → Option A) where
  pub Holds-append :
      (ps qs : List ℕ) (xs ys : List A)
      → Holds val ps xs
      → Holds val qs ys
      → Holds val (ps ++ qs) (xs ++ ys)
  Holds-append [] qs [] ys h k = k
  Holds-append [] qs (x ∷ xs) ys h k = absurd h
  Holds-append (p ∷ ps) qs [] ys h k = absurd h
  Holds-append (p ∷ ps) qs (x ∷ xs) ys h k = (h.0, Holds-append ps qs xs ys h.1 k)

  pub Holds-split :
      (ps qs : List ℕ) (xs ys : List A)
      → length ps ≡ length xs
      → Holds val (ps ++ qs) (xs ++ ys)
      → Holds val ps xs × Holds val qs ys
  Holds-split [] qs [] ys e h = (tt, h)
  Holds-split [] qs (x ∷ xs) ys e h = absurd (omega arith)
  Holds-split (p ∷ ps) qs [] ys e h = absurd (omega arith)
  Holds-split (p ∷ ps) qs (x ∷ xs) ys e h =
      let (l, r) = Holds-split ps qs xs ys (omega arith) h.1 in ((h.0, l), r)

  pub Holds-assign :
      (p : ℕ) (v : Option A) (ps : List ℕ) (xs : List A)
      → Absent p ps
      → Holds val ps xs
      → Holds (assign val p v) ps xs
  Holds-assign p v [] [] f h = tt
  Holds-assign p v [] (x ∷ xs) f h = absurd h
  Holds-assign p v (q ∷ qs) [] f h = absurd h
  Holds-assign p v (q ∷ qs) (x ∷ xs) f h =
      (assign_other val p v q (λ e. f.0 (sym e)) ∙ h.0, Holds-assign p v qs xs f.1 h.1)

  pub Holds-length : (ps : List ℕ) (xs : List A) → Holds val ps xs → length ps ≡ length xs
  Holds-length [] [] h = refl
  Holds-length [] (x ∷ xs) h = absurd h
  Holds-length (p ∷ ps) [] h = absurd h
  Holds-length (p ∷ ps) (x ∷ xs) h = ap suc (Holds-length ps xs h.1)
