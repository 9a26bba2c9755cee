-- ===== src/Base/Addresses.antt =====
-- Lists of addresses without repetition, and maps from addresses.
use Prim.Native.Nat.{ℕ}
use mathlib.Core.Path.{◌≡◌, refl, sym}
use mathlib.Core.Logic.{◌≢◌}
use mathlib.Core.Bool.{true, false}
use mathlib.Core.List.{List, [], ◌∷◌, ◌++◌}
use native.Mathlib.Omega.{arith}
use gpcl.Base.Tests.{◌==◌, if◌then◌else◌}

-- `a` is not in the list.
abbrev pub Absent : ℕ → List ℕ → Type 0
Absent a [] = Unit
Absent a (x ∷ xs) = (a ≢ x) × Absent a xs

-- The addresses of `xs` are none of `ys`.
abbrev pub Apart : List ℕ → List ℕ → Type 0
Apart [] ys = Unit
Apart (x ∷ xs) ys = Absent x ys × Apart xs ys

abbrev pub Distinct : List ℕ → Type 0
Distinct [] = Unit
Distinct (x ∷ xs) = Absent x xs × Distinct xs

pub Absent-append : (a : ℕ) (xs ys : List ℕ) → Absent a xs → Absent a ys → Absent a (xs ++ ys)
Absent-append a [] ys h k = k
Absent-append a (x ∷ xs) ys h k = (h.0, Absent-append a xs ys h.1 k)

pub Absent-left : (a : ℕ) (xs ys : List ℕ) → Absent a (xs ++ ys) → Absent a xs
Absent-left a [] ys h = tt
Absent-left a (x ∷ xs) ys h = (h.0, Absent-left a xs ys h.1)

pub Absent-right : (a : ℕ) (xs ys : List ℕ) → Absent a (xs ++ ys) → Absent a ys
Absent-right a [] ys h = h
Absent-right a (x ∷ xs) ys h = Absent-right a xs ys h.1

pub Distinct-left : (xs ys : List ℕ) → Distinct (xs ++ ys) → Distinct xs
Distinct-left [] ys h = tt
Distinct-left (x ∷ xs) ys h = (Absent-left x xs ys h.0, Distinct-left xs ys h.1)

pub Distinct-right : (xs ys : List ℕ) → Distinct (xs ++ ys) → Distinct ys
Distinct-right [] ys h = h
Distinct-right (x ∷ xs) ys h = Distinct-right xs ys h.1

pub Distinct-Apart : (xs ys : List ℕ) → Distinct (xs ++ ys) → Apart xs ys
Distinct-Apart [] ys h = tt
Distinct-Apart (x ∷ xs) ys h = (Absent-right x xs ys h.0, Distinct-Apart xs ys h.1)

Distinct-append : (xs ys : List ℕ) → Distinct xs → Distinct ys → Apart xs ys → Distinct (xs ++ ys)
Distinct-append [] ys h k a = k
Distinct-append (x ∷ xs) ys h k a = (Absent-append x xs ys h.0 a.0, Distinct-append xs ys h.1 k a.1)

-- Apartness from a list in two pieces
Apart-append : (xs ys zs : List ℕ) → Apart xs ys → Apart xs zs → Apart xs (ys ++ zs)
Apart-append [] ys zs h k = tt
Apart-append (x ∷ xs) ys zs h k = (Absent-append x ys zs h.0 k.0, Apart-append xs ys zs h.1 k.1)

pub Apart-left : (xs ys zs : List ℕ) → Apart xs (ys ++ zs) → Apart xs ys
Apart-left [] ys zs h = tt
Apart-left (x ∷ xs) ys zs h = (Absent-left x ys zs h.0, Apart-left xs ys zs h.1)

pub Apart-right : (xs ys zs : List ℕ) → Apart xs (ys ++ zs) → Apart xs zs
Apart-right [] ys zs h = tt
Apart-right (x ∷ xs) ys zs h = (Absent-right x ys zs h.0, Apart-right xs ys zs h.1)

-- Pieces of the first list
Apart-append_first : (xs ys zs : List ℕ) → Apart xs zs → Apart ys zs → Apart (xs ++ ys) zs
Apart-append_first [] ys zs h k = k
Apart-append_first (x ∷ xs) ys zs h k = (h.0, Apart-append_first xs ys zs h.1 k)

pub Apart-first : (xs ys zs : List ℕ) → Apart (xs ++ ys) zs → Apart xs zs
Apart-first [] ys zs h = tt
Apart-first (x ∷ xs) ys zs h = (h.0, Apart-first xs ys zs h.1)

pub Apart-second : (xs ys zs : List ℕ) → Apart (xs ++ ys) zs → Apart ys zs
Apart-second [] ys zs h = h
Apart-second (x ∷ xs) ys zs h = Apart-second xs ys zs h.1

Absent-Apart : (x : ℕ) (xs ys : List ℕ) → Absent x xs → Apart xs ys → Apart xs (x ∷ ys)
Absent-Apart x [] ys h k = tt
Absent-Apart x (y ∷ xs) ys h k = ((λ e. h.0 (sym e), k.0), Absent-Apart x xs ys h.1 k.1)

Apart-nil : (xs : List ℕ) → Apart xs []
Apart-nil [] = tt
Apart-nil (x ∷ xs) = (tt, Apart-nil xs)

pub Apart-sym : (xs ys : List ℕ) → Apart xs ys → Apart ys xs
Apart-sym [] ys h = Apart-nil ys
Apart-sym (x ∷ xs) ys h = Absent-Apart x ys xs h.0 (Apart-sym xs ys h.1)

-- A map changed at one address
abbrev pub assign {ℓ} : {A : Type ℓ} → (ℕ → A) → ℕ → A → ℕ → A
assign f a v b = if b == a then v else f b

module _ {ℓ} {A : Type ℓ} where
  pub assign_same : (f : ℕ → A) (a : ℕ) (v : A) → assign f a v a ≡ v
  assign_same f a v = let same : (a == a) ≡ true = ground arith in rw same refl

  pub assign_other : (f : ℕ → A) (a : ℕ) (v : A) (b : ℕ) → b ≢ a → assign f a v b ≡ f b
  assign_other f a v b h = let other : (b == a) ≡ false = ground arith in rw other refl

-- A list with something in the middle
Absent-insert : (a p : ℕ) (ps qs : List ℕ) → a ≢ p → Absent a (ps ++ qs) → Absent a (ps ++ (p ∷ qs))
Absent-insert a p [] qs h k = (h, k)
Absent-insert a p (x ∷ ps) qs h k = (k.0, Absent-insert a p ps qs h k.1)

pub Distinct-insert :
    (p : ℕ) (ps qs : List ℕ) → Absent p (ps ++ qs) → Distinct (ps ++ qs) → Distinct (ps ++ (p ∷ qs))
Distinct-insert p [] qs h d = (h, d)
Distinct-insert p (x ∷ ps) qs h d =
    (Absent-insert x p ps qs (λ e. h.0 (sym e)) d.0, Distinct-insert p ps qs h.1 d.1)

-- A list with its middle taken out
Absent-remove : (a : ℕ) (ps ms qs : List ℕ) → Absent a (ps ++ (ms ++ qs)) → Absent a (ps ++ qs)
Absent-remove a [] ms qs h = Absent-right a ms qs h
Absent-remove a (x ∷ ps) ms qs h = (h.0, Absent-remove a ps ms qs h.1)

pub Distinct-remove :
    (ps ms qs : List ℕ)
    → Distinct (ps ++ (ms ++ qs))
    → Distinct (ps ++ qs) × Distinct ms × Apart ms (ps ++ qs)
Distinct-remove [] ms qs h = (Distinct-right ms qs h, Distinct-left ms qs h, Distinct-Apart ms qs h)
Distinct-remove (x ∷ ps) ms qs h =
    let (d, e, a) = Distinct-remove ps ms qs h.1 in
    let outside = Absent-left x ms qs (Absent-right x ps (ms ++ qs) h.0) in
    ((Absent-remove x ps ms qs h.0, d), e, Absent-Apart x ms (ps ++ qs) outside a)

-- A list with several put into the middle
Absent-insert_all :
    (a : ℕ) (ps ms qs : List ℕ) → Absent a ms → Absent a (ps ++ qs) → Absent a (ps ++ (ms ++ qs))
Absent-insert_all a [] ms qs h k = Absent-append a ms qs h k
Absent-insert_all a (x ∷ ps) ms qs h k = (k.0, Absent-insert_all a ps ms qs h k.1)

pub Distinct-insert_all :
    (ps ms qs : List ℕ)
    → Distinct (ps ++ qs)
    → Distinct ms
    → Apart ms (ps ++ qs)
    → Distinct (ps ++ (ms ++ qs))
Distinct-insert_all [] ms qs d e a = Distinct-append ms qs e d a
Distinct-insert_all (x ∷ ps) ms qs d e a =
    let other = Apart-sym ms (x ∷ ps ++ qs) a in
    (
      Absent-insert_all x ps ms qs other.0 d.0,
      Distinct-insert_all ps ms qs d.1 e (Apart-sym (ps ++ qs) ms other.1),
    )

Absent-middle : (a : ℕ) (ps ms qs : List ℕ) → Absent a (ps ++ (ms ++ qs)) → Absent a ms
Absent-middle a [] ms qs h = Absent-left a ms qs h
Absent-middle a (x ∷ ps) ms qs h = Absent-middle a ps ms qs h.1

pub Apart-remove :
    (xs ps ms qs : List ℕ) → Apart xs (ps ++ (ms ++ qs)) → Apart xs (ps ++ qs) × Apart xs ms
Apart-remove [] ps ms qs h = (tt, tt)
Apart-remove (x ∷ xs) ps ms qs h =
    let (l, r) = Apart-remove xs ps ms qs h.1 in
    ((Absent-remove x ps ms qs h.0, l), (Absent-middle x ps ms qs h.0, r))
