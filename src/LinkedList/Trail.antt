-- ===== src/LinkedList/Trail.antt =====
-- include/gpcl/list.hpp: what the pointers between nodes have to be, and how links change them.
use gpcl.Base.{ℕ, ◌≡◌, ◌≢◌, refl, sym, ap, ◌∙◌, List, [], ◌∷◌, ◌++◌}
use gpcl.Base.Addresses.{
  Absent, Apart, Distinct, Absent-append, Absent-left, Absent-right, Distinct-left, Distinct-right,
  Distinct-Apart, Apart-sym, assign, assign_other,
}

-- From the node `a` the pointers lead through the nodes that follow, and back.
abbrev pub Trail : (ℕ → ℕ) → (ℕ → ℕ) → ℕ → List ℕ → Type 0
Trail n p a [] = Unit
Trail n p a (b ∷ bs) = (n a ≡ b) × (p b ≡ a) × Trail n p b bs

abbrev pub last_of : ℕ → List ℕ → ℕ
last_of a [] = a
last_of a (b ∷ bs) = last_of b bs

-- The nodes of a path whose `next_` it uses
abbrev pub front_of : ℕ → List ℕ → List ℕ
front_of a [] = []
front_of a (b ∷ bs) = a ∷ front_of b bs

-- The node at a position in front of `ps`, where `s` is the past-the-end node, and what follows it
abbrev pub first_of : List ℕ → ℕ → ℕ
first_of [] s = s
first_of (p ∷ ps) s = p

abbrev pub rest_of : List ℕ → ℕ → List ℕ
rest_of [] s = []
rest_of (p ∷ ps) s = ps ++ (s ∷ [])

pub first_of-rest_of : (ps : List ℕ) (s : ℕ) → ps ++ (s ∷ []) ≡ first_of ps s ∷ rest_of ps s
first_of-rest_of [] s = refl
first_of-rest_of (p ∷ ps) s = refl

last_of-append :
    (a : ℕ) (ps : List ℕ) (b : ℕ) (bs : List ℕ) → last_of a (ps ++ (b ∷ bs)) ≡ last_of b bs
last_of-append a [] b bs = refl
last_of-append a (p ∷ ps) b bs = last_of-append p ps b bs

front_of-append : (a : ℕ) (ps : List ℕ) (s : ℕ) → front_of a (ps ++ (s ∷ [])) ≡ a ∷ ps
front_of-append a [] s = refl
front_of-append a (p ∷ ps) s = ap (◌∷◌ a) (front_of-append p ps s)

pub front_of-rest_of : (ps : List ℕ) (s : ℕ) → front_of (first_of ps s) (rest_of ps s) ≡ ps
front_of-rest_of [] s = refl
front_of-rest_of (p ∷ ps) s = front_of-append p ps s

module _ (n p : ℕ → ℕ) where
  pub Trail-append :
      (a : ℕ) (ps qs : List ℕ)
      → Trail n p a ps
      → Trail n p (last_of a ps) qs
      → Trail n p a (ps ++ qs)
  Trail-append a [] qs h k = k
  Trail-append a (b ∷ bs) qs h k = (h.0, h.1, Trail-append b bs qs h.2 k)

  pub Trail-left : (a : ℕ) (ps qs : List ℕ) → Trail n p a (ps ++ qs) → Trail n p a ps
  Trail-left a [] qs h = tt
  Trail-left a (b ∷ bs) qs h = (h.0, h.1, Trail-left b bs qs h.2)

  pub Trail-right : (a : ℕ) (ps qs : List ℕ) → Trail n p a (ps ++ qs) → Trail n p (last_of a ps) qs
  Trail-right a [] qs h = h
  Trail-right a (b ∷ bs) qs h = Trail-right b bs qs h.2

  Trail-assign_next :
      (x v a : ℕ) (ps : List ℕ)
      → Absent x (front_of a ps)
      → Trail n p a ps
      → Trail (assign n x v) p a ps
  Trail-assign_next x v a [] h k = tt
  Trail-assign_next x v a (b ∷ bs) h k =
      (assign_other n x v a (λ e. h.0 (sym e)) ∙ k.0, k.1, Trail-assign_next x v b bs h.1 k.2)

  Trail-assign_prev :
      (x v a : ℕ) (ps : List ℕ) → Absent x ps → Trail n p a ps → Trail n (assign p x v) a ps
  Trail-assign_prev x v a [] h k = tt
  Trail-assign_prev x v a (b ∷ bs) h k =
      (k.0, assign_other p x v b (λ e. h.0 (sym e)) ∙ k.1, Trail-assign_prev x v b bs h.1 k.2)

-- A link made between two nodes outside a path
pub Trail-link :
    (n p : ℕ → ℕ) (x v y w a : ℕ) (ps : List ℕ)
    → Absent x (front_of a ps)
    → Absent y ps
    → Trail n p a ps
    → Trail (assign n x v) (assign p y w) a ps
Trail-link n p x v y w a ps h k c =
    Trail-assign_prev (assign n x v) p y w a ps k (Trail-assign_next n p x v a ps h c)

pub Absent-front_of : (x a : ℕ) (ps : List ℕ) → Absent x (a ∷ ps) → Absent x (front_of a ps)
Absent-front_of x a [] h = tt
Absent-front_of x a (b ∷ bs) h = (h.0, Absent-front_of x b bs h.1)

pub Absent-last_of : (x a : ℕ) (ps : List ℕ) → Absent x (a ∷ ps) → x ≢ last_of a ps
Absent-last_of x a [] h = h.0
Absent-last_of x a (b ∷ bs) h = Absent-last_of x b bs h.1

-- The last node of a path without repetition is not one that leads on.
pub last_of-front_of :
    (a : ℕ) (ps : List ℕ) → Distinct (a ∷ ps) → Absent (last_of a ps) (front_of a ps)
last_of-front_of a [] h = tt
last_of-front_of a (b ∷ bs) h = (λ e. Absent-last_of a b bs h.0 (sym e), last_of-front_of b bs h.1)

pub Apart-last_of : (a : ℕ) (ps ys : List ℕ) → Apart (a ∷ ps) ys → Absent (last_of a ps) ys
Apart-last_of a [] ys h = h.0
Apart-last_of a (b ∷ bs) ys h = Apart-last_of b bs ys h.1

pub Apart-first_of :
    (ps : List ℕ) (s : ℕ) (ys : List ℕ) → Apart (s ∷ ps) ys → Absent (first_of ps s) ys
Apart-first_of [] s ys h = h.0
Apart-first_of (p ∷ ps) s ys h = h.1.0

pub Absent-rest_of : (x : ℕ) (ps : List ℕ) (s : ℕ) → Absent x (s ∷ ps) → Absent x (rest_of ps s)
Absent-rest_of x [] s h = tt
Absent-rest_of x (p ∷ ps) s h = Absent-append x ps (s ∷ []) h.1.1 (h.0, tt)

first_of-Absent : (ps : List ℕ) (s : ℕ) → Distinct (s ∷ ps) → Absent (first_of ps s) (rest_of ps s)
first_of-Absent [] s h = tt
first_of-Absent (p ∷ ps) s h = Absent-append p ps (s ∷ []) h.1.0 (λ e. h.0.0 (sym e), tt)

-- A ring of different nodes, cut into what precedes a position and what follows it
module _ (s : ℕ) (ps qs : List ℕ) (d : Distinct (s ∷ ps ++ qs)) where
  abbrev pub before : ℕ
  before = last_of s ps

  abbrev pub after : ℕ
  after = first_of qs s

  Distinct-both : Distinct (s ∷ ps) × Distinct (s ∷ qs)
  Distinct-both = (
    (Absent-left s ps qs d.0, Distinct-left ps qs d.1),
    (Absent-right s ps qs d.0, Distinct-right ps qs d.1),
  )

  pub before-Absent : Absent before (front_of s ps)
  before-Absent = last_of-front_of s ps Distinct-both.0

  pub before-Absent_right : Absent before qs
  before-Absent_right = Apart-last_of s ps qs (Absent-right s ps qs d.0, Distinct-Apart ps qs d.1)

  pub after-Absent_left : Absent after ps
  after-Absent_left =
      Apart-first_of qs s ps (Absent-left s ps qs d.0, Apart-sym ps qs (Distinct-Apart ps qs d.1))

  pub after-Absent : Absent after (rest_of qs s)
  after-Absent = first_of-Absent qs s Distinct-both.1
