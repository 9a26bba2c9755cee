-- ===== src/LinkedList/Assign/Overlay.antt =====
-- include/gpcl/list.hpp: a list whose first values have been assigned.
use gpcl.Base.{
  ℕ, ◌≤◌, ◌≡◌, refl, sym, ap, subst, ◌∙◌, List, [], ◌∷◌, ◌++◌, Bool, Option, some, length,
  length-append, append-nil, arith,
}
use gpcl.Base.Addresses.{Absent, Apart, Distinct, assign, assign_same, assign_other}
use gpcl.LinkedList.Link.{Ring}
use gpcl.LinkedList.Trail.{first_of}
use gpcl.LinkedList.Ring.{IsList, Holds, Holds-assign}
use gpcl.LinkedList.Erase.{Leads, Ring-Range}
use gpcl.LinkedList.Assign.Overwrite.{overwritten}
use gpcl.LinkedList.{Memory}

module _ {A : Type 0} where
  -- The second list with the first written over its beginning
  abbrev pub overlay : List A → List A → List A
  overlay [] xs = xs
  overlay (y ∷ ys) [] = y ∷ ys
  overlay (y ∷ ys) (x ∷ xs) = y ∷ overlay ys xs

  pub overlay_whole : (ys xs zs : List A) → length ys ≡ length xs → overlay ys (xs ++ zs) ≡ ys ++ zs
  overlay_whole [] [] zs e = refl
  overlay_whole [] (x ∷ xs) zs e = absurd (omega arith)
  overlay_whole (y ∷ ys) [] zs e = absurd (omega arith)
  overlay_whole (y ∷ ys) (x ∷ xs) zs e = ap (◌∷◌ y) (overlay_whole ys xs zs (omega arith))

  overwritten_other :
      (val : ℕ → Option A) (a : ℕ) (ps : List ℕ) (ys : List A)
      → Absent a ps
      → overwritten val ps ys a ≡ val a
  overwritten_other val a [] ys f = refl
  overwritten_other val a (p ∷ ps) [] f = refl
  overwritten_other val a (p ∷ ps) (y ∷ ys) f =
      overwritten_other (assign val p (some y)) a ps ys f.1 ∙ assign_other val p (some y) a f.0

  overwritten-append :
      (val : ℕ → Option A) (ps qs : List ℕ) (ys : List A)
      → length ys ≤ length ps
      → overwritten val (ps ++ qs) ys ≡ overwritten val ps ys
  overwritten-append val [] [] ys f = refl
  overwritten-append val [] (q ∷ qs) [] f = refl
  overwritten-append val [] (q ∷ qs) (y ∷ ys) f = absurd (omega arith)
  overwritten-append val (p ∷ ps) qs [] f = refl
  overwritten-append val (p ∷ ps) qs (y ∷ ys) f =
      overwritten-append (assign val p (some y)) ps qs ys (omega arith)

  Holds-overwritten :
      (val : ℕ → Option A) (ps : List ℕ) (xs ys : List A)
      → length ys ≤ length ps
      → Distinct ps
      → Holds val ps xs
      → Holds (overwritten val ps ys) ps (overlay ys xs)
  Holds-overwritten val [] [] [] f d h = tt
  Holds-overwritten val [] [] (y ∷ ys) f d h = absurd (omega arith)
  Holds-overwritten val [] (x ∷ xs) ys f d h = absurd h
  Holds-overwritten val (p ∷ ps) [] ys f d h = absurd h
  Holds-overwritten val (p ∷ ps) (x ∷ xs) [] f d h = h
  Holds-overwritten val (p ∷ ps) (x ∷ xs) (y ∷ ys) f d h = (
    overwritten_other (assign val p (some y)) p ps ys d.0 ∙ assign_same val p (some y),
    Holds-overwritten (assign val p (some y)) ps xs ys (omega arith) d.1
        (Holds-assign val p (some y) ps xs d.0 h.1),
  )

  -- Other values keep a range of nodes that are not assigned.
  pub Holds-overwritten_other :
      (val : ℕ → Option A) (ps qs : List ℕ) (ys zs : List A)
      → Apart ps qs
      → Holds val qs zs
      → Holds (overwritten val ps ys) qs zs
  Holds-overwritten_other val [] qs ys zs a h = h
  Holds-overwritten_other val (p ∷ ps) qs [] zs a h = h
  Holds-overwritten_other val (p ∷ ps) qs (y ∷ ys) zs a h =
      Holds-overwritten_other (assign val p (some y)) ps qs ys zs a.1
        (Holds-assign val p (some y) qs zs a.0 h)

  abbrev pub over : Memory A → List ℕ → List A → List Bool → Memory A
  over m ps ys fs = record m { val = overwritten m.val ps ys; faults = fs }

  -- A list stays one when the first of its objects are assigned.
  pub overwritten-IsList :
      (m : Memory A) (this : ℕ) (ps qs : List ℕ) (xs ys : List A) (fs : List Bool)
      → length ys ≤ length ps
      → IsList m this (ps ++ qs) xs
      → IsList (over m ps ys fs) this (ps ++ qs) (overlay ys xs)
  overwritten-IsList m this ps qs xs ys fs f i = record {
    ring = i.ring;
    distinct = i.distinct;
    alive = i.alive;
    values =
        subst (λ v. Holds v (ps ++ qs) (overlay ys xs)) (overwritten-append m.val ps qs ys f)
          (Holds-overwritten m.val (ps ++ qs) xs ys (omega (arith, length-append ps qs))
            i.distinct.1 i.values);
    counted = i.counted;
  }

-- The way from a node of a ring to its end
pub Ring-Leads :
    (n p : ℕ → ℕ) (s : ℕ) (ps qs : List ℕ)
    → Distinct (s ∷ ps ++ qs)
    → Ring n p s (ps ++ qs)
    → Leads n (first_of qs s) qs s
Ring-Leads n p s ps qs d r =
    subst (λ l. Leads n (first_of l s) qs s) (append-nil qs)
      (Ring-Range n p s ps qs [] (subst (λ l. Distinct (s ∷ ps ++ l)) (sym (append-nil qs)) d)
        (subst (λ l. Ring n p s (ps ++ l)) (sym (append-nil qs)) r)).leads
