-- ===== src/LinkedList/Detach.antt =====
-- include/gpcl/list.hpp: nodes taken out of a ring, and put into one.
use gpcl.Base.{ℕ, ◌≡◌, List, [], ◌∷◌, ◌++◌}
use gpcl.Base.Addresses.{
  Absent, Apart, Distinct, Absent-append, Apart-sym, Apart-second, Apart-first, Distinct-remove,
  assign,
}
use gpcl.LinkedList.Trail.{
  Trail, last_of, first_of, Trail-link, Absent-front_of, Apart-last_of, Apart-first_of,
}
use gpcl.LinkedList.Link.{Ring, Ring-close, Ring-insert, Ring-parts, Ring-cut, Ring-Segment}

-- Links between nodes outside a ring leave it alone.
pub Ring-link :
    (n p : ℕ → ℕ) (s : ℕ) (ps : List ℕ) (x v y w : ℕ)
    → Absent x (s ∷ ps)
    → Absent y (s ∷ ps)
    → Ring n p s ps
    → Ring (assign n x v) (assign p y w) s ps
Ring-link n p s ps x v y w h k r =
    Trail-link n p x v y w s (ps ++ (s ∷ []))
      (Absent-front_of x s (ps ++ (s ∷ [])) (h.0, Absent-append x ps (s ∷ []) h.1 (h.0, tt)))
      (Absent-append y ps (s ∷ []) k.1 (k.0, tt)) r

-- Behind the link that closes the ring the nodes taken out are still linked to each other.
pub Ring-detach :
    (n p : ℕ → ℕ) (s : ℕ) (ps : List ℕ) (x : ℕ) (ms qs : List ℕ)
    → Distinct (s ∷ ps ++ (x ∷ ms ++ qs))
    → Ring n p s (ps ++ (x ∷ ms ++ qs))
    → Ring
        (assign n (last_of s ps) (first_of qs s))
        (assign p (first_of qs s) (last_of s ps))
        s
        (ps ++ qs)
      × Trail
          (assign n (last_of s ps) (first_of qs s))
          (assign p (first_of qs s) (last_of s ps))
          x
          ms
Ring-detach n p s ps x ms qs d r =
    let g = Ring-Segment n p s ps x ms qs r in
    let (d', e, a) = Distinct-remove (s ∷ ps) (x ∷ ms) qs d in
    let other = Apart-sym (x ∷ ms) (s ∷ ps ++ qs) a in
    let b_absent = Apart-last_of s ps (x ∷ ms) (Apart-first (s ∷ ps) qs (x ∷ ms) other) in
    let a_absent = Apart-first_of qs s (x ∷ ms) (other.0, Apart-second ps qs (x ∷ ms) other.1) in
    (
      Ring-close n p s ps qs d' (g.left, g.right),
      Trail-link n p (last_of s ps) (first_of qs s) (first_of qs s) (last_of s ps) x ms
          (Absent-front_of (last_of s ps) x ms b_absent) a_absent.1 g.middle,
    )

-- The pointers of the two links that put the nodes in front of a position
pub Ring-attach :
    (n p : ℕ → ℕ) (s : ℕ) (ps : List ℕ) (x : ℕ) (ms qs : List ℕ)
    → Distinct (s ∷ ps ++ qs)
    → Distinct (x ∷ ms)
    → Apart (x ∷ ms) (s ∷ ps ++ qs)
    → Ring n p s (ps ++ qs)
    → Trail n p x ms
    → (p (first_of qs s) ≡ last_of s ps)
      × Ring
          (assign (assign n (last_of x ms) (first_of qs s)) (last_of s ps) x)
          (assign (assign p x (last_of s ps)) (first_of qs s) (last_of x ms))
          s
          (ps ++ (x ∷ ms ++ qs))
Ring-attach n p s ps x ms qs d e a r k = (
  (Ring-cut n p s ps qs d r).1,
  Ring-insert n p s ps qs d x ms e a (Ring-parts n p s ps qs d r) k,
)
