-- ===== src/LinkedList/Link.antt =====
-- include/gpcl/list.hpp: the pointer writes that close a ring and that put nodes into one.
use gpcl.Base.{ℕ, ◌≡◌, refl, sym, subst, ◌∙◌, List, [], ◌∷◌, ◌++◌, append_assoc}
use gpcl.Base.Addresses.{
  Absent, Apart, Distinct, Absent-left, Absent-right, Apart-first, Apart-second, Apart-sym, assign,
  assign_same, assign_other,
}
use gpcl.LinkedList.Trail.{
  Trail, last_of, front_of, first_of, rest_of, first_of-rest_of, front_of-rest_of, Trail-append,
  Trail-left, Trail-right, Trail-link, Absent-front_of, last_of-front_of, Apart-last_of,
  Apart-first_of, Absent-rest_of, Absent-last_of, before, after, before-Absent, before-Absent_right,
  after-Absent_left, after-Absent,
}

-- The ring of the past-the-end node `s` and the nodes `ps`
abbrev pub Ring : (ℕ → ℕ) → (ℕ → ℕ) → ℕ → List ℕ → Type 0
Ring n p s ps = Trail n p s (ps ++ (s ∷ []))

-- The two parts of a ring between which something is put
module _ (n p : ℕ → ℕ) (s : ℕ) (ps qs : List ℕ) (d : Distinct (s ∷ ps ++ qs)) where
  abbrev pub Parts : Type 0
  Parts = Trail n p s ps × Trail n p (after s ps qs d) (rest_of qs s)

  pub Ring-parts : Ring n p s (ps ++ qs) → Parts
  Ring-parts r =
      let whole = subst (Trail n p s) (append_assoc ps qs (s ∷ [])) r in
      let right = Trail-right n p s ps (qs ++ (s ∷ [])) whole in
      let shown = subst (Trail n p (last_of s ps)) (first_of-rest_of qs s) right in
      (Trail-left n p s ps (qs ++ (s ∷ [])) whole, shown.2)

  -- What the ring says of the two nodes at the cut
  pub Ring-cut :
      Ring n p s (ps ++ qs)
      → (n (before s ps qs d) ≡ after s ps qs d) × (p (after s ps qs d) ≡ before s ps qs d)
  Ring-cut r =
      let whole = subst (Trail n p s) (append_assoc ps qs (s ∷ [])) r in
      let right = Trail-right n p s ps (qs ++ (s ∷ [])) whole in
      let shown = subst (Trail n p (last_of s ps)) (first_of-rest_of qs s) right in
      (shown.0, shown.1)

  joined :
      Trail n p s ps
      → Trail n p (before s ps qs d) (after s ps qs d ∷ rest_of qs s)
      → Ring n p s (ps ++ qs)
  joined l r =
      let right = subst (Trail n p (last_of s ps)) (sym (first_of-rest_of qs s)) r in
      subst (Trail n p s) (sym (append_assoc ps qs (s ∷ [])))
        (Trail-append n p s ps (qs ++ (s ∷ [])) l right)

module _ (n p : ℕ → ℕ) (s : ℕ) (ps qs : List ℕ) (d : Distinct (s ∷ ps ++ qs)) where
  abbrev l : ℕ
  l = before s ps qs d

  abbrev f : ℕ
  f = after s ps qs d

  parts_link :
      (x v y w : ℕ)
      → Absent x (front_of s ps)
      → Absent x qs
      → Absent y ps
      → Absent y (rest_of qs s)
      → Parts n p s ps qs d
      → Parts (assign n x v) (assign p y w) s ps qs d
  parts_link x v y w h k i j c = (
    Trail-link n p x v y w s ps h i c.0,
    Trail-link n p x v y w f (rest_of qs s) (subst (Absent x) (sym (front_of-rest_of qs s)) k) j
        c.1,
  )

-- The link between the two parts closes the ring.
pub Ring-close :
    (n p : ℕ → ℕ) (s : ℕ) (ps qs : List ℕ) (d : Distinct (s ∷ ps ++ qs))
    → Parts n p s ps qs d
    → Ring
        (assign n (before s ps qs d) (after s ps qs d))
        (assign p (after s ps qs d) (before s ps qs d))
        s
        (ps ++ qs)
Ring-close n p s ps qs d c =
    let b = before s ps qs d in
    let a = after s ps qs d in
    let linked =
      parts_link n p s ps qs d b a a b (before-Absent s ps qs d) (before-Absent_right s ps qs d)
        (after-Absent_left s ps qs d) (after-Absent s ps qs d) c in
    joined (assign n b a) (assign p a b) s ps qs d linked.0
      (assign_same n b a, assign_same p a b, linked.1)

-- The two links at the ends of the path from `x` put it between the parts.
pub Ring-insert :
    (n p : ℕ → ℕ) (s : ℕ) (ps qs : List ℕ) (d : Distinct (s ∷ ps ++ qs)) (x : ℕ) (xs : List ℕ)
    → Distinct (x ∷ xs)
    → Apart (x ∷ xs) (s ∷ ps ++ qs)
    → Parts n p s ps qs d
    → Trail n p x xs
    → Ring
        (assign (assign n (last_of x xs) (after s ps qs d)) (before s ps qs d) x)
        (assign (assign p x (before s ps qs d)) (after s ps qs d) (last_of x xs))
        s
        (ps ++ (x ∷ xs ++ qs))
Ring-insert n p s ps qs d x xs e t c k =
    let b = before s ps qs d in
    let a = after s ps qs d in
    let z = last_of x xs in
    let z_absent = Apart-last_of x xs (s ∷ ps ++ qs) t in
    let other = Apart-sym (x ∷ xs) (s ∷ ps ++ qs) t in
    let b_absent : Absent b (x ∷ xs) =
      Apart-last_of s ps (x ∷ xs) (Apart-first (s ∷ ps) qs _ other) in
    let a_absent : Absent a (x ∷ xs) =
      Apart-first_of qs s (x ∷ xs) (other.0, Apart-second ps qs _ other.1) in
    let n' = assign n z a in
    let p' = assign p x b in
    let ends =
      parts_link n p s ps qs d z a x b
        (Absent-front_of z s ps (z_absent.0, Absent-left z ps qs z_absent.1))
        (Absent-right z ps qs z_absent.1) (Absent-left x ps qs t.0.1)
        (Absent-rest_of x qs s (t.0.0, Absent-right x ps qs t.0.1)) c in
    let both =
      parts_link n' p' s ps qs d b x a z (before-Absent s ps qs d) (before-Absent_right s ps qs d)
        (after-Absent_left s ps qs d) (after-Absent s ps qs d) ends in
    let inner =
      Trail-link n' p' b x a z x xs (Absent-front_of b x xs b_absent) a_absent.1
        (Trail-link n p z a x b x xs (last_of-front_of x xs e) e.0 k) in
    let right : Trail (assign n' b x) (assign p' a z) z (a ∷ rest_of qs s) = (
      assign_other n' b x z (λ q. Absent-last_of b x xs b_absent (sym q)) ∙ assign_same n z a,
      assign_same p' a z,
      both.1,
    ) in
    let middle : Trail (assign n' b x) (assign p' a z) b (x ∷ xs ++ (a ∷ rest_of qs s)) = (
      assign_same n' b x,
      assign_other p' a z x (λ q. a_absent.0 (sym q)) ∙ assign_same p x b,
      Trail-append (assign n' b x) (assign p' a z) x xs (a ∷ rest_of qs s) inner right,
    ) in
    let whole =
      Trail-append (assign n' b x) (assign p' a z) s ps (x ∷ xs ++ (a ∷ rest_of qs s)) both.0
        middle in
    subst (Trail (assign n' b x) (assign p' a z) s) (rejoined ps xs qs x s) whole
  where
    rejoined :
        (ps xs qs : List ℕ) (x s : ℕ)
        → ps ++ (x ∷ xs ++ (first_of qs s ∷ rest_of qs s)) ≡ (ps ++ (x ∷ xs ++ qs)) ++ (s ∷ [])
    rejoined ps xs qs x s =
        rw
          (
            sym (first_of-rest_of qs s),
            append_assoc ps (x ∷ xs ++ qs) (s ∷ []),
            append_assoc xs qs (s ∷ []),
          )
          refl

-- The nodes `x ∷ xs` of a ring: the paths around and inside, and the pointers at the two ends
pub record Segment (n p : ℕ → ℕ) (s : ℕ) (ps : List ℕ) (x : ℕ) (xs qs : List ℕ) : Type 0 where
  pub left : Trail n p s ps
  pub middle : Trail n p x xs
  pub right : Trail n p (first_of qs s) (rest_of qs s)
  pub enter : p x ≡ last_of s ps
  pub leave : n (last_of x xs) ≡ first_of qs s
  pub back : p (first_of qs s) ≡ last_of x xs

pub Ring-Segment :
    (n p : ℕ → ℕ) (s : ℕ) (ps : List ℕ) (x : ℕ) (xs qs : List ℕ)
    → Ring n p s (ps ++ (x ∷ xs ++ qs))
    → Segment n p s ps x xs qs
Ring-Segment n p s ps x xs qs r =
    let whole = subst (Trail n p s) (append_assoc ps (x ∷ xs ++ qs) (s ∷ [])) r in
    let onward = Trail-right n p s ps (x ∷ xs ++ qs ++ (s ∷ [])) whole in
    let inside = subst (Trail n p x) (append_assoc xs qs (s ∷ [])) onward.2 in
    let behind =
      subst (Trail n p (last_of x xs)) (first_of-rest_of qs s)
        (Trail-right n p x xs (qs ++ (s ∷ [])) inside) in
    record {
      left = Trail-left n p s ps (x ∷ xs ++ qs ++ (s ∷ [])) whole;
      middle = Trail-left n p x xs (qs ++ (s ∷ [])) inside;
      right = behind.2;
      enter = onward.1;
      leave = behind.0;
      back = behind.1;
    }
