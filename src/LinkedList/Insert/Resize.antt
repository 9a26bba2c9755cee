-- ===== src/LinkedList/Insert/Resize.antt =====
-- include/gpcl/list.hpp: `resize` with a value, and both `push`.
use gpcl.Base.{
  ℕ, zero, suc, ◌-◌, ◌^◌, ◌<◌, ◌≤◌, ◌≡◌, refl, sym, ap, subst, ◌∙◌, true, false, List, [], ◌∷◌,
  ◌++◌, ◌==◌, ltb, leb, length, length-append, length-replicate, replicate, take, drop, take-all,
  take-append-drop, length-take, length-drop, ltb→lt, append-nil, append_assoc, Bool-cases, inl,
  inr, arith,
}
use gpcl.LinkedList.Trail.{first_of}
use gpcl.LinkedList.Ring.{IsList, Holds-length}
use gpcl.LinkedList.Erase.Single.{pop_back-Erased, next_begin}
use gpcl.LinkedList.Insert.Emplace.{Emplaced, emplace-Emplaced}
use gpcl.LinkedList.Insert.Many.{Faulty, Inserted, insert_count-Inserted}
use gpcl.LinkedList.Insert.Rollback.{Erased-returned}
use gpcl.LinkedList.Insert.{push_front, push_back, insert_count, shrink_loop, check_size, resize}
use gpcl.LinkedList.{
  Memory, Outcome, returned, threw, undefined, and_then, mem, get_size, get_next, pop_back,
}

-- A list that is not empty ends with an element.
snoc :
    {B : Type 0} (n : ℕ) (bs : List B)
    → length bs ≡ suc n
    → (init : List B) × ((b : B) × (bs ≡ init ++ (b ∷ [])) × (length init ≡ n))
snoc n [] e = absurd (omega arith)
snoc zero (b ∷ []) e = ([], (b, refl, refl))
snoc zero (b ∷ c ∷ bs) e = absurd (omega arith)
snoc (suc n) (b ∷ bs) e =
    let (init, (c, q, l)) = snoc n bs (omega arith) in (b ∷ init, (c, ap (◌∷◌ b) q, ap suc l))

module _ {A : Type 0} where
  shrink_round :
      (fuel : ℕ) (m m' : Memory A) (this count p : ℕ)
      → leb (m.size this) count ≡ false
      → pop_back this m ≡ returned p m'
      → shrink_loop (suc fuel) this count m ≡ shrink_loop fuel this count m'
  unfolding shrink_loop get_size
  shrink_round fuel m m' this count p t q = rw (t, q) refl

  -- The loop pops the elements behind the first `count` ones.
  shrink_loop-IsList :
      (n fuel : ℕ) (m : Memory A) (this : ℕ) (ps qs : List ℕ) (xs ys : List A)
      → IsList m this (ps ++ qs) (xs ++ ys)
      → length ps ≡ length xs
      → length qs ≡ n
      → n < fuel
      → length (ps ++ qs) < 2 ^ 64
      → (m' : Memory A) × (shrink_loop fuel this (length ps) m ≡ returned tt m')
        × IsList m' this ps xs
  unfolding shrink_loop get_size
  shrink_loop-IsList n zero m this ps qs xs ys i e k f b = absurd (omega arith)
  shrink_loop-IsList zero (suc fuel) m this ps qs xs ys i e k f b =
      let h = Holds-length m.val (ps ++ qs) (xs ++ ys) i.values in
      let none : length ys ≡ 0 = omega (arith, length-append ps qs, length-append xs ys) in
      let small : leb (m.size this) (length ps) ≡ true =
        ground (arith, i.counted, length-append ps qs) in
      let i' = subst (λ l. IsList m this l (xs ++ ys)) (is_nil ps qs k) i in
      (m, rw small refl, subst (IsList m this ps) (is_nil xs ys none) i')
    where
      is_nil : {B : Type 0} (bs cs : List B) → length cs ≡ 0 → bs ++ cs ≡ bs
      is_nil bs [] e = append-nil bs
      is_nil bs (c ∷ cs) e = absurd (omega arith)
  shrink_loop-IsList (suc n) (suc fuel) m this ps qs xs ys i e k f b =
      let h = Holds-length m.val (ps ++ qs) (xs ++ ys) i.values in
      let (qs', (q, qe, ql)) = snoc n qs k in
      let (ys', (y, ye, yl)) =
        snoc n ys (omega (arith, length-append ps qs, length-append xs ys)) in
      let i' =
        subst (λ l. IsList m this l (xs ++ ys))
          (ap (λ l. ps ++ l) qe ∙ sym (append_assoc ps qs' (q ∷ []))) i in
      let i2 =
        subst (IsList m this ((ps ++ qs') ++ (q ∷ [])))
          (ap (λ l. xs ++ l) ye ∙ sym (append_assoc xs ys' (y ∷ []))) i' in
      let (m', r, l, j) =
        Erased-returned m this (ps ++ qs') (q ∷ []) [] (xs ++ ys') (pop_back this m) (
          pop_back-Erased m this (ps ++ qs') q (xs ++ ys') y i2
            (omega (arith, length-append ps qs', length-append xs ys'))) in
      let big : leb (m.size this) (length ps) ≡ false =
        ground (arith, i.counted, length-append ps qs) in
      let j' = subst (λ l. IsList m' this l (xs ++ ys')) (append-nil (ps ++ qs')) j in
      let (m2, s, done) =
        shrink_loop-IsList n fuel m' this ps qs' xs ys' j' e ql (omega arith)
          (omega (arith, length-append ps qs, length-append ps qs')) in
      (m2, shrink_round fuel m m' this (length ps) (first_of [] this) big r ∙ s, done)

  -- The list has `count` elements, or is as it was behind a call that has thrown.
  abbrev pub Refilled : Memory A → ℕ → List ℕ → List A → ℕ → A → Outcome A (Unit {0}) → Type 0
  Refilled m this ps xs count x (returned u m') =
      (qs : List ℕ) × IsList m' this qs (take count xs ++ replicate (count - length xs) x)
  Refilled m this ps xs count x (threw m') =
      Faulty m.faults × (m'.live ≡ m.live) × IsList m' this ps xs
  Refilled m this ps xs count x undefined = ⊥

  check_size_lem :
      (m : Memory A) (this count : ℕ)
      → m.size this ≡ count
      → check_size this count m ≡ returned tt m
  unfolding check_size
  check_size_lem m this count e =
      let same : (count == m.size this) ≡ true = ground (arith, e) in rw same refl

  -- The assert holds behind the insertion.
  grown-Refilled :
      (m : Memory A) (this : ℕ) (ps : List ℕ) (xs : List A) (count : ℕ) (x : A) (o : Outcome A ℕ)
      → length ps ≡ length xs
      → length ps < count
      → count < 2 ^ 64
      → Inserted m.live m.faults this ps [] xs (replicate (count - length xs) x) [] o
      → Refilled m this ps xs count x
          (and_then (and_then o (λ p. returned tt)) (λ u. check_size this count))
  grown-Refilled m this ps xs count x (returned p m') e b c (ns, q, l, i) =
      let h =
        Holds-length m'.val (ps ++ (ns ++ [])) (xs ++ (replicate (count - length xs) x ++ []))
          i.values in
      let full : m'.size this ≡ count =
        i.counted
        ∙ omega (
          arith,
          h,
          length-append xs (replicate (count - length xs) x ++ []),
          length-append (replicate (count - length xs) x) [],
          length-replicate (count - length xs) x,
        ) in
      rw (check_size_lem m' this count full, take-all count xs (omega arith))
        (
          ps ++ (ns ++ []),
          subst (λ vs. IsList m' this (ps ++ (ns ++ [])) (xs ++ vs))
              (append-nil (replicate (count - length xs) x)) i,
        )
  grown-Refilled m this ps xs count x (threw m') e b c (f, l, i) = (
    f,
    l,
    subst (λ ns. IsList m' this ns xs) (append-nil ps)
        (subst (IsList m' this (ps ++ [])) (append-nil xs) i),
  )
  grown-Refilled m this ps xs count x undefined e b c h = absurd h

module _ {A : Type 0} (place : List ℕ → ℕ) (fresh : (l : List ℕ) → mem (place l) l ≡ false) where
  -- `resize` with a value keeps the first elements, as many as fit, and fills up with copies of the
  -- value; its assert does not fail. If a call throws, the list is as it was, and no node is leaked.
  pub resize-Refilled :
      (m : Memory A) (this : ℕ) (ps : List ℕ) (xs : List A) (count : ℕ) (x : A)
      → IsList m this ps xs
      → length xs < 2 ^ 64
      → count < 2 ^ 64
      → Refilled m this ps xs count x (resize place this count x m)
  unfolding resize get_size
  resize-Refilled m this ps xs count x i b c =
      let h = Holds-length m.val ps xs i.values in
      let size : m.size this ≡ length xs = omega (arith, i.counted) in
      elim (Bool-cases (ltb (length xs) count)) [
        | inl t ↦
            let more = ltb→lt (length xs) count t in
            let i' =
              subst (λ ns. IsList m this ns (xs ++ [])) (sym (append-nil ps))
                (subst (IsList m this ps) (sym (append-nil xs)) i) in
            rw (size, t)
              (grown-Refilled m this ps xs count x
                (insert_count place this this (count - length xs) x m) h (omega arith) c
                (insert_count-Inserted place fresh m this ps [] xs [] (count - length xs) x i' h))
        | inr t ↦
            let less : count ≤ length xs = ground arith in
            let (m', q, j) =
              shrink_loop-IsList (length (drop count ps)) (suc (length xs - count)) m this
                (take count ps) (drop count ps) (take count xs) (drop count xs)
                (subst (λ ns. IsList m this ns (take count xs ++ drop count xs))
                  (sym (take-append-drop count ps))
                  (subst (IsList m this ps) (sym (take-append-drop count xs)) i))
                (omega (arith, length-take count ps, length-take count xs)) refl
                (omega (arith, length-drop count ps))
                (omega (
                  arith,
                  length-append (take count ps) (drop count ps),
                  length-take count ps,
                  length-drop count ps,
                )) in
            let here : length (take count ps) ≡ count = omega (arith, length-take count ps) in
            let q' =
              subst (λ k. shrink_loop (suc (length xs - count)) this k m ≡ returned tt m') here q in
            let full : m'.size this ≡ count = omega (arith, j.counted, here) in
            let none : count - length xs ≡ 0 = omega arith in
            rw (size, t, q', check_size_lem m' this count full)
              (
                take count ps,
                subst (λ k. IsList m' this (take count ps) (take count xs ++ replicate k x))
                    (sym none)
                    (subst (IsList m' this (take count ps)) (sym (append-nil (take count xs))) j),
              )
      ]

module _ {A : Type 0} (place : List ℕ → ℕ) (fresh : (l : List ℕ) → mem (place l) l ≡ false) where
  -- `push_front` inserts before the first element and `push_back` behind the last one.
  push_front-Emplaced :
      (m : Memory A) (this : ℕ) (ps : List ℕ) (xs : List A) (x : A)
      → IsList m this ps xs
      → Emplaced place fresh m this [] ps [] xs x (push_front place this x m)
        × Emplaced place fresh m this ps [] xs [] x (push_back place this x m)
  unfolding push_front push_back get_next
  push_front-Emplaced m this ps xs x i =
      let i' =
        subst (λ ns. IsList m this ns (xs ++ [])) (sym (append-nil ps))
          (subst (IsList m this ps) (sym (append-nil xs)) i) in
      (
        rw (i.alive.0, next_begin m this ps xs i)
            (emplace-Emplaced place fresh m this [] ps [] xs x i refl),
        emplace-Emplaced place fresh m this ps [] xs [] x i' (Holds-length m.val ps xs i.values),
      )
