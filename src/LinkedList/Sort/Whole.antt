-- ===== src/LinkedList/Sort/Whole.antt =====
-- include/gpcl/list.hpp: `sort` on a list.
use mathlib.Core.List.{Perm}
use gpcl.Base.{
  ℕ, zero, suc, ◌<◌, ◌≡◌, refl, sym, subst, ◌∙◌, Bool, true, false, List, [], ◌∷◌, ◌++◌, ◌==◌,
  length, length-append, append_assoc, arith,
}
use gpcl.Base.Addresses.{Distinct-right}
use gpcl.LinkedList.Trail.{first_of}
use gpcl.LinkedList.Ring.{IsList, Alive-right}
use gpcl.LinkedList.Erase.Whole.{length-Alive}
use gpcl.LinkedList.Erase.Single.{next_begin}
use gpcl.LinkedList.Splice.{sort_inner, sort_outer, sort}
use gpcl.LinkedList.Sort.{
  select, selected, selected-perm, IsSorted, Order, selected-IsSorted, length-select,
}
use gpcl.LinkedList.Sort.Loops.{IsList-At, IsList-length, Selects-node, sort_inner-Selects}
use gpcl.LinkedList.{Memory, Outcome, returned, mem, get_next}

module _ {A : Type 0} (less : A → A → Bool) (this : ℕ) where
  -- A list with the given values behind the nodes `hs`
  abbrev Leaves : List ℕ → List ℕ → List A → Outcome A (Unit {0}) → Type 0
  Leaves live hs xs o =
      (m' : Memory A) × (rs : List ℕ) × (o ≡ returned tt m')
      × (m'.live ≡ live)
      × IsList m' this (hs ++ rs) xs

  -- One round
  sort_outer_round :
      (fuel : ℕ) (m m' : Memory A) (i j i' a : ℕ)
      → (i == this) ≡ false
      → mem i m.live ≡ true
      → m.next i ≡ j
      → sort_inner less (suc (length m.live)) this i j m ≡ returned i' m'
      → mem i' m'.live ≡ true
      → m'.next i' ≡ a
      → sort_outer less (suc fuel) this i m ≡ sort_outer less fuel this a m'
  unfolding sort_outer get_next
  sort_outer_round fuel m m' i j i' a on h e q k f = rw (on, h, e, q, k, f) refl

  sort_outer-Leaves :
      (fuel n : ℕ) (m : Memory A) (hs ps : List ℕ) (xs vs : List A)
      → IsList m this (hs ++ ps) (xs ++ vs)
      → length hs ≡ length xs
      → length vs ≡ n
      → n < fuel
      → Leaves m.live hs (xs ++ selected less n vs) (sort_outer less fuel this (first_of ps this) m)
  unfolding sort_outer get_next
  sort_outer-Leaves zero n m hs ps xs vs l e k f = absurd (omega arith)
  sort_outer-Leaves (suc fuel) zero m hs ps xs (v ∷ vs) l e k f = absurd (omega arith)
  sort_outer-Leaves (suc fuel) (suc n) m hs ps xs [] l e k f = absurd (omega arith)
  sort_outer-Leaves (suc fuel) zero m hs (p ∷ ps) xs [] l e k f =
      absurd (omega (arith, IsList-length m this hs (p ∷ ps) xs [] l e))
  sort_outer-Leaves (suc fuel) (suc n) m hs [] xs (v ∷ vs) l e k f =
      absurd (omega (arith, IsList-length m this hs [] xs (v ∷ vs) l e))
  sort_outer-Leaves (suc fuel) zero m hs [] xs [] l e k f =
      let same : (this == this) ≡ true = ground arith in (m, [], rw same refl, refl, l)
  sort_outer-Leaves (suc fuel) (suc n) m hs (i ∷ ps) xs (x ∷ vs) l e k f =
      let at_i = IsList-At m this hs i ps xs x vs l e in
      let on : (i == this) ≡ false = ground (arith, at_i.inside) in
      let enough =
        length-Alive (i ∷ ps) m.live (Distinct-right (this ∷ hs) (i ∷ ps) l.distinct)
          (Alive-right m.live (this ∷ hs) (i ∷ ps) l.alive) in
      let (m', (i', (rs, q, same, moved))) =
        Selects-node this m.live hs xs (select less x [] vs)
          (sort_inner less (suc (length m.live)) this i (first_of ps this) m)
          (sort_inner-Selects less this (suc (length m.live)) m hs i [] ps xs x [] vs l e refl
            (omega arith)) in
      let least = (select less x [] vs).0 in
      let left = (select less x [] vs).1 in
      let at_i' = IsList-At m' this hs i' rs xs least left moved e in
      let moved' =
        subst (λ ns. IsList m' this ns (xs ++ (least ∷ left))) (sym (append_assoc hs (i' ∷ []) rs))
          moved in
      let ready =
        subst (IsList m' this ((hs ++ (i' ∷ [])) ++ rs)) (sym (append_assoc xs (least ∷ []) left))
          moved' in
      let (m2, ss, r, same', done) =
        sort_outer-Leaves fuel n m' (hs ++ (i' ∷ [])) rs (xs ++ (least ∷ [])) left ready
          (omega (arith, length-append hs (i' ∷ []), length-append xs (least ∷ [])))
          (omega (arith, length-select less x [] vs)) (omega arith) in
      let done' =
        subst (IsList m2 this ((hs ++ (i' ∷ [])) ++ ss))
          (append_assoc xs (least ∷ []) (selected less n left)) done in
      (
        m2,
        i' ∷ ss,
        sort_outer_round fuel m m' i (first_of ps this) i' (first_of rs this) on at_i.here
              at_i.onward q at_i'.here at_i'.onward
            ∙ r,
        same' ∙ same,
        subst (λ ns. IsList m2 this ns (xs ++ (least ∷ selected less n left)))
            (append_assoc hs (i' ∷ []) ss) done',
      )

  -- `sort` ends, makes and destroys no node, and leaves the list with the same values in ascending
  -- order.
  pub sort-IsSorted :
      (m : Memory A) (ps : List ℕ) (xs : List A)
      → Order less
      → IsList m this ps xs
      → (m' : Memory A) × ((qs : List ℕ) × ((ys : List A) × (sort less this m ≡ returned tt m')
            × (m'.live ≡ m.live)
            × IsList m' this qs ys
            × Perm xs ys
            × IsSorted less ys))
  unfolding sort get_next
  sort-IsSorted m ps xs order l =
      let enough = length-Alive ps m.live l.distinct.1 l.alive.1 in
      let same = IsList-length m this [] ps [] xs l refl in
      let (m', qs, q, live, done) =
        sort_outer-Leaves (suc (length m.live)) (length xs) m [] ps [] xs l refl refl
          (omega arith) in
      (
        m',
        (
          qs,
          (
            selected less (length xs) xs,
            rw (l.alive.0, next_begin m this ps xs l) q,
            live,
            done,
            selected-perm less (length xs) xs,
            selected-IsSorted less order (length xs) xs (omega arith),
          ),
        ),
      )
