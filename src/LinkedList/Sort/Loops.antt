-- ===== src/LinkedList/Sort/Loops.antt =====
-- include/gpcl/list.hpp: the loops of `sort` on the nodes of a list.
use gpcl.Base.{
  ℕ, zero, suc, ◌<◌, ◌≡◌, ◌≢◌, refl, sym, ap, subst, Bool, true, false, List, [], ◌∷◌, ◌++◌, some,
  ◌==◌, length, length-append, append_assoc, append-nil, Bool-cases, inl, inr, arith,
}
use gpcl.Base.Addresses.{Absent-right}
use gpcl.LinkedList.Trail.{first_of}
use gpcl.LinkedList.Link.{Ring-Segment}
use gpcl.LinkedList.Ring.{IsList, Alive-right, Holds-split, Holds-length}
use gpcl.LinkedList.Splice.Same.{splice_same}
use gpcl.LinkedList.Splice.{splice_range, splice_one, sort_inner}
use gpcl.LinkedList.Sort.{select}
use gpcl.LinkedList.{Memory, Outcome, returned, threw, undefined, mem, get_next, get_val}

module _ {A : Type 0} where
  get_val_lem :
      (m : Memory A) (p : ℕ) (x : A)
      → mem p m.live ≡ true
      → m.val p ≡ some x
      → get_val p m ≡ returned x m
  unfolding get_val
  get_val_lem m p x h e = rw (get_val, h, e) refl

  -- A node of a list, between the nodes `hs` and `ts`, with what memory has for it
  pub record At (m : Memory A) (this : ℕ) (hs : List ℕ) (q : ℕ) (ts : List ℕ) (x : A) : Type 0 where
    pub here : mem q m.live ≡ true
    pub onward : m.next q ≡ first_of ts this
    pub value : m.val q ≡ some x
    pub inside : q ≢ this

  pub IsList-At :
      (m : Memory A) (this : ℕ) (hs : List ℕ) (q : ℕ) (ts : List ℕ) (xs : List A) (x : A)
      (ys : List A)
      → IsList m this (hs ++ (q ∷ ts)) (xs ++ (x ∷ ys))
      → length hs ≡ length xs
      → At m this hs q ts x
  IsList-At m this hs q ts xs x ys i e = record {
    here = (Alive-right m.live (this ∷ hs) (q ∷ ts) i.alive).0;
    onward = (Ring-Segment m.next m.prev this hs q [] ts i.ring).leave;
    value = (Holds-split m.val hs (q ∷ ts) xs (x ∷ ys) e i.values).1.0;
    inside = λ c. (Absent-right this hs (q ∷ ts) i.distinct.0).0 (sym c);
  }

  splice_one_lem :
      (m : Memory A) (this i j a : ℕ)
      → mem j m.live ≡ true
      → m.next j ≡ a
      → splice_one this i this j m ≡ splice_range this i this j a m
  unfolding splice_one get_next
  splice_one_lem m this i j a h e = rw (h, e) refl

  -- The lists of nodes and values behind equal pieces are equally long.
  pub IsList-length :
      (m : Memory A) (this : ℕ) (ps qs : List ℕ) (xs ys : List A)
      → IsList m this (ps ++ qs) (xs ++ ys)
      → length ps ≡ length xs
      → length qs ≡ length ys
  IsList-length m this ps qs xs ys i e =
      Holds-length m.val qs ys (Holds-split m.val ps qs xs ys e i.values).1

module _ {A : Type 0} (this : ℕ) where
  -- The node `i'` holds the value selected, behind the nodes `hs`.
  abbrev pub Selects : List ℕ → List ℕ → List A → A × List A → Outcome A ℕ → Type 0
  Selects live hs xs r (returned i' m') =
      (rs : List ℕ) × (m'.live ≡ live) × IsList m' this (hs ++ (i' ∷ rs)) (xs ++ (r.0 ∷ r.1))
  Selects live hs xs r (threw m') = ⊥
  Selects live hs xs r undefined = ⊥

  pub Selects-node :
      (live hs : List ℕ) (xs : List A) (r : A × List A) (o : Outcome A ℕ)
      → Selects live hs xs r o
      → (m' : Memory A) × ((i' : ℕ) × ((rs : List ℕ) × (o ≡ returned i' m')
            × (m'.live ≡ live)
            × IsList m' this (hs ++ (i' ∷ rs)) (xs ++ (r.0 ∷ r.1))))
  Selects-node live hs xs r (returned i' m') (rs, l, i) = (m', (i', (rs, refl, l, i)))
  Selects-node live hs xs r (threw m') h = absurd h
  Selects-node live hs xs r undefined h = absurd h

module _ {A : Type 0} (less : A → A → Bool) (this : ℕ) where
  -- The inner loop selects a value, and the node that holds it.
  pub sort_inner-Selects :
      (fuel : ℕ) (m : Memory A) (hs : List ℕ) (i : ℕ) (ms js : List ℕ) (xs : List A) (x : A)
      (vs ys : List A)
      → IsList m this (hs ++ (i ∷ ms ++ js)) (xs ++ (x ∷ vs ++ ys))
      → length hs ≡ length xs
      → length ms ≡ length vs
      → length js < fuel
      → Selects this m.live hs xs
          (select less x vs ys)
          (sort_inner less fuel this i (first_of js this) m)
  unfolding sort_inner get_next
  sort_inner-Selects zero m hs i ms js xs x vs ys l e k f = absurd (omega arith)
  sort_inner-Selects (suc fuel) m hs i ms [] xs x vs (y ∷ ys) l e k f =
      let h = IsList-length m this hs (i ∷ ms ++ []) xs (x ∷ vs ++ (y ∷ ys)) l e in
      absurd (omega (arith, length-append ms [], length-append vs (y ∷ ys)))
  sort_inner-Selects (suc fuel) m hs i ms (j ∷ js) xs x vs [] l e k f =
      let h = IsList-length m this hs (i ∷ ms ++ (j ∷ js)) xs (x ∷ vs ++ []) l e in
      absurd (omega (arith, length-append ms (j ∷ js), length-append vs []))
  sort_inner-Selects (suc fuel) m hs i ms [] xs x vs [] l e k f =
      let same : (this == this) ≡ true = ground arith in
      let l' =
        subst (λ ns. IsList m this (hs ++ (i ∷ ns)) (xs ++ (x ∷ vs ++ []))) (append-nil ms) l in
      let l'' = subst (λ ws. IsList m this (hs ++ (i ∷ ms)) (xs ++ (x ∷ ws))) (append-nil vs) l' in
      rw same (ms, refl, l'')
  sort_inner-Selects (suc fuel) m hs i ms (j ∷ js) xs x vs (y ∷ ys) l e k f =
      let at_i = IsList-At m this hs i (ms ++ (j ∷ js)) xs x (vs ++ (y ∷ ys)) l e in
      let whole =
        subst (λ ns. IsList m this ns (xs ++ (x ∷ vs ++ (y ∷ ys))))
          (sym (append_assoc hs (i ∷ ms) (j ∷ js))) l in
      let l' =
        subst (IsList m this ((hs ++ (i ∷ ms)) ++ (j ∷ js)))
          (sym (append_assoc xs (x ∷ vs) (y ∷ ys))) whole in
      let e' : length (hs ++ (i ∷ ms)) ≡ length (xs ++ (x ∷ vs)) =
        omega (arith, length-append hs (i ∷ ms), length-append xs (x ∷ vs)) in
      let at_j = IsList-At m this (hs ++ (i ∷ ms)) j js (xs ++ (x ∷ vs)) y ys l' e' in
      let on : (j == this) ≡ false = ground (arith, at_j.inside) in
      elim (Bool-cases (less y x)) [
        | inl t ↦
            let (m', q, same, moved) =
              splice_same m this (hs ++ (i ∷ ms)) j [] js hs (i ∷ ms ++ js) (xs ++ (x ∷ vs))
                (y ∷ []) ys xs (x ∷ vs ++ ys) l' e' refl (append_assoc hs (i ∷ ms) js)
                (append_assoc xs (x ∷ vs) ys) e in
            let done =
              sort_inner-Selects fuel m' hs j (i ∷ ms) js xs y (x ∷ vs) ys moved e (ap suc k)
                (omega arith) in
            rw
              (
                on,
                get_val_lem m j y at_j.here at_j.value,
                get_val_lem m i x at_i.here at_i.value,
                at_j.here,
                at_j.onward,
                t,
                splice_one_lem m this i j (first_of js this) at_j.here at_j.onward,
                q,
              )
              (subst
                (λ live.
                  Selects this live hs xs (select less y (x ∷ vs) ys)
                    (sort_inner less fuel this j (first_of js this) m'))
                same done)
        | inr t ↦
            let shifted =
              subst (λ ns. IsList m this (hs ++ (i ∷ ns)) (xs ++ (x ∷ vs ++ (y ∷ ys))))
                (sym (append_assoc ms (j ∷ []) js)) l in
            let shifted' =
              subst (λ ws. IsList m this (hs ++ (i ∷ (ms ++ (j ∷ [])) ++ js)) (xs ++ (x ∷ ws)))
                (sym (append_assoc vs (y ∷ []) ys)) shifted in
            rw
              (
                on,
                get_val_lem m j y at_j.here at_j.value,
                get_val_lem m i x at_i.here at_i.value,
                at_j.here,
                at_j.onward,
                t,
              )
              (sort_inner-Selects fuel m hs i (ms ++ (j ∷ [])) js xs x (vs ++ (y ∷ [])) ys shifted'
                e (omega (arith, length-append ms (j ∷ []), length-append vs (y ∷ [])))
                (omega arith))
      ]
