-- ===== src/LinkedList/Insert/Emplace.antt =====
-- include/gpcl/list.hpp: `emplace` on a list, where no call throws and where one does.
use gpcl.Base.{
  ℕ, ◌+◌, ◌%◌, ◌^◌, ◌≡◌, ◌⊎◌, refl, sym, subst, ◌∙◌, Bool, true, false, List, [], ◌∷◌, ◌++◌, some,
  ◌==◌, length, length-append, Bool-cases, inl, inr, arith,
}
use gpcl.Base.Addresses.{Absent-left, Absent-right, Distinct-insert, assign, assign_same}
use gpcl.LinkedList.Trail.{first_of, before, after}
use gpcl.LinkedList.Link.{Ring-parts, Ring-cut, Ring-insert}
use gpcl.LinkedList.Ring.{
  IsList, Alive-append, Alive-left, Alive-right, Alive-last_of, Alive-first_of, Alive-cons,
  mem-Absent, without_absent, Holds-append, Holds-split, Holds-assign,
}
use gpcl.LinkedList.Insert.{create_node, emplace}
use gpcl.LinkedList.{
  Memory, Outcome, returned, threw, undefined, mem, throws, later, get_prev, set_next, set_prev,
  add_size, construct, deallocate,
}

module _ {A : Type 0} where
  -- The memory behind an `emplace` that did not throw: the node `p` holds `x`, between `b` and `pos`.
  abbrev pub inserted : Memory A → ℕ → ℕ → ℕ → ℕ → A → List Bool → Memory A
  inserted m this pos b p x faults = record {
    next = assign (assign m.next p pos) b p;
    prev = assign (assign m.prev p b) pos p;
    val = assign m.val p (some x);
    size = assign m.size this ((m.size this + 1) % 2 ^ 64);
    live = p ∷ m.live;
    faults = faults;
  }

module _ {A : Type 0} (place : List ℕ → ℕ) (fresh : (l : List ℕ) → mem (place l) l ≡ false) where
  emplace_returned :
      (m : Memory A) (this pos : ℕ) (x : A)
      → mem pos m.live ≡ true
      → mem (m.prev pos) m.live ≡ true
      → throws m.faults ≡ false
      → throws (later m.faults) ≡ false
      → emplace place this pos x m
        ≡ returned
            (place m.live)
            (inserted m this pos (m.prev pos) (place m.live) x (later (later m.faults)))
  unfolding emplace create_node get_prev set_next set_prev add_size construct deallocate
  emplace_returned m this pos x h k f g =
      let other =
        mem-Absent m.live (place m.live) (pos ∷ m.prev pos ∷ []) (fresh m.live) (h, (k, tt)) in
      let pos_other : (pos == place m.live) ≡ false = ground (arith, other.0) in
      let b_other : (m.prev pos == place m.live) ≡ false = ground (arith, other.1.0) in
      rw (h, f, g, pos_other, h, b_other, k, pos_other, h) refl

  -- A throw of the allocator or of the constructor changes nothing but the faults to come.
  emplace_threw :
      (m : Memory A) (this pos : ℕ) (x : A)
      → mem pos m.live ≡ true
      → (throws m.faults ≡ true) ⊎ ((throws m.faults ≡ false) × (throws (later m.faults) ≡ true))
      → (fs : List Bool) × (emplace place this pos x m ≡ threw (record m { faults = fs }))
  unfolding emplace create_node get_prev construct deallocate
  emplace_threw m this pos x h (inl f) = (later m.faults, rw (h, f) refl)
  emplace_threw m this pos x h (inr (f, g)) =
      let here : (place m.live == place m.live) ≡ true = ground arith in
      let gone = without_absent (place m.live) m.live (fresh m.live) in
      (later (later m.faults), rw (h, f, g, here, gone) refl)

  -- What `emplace` does to a list in front of the nodes `qs`, on every branch
  abbrev pub Emplaced : Memory A → ℕ → List ℕ → List ℕ → List A → List A → A → Outcome A ℕ → Type 0
  Emplaced m this ps qs xs ys x (returned p m') =
      (throws m.faults ≡ false)
      × (throws (later m.faults) ≡ false)
      × (mem p m.live ≡ false)
      × (m'.faults ≡ later (later m.faults))
      × (m'.live ≡ p ∷ m.live)
      × IsList m' this (ps ++ (p ∷ qs)) (xs ++ (x ∷ ys))
  Emplaced m this ps qs xs ys x (threw m') =
      ((throws m.faults ≡ true) ⊎ (throws (later m.faults) ≡ true))
      × ((fs : List Bool) × (m' ≡ record m { faults = fs }))
  Emplaced m this ps qs xs ys x undefined = ⊥

  module _ (m : Memory A) (this : ℕ) (ps qs : List ℕ) (xs ys : List A) where
    inserted-IsList :
        (p : ℕ) (x : A) (fs : List Bool) (i : IsList m this (ps ++ qs) (xs ++ ys))
        → length ps ≡ length xs
        → mem p m.live ≡ false
        → IsList
            (inserted m this (after this ps qs i.distinct) (before this ps qs i.distinct) p x fs)
            this
            (ps ++ (p ∷ qs))
            (xs ++ (x ∷ ys))
    inserted-IsList p x fs i e f =
        let absent = mem-Absent m.live p (this ∷ ps ++ qs) f i.alive in
        let (l, r) = Holds-split m.val ps qs xs ys e i.values in
        let grown = Alive-cons m.live p (this ∷ ps ++ qs) i.alive in
        let here : mem p (p ∷ m.live) ≡ true =
          let same : (p == p) ≡ true = ground arith in rw same refl in
        record {
          ring =
              Ring-insert m.next m.prev this ps qs i.distinct p [] (tt, tt) (absent, tt)
                (Ring-parts m.next m.prev this ps qs i.distinct i.ring) tt;
          distinct = Distinct-insert p (this ∷ ps) qs absent i.distinct;
          alive =
              Alive-append (p ∷ m.live) (this ∷ ps) (p ∷ qs)
                (Alive-left (p ∷ m.live) (this ∷ ps) qs grown)
                (here, Alive-right (p ∷ m.live) (this ∷ ps) qs grown);
          values =
              Holds-append (assign m.val p (some x)) ps (p ∷ qs) xs (x ∷ ys)
                (Holds-assign m.val p (some x) ps xs (Absent-left p ps qs absent.1) l)
                (
                  assign_same m.val p (some x),
                  Holds-assign m.val p (some x) qs ys (Absent-right p ps qs absent.1) r,
                );
          counted =
              assign_same m.size this ((m.size this + 1) % 2 ^ 64)
              ∙ omega (arith, i.counted, length-append ps qs, length-append ps (p ∷ qs));
        }

    -- In front of any position of a list `emplace` puts a new node with the value, and no other node
    -- or value of the list changes. If the allocator or the constructor throws, memory is as it was,
    -- down to the allocated nodes.
    pub emplace-Emplaced :
        (x : A)
        → IsList m this (ps ++ qs) (xs ++ ys)
        → length ps ≡ length xs
        → Emplaced m this ps qs xs ys x (emplace place this (first_of qs this) x m)
    emplace-Emplaced x i e =
        let cut = Ring-cut m.next m.prev this ps qs i.distinct i.ring in
        let h = Alive-first_of m.live qs this (i.alive.0, Alive-right m.live ps qs i.alive.1) in
        let k = Alive-last_of m.live this ps (i.alive.0, Alive-left m.live ps qs i.alive.1) in
        elim (Bool-cases (throws m.faults)) [
          | inl f ↦
              let (fs, t) = emplace_threw m this (first_of qs this) x h (inl f) in
              rw t (inl f, (fs, refl))
          | inr f ↦ elim (Bool-cases (throws (later m.faults))) [
            | inl g ↦
                let (fs, t) = emplace_threw m this (first_of qs this) x h (inr (f, g)) in
                rw t (inr g, (fs, refl))
            | inr g ↦
                let live_before = subst (λ b. mem b m.live ≡ true) (sym cut.1) k in
                rw (emplace_returned m this (first_of qs this) x h live_before f g) (
                  f,
                  g,
                  fresh m.live,
                  refl,
                  refl,
                  subst
                      (λ b.
                        IsList
                          (inserted m this (first_of qs this) b (place m.live) x
                            (later (later m.faults)))
                          this (ps ++ (place m.live ∷ qs)) (xs ++ (x ∷ ys)))
                      (sym cut.1)
                      (inserted-IsList (place m.live) x (later (later m.faults)) i e
                        (fresh m.live)),
                )
          ]
        ]
