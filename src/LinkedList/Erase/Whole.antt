-- ===== src/LinkedList/Erase/Whole.antt =====
-- include/gpcl/list.hpp: both `erase` and `clear` on a list.
use gpcl.Base.{
  ℕ, suc, ◌%◌, ◌^◌, ◌<◌, ◌≤◌, ◌≡◌, refl, sym, ap, subst, ◌∙◌, true, List, [], ◌∷◌, ◌++◌, ◌==◌,
  if◌then◌else◌, length, length-append, Bool-cases, inl, inr, arith,
}
use gpcl.Base.Addresses.{Distinct, Apart-right, Distinct-remove, assign}
use gpcl.LinkedList.Trail.{last_of, first_of}
use gpcl.LinkedList.Link.{Ring-close}
use gpcl.LinkedList.Ring.{
  IsList, Alive, Alive-append, Alive-left, Alive-right, Alive-last_of, Alive-first_of,
  Alive-without, Holds-append, Holds-split,
}
use gpcl.LinkedList.Erase.{
  freed, without_each, Holds-Full, Full, Leads, erase_loop_lem, freed_next, freed_prev, freed_live,
  Alive-freed, Holds-freed, freed_size, Ring-Range,
}
use gpcl.LinkedList.{
  Memory, Outcome, returned, threw, undefined, mem, without, get_prev, set_next, set_prev,
  erase_range,
}

length-without : (q : ℕ) (live : List ℕ) → length (without q live) ≤ length live
length-without q [] = omega arith
length-without q (r ∷ live) = elim (Bool-cases (q == r)) [
  | inl t ↦ rw t (omega (arith, length-without q live))
  | inr t ↦ rw t (omega (arith, length-without q live))
]

without_lt : (q : ℕ) (live : List ℕ) → mem q live ≡ true → length (without q live) < length live
without_lt q [] h = absurd (ground arith)
without_lt q (r ∷ live) h = elim (Bool-cases (q == r)) [
  | inl t ↦ rw t (omega (arith, length-without q live))
  | inr t ↦
      let h' : mem q live ≡ true = subst (λ b. (if b then true else mem q live) ≡ true) t h in
      rw t (omega (arith, without_lt q live h'))
]

-- Different nodes that are live are no more than the live ones.
pub length-Alive : (qs live : List ℕ) → Distinct qs → Alive live qs → length qs ≤ length live
length-Alive [] live d h = omega arith
length-Alive (q ∷ qs) live d h = omega (
  arith,
  without_lt q live h.0,
  length-Alive qs (without q live) d.1 (Alive-without q live qs d.0 h.1),
)

module _ {A : Type 0} where
  abbrev pub erased : Memory A → ℕ → List ℕ → ℕ → ℕ → Memory A
  erased m this ms b a = record {
    next = assign m.next b a;
    prev = assign m.prev a b;
    val = (freed m this ms).val;
    size = (freed m this ms).size;
    live = (freed m this ms).live;
    faults = (freed m this ms).faults;
  }

  erase_range_returned :
      (m : Memory A) (this first last : ℕ) (ms : List ℕ)
      → Leads m.next first ms last
      → Distinct ms
      → Alive m.live ms
      → Full m.val ms
      → mem first m.live ≡ true
      → mem (m.prev first) (freed m this ms).live ≡ true
      → mem last (freed m this ms).live ≡ true
      → erase_range this first last m ≡ returned last (erased m this ms (m.prev first) last)
  unfolding erase_range get_prev set_next set_prev
  erase_range_returned m this first last ms l d h v f b a =
      let fuel = length-Alive ms m.live d h in
      rw
        (
          f,
          erase_loop_lem (suc (length m.live)) m this first last ms (omega arith) l d h v,
          b,
          a,
          freed_next m this ms,
          freed_prev m this ms,
        )
        refl

  -- The nodes of the range are no longer live, and the list has the others.
  abbrev pub Erased : Memory A → ℕ → List ℕ → List ℕ → List ℕ → List A → Outcome A ℕ → Type 0
  Erased m this ps ms qs xs (returned p m') =
      (p ≡ first_of qs this) × (m'.live ≡ without_each ms m.live) × IsList m' this (ps ++ qs) xs
  Erased m this ps ms qs xs (threw m') = ⊥
  Erased m this ps ms qs xs undefined = ⊥

  module _ (m : Memory A) (this : ℕ) (ps ms qs : List ℕ) (xs zs ys : List A) where
    pub erased-IsList :
        IsList m this (ps ++ (ms ++ qs)) (xs ++ (zs ++ ys))
        → length ps ≡ length xs
        → length ms ≡ length zs
        → IsList (erased m this ms (last_of this ps) (first_of qs this)) this (ps ++ qs) (xs ++ ys)
    erased-IsList i e k =
        let r = Ring-Range m.next m.prev this ps ms qs i.distinct i.ring in
        let (d, u, a) = Distinct-remove (this ∷ ps) ms qs i.distinct in
        let (vl, vr) = Holds-split m.val ps (ms ++ qs) xs (zs ++ ys) e i.values in
        let (vm, vq) = Holds-split m.val ms qs zs ys k vr in
        let al = Alive-left m.live (this ∷ ps) (ms ++ qs) i.alive in
        let ar = Alive-right m.live (this ∷ ps) (ms ++ qs) i.alive in
        let stays = Alive-append m.live (this ∷ ps) qs al (Alive-right m.live ms qs ar) in
        record {
          ring = Ring-close m.next m.prev this ps qs d (r.left, r.right);
          distinct = d;
          alive = Alive-freed m this ms (this ∷ ps ++ qs) a stays;
          values =
              Holds-freed m this ms (ps ++ qs) (xs ++ ys) (Apart-right ms (this ∷ []) (ps ++ qs) a)
                (Holds-append m.val ps qs xs ys vl vq);
          counted = freed_size m this (length (ps ++ qs)) ms (
              i.counted
              ∙ ap (λ n. n % 2 ^ 64)
                  (omega (
                    arith,
                    length-append ps qs,
                    length-append ps (ms ++ qs),
                    length-append ms qs,
                  )));
        }

    -- Erasing a range, which may be empty, frees its nodes and no other; the list keeps the others, and
    -- the iterator returned is the end of the range.
    pub erase_range-Erased :
        IsList m this (ps ++ (ms ++ qs)) (xs ++ (zs ++ ys))
        → length ps ≡ length xs
        → length ms ≡ length zs
        → Erased m this ps ms qs
            (xs ++ ys)
            (erase_range this (first_of (ms ++ qs) this) (first_of qs this) m)
    erase_range-Erased i e k =
        let r = Ring-Range m.next m.prev this ps ms qs i.distinct i.ring in
        let (d, u, a) = Distinct-remove (this ∷ ps) ms qs i.distinct in
        let (vl, vr) = Holds-split m.val ps (ms ++ qs) xs (zs ++ ys) e i.values in
        let (vm, vq) = Holds-split m.val ms qs zs ys k vr in
        let after = erased-IsList i e k in
        let b_live =
          Alive-last_of (freed m this ms).live this ps
            (Alive-left (freed m this ms).live (this ∷ ps) qs after.alive) in
        let a_live =
          Alive-first_of (freed m this ms).live qs this
            (after.alive.0, Alive-right (freed m this ms).live ps qs after.alive.1) in
        let ar = Alive-right m.live (this ∷ ps) (ms ++ qs) i.alive in
        let f_live = Alive-first_of m.live (ms ++ qs) this (i.alive.0, ar) in
        rw
          (erase_range_returned m this (first_of (ms ++ qs) this) (first_of qs this) ms r.leads u
            (Alive-left m.live ms qs ar) (Holds-Full m.val ms zs vm) f_live
            (subst (λ b. mem b (freed m this ms).live ≡ true) (sym r.enter) b_live) a_live)
          (
            refl,
            freed_live m this ms,
            subst (λ b. IsList (erased m this ms b (first_of qs this)) this (ps ++ qs) (xs ++ ys))
                (sym r.enter) after,
          )
