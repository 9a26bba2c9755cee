-- ===== src/LinkedList/Splice/Empty.antt =====
-- include/gpcl/list.hpp: `splice` of a list that is empty, and `swap` with one.
use gpcl.Base.{
  ℕ, ◌%◌, ◌^◌, ◌≡◌, ◌≢◌, refl, sym, ap, subst, ◌∙◌, true, false, List, [], ◌∷◌, ◌++◌, ◌==◌, length,
  arith,
}
use gpcl.Base.Addresses.{Absent, Apart-sym, assign, assign_same, assign_other}
use gpcl.LinkedList.Trail.{last_of, first_of, Trail-right, Absent-last_of, Apart-first_of}
use gpcl.LinkedList.Link.{Ring, Ring-cut}
use gpcl.LinkedList.Detach.{Ring-link, Ring-attach}
use gpcl.LinkedList.Ring.{IsList, Alive, Alive-left, Alive-right, Alive-last_of, Alive-first_of}
use gpcl.LinkedList.Splice.Relink.{relinked, splice_range-relinked}
use gpcl.LinkedList.Splice.Other.{sized, move_size_lem, sized_this}
use gpcl.LinkedList.Splice.{splice_all, swap_nodes, swap_sizes, swap}
use gpcl.LinkedList.{Memory, returned, mem, get_next, get_prev, set_next, set_prev}

module _ {A : Type 0} (m : Memory A) (this other : ℕ) where
  -- `splice` of an empty list puts the past-the-end node of that list, which has no value, among the
  -- nodes of this one, whose size stays.
  pub splice_all-empty :
      (ps qs : List ℕ) (xs : List A)
      → IsList m this (ps ++ qs) xs
      → IsList m other [] []
      → Absent other (this ∷ ps ++ qs)
      → (m' : Memory A) × (splice_all this (first_of qs this) other m ≡ returned tt m')
        × Ring m'.next m'.prev this (ps ++ (other ∷ qs))
        × (m'.size this ≡ length (ps ++ qs) % 2 ^ 64)
  unfolding splice_all get_next
  splice_all-empty ps qs xs i j a =
      let n = assign m.next other other in
      let p = assign m.prev other other in
      let r = Ring-link m.next m.prev this (ps ++ qs) other other other other a a i.ring in
      let differ : this ≢ other = λ e. a.0 (sym e) in
      let (cut, done) = Ring-attach n p this ps other [] qs i.distinct (tt, tt) (a, tt) r tt in
      let lq = Alive-right m.live (this ∷ ps) qs i.alive in
      (
        relinked (sized m this other 0) other other other other (last_of this ps)
            (first_of qs this),
        rw (j.alive.0, j.ring.0)
            (splice_range-relinked m (sized m this other 0) this (first_of qs this) other other
              other other other (last_of this ps)
              (move_size_lem m this other other other [] differ refl tt tt) j.ring.1 j.ring.1 cut
              (
                j.alive.0,
                (
                  j.alive.0,
                  (
                    j.alive.0,
                    (
                      j.alive.0,
                      (
                        Alive-first_of m.live qs this (i.alive.0, lq),
                        (
                          Alive-last_of m.live this ps (Alive-left m.live (this ∷ ps) qs i.alive),
                          tt,
                        ),
                      ),
                    ),
                  ),
                ),
              )),
        done,
        sized_this m this other 0 (length (ps ++ qs)) differ i.counted
            ∙ ap (λ n. n % 2 ^ 64) (omega arith),
      )

  -- The memory behind `swap_nodes`, with the neighbours of the two nodes
  abbrev swapped : ℕ → ℕ → ℕ → ℕ → Memory A
  swapped b f ob of = record m {
    next = assign (assign (assign (assign m.next this of) b other) ob this) other f;
    prev = assign (assign (assign (assign m.prev this ob) f other) of this) other b;
  }

  swap_nodes_returned :
      this ≢ other
      → Alive m.live (this ∷ other ∷ m.prev this ∷ m.next this ∷ m.prev other ∷ m.next other ∷ [])
      → swap_nodes this other m
        ≡ returned tt (swapped (m.prev this) (m.next this) (m.prev other) (m.next other))
  unfolding swap_nodes get_next get_prev set_next set_prev
  swap_nodes_returned o (t, (u, (b, (f, (ob, (of, e)))))) =
      let differ : (this == other) ≡ false = ground arith in
      rw (differ, t, t, u, u, t, t, b, f, ob, of, u, u) refl

  -- `swap` of an empty list with another one, `x.swap(y)` for an empty `x`, links the two past-the-end
  -- nodes to each other, and loses the nodes of the other list.
  pub swap-empty :
      (qs : List ℕ) (ys : List A)
      → IsList m this [] []
      → IsList m other qs ys
      → Absent this (other ∷ qs)
      → (m' : Memory A) × (swap this other m ≡ returned tt m')
        × Ring m'.next m'.prev this (other ∷ [])
  unfolding swap swap_sizes
  swap-empty qs ys i j a =
      let cut = Ring-cut m.next m.prev other [] qs j.distinct j.ring in
      let end = Trail-right m.next m.prev other qs (other ∷ []) j.ring in
      let first = cut.0 in
      let last = end.1 in
      let differ = a.0 in
      let prev_this = i.ring.1 in
      let next_this = i.ring.0 in
      let first_live = Alive-first_of m.live qs other (j.alive.0, j.alive.1) in
      let last_live = Alive-last_of m.live other qs j.alive in
      let lives : Alive m.live
          (this ∷ other ∷ m.prev this ∷ m.next this ∷ m.prev other ∷ m.next other ∷ []) =
        (
          i.alive.0,
          (
            j.alive.0,
            (
              subst (λ q. mem q m.live ≡ true) (sym prev_this) i.alive.0,
              (
                subst (λ q. mem q m.live ≡ true) (sym next_this) i.alive.0,
                (
                  subst (λ q. mem q m.live ≡ true) (sym last) last_live,
                  (subst (λ q. mem q m.live ≡ true) (sym first) first_live, tt),
                ),
              ),
            ),
          ),
        ) in
      let other_last : this ≢ m.prev other = λ e. Absent-last_of this other qs a (e ∙ last) in
      let other_first : this ≢ m.next other = λ e.
        (Apart-first_of qs other (this ∷ []) (Apart-sym (this ∷ []) (other ∷ qs) (a, tt))).0
          (sym (e ∙ first)) in
      let b = m.prev this in
      let f = m.next this in
      let ob = m.prev other in
      let of = m.next other in
      let w = swapped b f ob of in
      let n = assign m.next this of in
      let p = assign m.prev this ob in
      let onward : w.next this ≡ other =
        assign_other (assign (assign n b other) ob this) other f this differ
        ∙ (assign_other (assign n b other) ob this this other_last
            ∙ (ap (λ b. assign n b other this) prev_this ∙ assign_same n this other)) in
      let back : w.prev this ≡ other =
        assign_other (assign (assign p f other) of this) other b this differ
        ∙ (assign_other (assign p f other) of this this other_first
            ∙ (ap (λ f. assign p f other this) next_this ∙ assign_same p this other)) in
      let onward' : w.next other ≡ this =
        assign_same (assign (assign n b other) ob this) other f ∙ next_this in
      let back' : w.prev other ≡ this =
        assign_same (assign (assign p f other) of this) other b ∙ prev_this in
      (
        record w { size = assign (assign w.size this (w.size other)) other (w.size this) },
        rw (swap_nodes_returned differ lives) refl,
        (onward, back', (onward', back, tt)),
      )
