-- ===== src/LinkedList/Splice/Same.antt =====
-- include/gpcl/list.hpp: `splice` within one list.
use gpcl.Base.{
  ℕ, suc, ◌%◌, ◌^◌, ◌≡◌, refl, ap, subst, ◌∙◌, true, List, ◌∷◌, ◌++◌, ◌==◌, length, length-append,
  arith,
}
use gpcl.Base.Addresses.{Apart, Distinct, Distinct-remove, Distinct-insert_all, assign}
use gpcl.LinkedList.Trail.{last_of, first_of}
use gpcl.LinkedList.Link.{Ring, Ring-Segment}
use gpcl.LinkedList.Detach.{Ring-detach, Ring-attach}
use gpcl.LinkedList.Ring.{
  IsList, Alive, Holds, Alive-append, Alive-left, Alive-right, Alive-last_of, Alive-first_of,
  Holds-append, Holds-split,
}
use gpcl.LinkedList.Splice.Relink.{relinked, splice_range-relinked}
use gpcl.LinkedList.Splice.{move_size, splice_range}
use gpcl.LinkedList.{Memory, returned}

module _ {A : Type 0} (m : Memory A) (this : ℕ) where
  -- Within one list `splice` moves the nodes of a range, with their values, to any position outside it.
  pub splice_same :
      (ps : List ℕ) (x : ℕ) (ms qs hs ts : List ℕ) (xs zs ys cs ds : List A)
      → IsList m this (ps ++ (x ∷ ms ++ qs)) (xs ++ (zs ++ ys))
      → length ps ≡ length xs
      → suc (length ms) ≡ length zs
      → ps ++ qs ≡ hs ++ ts
      → xs ++ ys ≡ cs ++ ds
      → length hs ≡ length cs
      → (m' : Memory A) × (splice_range this (first_of ts this) this x (first_of qs this) m
          ≡ returned tt m')
        × (m'.live ≡ m.live)
        × IsList m' this (hs ++ (x ∷ ms ++ ts)) (cs ++ (zs ++ ds))
  unfolding move_size
  splice_same ps x ms qs hs ts xs zs ys cs ds i e k p v f =
      let g = Ring-Segment m.next m.prev this ps x ms qs i.ring in
      let (d, u, a) = Distinct-remove (this ∷ ps) (x ∷ ms) qs i.distinct in
      let d' = subst (λ l. Distinct (this ∷ l)) p d in
      let a' = subst (λ l. Apart (x ∷ ms) (this ∷ l)) p a in
      let (r, inner) = Ring-detach m.next m.prev this ps x ms qs i.distinct i.ring in
      let b = last_of this ps in
      let last = first_of qs this in
      let r' = subst (Ring (assign m.next b last) (assign m.prev last b) this) p r in
      let (cut, done) =
        Ring-attach (assign m.next b last) (assign m.prev last b) this hs x ms ts d' u a' r'
          inner in
      let pos = first_of ts this in
      let (vp, vr) = Holds-split m.val ps (x ∷ ms ++ qs) xs (zs ++ ys) e i.values in
      let (vm, vq) = Holds-split m.val (x ∷ ms) qs zs ys k vr in
      let both =
        subst (λ l. Holds m.val l (cs ++ ds)) p
          (subst (Holds m.val (ps ++ qs)) v (Holds-append m.val ps qs xs ys vp vq)) in
      let (va, vb) = Holds-split m.val hs ts cs ds f both in
      let lp = Alive-left m.live (this ∷ ps) (x ∷ ms ++ qs) i.alive in
      let lr = Alive-right m.live (this ∷ ps) (x ∷ ms ++ qs) i.alive in
      let lq = Alive-right m.live (x ∷ ms) qs lr in
      let lm = Alive-left m.live (x ∷ ms) qs lr in
      let others = subst (Alive m.live) p (Alive-append m.live ps qs lp.1 lq) in
      let la = Alive-left m.live hs ts others in
      let lb = Alive-right m.live hs ts others in
      let same : (this == this) ≡ true = ground arith in
      let moves : move_size this this x last m ≡ returned tt m = rw same refl in
      (
        relinked m b last x (last_of x ms) (last_of this hs) pos,
        splice_range-relinked m m this pos this x last b (last_of x ms) (last_of this hs) moves
            g.enter g.back cut
            (
              lm.0,
              (
                Alive-first_of m.live qs this (lp.0, lq),
                (
                  Alive-last_of m.live this ps lp,
                  (
                    Alive-last_of m.live x ms lm,
                    (
                      Alive-first_of m.live ts this (lp.0, lb),
                      (Alive-last_of m.live this hs (lp.0, la), tt),
                    ),
                  ),
                ),
              ),
            ),
        refl,
        record {
          ring = done;
          distinct = Distinct-insert_all (this ∷ hs) (x ∷ ms) ts d' u a';
          alive = (
            lp.0,
            Alive-append m.live hs (x ∷ ms ++ ts) la (Alive-append m.live (x ∷ ms) ts lm lb),
          );
          values =
              Holds-append m.val hs (x ∷ ms ++ ts) cs (zs ++ ds) va
                (Holds-append m.val (x ∷ ms) ts zs ds vm vb);
          counted = i.counted ∙ ap (λ n. n % 2 ^ 64) (moved_length ps hs ms qs ts x p);
        },
      )
    where
      moved_length :
          (ps hs ms qs ts : List ℕ) (x : ℕ)
          → ps ++ qs ≡ hs ++ ts
          → length (ps ++ (x ∷ ms ++ qs)) ≡ length (hs ++ (x ∷ ms ++ ts))
      moved_length ps hs ms qs ts x p =
          let same : length (ps ++ qs) ≡ length (hs ++ ts) = ap (λ l. length l) p in
          omega (
            arith,
            length-append ps (x ∷ ms ++ qs),
            length-append hs (x ∷ ms ++ ts),
            length-append ms qs,
            length-append ms ts,
            length-append ps qs,
            length-append hs ts,
          )
