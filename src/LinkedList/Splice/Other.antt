-- ===== src/LinkedList/Splice/Other.antt =====
-- include/gpcl/list.hpp: `splice` from another list.
use gpcl.Base.{
  ℕ, zero, suc, ◌+◌, ◌-◌, ◌%◌, ◌^◌, ◌<◌, ◌≡◌, ◌≢◌, refl, ap, ◌∙◌, true, false, List, [], ◌∷◌, ◌++◌,
  ◌==◌, length, length-append, arith,
}
use gpcl.Base.Addresses.{
  Apart, Distinct, Apart-sym, Apart-first, Apart-second, Apart-remove, Distinct-remove,
  Distinct-insert_all, assign,
}
use gpcl.LinkedList.Trail.{last_of, first_of, Apart-last_of, Apart-first_of}
use gpcl.LinkedList.Link.{Ring, Ring-Segment}
use gpcl.LinkedList.Detach.{Ring-link, Ring-detach, Ring-attach}
use gpcl.LinkedList.Ring.{
  IsList, Alive, Alive-append, Alive-left, Alive-right, Alive-last_of, Alive-first_of, Holds-append,
  Holds-split,
}
use gpcl.LinkedList.Erase.{Leads, Ring-Range}
use gpcl.LinkedList.Erase.Whole.{length-Alive}
use gpcl.LinkedList.Splice.Relink.{relinked, splice_range-relinked}
use gpcl.LinkedList.Splice.{distance, move_size, splice_range}
use gpcl.LinkedList.{Memory, Outcome, returned, and_then, ◌>>◌, get_next, add_size, sub_size}

module _ {A : Type 0} where
  -- The distance is the number of nodes in between.
  distance_lem :
      (fuel : ℕ) (m : Memory A) (a z : ℕ) (qs : List ℕ)
      → length qs < fuel
      → Leads m.next a qs z
      → Alive m.live qs
      → distance fuel a z m ≡ returned (length qs) m
  unfolding distance get_next
  distance_lem zero m a z qs f l h = absurd (omega arith)
  distance_lem (suc fuel) m a z [] f l h =
      let here : (a == z) ≡ true = ground (arith, l) in rw here refl
  distance_lem (suc fuel) m a z (q ∷ qs) f l h =
      let on : (a == z) ≡ false = ground (arith, l.0, l.1) in
      rw (on, l.0, h.0, distance_lem fuel m (m.next q) z qs (omega arith) l.2 h.1) refl

  -- Memory with `n` elements fewer in the size of `other` and more in that of `this`
  abbrev pub sized : Memory A → ℕ → ℕ → ℕ → Memory A
  sized m this other n =
      let less = assign m.size other ((m.size other + (2 ^ 64 - n % 2 ^ 64)) % 2 ^ 64) in
      record m { size = assign less this ((less this + n) % 2 ^ 64) }

  -- Of different lists the sizes are moved.
  move_size_differ :
      (m : Memory A) (this other first last : ℕ) (o : Outcome A (Unit {0}))
      → (this == other) ≡ false
      → and_then
          (distance (suc (length m.live)) first last m)
          (λ n. sub_size other n >> add_size this n)
        ≡ o
      → move_size this other first last m ≡ o
  unfolding move_size
  move_size_differ m this other first last o differ h = rw differ h

  pub move_size_lem :
      (m : Memory A) (this other first last : ℕ) (qs : List ℕ)
      → this ≢ other
      → Leads m.next first qs last
      → Distinct qs
      → Alive m.live qs
      → move_size this other first last m ≡ returned tt (sized m this other (length qs))
  unfolding add_size sub_size
  move_size_lem m this other first last qs o l d h =
      let differ : (this == other) ≡ false = ground arith in
      let fuel = length-Alive qs m.live d h in
      move_size_differ m this other first last _ differ
        (rw (distance_lem (suc (length m.live)) m first last qs (omega arith) l h) refl)

  pub sized_this :
      (m : Memory A) (this other n k : ℕ)
      → this ≢ other
      → m.size this ≡ k % 2 ^ 64
      → (sized m this other n).size this ≡ (k + n) % 2 ^ 64
  sized_this m this other n k o h =
      let same : (this == this) ≡ true = ground arith in
      let differ : (this == other) ≡ false = ground arith in rw (same, differ, h) (omega arith)

  sized_other :
      (m : Memory A) (this other n k : ℕ)
      → this ≢ other
      → m.size other ≡ (k + n) % 2 ^ 64
      → (sized m this other n).size other ≡ k % 2 ^ 64
  sized_other m this other n k o h =
      let same : (other == other) ≡ true = ground arith in
      let differ : (other == this) ≡ false = ground arith in rw (differ, same, h) (omega arith)

-- `splice` moves the nodes `x ∷ ms` of another list, with their values, to a position of this one.
module _ {A : Type 0} (m : Memory A) (this other : ℕ) (ps qs hs : List ℕ) (x : ℕ)
    (ms ts : List ℕ) where
  -- The pointers of both lists behind the six writes
  spliced_rings :
      Ring m.next m.prev this (ps ++ qs)
      → Ring m.next m.prev other (hs ++ (x ∷ ms ++ ts))
      → Distinct (this ∷ ps ++ qs)
      → Distinct (other ∷ hs ++ (x ∷ ms ++ ts))
      → Apart (this ∷ ps ++ qs) (other ∷ hs ++ (x ∷ ms ++ ts))
      → let b = last_of other hs in
        let last = first_of ts other in
        let z = last_of x ms in
        let c = last_of this ps in
        let pos = first_of qs this in
        let n = assign m.next b last in
        let p = assign m.prev last b in
        (p pos ≡ c)
        × Ring
            (assign (assign n z pos) c x)
            (assign (assign p x c) pos z)
            this
            (ps ++ (x ∷ ms ++ qs))
        × Ring (assign (assign n z pos) c x) (assign (assign p x c) pos z) other (hs ++ ts)
  spliced_rings r s d e a =
      let (rest, moved) = Apart-remove (this ∷ ps ++ qs) (other ∷ hs) (x ∷ ms) ts a in
      let (e', u, o) = Distinct-remove (other ∷ hs) (x ∷ ms) ts e in
      let back = Apart-sym (this ∷ ps ++ qs) (other ∷ hs ++ ts) rest in
      let (left, inner) = Ring-detach m.next m.prev other hs x ms ts e s in
      let b = last_of other hs in
      let last = first_of ts other in
      let z = last_of x ms in
      let c = last_of this ps in
      let pos = first_of qs this in
      let n = assign m.next b last in
      let p = assign m.prev last b in
      let r' =
        Ring-link m.next m.prev this (ps ++ qs) b last last b
          (Apart-last_of other hs (this ∷ ps ++ qs)
            (Apart-first (other ∷ hs) ts (this ∷ ps ++ qs) back))
          (Apart-first_of ts other (this ∷ ps ++ qs)
            (back.0, Apart-second hs ts (this ∷ ps ++ qs) back.1))
          r in
      let (cut, done) =
        Ring-attach n p this ps x ms qs d u (Apart-sym (this ∷ ps ++ qs) (x ∷ ms) moved) r' inner in
      (
        cut,
        done,
        Ring-link (assign n z pos) (assign p x c) other (hs ++ ts) c x pos z
            (Apart-last_of this ps (other ∷ hs ++ ts)
              (Apart-first (this ∷ ps) qs (other ∷ hs ++ ts) rest))
            (Apart-first_of qs this (other ∷ hs ++ ts)
              (rest.0, Apart-second ps qs (other ∷ hs ++ ts) rest.1))
            (Ring-link n p other (hs ++ ts) z pos x c (Apart-last_of x ms (other ∷ hs ++ ts) o) o.0
              left),
      )

  -- From another list `splice` moves the nodes of a range that is not empty, with their values, to any
  -- position of this one; the other list keeps its other elements, and both sizes are right. No node is
  -- made or destroyed.
  pub splice_other :
      (xs ys us zs ws : List A)
      → IsList m this (ps ++ qs) (xs ++ ys)
      → IsList m other (hs ++ (x ∷ ms ++ ts)) (us ++ (zs ++ ws))
      → Apart (this ∷ ps ++ qs) (other ∷ hs ++ (x ∷ ms ++ ts))
      → length ps ≡ length xs
      → length hs ≡ length us
      → suc (length ms) ≡ length zs
      → (m' : Memory A) × (splice_range this (first_of qs this) other x (first_of ts other) m
          ≡ returned tt m')
        × (m'.live ≡ m.live)
        × IsList m' this (ps ++ (x ∷ ms ++ qs)) (xs ++ (zs ++ ys))
        × IsList m' other (hs ++ ts) (us ++ ws)
  splice_other xs ys us zs ws i j a e f k =
      let (cut, done, left) = spliced_rings i.ring j.ring i.distinct j.distinct a in
      let g = Ring-Segment m.next m.prev other hs x ms ts j.ring in
      let range = Ring-Range m.next m.prev other hs (x ∷ ms) ts j.distinct j.ring in
      let (rest, moved) = Apart-remove (this ∷ ps ++ qs) (other ∷ hs) (x ∷ ms) ts a in
      let (d, u, o) = Distinct-remove (other ∷ hs) (x ∷ ms) ts j.distinct in
      let n = suc (length ms) in
      let (vp, vq) = Holds-split m.val ps qs xs ys e i.values in
      let (vh, vr) = Holds-split m.val hs (x ∷ ms ++ ts) us (zs ++ ws) f j.values in
      let (vm, vt) = Holds-split m.val (x ∷ ms) ts zs ws k vr in
      let lp = Alive-left m.live (this ∷ ps) qs i.alive in
      let lq = Alive-right m.live (this ∷ ps) qs i.alive in
      let lh = Alive-left m.live (other ∷ hs) (x ∷ ms ++ ts) j.alive in
      let lr = Alive-right m.live (other ∷ hs) (x ∷ ms ++ ts) j.alive in
      let lm = Alive-left m.live (x ∷ ms) ts lr in
      let lt = Alive-right m.live (x ∷ ms) ts lr in
      (
        relinked (sized m this other n) (last_of other hs) (first_of ts other) x (last_of x ms)
            (last_of this ps) (first_of qs this),
        splice_range-relinked m (sized m this other n) this (first_of qs this) other x
            (first_of ts other) (last_of other hs) (last_of x ms) (last_of this ps)
            (move_size_lem m this other x (first_of ts other) (x ∷ ms) a.0.0 range.leads u lm)
            g.enter g.back cut
            (
              lm.0,
              (
                Alive-first_of m.live ts other (lh.0, lt),
                (
                  Alive-last_of m.live other hs lh,
                  (
                    Alive-last_of m.live x ms lm,
                    (
                      Alive-first_of m.live qs this (lp.0, lq),
                      (Alive-last_of m.live this ps lp, tt),
                    ),
                  ),
                ),
              ),
            ),
        refl,
        record {
          ring = done;
          distinct =
              Distinct-insert_all (this ∷ ps) (x ∷ ms) qs i.distinct u
                (Apart-sym (this ∷ ps ++ qs) (x ∷ ms) moved);
          alive =
              Alive-append m.live (this ∷ ps) (x ∷ ms ++ qs) lp
                (Alive-append m.live (x ∷ ms) qs lm lq);
          values =
              Holds-append m.val ps (x ∷ ms ++ qs) xs (zs ++ ys) vp
                (Holds-append m.val (x ∷ ms) qs zs ys vm vq);
          counted =
              sized_this m this other n (length (ps ++ qs)) a.0.0 i.counted
              ∙ ap (λ n. n % 2 ^ 64)
                  (omega (
                    arith,
                    length-append ps qs,
                    length-append ps (x ∷ ms ++ qs),
                    length-append ms qs,
                  ));
        },
        record {
          ring = left;
          distinct = d;
          alive = Alive-append m.live (other ∷ hs) ts lh lt;
          values = Holds-append m.val hs ts us ws vh vt;
          counted = sized_other m this other n (length (hs ++ ts)) a.0.0 (
              j.counted
              ∙ ap (λ n. n % 2 ^ 64)
                  (omega (
                    arith,
                    length-append hs ts,
                    length-append hs (x ∷ ms ++ ts),
                    length-append ms ts,
                  )));
        },
      )
