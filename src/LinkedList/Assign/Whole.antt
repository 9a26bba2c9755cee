-- ===== src/LinkedList/Assign/Whole.antt =====
-- include/gpcl/list.hpp: the copy assignment as a whole.
use gpcl.Base.{
  ℕ, suc, ◌^◌, ◌<◌, ◌≤◌, ◌≡◌, sym, ap, subst, ◌∙◌, Bool, false, List, [], ◌++◌, ltb, ◌==◌, take,
  drop, length, length-append, length-take, take-append-drop, append-nil, Bool-cases, inl, inr,
  arith,
}
use gpcl.Base.Addresses.{Apart, Apart-first, Apart-left, Apart-right, Distinct-left}
use gpcl.LinkedList.Trail.{first_of}
use gpcl.LinkedList.Ring.{IsList, Alive-left, Holds, Holds-split, Holds-length}
use gpcl.LinkedList.Erase.Whole.{Erased, erase_range-Erased, length-Alive}
use gpcl.LinkedList.Insert.{insert_range}
use gpcl.LinkedList.Insert.Many.{Faulty, insert_range-Inserted}
use gpcl.LinkedList.Assign.Overwrite.{overwrite_loop-Overwritten, Torn, Torn-append}
use gpcl.LinkedList.Assign.Overlay.{overlay, over, overlay_whole, overwritten-IsList}
use gpcl.LinkedList.Assign.{overwrite, insert_nodes, copy_longer, copy_shorter, copy_assign}
use gpcl.LinkedList.{Memory, mem, get_next, get_size, erase_range}
use gpcl.LinkedList.Assign.Steps.{
  Goes-first, Goes-second, same, Copied, after_loop, Copied-Inserted, Copied-Erased, ways,
  read-over,
}

module _ {A : Type 0} (torn : A → A → A) where
  module _ (place : List ℕ → ℕ) (fresh : (l : List ℕ) → mem (place l) l ≡ false) where
    insert_nodes-Copied :
        (m : Memory A) (this other : ℕ) (ps qs rs : List ℕ) (xs ys zs : List A) (fs : List Bool)
        → IsList m this (ps ++ []) xs
        → IsList m other (qs ++ rs) (ys ++ zs)
        → length qs ≡ length ys
        → length xs ≡ length ys
        → Apart ps rs
        → (Faulty fs → Faulty m.faults)
        → Copied torn m this ps xs
            (ys ++ zs)
            (insert_nodes place this this (first_of rs other) other (over m ps ys fs))
    unfolding insert_nodes
    insert_nodes-Copied m this other ps qs rs xs ys zs fs i j k e a f =
        let n : length (ps ++ []) ≡ length xs = Holds-length m.val (ps ++ []) xs i.values in
        let whole = overlay_whole ys xs [] (omega arith) in
        let values : overlay ys xs ≡ ys ++ [] = ap (overlay ys) (sym (append-nil xs)) ∙ whole in
        let l : length ps ≡ length ys = omega (arith, length-append ps []) in
        rw (read-over m this other ps qs rs ys ys zs fs j k a) (
          Copied-Inserted torn m this ps xs ys zs fs
            (insert_range place this this zs (over m ps ys fs)) (omega arith) f
            (insert_range-Inserted place fresh (over m ps ys fs) this ps [] ys [] zs
              (subst (IsList (over m ps ys fs) this (ps ++ [])) values
                (overwritten-IsList m this ps [] xs ys fs (omega arith) i))
              l))

    longer-Copied :
        (m : Memory A) (this other : ℕ) (ps qs rs : List ℕ) (xs ys zs : List A)
        → IsList m this (ps ++ []) xs
        → IsList m other (qs ++ rs) (ys ++ zs)
        → length ps ≡ length qs
        → length qs ≡ length ys
        → Apart ps (qs ++ rs)
        → Copied torn m this (ps ++ []) xs (ys ++ zs) (copy_longer place torn this other m)
    unfolding copy_longer get_next overwrite
    longer-Copied m this other ps qs rs xs ys zs i j e k a =
        let n : length (ps ++ []) ≡ length xs = Holds-length m.val (ps ++ []) xs i.values in
        let alive = Alive-left m.live ps [] i.alive.1 in
        let distinct = Distinct-left ps [] i.distinct.1 in
        let (to, rest) = ways m this ps [] xs i in
        let (from, other_rest) = ways m other qs rs (ys ++ zs) j in
        let values = subst (λ l. Holds m.val l xs) (append-nil ps) i.values in
        rw (i.alive.0, j.alive.0)
          (after_loop torn m this this (first_of rs other) ps [] xs xs ys zs
            (overwrite torn (λ a b. a == this) (m.next this) (m.next other) m)
            (λ ends. insert_nodes place this this ends.1 other) i (e ∙ k)
            (λ vs t.
              subst (λ l. Torn torn l (ys ++ zs) vs) (append-nil xs)
                (Torn-append torn xs ys vs [] zs t))
            (overwrite_loop-Overwritten torn (suc (length m.live)) (λ a b. a == this) m
              (m.next this) (m.next other) this (first_of rs other) ps qs xs ys
              (omega (arith, length-Alive ps m.live distinct alive)) to from
              (Goes-first m.next (m.next this) this ps qs to e) (same this) distinct
              (Apart-left ps qs rs a) alive (Alive-left m.live qs rs j.alive.1) values
              (Holds-split m.val qs rs ys zs k j.values).0)
            (λ fs f.
              subst
                (λ l.
                  Copied torn m this l xs (ys ++ zs)
                    (insert_nodes place this this (first_of rs other) other (over m ps ys fs)))
                (sym (append-nil ps))
                (insert_nodes-Copied m this other ps qs rs xs ys zs fs i j k
                  (omega (arith, length-append ps [])) (Apart-right ps qs rs a) f)))

  -- The elements that are left over are erased.
  erase_over :
      (m : Memory A) (this : ℕ) (ps ms : List ℕ) (xs ws ys : List A) (fs : List Bool)
      → IsList m this (ps ++ ms) (xs ++ ws)
      → length ps ≡ length xs
      → length ps ≡ length ys
      → Copied torn m this
          (ps ++ ms)
          (xs ++ ws)
          (ys ++ [])
          (erase_range this (first_of ms this) this (over m ps ys fs))
  erase_over m this ps ms xs ws ys fs i k l =
      let m1 = over m ps ys fs in
      let n : length (ps ++ ms) ≡ length (xs ++ ws) =
        Holds-length m.val (ps ++ ms) (xs ++ ws) i.values in
      let i1 =
        subst (IsList m1 this (ps ++ ms)) (overlay_whole ys xs ws (omega arith))
          (overwritten-IsList m this ps ms (xs ++ ws) ys fs (omega arith) i) in
      let i2 =
        subst (λ qs. IsList m1 this (ps ++ qs) (ys ++ (ws ++ []))) (sym (append-nil ms))
          (subst (λ zs. IsList m1 this (ps ++ ms) (ys ++ zs)) (sym (append-nil ws)) i1) in
      Copied-Erased torn m m1 this ps ms (xs ++ ws) ys (erase_range this (first_of ms this) this m1)
        (subst
          (λ qs. Erased m1 this ps ms [] (ys ++ []) (erase_range this (first_of qs this) this m1))
          (append-nil ms)
          (erase_range-Erased m1 this ps ms [] ys ws [] i2 l
            (omega (arith, length-append ps ms, length-append xs ws))))

  shorter-Copied :
      (m : Memory A) (this other : ℕ) (ps ms qs : List ℕ) (xs ws ys : List A)
      → IsList m this (ps ++ ms) (xs ++ ws)
      → IsList m other (qs ++ []) ys
      → length ps ≡ length qs
      → length ps ≡ length xs
      → Apart ps qs
      → Copied torn m this (ps ++ ms) (xs ++ ws) (ys ++ []) (copy_shorter torn this other m)
  unfolding copy_shorter get_next overwrite
  shorter-Copied m this other ps ms qs xs ws ys i j e k a =
      let n : length (qs ++ []) ≡ length ys = Holds-length m.val (qs ++ []) ys j.values in
      let l : length ps ≡ length ys = omega (arith, length-append qs []) in
      let alive = Alive-left m.live ps ms i.alive.1 in
      let distinct = Distinct-left ps ms i.distinct.1 in
      let (to, rest) = ways m this ps ms (xs ++ ws) i in
      let (from, other_rest) = ways m other qs [] ys j in
      let values = subst (λ l. Holds m.val l ys) (append-nil qs) j.values in
      rw (i.alive.0, j.alive.0)
        (after_loop torn m this (first_of ms this) other ps ms xs (xs ++ ws) ys []
          (overwrite torn (λ a b. b == other) (m.next this) (m.next other) m)
          (λ ends. erase_range this ends.0 this) i l (λ vs t. Torn-append torn xs ys vs ws [] t)
          (overwrite_loop-Overwritten torn (suc (length m.live)) (λ a b. b == other) m (m.next this)
            (m.next other) (first_of ms this) other ps qs xs ys
            (omega (arith, length-Alive ps m.live distinct alive)) to from
            (Goes-second m.next (m.next other) other ps qs from e) (same other) distinct a alive
            (Alive-left m.live qs [] j.alive.1) (Holds-split m.val ps ms xs ws k i.values).0 values)
          (λ fs f. erase_over m this ps ms xs ws ys fs i k l))

  -- Both lists cut where the shorter one ends
  at_shorter :
      (m : Memory A) (this other : ℕ) (ps qs : List ℕ) (xs ys : List A)
      → IsList m this ps xs
      → IsList m other qs ys
      → Apart ps qs
      → length qs ≤ length ps
      → Copied torn m this ps xs ys (copy_shorter torn this other m)
  at_shorter m this other ps qs xs ys i j a f =
      let n = length qs in
      let e = Holds-length m.val ps xs i.values in
      let cut_ps = take-append-drop n ps in
      let cut_xs = take-append-drop n xs in
      let i' =
        subst (λ l. IsList m this l (take n xs ++ drop n xs)) (sym cut_ps)
          (subst (IsList m this ps) (sym cut_xs) i) in
      let j' = subst (λ l. IsList m other l ys) (sym (append-nil qs)) j in
      let a' = Apart-first (take n ps) (drop n ps) qs (subst (λ l. Apart l qs) (sym cut_ps) a) in
      let done =
        shorter-Copied m this other (take n ps) (drop n ps) qs (take n xs) (drop n xs) ys i' j'
          (omega (arith, length-take n ps)) (omega (arith, length-take n ps, length-take n xs))
          a' in
      subst (λ l. Copied torn m this l xs ys (copy_shorter torn this other m)) cut_ps
        (subst
          (λ l. Copied torn m this (take n ps ++ drop n ps) l ys (copy_shorter torn this other m))
          cut_xs
          (subst
            (λ l.
              Copied torn m this (take n ps ++ drop n ps) (take n xs ++ drop n xs) l
                (copy_shorter torn this other m))
            (append-nil ys) done))

  module _ (place : List ℕ → ℕ) (fresh : (l : List ℕ) → mem (place l) l ≡ false) where
    at_longer :
        (m : Memory A) (this other : ℕ) (ps qs : List ℕ) (xs ys : List A)
        → IsList m this ps xs
        → IsList m other qs ys
        → Apart ps qs
        → length ps ≤ length qs
        → Copied torn m this ps xs ys (copy_longer place torn this other m)
    at_longer m this other ps qs xs ys i j a f =
        let n = length ps in
        let k = Holds-length m.val qs ys j.values in
        let cut_qs = take-append-drop n qs in
        let cut_ys = take-append-drop n ys in
        let i' = subst (λ l. IsList m this l xs) (sym (append-nil ps)) i in
        let j' =
          subst (λ l. IsList m other l (take n ys ++ drop n ys)) (sym cut_qs)
            (subst (IsList m other qs) (sym cut_ys) j) in
        let done =
          longer-Copied place fresh m this other ps (take n qs) (drop n qs) xs (take n ys)
            (drop n ys) i' j' (omega (arith, length-take n qs))
            (omega (arith, length-take n qs, length-take n ys)) (subst (Apart ps) (sym cut_qs) a) in
        subst (λ l. Copied torn m this l xs ys (copy_longer place torn this other m))
          (append-nil ps)
          (subst (λ l. Copied torn m this (ps ++ []) xs l (copy_longer place torn this other m))
            cut_ys done)

    module _ (m : Memory A) (this other : ℕ) (ps qs : List ℕ) (xs ys : List A) where
      -- The copy assignment of a list to another one ends, and that one has its values then: the first
      -- nodes are assigned, and nodes are made behind them or erased. If a call throws, the list has the
      -- nodes it had and its old values, the first of them replaced by the first new ones; if it was an
      -- assignment, one more is what the assignment has left. The lists have equal allocators, different
      -- nodes and fewer than 2 ^ 64 elements, and the allocator gives nodes that are not live.
      pub copy_assign-Copied :
          IsList m this ps xs
          → IsList m other qs ys
          → Apart ps qs
          → length ps < 2 ^ 64
          → length qs < 2 ^ 64
          → Copied torn m this ps xs ys (copy_assign place torn this other m)
      unfolding copy_assign get_size
      copy_assign-Copied i j a f g =
          let e = Holds-length m.val ps xs i.values in
          let k = Holds-length m.val qs ys j.values in
          elim (Bool-cases (ltb (m.size this) (m.size other))) [
            | inl t ↦
                let lt : m.size this < m.size other = ground arith in
                rw t (at_longer m this other ps qs xs ys i j a (omega arith))
            | inr t ↦
                let ge : m.size other ≤ m.size this = ground arith in
                rw t (at_shorter m this other ps qs xs ys i j a (omega arith))
          ]
