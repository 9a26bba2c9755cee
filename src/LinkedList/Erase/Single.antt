-- ===== src/LinkedList/Erase/Single.antt =====
-- include/gpcl/list.hpp: `erase` of one element, both `pop` and `clear` on a list.
use gpcl.Base.{ℕ, ◌≡◌, refl, sym, subst, true, List, [], ◌∷◌, ◌++◌, some, length, append-nil}
use gpcl.LinkedList.Trail.{last_of, first_of}
use gpcl.LinkedList.Link.{Ring-cut, Ring-Segment}
use gpcl.LinkedList.Ring.{
  IsList, Alive-left, Alive-right, Alive-last_of, Alive-first_of, Holds-split, Holds-length,
}
use gpcl.LinkedList.Erase.{destroy_node_lem, Ring-Range}
use gpcl.LinkedList.Erase.Whole.{erased, Erased, erased-IsList, erase_range-Erased}
use gpcl.LinkedList.{
  Memory, returned, mem, without, get_prev, get_next, set_next, set_prev, sub_size, erase, clear,
  pop_front, pop_back,
}

module _ {A : Type 0} where
  erase_returned :
      (m : Memory A) (this q : ℕ) (x : A)
      → mem q m.live ≡ true
      → m.val q ≡ some x
      → mem (m.prev q) (without q m.live) ≡ true
      → mem (m.next q) (without q m.live) ≡ true
      → erase this q m ≡ returned (m.next q) (erased m this (q ∷ []) (m.prev q) (m.next q))
  unfolding erase get_prev get_next set_next set_prev sub_size
  erase_returned m this q x h v b a = rw (h, h, destroy_node_lem m q x h v, b, a) refl

  module _ (m : Memory A) (this : ℕ) where
    -- Erasing an element frees its node and no other; the list keeps the others, and the iterator
    -- returned is behind it.
    pub erase-Erased :
        (ps : List ℕ) (q : ℕ) (qs : List ℕ) (xs : List A) (x : A) (ys : List A)
        → IsList m this (ps ++ (q ∷ qs)) (xs ++ (x ∷ ys))
        → length ps ≡ length xs
        → Erased m this ps (q ∷ []) qs (xs ++ ys) (erase this q m)
    erase-Erased ps q qs xs x ys i e =
        let r = Ring-Range m.next m.prev this ps (q ∷ []) qs i.distinct i.ring in
        let after = erased-IsList m this ps (q ∷ []) qs xs (x ∷ []) ys i e refl in
        let live = without q m.live in
        let b_live = Alive-last_of live this ps (Alive-left live (this ∷ ps) qs after.alive) in
        let a_live =
          Alive-first_of live qs this (after.alive.0, Alive-right live ps qs after.alive.1) in
        let onward : m.next q ≡ first_of qs this = r.leads.2 in
        let held = Holds-split m.val ps (q ∷ qs) xs (x ∷ ys) e i.values in
        rw
          (erase_returned m this q x (Alive-right m.live ps (q ∷ qs) i.alive.1).0 held.1.0
            (subst (λ b. mem b live ≡ true) (sym r.enter) b_live)
            (subst (λ a. mem a live ≡ true) (sym onward) a_live))
          (
            onward,
            refl,
            subst (λ b. IsList (erased m this (q ∷ []) b (m.next q)) this (ps ++ qs) (xs ++ ys))
                (sym r.enter)
                (subst
                  (λ a.
                    IsList (erased m this (q ∷ []) (last_of this ps) a) this (ps ++ qs) (xs ++ ys))
                  (sym onward) after),
          )

    pub next_begin :
        (ps : List ℕ) (xs : List A) → IsList m this ps xs → m.next this ≡ first_of ps this
    next_begin ps xs i = (Ring-cut m.next m.prev this [] ps i.distinct i.ring).0

    -- `pop_front` erases the first element.
    pop_front-Erased :
        (q : ℕ) (qs : List ℕ) (x : A) (xs : List A)
        → IsList m this (q ∷ qs) (x ∷ xs)
        → Erased m this [] (q ∷ []) qs xs (pop_front this m)
    unfolding pop_front get_next
    pop_front-Erased q qs x xs i =
        rw (i.alive.0, next_begin (q ∷ qs) (x ∷ xs) i) (erase-Erased [] q qs [] x xs i refl)

    -- `pop_back` erases the last element.
    pub pop_back-Erased :
        (ps : List ℕ) (q : ℕ) (xs : List A) (x : A)
        → IsList m this (ps ++ (q ∷ [])) (xs ++ (x ∷ []))
        → length ps ≡ length xs
        → Erased m this ps (q ∷ []) [] xs (pop_back this m)
    unfolding pop_back get_prev
    pop_back-Erased ps q xs x i e =
        let last = (Ring-Segment m.next m.prev this ps q [] [] i.ring).back in
        rw (i.alive.0, last)
          (subst (λ ys. Erased m this ps (q ∷ []) [] ys (erase this q m)) (append-nil xs)
            (erase-Erased ps q [] xs x [] i e))

    -- `clear` frees every node of the list, and leaves it empty.
    clear-Erased :
        (ps : List ℕ) (xs : List A) → IsList m this ps xs → Erased m this [] ps [] [] (clear this m)
    unfolding clear get_next
    clear-Erased ps xs i =
        let all =
          subst (λ qs. IsList m this qs (xs ++ [])) (sym (append-nil ps))
            (subst (IsList m this ps) (sym (append-nil xs)) i) in
        rw (i.alive.0, next_begin (ps ++ []) (xs ++ []) all)
          (erase_range-Erased m this [] ps [] [] xs [] all refl (Holds-length m.val ps xs i.values))
