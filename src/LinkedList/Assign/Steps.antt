-- ===== src/LinkedList/Assign/Steps.antt =====
-- include/gpcl/list.hpp: the steps of the copy assignment.
use gpcl.Base.{
  ◌⊎◌, inl, inr, ℕ, suc, ◌≡◌, refl, sym, ap, subst, ◌∙◌, Bool, true, false, List, [], ◌∷◌, ◌++◌,
  ◌==◌, length, append-nil, arith,
}
use gpcl.Base.Addresses.{Apart, Distinct-right}
use gpcl.LinkedList.Trail.{first_of}
use gpcl.LinkedList.Link.{Ring-cut}
use gpcl.LinkedList.Ring.{IsList, Alive-right, Holds-split}
use gpcl.LinkedList.Erase.{Leads, Ring-Range}
use gpcl.LinkedList.Erase.Whole.{Erased, length-Alive}
use gpcl.LinkedList.Insert.Many.{Faulty, Inserted}
use gpcl.LinkedList.Assign.Overwrite.{Goes, Overwritten, Torn, length-Torn, read_loop_lem}
use gpcl.LinkedList.Assign.Overlay.{
  overlay, over, overlay_whole, Holds-overwritten_other, overwritten-IsList, Ring-Leads,
}
use gpcl.LinkedList.Assign.{read}
use gpcl.LinkedList.{Memory, Command, Outcome, returned, threw, undefined, and_then}

-- A walk ends where either of two paths that are equally long does.
pub Goes-first :
    (n : ℕ → ℕ) (a z : ℕ) (ps qs : List ℕ)
    → Leads n a ps z
    → length ps ≡ length qs
    → Goes (λ a b. a == z) ps qs
Goes-first n a z [] [] l e = tt
Goes-first n a z [] (q ∷ qs) l e = absurd (omega arith)
Goes-first n a z (p ∷ ps) [] l e = absurd (omega arith)
Goes-first n a z (p ∷ ps) (q ∷ qs) l e =
    let on : (p == z) ≡ false = ground (arith, l.1) in
    (on, Goes-first n (n p) z ps qs l.2 (omega arith))

pub Goes-second :
    (n : ℕ → ℕ) (b w : ℕ) (ps qs : List ℕ)
    → Leads n b qs w
    → length ps ≡ length qs
    → Goes (λ a b. b == w) ps qs
Goes-second n b w [] [] l e = tt
Goes-second n b w [] (q ∷ qs) l e = absurd (omega arith)
Goes-second n b w (p ∷ ps) [] l e = absurd (omega arith)
Goes-second n b w (p ∷ ps) (q ∷ qs) l e =
    let on : (q == w) ≡ false = ground (arith, l.1) in
    (on, Goes-second n (n q) w ps qs l.2 (omega arith))

pub same : (a : ℕ) → (a == a) ≡ true
same a = ground arith

module _ {A : Type 0} where
  next_begin :
      (m : Memory A) (this : ℕ) (ps : List ℕ) (xs : List A)
      → IsList m this ps xs
      → m.next this ≡ first_of ps this
  next_begin m this ps xs i = (Ring-cut m.next m.prev this [] ps i.distinct i.ring).0

  -- The ways through both lists
  pub ways :
      (m : Memory A) (this : ℕ) (ps qs : List ℕ) (xs : List A)
      → IsList m this (ps ++ qs) xs
      → Leads m.next (m.next this) ps (first_of qs this) × Leads m.next (first_of qs this) qs this
  ways m this ps qs xs i = (
    subst (λ a. Leads m.next a ps (first_of qs this)) (sym (next_begin m this (ps ++ qs) xs i))
        (Ring-Range m.next m.prev this [] ps qs i.distinct i.ring).leads,
    Ring-Leads m.next m.prev this ps qs i.distinct i.ring,
  )

  -- Reading behind the loop
  pub read-over :
      (m : Memory A) (this other : ℕ) (ps qs rs : List ℕ) (xs ys zs : List A) (fs : List Bool)
      → IsList m other (qs ++ rs) (ys ++ zs)
      → length qs ≡ length ys
      → Apart ps rs
      → read (first_of rs other) other (over m ps xs fs) ≡ returned zs (over m ps xs fs)
  unfolding read
  read-over m this other ps qs rs xs ys zs fs j k a =
      let alive = Alive-right m.live qs rs j.alive.1 in
      let distinct = Distinct-right qs rs j.distinct.1 in
      read_loop_lem (suc (length m.live)) (over m ps xs fs) (first_of rs other) other rs zs
        (omega (arith, length-Alive rs m.live distinct alive)) (ways m other qs rs (ys ++ zs) j).1
        alive
        (Holds-overwritten_other m.val ps rs xs zs a (Holds-split m.val qs rs ys zs k j.values).1)

module _ {A : Type 0} (torn : A → A → A) where
  -- Either the list has the values of the other one, or a call has thrown, and the first of its values
  -- are replaced: all by the first of those, or some by the first of those and one more by what the
  -- assignment has left. No node has been made or destroyed then.
  abbrev pub Copied : Memory A → ℕ → List ℕ → List A → List A → Outcome A ℕ → Type 0
  Copied m this ps xs ys (returned p m') = (ns : List ℕ) × IsList m' this ns ys
  Copied m this ps xs ys (threw m') =
      (zs : List A) × Faulty m.faults
      × (((rest : List A) × (zs ++ rest ≡ ys) × (length zs ≡ length xs)) ⊎ Torn torn xs ys zs)
      × (m'.live ≡ m.live)
      × IsList m' this ps (overlay zs xs)
  Copied m this ps xs ys undefined = ⊥

  -- What follows the loop
  pub after_loop :
      (m : Memory A) (this z w : ℕ) (ps qs : List ℕ) (ws xs ys zs : List A) (o : Outcome A (ℕ × ℕ))
      (next : ℕ × ℕ → Command A ℕ)
      → IsList m this (ps ++ qs) xs
      → length ps ≡ length ys
      → ((vs : List A) → Torn torn ws ys vs → Torn torn xs (ys ++ zs) vs)
      → Overwritten torn m ps ws ys z w o
      → ((fs : List Bool)
          → (Faulty fs → Faulty m.faults)
          → Copied m this (ps ++ qs) xs (ys ++ zs) (next (z, w) (over m ps ys fs)))
      → Copied m this (ps ++ qs) xs (ys ++ zs) (and_then o next)
  after_loop m this z w ps qs ws xs ys zs (returned ends m') next i e n h go =
      let (fs, e', q, f) = h in
      subst (λ r. Copied m this (ps ++ qs) xs (ys ++ zs) (next r m')) (sym e')
        (subst (λ m'. Copied m this (ps ++ qs) xs (ys ++ zs) (next (z, w) m')) (sym q) (go fs f))
  after_loop m this z w ps qs ws xs ys zs (threw m') next i e n h go =
      let (vs, fs, f, t, q) = h in
      let short = length-Torn torn ws ys vs t in
      subst (λ m'. Copied m this (ps ++ qs) xs (ys ++ zs) (threw m')) (sym q)
        (vs, f, inr (n vs t), refl, overwritten-IsList m this ps qs xs vs fs (omega arith) i)
  after_loop m this z w ps qs ws xs ys zs undefined next i e n h go = absurd h

  -- The rest of the other list is inserted behind.
  pub Copied-Inserted :
      (m : Memory A) (this : ℕ) (ps : List ℕ) (xs ys zs : List A) (fs : List Bool) (o : Outcome A ℕ)
      → length ys ≡ length xs
      → (Faulty fs → Faulty m.faults)
      → Inserted m.live fs this ps [] ys zs [] o
      → Copied m this ps xs (ys ++ zs) o
  Copied-Inserted m this ps xs ys zs fs (returned p m') e f h =
      let (ns, q, l, i) = h in
      (ps ++ (ns ++ []), subst (λ l. IsList m' this (ps ++ (ns ++ [])) (ys ++ l)) (append-nil zs) i)
  Copied-Inserted m this ps xs ys zs fs (threw m') e f h =
      let whole = overlay_whole ys xs [] e in
      let values : overlay ys xs ≡ ys ++ [] = ap (overlay ys) (sym (append-nil xs)) ∙ whole in
      (
        ys,
        f h.0,
        inl (zs, refl, e),
        h.1,
        subst (IsList m' this ps) (sym values)
            (subst (λ l. IsList m' this l (ys ++ [])) (append-nil ps) h.2),
      )
  Copied-Inserted m this ps xs ys zs fs undefined e f h = absurd h

  pub Copied-Erased :
      (m m1 : Memory A) (this : ℕ) (ps ms : List ℕ) (xs ys : List A) (o : Outcome A ℕ)
      → Erased m1 this ps ms [] (ys ++ []) o
      → Copied m this (ps ++ ms) xs (ys ++ []) o
  Copied-Erased m m1 this ps ms xs ys (returned p m') h = (ps ++ [], h.2)
  Copied-Erased m m1 this ps ms xs ys (threw m') h = absurd h
  Copied-Erased m m1 this ps ms xs ys undefined h = absurd h
