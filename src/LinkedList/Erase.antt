-- ===== src/LinkedList/Erase.antt =====
-- include/gpcl/list.hpp: both `erase`, `clear` and both `pop` on a list.
pub mod Whole
pub mod Single
use gpcl.Base.{
  ℕ, zero, suc, ◌+◌, ◌-◌, ◌*◌, ◌%◌, ◌^◌, ◌<◌, ◌≤◌, ◌≡◌, ◌≢◌, refl, sym, ap, subst, ◌∙◌, Bool, true,
  false, List, [], ◌∷◌, ◌++◌, Option, none, some, ◌==◌, if◌then◌else◌, length, length-append,
  append-nil, Bool-cases, inl, inr, arith,
}
use gpcl.Base.Addresses.{
  Absent, Apart, Distinct, Absent-left, Absent-right, Apart-left, Apart-right, Apart-sym,
  Apart-second, Distinct-remove, assign, assign_same, assign_other,
}
use gpcl.LinkedList.Trail.{Trail, last_of, first_of, rest_of, Apart-first_of}
use gpcl.LinkedList.Link.{Ring, Ring-parts, Ring-cut, Ring-close, Segment, Ring-Segment}
use gpcl.LinkedList.Ring.{
  IsList, Alive, Holds, Alive-append, Alive-left, Alive-right, Alive-last_of, Alive-first_of,
  Alive-without, mem-without, Holds-append, Holds-split, Holds-assign, Holds-length,
}
use gpcl.LinkedList.{
  Memory, Command, Outcome, returned, threw, undefined, mem, without, get_prev, get_next, set_next,
  set_prev, sub_size, deallocate, destroy_node, erase, erase_loop, erase_range, clear, pop_front,
  pop_back,
}

module _ {A : Type 0} where
  -- Memory without the node `q`, and with one fewer in the size of the list
  abbrev pub freed_one : Memory A → ℕ → ℕ → Memory A
  freed_one m this q = record m {
    val = assign m.val q none;
    size = assign m.size this ((m.size this + (2 ^ 64 - 1)) % 2 ^ 64);
    live = without q m.live;
  }

  abbrev pub freed : Memory A → ℕ → List ℕ → Memory A
  freed m this [] = m
  freed m this (q ∷ qs) = freed (freed_one m this q) this qs

abbrev pub without_each : List ℕ → List ℕ → List ℕ
without_each [] live = live
without_each (q ∷ qs) live = without_each qs (without q live)

-- From `a` the pointers lead through the nodes to `z`, which is none of them.
abbrev pub Leads : (ℕ → ℕ) → ℕ → List ℕ → ℕ → Type 0
Leads next a [] z = a ≡ z
Leads next a (q ∷ qs) z = (a ≡ q) × (q ≢ z) × Leads next (next q) qs z

module _ {A : Type 0} where
  -- Every node has an object.
  abbrev pub Full : (ℕ → Option A) → List ℕ → Type 0
  Full val [] = Unit
  Full val (q ∷ qs) = ((x : A) × (val q ≡ some x)) × Full val qs

  pub Holds-Full : (val : ℕ → Option A) (qs : List ℕ) (xs : List A) → Holds val qs xs → Full val qs
  Holds-Full val [] [] h = tt
  Holds-Full val [] (x ∷ xs) h = tt
  Holds-Full val (q ∷ qs) [] h = absurd h
  Holds-Full val (q ∷ qs) (x ∷ xs) h = ((x, h.0), Holds-Full val qs xs h.1)

  Full-assign :
      (val : ℕ → Option A) (q : ℕ) (v : Option A) (qs : List ℕ)
      → Absent q qs
      → Full val qs
      → Full (assign val q v) qs
  Full-assign val q v [] f h = tt
  Full-assign val q v (r ∷ qs) f h =
      let (x, e) = h.0 in
      ((x, assign_other val q v r (λ e. f.0 (sym e)) ∙ e), Full-assign val q v qs f.1 h.1)

  pub destroy_node_lem :
      (m : Memory A) (q : ℕ) (x : A)
      → mem q m.live ≡ true
      → m.val q ≡ some x
      → destroy_node q m
        ≡ returned tt (record m { val = assign m.val q none; live = without q m.live })
  unfolding destroy_node deallocate
  destroy_node_lem m q x h e = rw (destroy_node, e, h) refl

  -- The loop frees the nodes up to the one where it ends.
  pub erase_loop_lem :
      (fuel : ℕ) (m : Memory A) (this a z : ℕ) (qs : List ℕ)
      → length qs < fuel
      → Leads m.next a qs z
      → Distinct qs
      → Alive m.live qs
      → Full m.val qs
      → erase_loop fuel this a z m ≡ returned tt (freed m this qs)
  unfolding erase_loop get_next sub_size
  erase_loop_lem zero m this a z qs f l d h v = absurd (omega arith)
  erase_loop_lem (suc fuel) m this a z [] f l d h v =
      let here : (a == z) ≡ true = ground (arith, l) in rw here refl
  erase_loop_lem (suc fuel) m this a z (q ∷ qs) f l d h v =
      let on : (a == z) ≡ false = ground (arith, l.0, l.1) in
      let (x, e) = v.0 in
      rw (on, l.0, h.0, destroy_node_lem m q x h.0 e)
        (erase_loop_lem fuel (freed_one m this q) this (m.next q) z qs (omega arith) l.2 d.1
          (Alive-without q m.live qs d.0 h.1) (Full-assign m.val q none qs d.0 v.1))

  pub freed_next : (m : Memory A) (this : ℕ) (qs : List ℕ) → (freed m this qs).next ≡ m.next
  freed_next m this [] = refl
  freed_next m this (q ∷ qs) = freed_next (freed_one m this q) this qs

  pub freed_prev : (m : Memory A) (this : ℕ) (qs : List ℕ) → (freed m this qs).prev ≡ m.prev
  freed_prev m this [] = refl
  freed_prev m this (q ∷ qs) = freed_prev (freed_one m this q) this qs

  pub freed_live :
      (m : Memory A) (this : ℕ) (qs : List ℕ) → (freed m this qs).live ≡ without_each qs m.live
  freed_live m this [] = refl
  freed_live m this (q ∷ qs) = freed_live (freed_one m this q) this qs

  pub freed_faults : (m : Memory A) (this : ℕ) (qs : List ℕ) → (freed m this qs).faults ≡ m.faults
  freed_faults m this [] = refl
  freed_faults m this (q ∷ qs) = freed_faults (freed_one m this q) this qs

  -- Nodes that are none of those freed stay, and keep their objects.
  pub Alive-freed :
      (m : Memory A) (this : ℕ) (qs ps : List ℕ)
      → Apart qs ps
      → Alive m.live ps
      → Alive (freed m this qs).live ps
  Alive-freed m this [] ps f h = h
  Alive-freed m this (q ∷ qs) ps f h =
      Alive-freed (freed_one m this q) this qs ps f.1 (Alive-without q m.live ps f.0 h)

  pub Holds-freed :
      (m : Memory A) (this : ℕ) (qs ps : List ℕ) (xs : List A)
      → Apart qs ps
      → Holds m.val ps xs
      → Holds (freed m this qs).val ps xs
  Holds-freed m this [] ps xs f h = h
  Holds-freed m this (q ∷ qs) ps xs f h =
      Holds-freed (freed_one m this q) this qs ps xs f.1 (Holds-assign m.val q none ps xs f.0 h)

  pub freed_size :
      (m : Memory A) (this k : ℕ) (qs : List ℕ)
      → m.size this ≡ (k + length qs) % 2 ^ 64
      → (freed m this qs).size this ≡ k % 2 ^ 64
  freed_size m this k [] h = h ∙ ap (λ n. n % 2 ^ 64) (let e : k + 0 ≡ k = omega arith in e)
  freed_size m this k (q ∷ qs) h =
      freed_size (freed_one m this q) this k qs
        (assign_same m.size this ((m.size this + (2 ^ 64 - 1)) % 2 ^ 64) ∙ omega arith)

Leads-Trail :
    (n p : ℕ → ℕ) (x : ℕ) (xs : List ℕ) (z : ℕ)
    → Trail n p x xs
    → n (last_of x xs) ≡ z
    → Absent z (x ∷ xs)
    → Leads n x (x ∷ xs) z
Leads-Trail n p x [] z h e f = (refl, λ q. f.0 (sym q), e)
Leads-Trail n p x (y ∷ xs) z h e f = (
  refl,
  λ q. f.0 (sym q),
  subst (λ a. Leads n a (y ∷ xs) z) (sym h.0) (Leads-Trail n p y xs z h.2 e f.1),
)

-- What a range of a ring needs to be erased: the paths around it, and the way through it
pub record Range (n p : ℕ → ℕ) (s : ℕ) (ps ms qs : List ℕ) : Type 0 where
  pub left : Trail n p s ps
  pub right : Trail n p (first_of qs s) (rest_of qs s)
  pub enter : p (first_of (ms ++ qs) s) ≡ last_of s ps
  pub leads : Leads n (first_of (ms ++ qs) s) ms (first_of qs s)

pub Ring-Range :
    (n p : ℕ → ℕ) (s : ℕ) (ps ms qs : List ℕ)
    → Distinct (s ∷ ps ++ (ms ++ qs))
    → Ring n p s (ps ++ (ms ++ qs))
    → Range n p s ps ms qs
Ring-Range n p s ps [] qs d r =
    let parts = Ring-parts n p s ps qs d r in
    record { left = parts.0; right = parts.1; enter = (Ring-cut n p s ps qs d r).1; leads = refl }
Ring-Range n p s ps (x ∷ xs) qs d r =
    let g = Ring-Segment n p s ps x xs qs r in
    let (d', e, a) = Distinct-remove (s ∷ ps) (x ∷ xs) qs d in
    let other = Apart-sym (x ∷ xs) (s ∷ ps ++ qs) a in
    record {
      left = g.left;
      right = g.right;
      enter = g.enter;
      leads =
          Leads-Trail n p x xs (first_of qs s) g.middle g.leave
            (Apart-first_of qs s (x ∷ xs) (other.0, Apart-second ps qs (x ∷ xs) other.1));
    }
