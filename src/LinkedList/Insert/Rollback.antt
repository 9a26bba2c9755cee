-- ===== src/LinkedList/Insert/Rollback.antt =====
-- include/gpcl/list.hpp: the loops that take an insertion back.
use gpcl.Base.{ℕ, ◌≡◌, ap, ◌∙◌, true, false, List, [], ◌∷◌, ◌++◌, ◌==◌, length, arith}
use gpcl.LinkedList.Trail.{first_of}
use gpcl.LinkedList.Ring.{IsList, without_absent}
use gpcl.LinkedList.Erase.{without_each}
use gpcl.LinkedList.Erase.Whole.{Erased}
use gpcl.LinkedList.Erase.Single.{erase-Erased}
use gpcl.LinkedList.Insert.{roll_back}
use gpcl.LinkedList.{Memory, Outcome, returned, threw, undefined, mem, without, erase}

-- Each of the nodes was not live when it was made, the last one first.
abbrev pub MadeOver : List ℕ → List ℕ → Type 0
MadeOver live [] = Unit
MadeOver live (n ∷ ns) = (mem n (ns ++ live) ≡ false) × MadeOver live ns

module _ {A : Type 0} where
  pub Erased-returned :
      (m : Memory A) (this : ℕ) (ps ms qs : List ℕ) (xs : List A) (o : Outcome A ℕ)
      → Erased m this ps ms qs xs o
      → (m' : Memory A) × (o ≡ returned (first_of qs this) m')
        × (m'.live ≡ without_each ms m.live)
        × IsList m' this (ps ++ qs) xs
  Erased-returned m this ps ms qs xs (returned p m') h = (m', ap (λ q. returned q m') h.0, h.1, h.2)
  Erased-returned m this ps ms qs xs (threw m') h = absurd h
  Erased-returned m this ps ms qs xs undefined h = absurd h

  -- The list is as it was, and the nodes that are live are those that were.
  abbrev pub RolledBack : List ℕ → ℕ → List ℕ → List A → Outcome A ℕ → Type 0
  RolledBack live this ps xs (returned p m') = (m'.live ≡ live) × IsList m' this ps xs
  RolledBack live this ps xs (threw m') = ⊥
  RolledBack live this ps xs undefined = ⊥

  pub roll_back-RolledBack :
      (m : Memory A) (this : ℕ) (ps ns qs : List ℕ) (xs ws ys : List A) (live : List ℕ)
      → IsList m this (ps ++ (ns ++ qs)) (xs ++ (ws ++ ys))
      → length ps ≡ length xs
      → length ns ≡ length ws
      → m.live ≡ ns ++ live
      → MadeOver live ns
      → RolledBack live this
          (ps ++ qs)
          (xs ++ ys)
          (roll_back this (length ns) (first_of (ns ++ qs) this) m)
  unfolding roll_back
  roll_back-RolledBack m this ps [] qs xs [] ys live i e k l f = (l, i)
  roll_back-RolledBack m this ps [] qs xs (w ∷ ws) ys live i e k l f = absurd (omega arith)
  roll_back-RolledBack m this ps (n ∷ ns) qs xs [] ys live i e k l f = absurd (omega arith)
  roll_back-RolledBack m this ps (n ∷ ns) qs xs (w ∷ ws) ys live i e k l f =
      let (m', q, l', i') =
        Erased-returned m this ps (n ∷ []) (ns ++ qs) (xs ++ (ws ++ ys)) (erase this n m)
          (erase-Erased m this ps n (ns ++ qs) xs w (ws ++ ys) i e) in
      let same : (n == n) ≡ true = ground arith in
      let back : without n (n ∷ (ns ++ live)) ≡ ns ++ live =
        rw same (without_absent n (ns ++ live) f.0) in
      rw q (
        roll_back-RolledBack m' this ps ns qs xs ws ys live i' e (omega arith)
          (l' ∙ (ap (without n) l ∙ back)) f.1)
