-- ===== src/LinkedList/Insert/Many.antt =====
-- include/gpcl/list.hpp: the insertion of several elements, with its catches.
use gpcl.Base.{
  ℕ, zero, suc, ◌≡◌, ◌⊎◌, refl, sym, ap, subst, ◌∙◌, Bool, true, false, List, [], ◌∷◌, ◌++◌, length,
  replicate, append-nil, append_assoc, inl, inr, arith,
}
use gpcl.LinkedList.Trail.{first_of}
use gpcl.LinkedList.Ring.{IsList}
use gpcl.LinkedList.Insert.Emplace.{Emplaced, emplace-Emplaced}
use gpcl.LinkedList.Insert.{reversed, emplace, roll_back, insert_loop, insert_count, insert_range}
use gpcl.LinkedList.{
  Memory, Outcome, returned, threw, undefined, and_then, catch, rethrow, Command, mem, throws,
  later,
}
use gpcl.LinkedList.Insert.Rollback.{MadeOver, RolledBack, roll_back-RolledBack}

-- Some call throws.
abbrev pub Faulty : List Bool → Type 0
Faulty [] = ⊥
Faulty (true ∷ fs) = Unit
Faulty (false ∷ fs) = Faulty fs

pub Faulty-later : (fs : List Bool) → Faulty (later fs) → Faulty fs
Faulty-later [] h = h
Faulty-later (true ∷ fs) h = tt
Faulty-later (false ∷ fs) h = h

pub Faulty-throws : (fs : List Bool) → throws fs ≡ true → Faulty fs
Faulty-throws [] h = absurd (ground arith)
Faulty-throws (true ∷ fs) h = tt
Faulty-throws (false ∷ fs) h = absurd (ground arith)

module _ {A : Type 0} where
  -- Either the list has new nodes with the values in the gap, and the iterator returned is the first of
  -- them, or a call has thrown and the list and the live nodes are as they were.
  abbrev pub Inserted :
      List ℕ → List Bool → ℕ → List ℕ → List ℕ → List A → List A → List A → Outcome A ℕ → Type 0
  Inserted live faults this ps qs xs ws ys (returned p m') =
      (ns : List ℕ) × (p ≡ first_of (ns ++ qs) this)
      × (m'.live ≡ ns ++ live)
      × IsList m' this (ps ++ (ns ++ qs)) (xs ++ (ws ++ ys))
  Inserted live faults this ps qs xs ws ys (threw m') =
      Faulty faults × (m'.live ≡ live) × IsList m' this (ps ++ qs) (xs ++ ys)
  Inserted live faults this ps qs xs ws ys undefined = ⊥

  Inserted-earlier :
      (live : List ℕ) (faults : List Bool) (this : ℕ) (ps qs : List ℕ) (xs ws ys : List A)
      (o : Outcome A ℕ)
      → Inserted live (later (later faults)) this ps qs xs ws ys o
      → Inserted live faults this ps qs xs ws ys o
  Inserted-earlier live faults this ps qs xs ws ys (returned p m') h = h
  Inserted-earlier live faults this ps qs xs ws ys (threw m') h =
      (Faulty-later faults (Faulty-later (later faults) h.0), h.1, h.2)
  Inserted-earlier live faults this ps qs xs ws ys undefined h = absurd h

  -- Behind a rollback the error goes on.
  Inserted-thrown :
      (live : List ℕ) (faults : List Bool) (this : ℕ) (ps qs : List ℕ) (xs ws ys : List A)
      (o : Outcome A ℕ) (next : ℕ → Command A ℕ)
      → Faulty faults
      → RolledBack live this (ps ++ qs) (xs ++ ys) o
      → Inserted live faults this ps qs xs ws ys (and_then (rethrow o) next)
  Inserted-thrown live faults this ps qs xs ws ys (returned p m') next f h = (f, h.0, h.1)
  Inserted-thrown live faults this ps qs xs ws ys (threw m') next f h = absurd h
  Inserted-thrown live faults this ps qs xs ws ys undefined next f h = absurd h

  -- The invariant does not depend on the faults to come.
  IsList-faults :
      (m : Memory A) (this : ℕ) (ps : List ℕ) (xs : List A) (fs : List Bool)
      → IsList m this ps xs
      → IsList (record m { faults = fs }) this ps xs
  IsList-faults m this ps xs fs i = record {
    ring = i.ring;
    distinct = i.distinct;
    alive = i.alive;
    values = i.values;
    counted = i.counted;
  }

Faulty-either : (fs : List Bool) → (throws fs ≡ true) ⊎ (throws (later fs) ≡ true) → Faulty fs
Faulty-either fs (inl h) = Faulty-throws fs h
Faulty-either fs (inr h) = Faulty-later fs (Faulty-throws (later fs) h)

reversed-append : {A : Type 0} (xs ys : List A) → reversed (xs ++ ys) ≡ reversed ys ++ reversed xs
reversed-append [] ys = sym (append-nil (reversed ys))
reversed-append (x ∷ xs) ys =
    ap (λ l. l ++ (x ∷ [])) (reversed-append xs ys)
    ∙ append_assoc (reversed ys) (reversed xs) (x ∷ [])

reversed-reversed : {A : Type 0} (xs : List A) → reversed (reversed xs) ≡ xs
reversed-reversed [] = refl
reversed-reversed (x ∷ xs) =
    reversed-append (reversed xs) (x ∷ []) ∙ ap (◌∷◌ x) (reversed-reversed xs)

replicate-append : {A : Type 0} (n : ℕ) (x : A) → replicate n x ++ (x ∷ []) ≡ x ∷ replicate n x
replicate-append zero x = refl
replicate-append (suc n) x = ap (◌∷◌ x) (replicate-append n x)

reversed-replicate : {A : Type 0} (n : ℕ) (x : A) → reversed (replicate n x) ≡ replicate n x
reversed-replicate zero x = refl
reversed-replicate (suc n) x =
    ap (λ l. l ++ (x ∷ [])) (reversed-replicate n x) ∙ replicate-append n x

module _ {A : Type 0} (place : List ℕ → ℕ) (fresh : (l : List ℕ) → mem (place l) l ≡ false) where
  insert_loop-Inserted :
      (zs : List A) (m : Memory A) (this : ℕ) (ps ns qs : List ℕ) (xs ws ys : List A)
      (live : List ℕ)
      → IsList m this (ps ++ (ns ++ qs)) (xs ++ (ws ++ ys))
      → length ps ≡ length xs
      → length ns ≡ length ws
      → m.live ≡ ns ++ live
      → MadeOver live ns
      → Inserted live m.faults this ps qs xs
          (reversed zs ++ ws)
          ys
          (insert_loop place this zs (length ns) (first_of (ns ++ qs) this) m)
  unfolding insert_loop
  insert_loop-Inserted [] m this ps ns qs xs ws ys live i e k l f = (ns, refl, l, i)
  insert_loop-Inserted (z ∷ zs) m this ps ns qs xs ws ys live i e k l f =
      onward (emplace place this (first_of (ns ++ qs) this) z m)
        (emplace-Emplaced place fresh m this ps (ns ++ qs) xs (ws ++ ys) z i e)
        (λ m' n. insert_loop-Inserted zs m' this ps (n ∷ ns) qs xs (z ∷ ws) ys live)
    where
      onward :
          (o : Outcome A ℕ)
          → Emplaced place fresh m this ps (ns ++ qs) xs (ws ++ ys) z o
          → ((m' : Memory A) (n : ℕ)
              → IsList m' this (ps ++ (n ∷ ns ++ qs)) (xs ++ (z ∷ ws ++ ys))
              → length ps ≡ length xs
              → suc (length ns) ≡ suc (length ws)
              → m'.live ≡ n ∷ ns ++ live
              → MadeOver live (n ∷ ns)
              → Inserted live m'.faults this ps qs xs
                  (reversed zs ++ (z ∷ ws))
                  ys
                  (insert_loop place this zs (suc (length ns)) n m'))
          → Inserted live m.faults this ps qs xs (reversed (z ∷ zs) ++ ws) ys (
              and_then
                (catch o (roll_back this (length ns) (first_of (ns ++ qs) this)))
                (λ node. insert_loop place this zs (suc (length ns)) node))
      onward (returned p m') h go =
          let new = subst (λ l. mem p l ≡ false) l h.2 in
          let done = go m' p h.5 e (ap suc k) (h.4 ∙ ap (◌∷◌ p) l) (new, f) in
          let whole =
            subst
              (λ vs.
                Inserted live m'.faults this ps qs xs vs ys
                  (insert_loop place this zs (suc (length ns)) p m'))
              (sym (append_assoc (reversed zs) (z ∷ []) ws)) done in
          Inserted-earlier live m.faults this ps qs xs ((reversed zs ++ (z ∷ [])) ++ ws) ys
            (insert_loop place this zs (suc (length ns)) p m')
            (subst
              (λ fs.
                Inserted live fs this ps qs xs ((reversed zs ++ (z ∷ [])) ++ ws) ys
                  (insert_loop place this zs (suc (length ns)) p m'))
              h.3 whole)
      onward (threw m') h go =
          let (fs, q) = h.1 in
          Inserted-thrown live m.faults this ps qs xs ((reversed zs ++ (z ∷ [])) ++ ws) ys
            (roll_back this (length ns) (first_of (ns ++ qs) this) m')
            (λ node. insert_loop place this zs (suc (length ns)) node) (Faulty-either m.faults h.0)
            (subst
              (λ m'.
                RolledBack live this (ps ++ qs) (xs ++ ys)
                  (roll_back this (length ns) (first_of (ns ++ qs) this) m'))
              (sym q)
              (roll_back-RolledBack (record m { faults = fs }) this ps ns qs xs ws ys live
                (IsList-faults m this (ps ++ (ns ++ qs)) (xs ++ (ws ++ ys)) fs i) e k l f))
      onward undefined h go = absurd h

  module _ (m : Memory A) (this : ℕ) (ps qs : List ℕ) (xs ys : List A) where
    insert_from :
        (zs : List A)
        → IsList m this (ps ++ qs) (xs ++ ys)
        → length ps ≡ length xs
        → Inserted m.live m.faults this ps qs xs
            (reversed zs)
            ys
            (insert_loop place this zs 0 (first_of qs this) m)
    insert_from zs i e =
        subst
          (λ vs.
            Inserted m.live m.faults this ps qs xs vs ys
              (insert_loop place this zs 0 (first_of qs this) m))
          (append-nil (reversed zs))
          (insert_loop-Inserted zs m this ps [] qs xs [] ys m.live i e refl refl tt)

    -- Inserting a range puts its values, in their order, in front of the position. If a call throws, the
    -- elements already inserted are erased again: the list is as it was, and no node is leaked.
    pub insert_range-Inserted :
        (zs : List A)
        → IsList m this (ps ++ qs) (xs ++ ys)
        → length ps ≡ length xs
        → Inserted m.live m.faults this ps qs xs zs ys
            (insert_range place this (first_of qs this) zs m)
    unfolding insert_range
    insert_range-Inserted zs i e =
        subst
          (λ vs.
            Inserted m.live m.faults this ps qs xs vs ys
              (insert_loop place this (reversed zs) 0 (first_of qs this) m))
          (reversed-reversed zs) (insert_from (reversed zs) i e)

    -- The same for copies of one value
    pub insert_count-Inserted :
        (count : ℕ) (z : A)
        → IsList m this (ps ++ qs) (xs ++ ys)
        → length ps ≡ length xs
        → Inserted m.live m.faults this ps qs xs
            (replicate count z)
            ys
            (insert_count place this (first_of qs this) count z m)
    unfolding insert_count
    insert_count-Inserted count z i e =
        subst
          (λ vs.
            Inserted m.live m.faults this ps qs xs vs ys
              (insert_loop place this (replicate count z) 0 (first_of qs this) m))
          (reversed-replicate count z) (insert_from (replicate count z) i e)
