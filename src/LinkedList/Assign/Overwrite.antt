-- ===== src/LinkedList/Assign/Overwrite.antt =====
-- include/gpcl/list.hpp: the loops of the copy assignment, and the reading of a range.
use gpcl.Base.{
  sym, ap, ◌++◌, ◌≤◌, ◌⊎◌, ℕ, zero, suc, ◌<◌, ◌≡◌, refl, Bool, true, false, List, [], ◌∷◌, Option,
  some, ◌==◌, if◌then◌else◌, length, Bool-cases, inl, inr, arith,
}
use gpcl.Base.Addresses.{Apart, Apart-right, Distinct, assign}
use gpcl.LinkedList.Ring.{Alive, Holds, Holds-assign}
use gpcl.LinkedList.Erase.{Leads}
use gpcl.LinkedList.Insert.Many.{Faulty, Faulty-later, Faulty-throws}
use gpcl.LinkedList.Assign.{set_val, overwrite_loop, read_loop}
use gpcl.LinkedList.{
  Memory, Outcome, returned, threw, undefined, mem, throws, later, get_next, get_val,
}

-- The loop does not stop before the last of these nodes.
abbrev pub Goes : (ℕ → ℕ → Bool) → List ℕ → List ℕ → Type 0
Goes stop [] [] = Unit
Goes stop [] (q ∷ qs) = ⊥
Goes stop (p ∷ ps) [] = ⊥
Goes stop (p ∷ ps) (q ∷ qs) = (stop p q ≡ false) × Goes stop ps qs

module _ {A : Type 0} where
  get_val_lem :
      (m : Memory A) (p : ℕ) (x : A)
      → mem p m.live ≡ true
      → m.val p ≡ some x
      → get_val p m ≡ returned x m
  unfolding get_val
  get_val_lem m p x h e = rw (get_val, h, e) refl

  -- Reading a range gives its values.
  pub read_loop_lem :
      (fuel : ℕ) (m : Memory A) (a z : ℕ) (qs : List ℕ) (ys : List A)
      → length qs < fuel
      → Leads m.next a qs z
      → Alive m.live qs
      → Holds m.val qs ys
      → read_loop fuel a z m ≡ returned ys m
  unfolding read_loop get_next
  read_loop_lem zero m a z qs ys f l h v = absurd (omega arith)
  read_loop_lem (suc fuel) m a z [] [] f l h v =
      let here : (a == z) ≡ true = ground (arith, l) in rw here refl
  read_loop_lem (suc fuel) m a z [] (y ∷ ys) f l h v = absurd v
  read_loop_lem (suc fuel) m a z (q ∷ qs) [] f l h v = absurd v
  read_loop_lem (suc fuel) m a z (q ∷ qs) (y ∷ ys) f l h v =
      let on : (a == z) ≡ false = ground (arith, l.0, l.1) in
      rw
        (
          on,
          l.0,
          get_val_lem m q y h.0 v.0,
          h.0,
          read_loop_lem fuel m (m.next q) z qs ys (omega arith) l.2 h.1 v.1,
        )
        refl

  -- The objects of memory where the first nodes have these values
  abbrev pub overwritten : (ℕ → Option A) → List ℕ → List A → ℕ → Option A
  overwritten val [] ys = val
  overwritten val (p ∷ ps) [] = val
  overwritten val (p ∷ ps) (y ∷ ys) = overwritten (assign val p (some y)) ps ys

  overwritten_none : (val : ℕ → Option A) (ps : List ℕ) → overwritten val ps [] ≡ val
  overwritten_none val [] = refl
  overwritten_none val (p ∷ ps) = refl

module _ {A : Type 0} (torn : A → A → A) where
  -- The values `zs` that replace the first of `xs` where an assignment of the values `ys` throws: new
  -- ones, and behind them what is left of the old value and the new one.
  abbrev pub Torn : List A → List A → List A → Type 0
  Torn [] ys zs = ⊥
  Torn (x ∷ xs) [] zs = ⊥
  Torn (x ∷ xs) (y ∷ ys) [] = ⊥
  Torn (x ∷ xs) (y ∷ ys) (z ∷ zs) = ((z ≡ torn x y) × (zs ≡ [])) ⊎ ((z ≡ y) × Torn xs ys zs)

  pub length-Torn : (xs ys zs : List A) → Torn xs ys zs → length zs ≤ length ys
  length-Torn [] ys zs h = absurd h
  length-Torn (x ∷ xs) [] zs h = absurd h
  length-Torn (x ∷ xs) (y ∷ ys) [] h = absurd h
  length-Torn (x ∷ xs) (y ∷ ys) (z ∷ zs) (inl h) = omega (arith, ap length h.1)
  length-Torn (x ∷ xs) (y ∷ ys) (z ∷ zs) (inr h) = omega (arith, length-Torn xs ys zs h.1)

  -- More values behind do not matter.
  pub Torn-append : (xs ys zs us vs : List A) → Torn xs ys zs → Torn (xs ++ us) (ys ++ vs) zs
  Torn-append [] ys zs us vs h = absurd h
  Torn-append (x ∷ xs) [] zs us vs h = absurd h
  Torn-append (x ∷ xs) (y ∷ ys) [] us vs h = absurd h
  Torn-append (x ∷ xs) (y ∷ ys) (z ∷ zs) us vs (inl h) = inl h
  Torn-append (x ∷ xs) (y ∷ ys) (z ∷ zs) us vs (inr h) = inr (h.0, Torn-append xs ys zs us vs h.1)

  set_val_lem :
      (m : Memory A) (p : ℕ) (x y : A)
      → mem p m.live ≡ true
      → m.val p ≡ some x
      → set_val torn p y m ≡ (
          if throws m.faults
          then threw (record m { val = assign m.val p (some (torn x y)); faults = later m.faults })
          else returned tt (record m { val = assign m.val p (some y); faults = later m.faults }))
  unfolding set_val
  set_val_lem m p x y h e = rw (get_val_lem m p x h e) refl

  -- Either the nodes have the new values, or an assignment has thrown and the first nodes have some.
  abbrev pub Overwritten : Memory A → List ℕ → List A → List A → ℕ → ℕ → Outcome A (ℕ × ℕ) → Type 0
  Overwritten m ps xs ys z w (returned ends m') =
      (fs : List Bool) × (ends ≡ (z, w))
      × (m' ≡ record m { val = overwritten m.val ps ys; faults = fs })
      × (Faulty fs → Faulty m.faults)
  Overwritten m ps xs ys z w (threw m') =
      (zs : List A) × (fs : List Bool) × Faulty m.faults
      × Torn xs ys zs
      × (m' ≡ record m { val = overwritten m.val ps zs; faults = fs })
  Overwritten m ps xs ys z w undefined = ⊥

  Overwritten-cons :
      (m : Memory A) (p : ℕ) (ps : List ℕ) (x y : A) (xs ys : List A) (z w : ℕ)
      (o : Outcome A (ℕ × ℕ))
      → Overwritten
          (record m { val = assign m.val p (some y); faults = later m.faults })
          ps
          xs
          ys
          z
          w
          o
      → Overwritten m (p ∷ ps) (x ∷ xs) (y ∷ ys) z w o
  Overwritten-cons m p ps x y xs ys z w (returned ends m') h =
      let (fs, e, q, f) = h in (fs, e, q, λ t. Faulty-later m.faults (f t))
  Overwritten-cons m p ps x y xs ys z w (threw m') h =
      let (zs, fs, f, t, q) = h in (y ∷ zs, fs, Faulty-later m.faults f, inr (refl, t), q)
  Overwritten-cons m p ps x y xs ys z w undefined h = absurd h

  pub overwrite_loop-Overwritten :
      (fuel : ℕ) (stop : ℕ → ℕ → Bool) (m : Memory A) (a b z w : ℕ) (ps qs : List ℕ)
      (xs ys : List A)
      → length ps < fuel
      → Leads m.next a ps z
      → Leads m.next b qs w
      → Goes stop ps qs
      → stop z w ≡ true
      → Distinct ps
      → Apart ps qs
      → Alive m.live ps
      → Alive m.live qs
      → Holds m.val ps xs
      → Holds m.val qs ys
      → Overwritten m ps xs ys z w (overwrite_loop torn fuel stop a b m)
  unfolding overwrite_loop get_next
  overwrite_loop-Overwritten zero stop m a b z w ps qs xs ys f l k g s d t h j v u =
      absurd (omega arith)
  overwrite_loop-Overwritten (suc fuel) stop m a b z w [] [] xs [] f l k g s d t h j v u =
      rw (l, k, s) (m.faults, refl, refl, λ t. t)
  overwrite_loop-Overwritten (suc fuel) stop m a b z w [] [] xs (y ∷ ys) f l k g s d t h j v u =
      absurd u
  overwrite_loop-Overwritten (suc fuel) stop m a b z w [] (q ∷ qs) xs ys f l k g s d t h j v u =
      absurd g
  overwrite_loop-Overwritten (suc fuel) stop m a b z w (p ∷ ps) [] xs ys f l k g s d t h j v u =
      absurd g
  overwrite_loop-Overwritten (suc fuel) stop m a b z w (p ∷ ps) (q ∷ qs) [] ys f l k g s d t h j v
        u =
      absurd v
  overwrite_loop-Overwritten (suc fuel) stop m a b z w (p ∷ ps) (q ∷ qs) (x ∷ xs) [] f l k g s d t h
        j v u =
      absurd u
  overwrite_loop-Overwritten (suc fuel) stop m a b z w (p ∷ ps) (q ∷ qs) (x ∷ xs) (y ∷ ys) f l k g s
        d t h j v u =
      rw (l.0, k.0, g.0, get_val_lem m q y j.0 u.0, set_val_lem m p x y h.0 v.0)
        (elim (Bool-cases (throws m.faults)) [
          | inl e ↦ rw e (
            torn x y ∷ [],
            later m.faults,
            Faulty-throws m.faults e,
            inl (refl, refl),
            ap (λ v. record m { val = v; faults = later m.faults })
                (sym (overwritten_none (assign m.val p (some (torn x y))) ps)),
          )
          | inr e ↦
              let m1 : Memory A = record m {
                val = assign m.val p (some y);
                faults = later m.faults;
              } in
              rw (e, h.0, j.0)
                (Overwritten-cons m p ps x y xs ys z w
                  (overwrite_loop torn fuel stop (m.next p) (m.next q) m1)
                  (overwrite_loop-Overwritten fuel stop m1 (m.next p) (m.next q) z w ps qs xs ys
                    (omega arith) l.2 k.2 g.1 s d.1 (Apart-right ps (q ∷ []) qs t.1) h.1 j.1
                    (Holds-assign m.val p (some y) ps xs d.0 v.1)
                    (Holds-assign m.val p (some y) qs ys t.0.1 u.1)))
        ])
