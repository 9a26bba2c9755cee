-- ===== src/Futex/Threads.antt =====
-- include/gpcl/detail/impl/futex_mutex.ipp: threads counted by where they stand.
use mathlib.Core.Option.{some-injective}
use gpcl.Base.{
  ℕ, zero, suc, ◌+◌, ◌≤◌, ◌≡◌, ◌≢◌, refl, sym, ◌∙◌, ltb, ltb→lt, ap, subst, inl, inr, Bool-cases,
  List, [], ◌∷◌, Option, none, some, true, false, get_elem?, replicate, if◌then◌else◌, arith,
}
use gpcl.Futex.{
  Place, outside, spinning, trying, waiting, asleep, holding, unlocking, waking, unreachable, set,
  is_asleep, any_asleep,
}

-- 1 for the threads that have the mutex
abbrev pub holds : Place → ℕ
holds holding = 1
holds unlocking = 1
holds outside = 0
holds (spinning n) = 0
holds trying = 0
holds waiting = 0
holds asleep = 0
holds waking = 0
holds unreachable = 0

-- 1 for those that will try the word again or wake another one
abbrev pub attends : Place → ℕ
attends (spinning n) = 1
attends trying = 1
attends waiting = 1
attends waking = 1
attends outside = 0
attends asleep = 0
attends holding = 0
attends unlocking = 0
attends unreachable = 0

abbrev pub sleeps : Place → ℕ
sleeps p = if is_asleep p then 1 else 0

abbrev pub failed : Place → ℕ
failed unreachable = 1
failed outside = 0
failed (spinning n) = 0
failed trying = 0
failed waiting = 0
failed asleep = 0
failed holding = 0
failed unlocking = 0
failed waking = 0

abbrev pub total : (Place → ℕ) → List Place → ℕ
total w [] = 0
total w (p ∷ ps) = w p + total w ps

-- No thread has a number beyond the last one.
abbrev IsNone : Option Place → Type 0
IsNone none = Unit
IsNone (some p) = ⊥

none-some : {p : Place} → none ≡ some p → ⊥
none-some e = subst IsNone e tt

pub total-set :
    (w : Place → ℕ) (ps : List Place) (i : ℕ) (p q : Place)
    → get_elem? ps i ≡ some p
    → total w (set ps i q) + w p ≡ total w ps + w q
total-set w [] i p q e = absurd (none-some e)
total-set w (r ∷ ps) zero p q e = omega (arith, ap w (some-injective r p e))
total-set w (r ∷ ps) (suc i) p q e = omega (arith, total-set w ps i p q e)

pub total-replicate : (w : Place → ℕ) (n : ℕ) (p : Place) → w p ≡ 0 → total w (replicate n p) ≡ 0
total-replicate w zero p e = refl
total-replicate w (suc n) p e = omega (arith, e, total-replicate w n p e)

pub any_asleep-total : (ps : List Place) → any_asleep ps ≡ false → total sleeps ps ≡ 0
any_asleep-total [] e = refl
any_asleep-total (p ∷ ps) e = elim (Bool-cases (is_asleep p)) [
  | inl t ↦
      let c : true ≡ false = subst (λ b. (if b then true else any_asleep ps) ≡ false) t e in
      absurd (ground arith)
  | inr t ↦
      let e' = subst (λ b. (if b then true else any_asleep ps) ≡ false) t e in
      rw t (omega (arith, any_asleep-total ps e'))
]

pub total-positive :
    (w : Place → ℕ) (ps : List Place) (i : ℕ) (p : Place)
    → get_elem? ps i ≡ some p
    → w p ≤ total w ps
total-positive w [] i p e = absurd (none-some e)
total-positive w (r ∷ ps) zero p e = omega (arith, ap w (some-injective r p e))
total-positive w (r ∷ ps) (suc i) p e = omega (arith, total-positive w ps i p e)

-- Two different threads both count.
pub total-pair :
    (w : Place → ℕ) (ps : List Place) (i j : ℕ) (p q : Place)
    → get_elem? ps i ≡ some p
    → get_elem? ps j ≡ some q
    → i ≢ j
    → w p + w q ≤ total w ps
total-pair w [] i j p q e f h = absurd (none-some e)
total-pair w (r ∷ ps) zero zero p q e f h = absurd (h refl)
total-pair w (r ∷ ps) zero (suc j) p q e f h =
    omega (arith, ap w (some-injective r p e), total-positive w ps j q f)
total-pair w (r ∷ ps) (suc i) zero p q e f h =
    omega (arith, ap w (some-injective r q f), total-positive w ps i p e)
total-pair w (r ∷ ps) (suc i) (suc j) p q e f h =
    omega (arith, total-pair w ps i j p q e f (λ c. h (ap suc c)))

pub get_elem?-set_other :
    (ps : List Place) (i j : ℕ) (p : Place) → i ≢ j → get_elem? (set ps j p) i ≡ get_elem? ps i
get_elem?-set_other [] i j p h = refl
get_elem?-set_other (r ∷ ps) zero zero p h = absurd (h refl)
get_elem?-set_other (r ∷ ps) (suc i) zero p h = refl
get_elem?-set_other (r ∷ ps) zero (suc j) p h = refl
get_elem?-set_other (r ∷ ps) (suc i) (suc j) p h = get_elem?-set_other ps i j p (λ e. h (ap suc e))

-- A count that is not 0 counts some thread.
pub total-find :
    (w : Place → ℕ) (ps : List Place)
    → 1 ≤ total w ps
    → (i : ℕ) × ((p : Place) × (get_elem? ps i ≡ some p) × (1 ≤ w p))
total-find w [] h = absurd (omega arith)
total-find w (p ∷ ps) h = elim (Bool-cases (ltb 0 (w p))) [
  | inl t ↦ (0, (p, refl, ltb→lt 0 (w p) t))
  | inr t ↦
      let nought : w p ≡ 0 = ground arith in
      let (i, (q, e, k)) = total-find w ps (omega arith) in (suc i, (q, e, k))
]

-- A place has one count.
pub places_differ :
    (w : Place → ℕ) (ps : List Place) (i j : ℕ) (p q : Place)
    → get_elem? ps i ≡ some p
    → get_elem? ps j ≡ some q
    → w p ≢ w q
    → i ≢ j
places_differ w ps i j p q e f h k =
    h (ap w (some-injective p q (sym e ∙ (ap (get_elem? ps) k ∙ f))))

pub total-sum :
    (w v : Place → ℕ) (ps : List Place) → total (λ p. w p + v p) ps ≡ total w ps + total v ps
total-sum w v [] = refl
total-sum w v (p ∷ ps) = omega (arith, total-sum w v ps)
