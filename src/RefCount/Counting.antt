-- ===== src/RefCount/Counting.antt =====
-- include/gpcl/detail/ref_count_base.hpp: what the counters count.
use gpcl.Base.{
  ℕ, zero, suc, ◌+◌, ◌-◌, ◌≤◌, ◌<◌, ◌≡◌, refl, ap, subst, ◌∙◌, ◌⊎◌, inl, inr, true, false,
  Bool-cases, Option, none, some, arith, ◌==◌, ==_iff,
}
use gpcl.RefCount.{
  State, created, Action, get, put, destroy, release, weak_get, weak_put, delete, lock, get_step,
  put_step, destroy_step, release_step, weak_get_step, weak_put_step, delete_step, lock_step, act,
  step, Enabled, Reachable, start, then_step,
}

-- 0 or 1: whether there is any
abbrev pub any : ℕ → ℕ
any zero = 0
any (suc n) = 1

-- The counters agree with what the threads hold: the strong references together hold one weak one,
-- until `put` gives it up. The object is destroyed once that is under way, and the block deleted once
-- no reference is left.
pub record Counted (s : State) : Type 0 where
  pub uses : s.use_count ≡ s.strong
  pub weaks : s.weak_count ≡ s.weak + any s.strong + s.destroying + s.releasing
  pub one_destroys : any s.strong + s.destroying + s.destroyed ≡ 1
  pub releases : s.releasing ≤ s.destroyed
  pub one_deletes : any s.weak_count + s.deleting + s.deleted ≡ 1

-- The outcome of a step: never undefined
abbrev pub StaysCounted : Option State → Type 0
StaysCounted none = ⊥
StaysCounted (some s) = Counted s

any_cases : (n : ℕ) → ((n ≡ 0) × (any n ≡ 0)) ⊎ ((0 < n) × (any n ≡ 1))
any_cases zero = inl (refl, refl)
any_cases (suc n) = inr (omega arith, refl)

-- A state is counted if it is by the plain numbers.
counted :
    (s : State) (a b : ℕ)
    → any s.strong ≡ a
    → any s.weak_count ≡ b
    → s.use_count ≡ s.strong
    → s.weak_count ≡ s.weak + a + s.destroying + s.releasing
    → a + s.destroying + s.destroyed ≡ 1
    → s.releasing ≤ s.destroyed
    → b + s.deleting + s.deleted ≡ 1
    → Counted s
counted s a b e f u w o r d = record {
  uses = u;
  weaks = omega arith;
  one_destroys = omega arith;
  releases = r;
  one_deletes = omega arith;
}

any_positive : (n : ℕ) → 0 < n → any n ≡ 1
any_positive zero h = absurd (omega arith)
any_positive (suc n) h = refl

get_step-Counted : (s : State) → Counted s → 0 < s.strong → StaysCounted (get_step s)
unfolding get_step
get_step-Counted s c e =
    let nonzero : (s.use_count == 0) ≡ false = ground (arith, c.uses) in
    let a = any_positive s.strong e in
    rw nonzero (
      counted _ 1 (any s.weak_count) (any_positive (s.strong + 1) (omega arith)) refl (omega arith)
        (omega arith) (omega arith) c.releases c.one_deletes)

put_step-Counted : (s : State) → Counted s → 0 < s.strong → StaysCounted (put_step s)
unfolding put_step
put_step-Counted s c e = elim (Bool-cases (s.use_count == 1)) [
  | inl t ↦
      let nonzero : (s.use_count == 0) ≡ false = ground (arith, c.uses) in
      let last : s.strong - 1 ≡ 0 = ground (arith, c.uses) in
      let a = any_positive s.strong e in
      rw (nonzero, t)
        (counted _ 0 (any s.weak_count) (ap any last) refl (omega arith) (omega arith) (omega arith)
          c.releases c.one_deletes)
  | inr t ↦
      let nonzero : (s.use_count == 0) ≡ false = ground (arith, c.uses) in
      let more : 0 < s.strong - 1 = ground (arith, c.uses) in
      let a = any_positive s.strong e in
      rw (nonzero, t)
        (counted _ 1 (any s.weak_count) (any_positive (s.strong - 1) more) refl
          (omega (arith, c.uses)) (omega arith) (omega arith) c.releases c.one_deletes)
]

destroy_step-Counted : (s : State) → Counted s → 0 < s.destroying → StaysCounted (destroy_step s)
unfolding destroy_step
destroy_step-Counted s c e =
    counted _ (any s.strong) (any s.weak_count) refl refl c.uses (omega (arith, c.weaks))
      (omega (arith, c.one_destroys)) (omega (arith, c.releases, c.one_destroys)) c.one_deletes

-- One fewer: whether any is left
left : (n : ℕ) → any n ≡ 1 → ((n ≡ 1) ⊎ (any (n - 1) ≡ 1))
left zero h = absurd (omega arith)
left (suc n) h = elim (any_cases n) [
  | inl z ↦ inl (omega arith)
  | inr p ↦ inr (ap any (omega arith) ∙ p.1)
]

release_step-Counted : (s : State) → Counted s → 0 < s.releasing → StaysCounted (release_step s)
unfolding release_step
release_step-Counted s c e =
    let b = any_positive s.weak_count (omega (arith, c.weaks)) in
    elim (Bool-cases (s.weak_count == 1)) [
      | inl t ↦
          let one : s.weak_count ≡ 1 = (==_iff s.weak_count 1).0 t in
          rw t (
            counted _ (any s.strong) 0 refl refl c.uses (omega (arith, c.weaks)) c.one_destroys
              (omega (arith, c.releases)) (omega (arith, c.one_deletes)))
      | inr t ↦
          let more : 0 < s.weak_count - 1 = ground (arith, c.weaks) in
          rw t (
            counted _ (any s.strong) 1 refl (any_positive (s.weak_count - 1) more) c.uses
              (omega (arith, c.weaks)) c.one_destroys (omega (arith, c.releases))
              (omega (arith, c.one_deletes)))
    ]

weak_get_step-Counted :
    (s : State) → Counted s → (0 < s.strong) ⊎ (0 < s.weak) → StaysCounted (weak_get_step s)
unfolding weak_get_step
weak_get_step-Counted s c e =
    let held : 0 < s.weak_count = elim e [
      | inl h ↦ omega (arith, c.weaks, any_positive s.strong h)
      | inr h ↦ omega (arith, c.weaks)
    ] in
    let nonzero : (s.weak_count == 0) ≡ false = ground arith in
    let b = any_positive s.weak_count held in
    rw nonzero (
      counted _ (any s.strong) 1 refl (any_positive (s.weak_count + 1) (omega arith)) c.uses
        (omega (arith, c.weaks)) c.one_destroys c.releases (omega (arith, c.one_deletes)))

weak_put_step-Counted : (s : State) → Counted s → 0 < s.weak → StaysCounted (weak_put_step s)
unfolding weak_put_step
weak_put_step-Counted s c e =
    let b = any_positive s.weak_count (omega (arith, c.weaks)) in
    let nonzero : (s.weak_count == 0) ≡ false = ground (arith, c.weaks) in
    elim (Bool-cases (s.weak_count == 1)) [
      | inl t ↦
          let one : s.weak_count ≡ 1 = (==_iff s.weak_count 1).0 t in
          let unused : (s.use_count == 0) ≡ true =
            ground (arith, c.uses, c.weaks, any_cases s.strong) in
          rw (nonzero, t, unused)
            (counted _ (any s.strong) 0 refl refl c.uses (omega (arith, c.weaks)) c.one_destroys
              c.releases (omega (arith, c.one_deletes)))
      | inr t ↦
          let more : 0 < s.weak_count - 1 = ground (arith, c.weaks) in
          rw (nonzero, t)
            (counted _ (any s.strong) 1 refl (any_positive (s.weak_count - 1) more) c.uses
              (omega (arith, c.weaks)) c.one_destroys c.releases (omega (arith, c.one_deletes)))
    ]

delete_step-Counted : (s : State) → Counted s → 0 < s.deleting → StaysCounted (delete_step s)
unfolding delete_step
delete_step-Counted s c e =
    counted _ (any s.strong) (any s.weak_count) refl refl c.uses c.weaks c.one_destroys c.releases
      (omega (arith, c.one_deletes))

lock_step-Counted : (old : ℕ) (s : State) → Counted s → 0 < s.weak → StaysCounted (lock_step old s)
unfolding lock_step
lock_step-Counted old s c e =
    let nonzero : (s.weak_count == 0) ≡ false = ground (arith, c.weaks) in
    elim (Bool-cases (old == 0)) [
      | inl z ↦ rw (nonzero, z) c
      | inr z ↦ elim (Bool-cases (s.use_count == old)) [
        | inr t ↦ rw (nonzero, z, t) c
        | inl t ↦
            let same : s.use_count ≡ old = (==_iff s.use_count old).0 t in
            let held : 0 < s.strong = ground (arith, c.uses) in
            let a = any_positive s.strong held in
            rw (nonzero, z, t)
              (counted _ 1 (any s.weak_count) (any_positive (s.strong + 1) (omega arith)) refl
                (omega (arith, c.uses)) (omega (arith, c.weaks)) (omega (arith, c.one_destroys))
                c.releases c.one_deletes)
      ]
    ]

act-Counted : (a : Action) (s : State) → Counted s → Enabled a s → StaysCounted (act a s)
unfolding act
act-Counted get s c e = get_step-Counted s c e
act-Counted put s c e = put_step-Counted s c e
act-Counted destroy s c e = destroy_step-Counted s c e
act-Counted release s c e = release_step-Counted s c e
act-Counted weak_get s c e = weak_get_step-Counted s c e
act-Counted weak_put s c e = weak_put_step-Counted s c e
act-Counted delete s c e = delete_step-Counted s c e
act-Counted (lock old) s c e = lock_step-Counted old s c e

-- A thread that can make a step finds the control block in place.
Enabled-present : (a : Action) (s : State) → Counted s → Enabled a s → s.deleted ≡ 0
Enabled-present get s c e =
    omega (arith, c.weaks, c.one_deletes, any_positive s.strong e, any_cases s.weak_count)
Enabled-present put s c e =
    omega (arith, c.weaks, c.one_deletes, any_positive s.strong e, any_cases s.weak_count)
Enabled-present destroy s c e = omega (arith, c.weaks, c.one_deletes, any_cases s.weak_count)
Enabled-present release s c e = omega (arith, c.weaks, c.one_deletes, any_cases s.weak_count)
Enabled-present weak_get s c (inl e) =
    omega (arith, c.weaks, c.one_deletes, any_positive s.strong e, any_cases s.weak_count)
Enabled-present weak_get s c (inr e) = omega (arith, c.weaks, c.one_deletes, any_cases s.weak_count)
Enabled-present weak_put s c e = omega (arith, c.weaks, c.one_deletes, any_cases s.weak_count)
Enabled-present delete s c e = omega (arith, c.one_deletes)
Enabled-present (lock old) s c e = omega (arith, c.weaks, c.one_deletes, any_cases s.weak_count)

-- In a state where the counters count what threads hold, every step that a thread may make is defined:
-- no assert fails and the control block is there. The counters count what is held behind it too.
step-Counted : (a : Action) (s : State) → Counted s → Enabled a s → StaysCounted (step a s)
unfolding step
step-Counted a s c e =
    let present : (s.deleted == 0) ≡ true = ground (arith, Enabled-present a s c e) in
    rw present (act-Counted a s c e)

created-Counted : Counted created
created-Counted = record {
  uses = refl;
  weaks = refl;
  one_destroys = refl;
  releases = omega arith;
  one_deletes = refl;
}

Reachable-Counted : (s : State) → Reachable s → Counted s
Reachable-Counted s start = created-Counted
Reachable-Counted s (then_step {s = before} a r e h) =
    subst StaysCounted h (step-Counted a before (Reachable-Counted before r) e)

-- In every state that a run reaches the object is destroyed at most once, and not while a strong
-- reference is held; the control block is deleted at most once, and not while any reference is held.
pub Reachable-safe :
    (s : State)
    → Reachable s
    → (s.destroyed ≤ 1)
      × (0 < s.strong → s.destroyed ≡ 0)
      × (s.deleted ≤ 1)
      × ((0 < s.strong) ⊎ (0 < s.weak) → s.deleted ≡ 0)
Reachable-safe s r =
    let c = Reachable-Counted s r in
    (
      omega (arith, c.one_destroys),
      λ h. omega (arith, c.one_destroys, any_positive s.strong h),
      omega (arith, c.one_deletes),
      λ h. Enabled-present weak_get s c h,
    )

-- When a run comes to rest with no reference held and no thread between two steps, the object has been
-- destroyed and the control block deleted, each exactly once.
pub Reachable-complete :
    (s : State)
    → Reachable s
    → s.strong ≡ 0
    → s.weak ≡ 0
    → s.destroying ≡ 0
    → s.releasing ≡ 0
    → s.deleting ≡ 0
    → (s.destroyed ≡ 1) × (s.deleted ≡ 1)
Reachable-complete s r a b d e f =
    let c = Reachable-Counted s r in
    (
      omega (arith, c.one_destroys, any_cases s.strong),
      omega (arith, c.one_deletes, c.weaks, any_cases s.strong, any_cases s.weak_count),
    )
