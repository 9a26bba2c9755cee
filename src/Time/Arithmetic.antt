-- ===== src/Time/Arithmetic.antt =====
-- include/gpcl/time.hpp: sums and differences of durations, against exact numbers of nanoseconds.
use gpcl.Base.{
  ℕ, ◌+◌, ◌-◌, ◌*◌, ◌/◌, ◌%◌, ◌^◌, ◌<◌, ◌≤◌, min, ◌≡◌, refl, ◌∙◌, ◌⊎◌, inl, inr, true, false, ◌&&◌,
  ◌||◌, ltb, leb, ltb→lt, lt→ltb, if◌then◌else◌, Bool-cases, arith,
}
use mathlib.Core.Path.{ap₂}
use gpcl.Base.Results.{Result, ok, err}
use gpcl.Time.{
  Error, overflow_error, Duration, max_duration, duration, less, checked_add, saturating_add,
  difference, checked_sub, saturating_sub,
}
use gpcl.Time.Order.{Valid, total, less-total}

-- A duration within its bounds that has the given number of nanoseconds
abbrev pub Lasts : ℕ → Result Error Duration → Type 0
Lasts n (ok d) = Valid d × (total d ≡ n)
Lasts n (err e) = ⊥

-- Not both numbers of seconds are the greatest, or no second is carried.
abbrev pub Exact : Duration → Duration → Type 0
Exact d e = (d.secs + e.secs < 2 ^ 65 - 2) ⊎ (d.nanos + e.nanos < 1_000_000_000)

-- The number of nanoseconds, if it fits, or the error
abbrev pub FitsOrThrows : ℕ → Result Error Duration → Type 0
FitsOrThrows n r = if ltb n (2 ^ 64 * 1_000_000_000) then Lasts n r else (r ≡ err overflow_error)

pub duration-Lasts :
    (s n k : ℕ)
    → s < 2 ^ 64
    → n < 1_000_000_000
    → s * 1_000_000_000 + n ≡ k
    → Lasts k (duration s n)
unfolding duration
duration-Lasts s n k h l e =
    let small : leb n 999_999_999 ≡ true = ground arith in
    rw small (record { secs_bound = h; nanos_bound = l }, e)

-- Whether the sum is below one of its operands tells that it has wrapped.
wraps-sum :
    (s a b c : ℕ)
    → s ≡ (a + b + c) % 2 ^ 64
    → a < 2 ^ 64
    → b < 2 ^ 64
    → c ≤ 1
    → (a + b < 2 ^ 65 - 2) ⊎ (c ≡ 0)
    → (ltb s a || ltb s b) ≡ leb (2 ^ 64) (a + b + c)
wraps-sum s a b c e h k l x = ground arith

-- What is carried of the nanoseconds, and what is left of them
record Carried (m n c r : ℕ) : Type 0 where
  carry_bound : c ≤ 1
  rest_bound : r < 1_000_000_000
  whole : c * 1_000_000_000 + r ≡ m + n

carried :
    (m n : ℕ)
    → m < 1_000_000_000
    → n < 1_000_000_000
    → Carried m n ((m + n) % 2 ^ 32 / 1_000_000_000) ((m + n) % 2 ^ 32 % 1_000_000_000)
carried m n h k = record {
  carry_bound = omega arith;
  rest_bound = omega arith;
  whole = omega arith;
}

abbrev carry : Duration → Duration → ℕ
carry d e = (d.nanos + e.nanos) % 2 ^ 32 / 1_000_000_000

module _ (d e : Duration) (v : Valid d) (w : Valid e) where
  Exact-carry :
      (c r : ℕ) → Carried d.nanos e.nanos c r → Exact d e → (d.secs + e.secs < 2 ^ 65 - 2) ⊎ (c ≡ 0)
  Exact-carry c r k (inl h) = inl h
  Exact-carry c r k (inr h) = inr (omega (arith, k.whole))

  -- The tail that both sums share, with the seconds, the carry and the rest of the nanoseconds
  summed :
      (s c r : ℕ)
      → s ≡ (d.secs + e.secs + c) % 2 ^ 64
      → Carried d.nanos e.nanos c r
      → Exact d e
      → ((total d + total e < 2 ^ 64 * 1_000_000_000)
          × ((ltb s d.secs || ltb s e.secs) ≡ false)
          × Lasts (total d + total e) (duration s r))
        ⊎ ((2 ^ 64 * 1_000_000_000 ≤ total d + total e) × ((ltb s d.secs || ltb s e.secs) ≡ true))
  summed s c r q k x =
      let test =
        wraps-sum s d.secs e.secs c q v.secs_bound w.secs_bound k.carry_bound
          (Exact-carry c r k x) in
      elim (Bool-cases (leb (2 ^ 64) (d.secs + e.secs + c))) [
        | inl t ↦ inr (ground (arith, k.whole), test ∙ t)
        | inr t ↦
            let fits : d.secs + e.secs + c < 2 ^ 64 = ground arith in
            inl (
              omega (arith, k.whole, k.rest_bound),
              test ∙ t,
              duration-Lasts s r (total d + total e) (omega arith) k.rest_bound
                  (omega (arith, k.whole)),
            )
      ]

  asserts : (ltb d.nanos 1_000_000_000 && ltb e.nanos 1_000_000_000) ≡ true
  asserts = ground (arith, v.nanos_bound, w.nanos_bound)

  -- On durations within their bounds, unless both numbers of seconds are the greatest and a second is
  -- carried, `checked_add` gives the exact sum if it fits, and throws the overflow error if it does not.
  pub checked_add_lem : Exact d e → FitsOrThrows (total d + total e) (checked_add d e)
  unfolding checked_add
  checked_add_lem x =
      let c = carried d.nanos e.nanos v.nanos_bound w.nanos_bound in
      elim (summed (((d.secs + e.secs) % 2 ^ 64 + carry d e) % 2 ^ 64) _ _ (omega arith) c x) [
        | inl (h, t, l) ↦
            let fits : ltb (total d + total e) (2 ^ 64 * 1_000_000_000) ≡ true = ground arith in
            rw (fits, asserts, t) l
        | inr (h, t) ↦
            let over : ltb (total d + total e) (2 ^ 64 * 1_000_000_000) ≡ false = ground arith in
            rw (over, asserts, t) refl
      ]

  -- On durations within their bounds, unless both numbers of seconds are the greatest and a second is
  -- carried, `saturating_add` gives the exact sum, or the greatest duration if the sum is above it.
  pub saturating_add_lem :
      Exact d e → Lasts (min (total d + total e) (total max_duration)) (saturating_add d e)
  unfolding saturating_add
  saturating_add_lem x =
      let c = carried d.nanos e.nanos v.nanos_bound w.nanos_bound in
      elim (summed ((carry d e + d.secs + e.secs) % 2 ^ 64) _ _ (omega arith) c x) [
        | inl (h, t, l) ↦
            let least : min (total d + total e) (total max_duration) ≡ total d + total e =
              omega arith in
            rw (least, t) l
        | inr (h, t) ↦
            let least : min (total d + total e) (total max_duration) ≡ total max_duration =
              omega arith in
            rw (least, t) (record { secs_bound = omega arith; nanos_bound = omega arith }, refl)
      ]

  difference-Lasts : total e ≤ total d → Lasts (total d - total e) (difference d e)
  unfolding difference
  difference-Lasts h =
      let n = v.nanos_bound in
      let k = w.nanos_bound in
      let s = v.secs_bound in
      elim (Bool-cases (ltb d.nanos e.nanos)) [
        | inl t ↦
            let below = ltb→lt d.nanos e.nanos t in
            rw t (duration-Lasts _ _ _ (omega arith) (omega arith) (omega arith))
        | inr t ↦
            let above : e.nanos ≤ d.nanos = ground arith in
            rw t (duration-Lasts _ _ _ (omega arith) (omega arith) (omega arith))
      ]

  less-cases :
      ((less d e ≡ true) × (total d < total e)) ⊎ ((less d e ≡ false) × (total e ≤ total d))
  less-cases =
      let same = less-total d e v w in
      elim (Bool-cases (ltb (total d) (total e))) [
        | inl t ↦ inl (same ∙ t, ltb→lt _ _ t)
        | inr t ↦ inr (same ∙ t, ground arith)
      ]

  -- On durations within their bounds `checked_sub` gives the exact difference, or throws the overflow error if the first operand is
  -- the smaller one.
  pub checked_sub_lem :
      if ltb (total d) (total e)
      then checked_sub d e ≡ err overflow_error
      else Lasts (total d - total e) (checked_sub d e)
  unfolding checked_sub
  checked_sub_lem = elim less-cases [
    | inl (t, h) ↦ let below : ltb (total d) (total e) ≡ true = lt→ltb _ _ h in rw (below, t) refl
    | inr (t, h) ↦
        let above : ltb (total d) (total e) ≡ false = ground arith in
        rw (above, t) (difference-Lasts h)
  ]

  -- `saturating_sub` gives the exact difference, or zero if the first operand is the smaller one.
  saturating_sub_lem : Lasts (total d - total e) (saturating_sub d e)
  unfolding saturating_sub
  saturating_sub_lem = elim less-cases [
    | inl (t, h) ↦
        rw t (record { secs_bound = omega arith; nanos_bound = omega arith }, omega arith)
    | inr (t, h) ↦ rw t (difference-Lasts h)
  ]

abbrev pub wrapped : Duration → Duration → Duration
wrapped d e = record { secs = 2 ^ 64 - 1; nanos = d.nanos + e.nanos - 1_000_000_000 }

-- On durations within their bounds where both numbers of seconds are the greatest and a second is
-- carried, the tests for wrapping miss it: `checked_add` does not throw and `saturating_add` does not saturate, but both return the greatest
-- seconds with what is left of the nanoseconds.
pub checked_add-wraps :
    (d e : Duration)
    → Valid d
    → Valid e
    → d.secs ≡ 2 ^ 64 - 1
    → e.secs ≡ 2 ^ 64 - 1
    → 1_000_000_000 ≤ d.nanos + e.nanos
    → (checked_add d e ≡ ok (wrapped d e)) × (saturating_add d e ≡ ok (wrapped d e))
unfolding checked_add saturating_add duration
checked_add-wraps d e v w h k c =
    let n = v.nanos_bound in
    let l = w.nanos_bound in
    let one : (d.nanos + e.nanos) % 2 ^ 32 / 1_000_000_000 ≡ 1 = omega arith in
    let rest : (d.nanos + e.nanos) % 2 ^ 32 % 1_000_000_000 ≡ d.nanos + e.nanos - 1_000_000_000 =
      omega arith in
    let small : leb (d.nanos + e.nanos - 1_000_000_000) 999_999_999 ≡ true = ground arith in
    (rw (asserts d e v w, h, k, one, rest, small) refl, rw (h, k, one, rest, small) refl)

-- Two durations within their bounds with one number of nanoseconds are equal.
pub total-injective : (d e : Duration) → Valid d → Valid e → total d ≡ total e → d ≡ e
total-injective d e v w h =
    let n = v.nanos_bound in
    let k = w.nanos_bound in
    let s : d.secs ≡ e.secs = omega arith in
    let r : d.nanos ≡ e.nanos = omega arith in ap₂ (λ a b. record { secs = a; nanos = b }) s r
