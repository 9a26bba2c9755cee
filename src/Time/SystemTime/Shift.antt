-- ===== src/Time/SystemTime/Shift.antt =====
-- include/gpcl/time.hpp: times moved by a duration and back.
use gpcl.Base.{
  ℕ, ◌+◌, ◌-◌, ◌*◌, ◌^◌, ◌<◌, ◌≡◌, refl, ap, inl, false, ltb, lt→ltb, if◌then◌else◌, ◌≤◌, subst,
  arith, ◌∙◌,
}
use gpcl.Base.Results.{Result, ok, err}
use gpcl.Time.{Error, overflow_error, Duration, checked_sub}
use gpcl.Time
use gpcl.Time.Order.{Valid, total}
use gpcl.Time.Arithmetic.{Lasts, total-injective, checked_add_lem, checked_sub_lem}
use gpcl.Time.SystemTime.{SystemTime, checked_add, checked_sub_time, checked_sub_duration}

-- A result that lasts a number of nanoseconds is a duration that does.
Lasts-ok :
    (n : ℕ) (r : Result Error Duration)
    → Lasts n r
    → (d : Duration) × (r ≡ ok d) × Valid d × (total d ≡ n)
Lasts-ok n (ok d) l = (d, refl, l.0, l.1)
Lasts-ok n (err e) l = absurd l

sum_returned :
    (d e : Duration)
    → Valid d
    → Valid e
    → total d + total e < 2 ^ 64 * 1_000_000_000
    → (u : Duration) × (Time.checked_add d e ≡ ok u) × Valid u × (total u ≡ total d + total e)
sum_returned d e v w h = Lasts-ok _ _ (
    subst
      (λ b.
        if b
        then Lasts (total d + total e) (Time.checked_add d e)
        else (Time.checked_add d e ≡ err overflow_error))
      (lt→ltb _ _ h) (checked_add_lem d e v w (inl (omega arith))))

subtracted :
    (d e : Duration)
    → Valid d
    → Valid e
    → total e ≤ total d
    → (u : Duration) × (checked_sub d e ≡ ok u) × Valid u × (total u ≡ total d - total e)
subtracted d e v w h =
    let above : ltb (total d) (total e) ≡ false = ground arith in
    Lasts-ok _ _ (
      subst
        (λ b.
          if b
          then checked_sub d e ≡ err overflow_error
          else Lasts (total d - total e) (checked_sub d e))
        above (checked_sub_lem d e v w))

-- Taking a duration off what it was added to gives it back.
removed :
    (d e u : Duration)
    → Valid d
    → Valid e
    → Valid u
    → total u ≡ total d + total e
    → checked_sub u e ≡ ok d
removed d e u v w x h =
    let (r, q, y, k) = subtracted u e x w (omega arith) in
    q ∙ ap ok (total-injective r d y v (omega arith))

-- Where a time and a duration last fewer than 2 ^ 64 seconds together, adding the duration succeeds;
-- taking it off again gives the time back, and taking the time off gives the duration.
pub checked_sub-checked_add :
    (t : SystemTime) (d : Duration)
    → Valid t.since_epoch
    → Valid d
    → total t.since_epoch + total d < 2 ^ 64 * 1_000_000_000
    → (u : SystemTime) × (checked_add t d ≡ ok u)
      × (checked_sub_duration u d ≡ ok t)
      × (checked_sub_time u t ≡ ok d)
unfolding checked_add checked_sub_duration checked_sub_time
checked_sub-checked_add t d v w h =
    let (u, e, x, k) = sum_returned t.since_epoch d v w h in
    let back = removed t.since_epoch d u v w x k in
    let other = removed d t.since_epoch u w v x (omega arith) in
    (record { since_epoch = u }, rw e refl, rw back refl, other)
