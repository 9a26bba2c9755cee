-- ===== src/Time/Conversion.antt =====
-- include/gpcl/time.hpp: durations from numbers of a unit, their readings, and `timespec`.
use gpcl.Base.{ℕ, ◌+◌, ◌*◌, ◌/◌, ◌%◌, ◌^◌, ◌<◌, ◌≡◌, refl, ap, true, ltb, leb, some, arith}
use gpcl.Base.Results.{ok, ◌>>=◌}
use gpcl.Time.{
  Duration, duration, from_secs, from_millis, from_micros, from_nanos, as_secs, as_millis,
  as_micros, as_nanos, subsec_millis, subsec_micros, subsec_nanos, to_unsigned, to_signed,
  from_timespec, from_timespec_ptr, to_timespec,
}
use gpcl.Time.Order.{Valid, total}
use gpcl.Time.Arithmetic.{Lasts, duration-Lasts}

-- From seconds, milliseconds and nanoseconds that fit in a word the duration lasts as long as they say.
from_secs-Lasts :
    (n : ℕ)
    → n < 2 ^ 64
    → Lasts (n * 1_000_000_000) (from_secs n)
      × Lasts (n * 1_000_000) (from_millis n)
      × Lasts n (from_nanos n)
unfolding from_secs from_millis from_nanos
from_secs-Lasts n h = (
  duration-Lasts n 0 _ h (omega arith) (omega arith),
  duration-Lasts (n / 1000) _ _ (omega arith) (omega arith) (omega arith),
  duration-Lasts (n / 1_000_000_000) _ _ (omega arith) (omega arith) (omega arith),
)

asserted-Valid : (d : Duration) → Valid d → ltb d.nanos 1_000_000_000 ≡ true
asserted-Valid d v = ground (arith, v.nanos_bound)

-- Of a duration within its bounds the readings in whole seconds, milliseconds, microseconds and
-- nanoseconds are its length in that unit, rounded down, and all but the seconds modulo 2 ^ 64.
as_nanos-total :
    (d : Duration)
    → Valid d
    → (as_secs d ≡ ok (total d / 1_000_000_000))
      × (as_millis d ≡ ok (total d / 1_000_000 % 2 ^ 64))
      × (as_micros d ≡ ok (total d / 1000 % 2 ^ 64))
      × (as_nanos d ≡ ok (total d % 2 ^ 64))
unfolding as_secs as_millis as_micros as_nanos
as_nanos-total d v =
    let h = v.nanos_bound in
    let k = asserted-Valid d v in
    let s : d.secs ≡ total d / 1_000_000_000 = omega arith in
    let m : d.secs * 1000 + d.nanos / 1_000_000 ≡ total d / 1_000_000 = omega arith in
    let u : d.secs * 1_000_000 + d.nanos / 1000 ≡ total d / 1000 = omega arith in
    (
      rw k (ap ok s),
      rw k (ap (λ n. ok (n % 2 ^ 64)) m),
      rw k (ap (λ n. ok (n % 2 ^ 64)) u),
      rw k refl,
    )

-- `subsec_millis` gives the microseconds below the second, and `subsec_micros` the milliseconds.
subsec_millis-subsec_micros :
    (d : Duration)
    → Valid d
    → (subsec_millis d ≡ ok (total d % 1_000_000_000 / 1000))
      × (subsec_micros d ≡ ok (total d % 1_000_000_000 / 1_000_000))
      × (subsec_nanos d ≡ ok (total d % 1_000_000_000))
unfolding subsec_millis subsec_micros subsec_nanos
subsec_millis-subsec_micros d v =
    let h = v.nanos_bound in
    let k = asserted-Valid d v in
    let r : d.nanos ≡ total d % 1_000_000_000 = omega arith in
    (rw k (ap (λ n. ok (n / 1000)) r), rw k (ap (λ n. ok (n / 1_000_000)) r), rw k (ap ok r))

-- A number of microseconds that fits in a word comes back from a duration with those below the second
-- divided by 10.
pub as_micros-from_micros :
    (u : ℕ)
    → u < 2 ^ 64
    → (from_micros u >>= as_micros) ≡ ok (u / 1_000_000 * 1_000_000 + u % 1_000_000 / 10)
unfolding from_micros as_micros duration
as_micros-from_micros u h =
    let small : leb (u % 1_000_000 * 100 % 2 ^ 32) 999_999_999 ≡ true = ground arith in
    let valid : ltb (u % 1_000_000 * 100 % 2 ^ 32) 1_000_000_000 ≡ true = ground arith in
    let fits : (u / 1_000_000 * 1_000_000 + u % 1_000_000 * 100 % 2 ^ 32 / 1000) % 2 ^ 64
        ≡ u / 1_000_000 * 1_000_000 + u % 1_000_000 / 10 =
      omega arith in
    rw (small, valid) (ap ok fits)

-- A duration within its bounds, of fewer than 2 ^ 63 seconds, which a signed number holds, comes back
-- from its `timespec` by both overloads.
pub from_timespec-to_timespec :
    (d : Duration)
    → Valid d
    → d.secs < 2 ^ 63
    → (from_timespec (to_timespec d) ≡ ok d) × (from_timespec_ptr (some (to_timespec d)) ≡ ok d)
unfolding from_timespec from_timespec_ptr to_timespec duration to_unsigned to_signed
from_timespec-to_timespec d v b =
    let h = v.nanos_bound in
    let positive : ltb d.secs (2 ^ 63) ≡ true = ground arith in
    let fits : ltb d.nanos (2 ^ 32) ≡ true = ground arith in
    let same : d.nanos % 2 ^ 32 ≡ d.nanos = omega arith in
    let small : leb d.nanos 999_999_999 ≡ true = ground arith in
    let back : d.secs % 2 ^ 64 ≡ d.secs = omega arith in
    (rw (positive, fits, same, small, back) refl, rw (positive, same, small, back) refl)
