-- ===== src/Time/Order.antt =====
-- include/gpcl/time.hpp: the order of durations.
use gpcl.Base.{ℕ, ◌+◌, ◌*◌, ◌^◌, ◌<◌, ◌≡◌, not, ltb, leb, ◌==◌, arith}
use gpcl.Time.{Duration, equal, differs, less, at_most, greater, at_least}

-- The fields are within their bounds, those of `u64` and of the constructor's assert.
pub record Valid (d : Duration) : Type 0 where
  pub secs_bound : d.secs < 2 ^ 64
  pub nanos_bound : d.nanos < 1_000_000_000

-- The exact number of nanoseconds, which no word bounds
abbrev pub total : Duration → ℕ
total d = d.secs * 1_000_000_000 + d.nanos

pub less-total : (d e : Duration) → Valid d → Valid e → less d e ≡ ltb (total d) (total e)
unfolding less
less-total d e v w = ground (arith, v.nanos_bound, w.nanos_bound)

equal-total : (d e : Duration) → Valid d → Valid e → equal d e ≡ (total d == total e)
unfolding equal
equal-total d e v w = ground (arith, v.nanos_bound, w.nanos_bound)

-- On durations within their bounds the six comparisons are those of the exact numbers of nanoseconds.
pub comparisons-total :
    (d e : Duration)
    → Valid d
    → Valid e
    → (equal d e ≡ (total d == total e))
      × (differs d e ≡ not (total d == total e))
      × (less d e ≡ ltb (total d) (total e))
      × (at_most d e ≡ leb (total d) (total e))
      × (greater d e ≡ ltb (total e) (total d))
      × (at_least d e ≡ leb (total e) (total d))
unfolding equal differs less at_most greater at_least
comparisons-total d e v w = (
  equal-total d e v w,
  ground (arith, v.nanos_bound, w.nanos_bound),
  less-total d e v w,
  ground (arith, v.nanos_bound, w.nanos_bound),
  ground (arith, v.nanos_bound, w.nanos_bound),
  ground (arith, v.nanos_bound, w.nanos_bound),
)
