-- ===== src/Time/Instant.antt =====
-- include/gpcl/time.hpp: the class `instant`, a duration since the system's start.
-- The reading of the clock is an argument of `now` and `elapsed`.
use gpcl.Base.{Bool, Option}
use gpcl.Base.Results.{Result, ok, ◌>>=◌}
use gpcl.Time.Clock.{ClockError, converted, read}
use gpcl.Time.{
  Error, Duration, Timespec, from_timespec, equal, differs, less, greater, at_most, at_least,
  checked_sub, saturating_sub,
}

pub record Instant : Type 0 where
  pub since_startup : Duration

unfoldable pub now : Option Timespec → Result ClockError Instant
unfolding from_timespec
now clock = read clock >>= λ d. ok (record { since_startup = d })

unfoldable pub checked_duration_since : Instant → Instant → Result Error Duration
unfolding checked_sub
checked_duration_since t earlier = checked_sub t.since_startup earlier.since_startup

unfoldable pub saturating_duration_since : Instant → Instant → Result Error Duration
unfolding saturating_sub
saturating_duration_since t earlier = saturating_sub t.since_startup earlier.since_startup

unfoldable pub elapsed : Option Timespec → Instant → Result ClockError Duration
unfolding now saturating_duration_since
elapsed clock t = now clock >>= λ present. converted (saturating_duration_since present t)

-- The six comparisons, `==`, `!=`, `<`, `>`, `<=` and `>=`, are those of the durations.
abbrev pub is_equal : Instant → Instant → Bool
is_equal t u = equal t.since_startup u.since_startup

abbrev pub is_other : Instant → Instant → Bool
is_other t u = differs t.since_startup u.since_startup

abbrev pub is_before : Instant → Instant → Bool
is_before t u = less t.since_startup u.since_startup

abbrev pub is_after : Instant → Instant → Bool
is_after t u = greater t.since_startup u.since_startup

abbrev pub is_before_or_equal : Instant → Instant → Bool
is_before_or_equal t u = at_most t.since_startup u.since_startup

abbrev pub is_after_or_equal : Instant → Instant → Bool
is_after_or_equal t u = at_least t.since_startup u.since_startup
