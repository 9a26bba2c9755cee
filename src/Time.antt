-- ===== src/Time.antt =====
-- include/gpcl/time.hpp: the class `duration`, seconds and the nanoseconds below one second.
-- Both are machine words, `u64` and `u32`, whose wrap-around is written out. `GPCL_ASSERT` calls its
-- handler in every build, and is an error here beside `std::overflow_error`.
pub mod Clock
pub mod Instant
pub mod SystemTime
pub mod Order
pub mod Arithmetic
pub mod Conversion
use gpcl.Base.{
  ℕ, ◌+◌, ◌-◌, ◌*◌, ◌/◌, ◌%◌, ◌^◌, Bool, true, false, not, ◌&&◌, ◌||◌, Option, none, some, ltb, leb,
  ◌==◌, if◌then◌else◌,
}
use gpcl.Base.Int.{ℤ, pos, negsuc}
use gpcl.Base.Results.{Result, ok, err, ◌>>=◌}

pub data Error : Type 0 where
  overflow_error assertion_failure : Error

pub record Duration : Type 0 where
  pub secs : ℕ
  pub nanos : ℕ

abbrev pub second_nanos : ℕ
second_nanos = 1_000_000_000

abbrev pub zero_duration : Duration
zero_duration = record { secs = 0; nanos = 0 }

abbrev pub max_duration : Duration
max_duration = record { secs = 2 ^ 64 - 1; nanos = 999_999_999 }

-- The constructor, with its assert
unfoldable pub duration : ℕ → ℕ → Result Error Duration
duration secs nanos =
    if leb nanos 999_999_999
    then ok (record { secs = secs; nanos = nanos })
    else err assertion_failure

unfoldable pub from_secs : ℕ → Result Error Duration
unfolding duration
from_secs secs = duration secs 0

unfoldable pub from_millis : ℕ → Result Error Duration
unfolding duration
from_millis millis = duration (millis / 1000) (millis % 1000 * 1_000_000 % 2 ^ 32)

unfoldable pub from_micros : ℕ → Result Error Duration
unfolding duration
from_micros micros = duration (micros / 1_000_000) (micros % 1_000_000 * 100 % 2 ^ 32)

unfoldable pub from_nanos : ℕ → Result Error Duration
unfolding duration
from_nanos nanos = duration (nanos / 1_000_000_000) (nanos % 1_000_000_000)

-- The assert `nanos_ < 1'000'000'000` in front of a result
abbrev pub asserted {ℓ} : {A : Type ℓ} → Duration → A → Result Error A
asserted d a = if ltb d.nanos second_nanos then ok a else err assertion_failure

unfoldable pub is_zero : Duration → Result Error Bool
is_zero d = asserted d (d.secs == 0 && d.nanos == 0)

unfoldable pub as_secs : Duration → Result Error ℕ
as_secs d = asserted d d.secs

unfoldable pub subsec_millis : Duration → Result Error ℕ
subsec_millis d = asserted d (d.nanos / 1000)

unfoldable pub subsec_micros : Duration → Result Error ℕ
subsec_micros d = asserted d (d.nanos / 1_000_000)

unfoldable pub subsec_nanos : Duration → Result Error ℕ
subsec_nanos d = asserted d d.nanos

unfoldable pub as_millis : Duration → Result Error ℕ
as_millis d = asserted d ((d.secs * 1000 + d.nanos / 1_000_000) % 2 ^ 64)

unfoldable pub as_micros : Duration → Result Error ℕ
as_micros d = asserted d ((d.secs * 1_000_000 + d.nanos / 1000) % 2 ^ 64)

unfoldable pub as_nanos : Duration → Result Error ℕ
as_nanos d = asserted d ((d.secs * 1_000_000_000 + d.nanos) % 2 ^ 64)

-- `operator==`, `!=`, `<`, `<=`, `>` and `>=`
unfoldable pub equal : Duration → Duration → Bool
equal d e = d.secs == e.secs && d.nanos == e.nanos

unfoldable pub differs : Duration → Duration → Bool
differs d e = not (d.secs == e.secs) || not (d.nanos == e.nanos)

unfoldable pub less : Duration → Duration → Bool
less d e = ltb d.secs e.secs || (d.secs == e.secs && ltb d.nanos e.nanos)

unfoldable pub at_most : Duration → Duration → Bool
unfolding less equal
at_most d e = less d e || equal d e

unfoldable pub greater : Duration → Duration → Bool
unfolding less differs
greater d e = less e d && differs d e

unfoldable pub at_least : Duration → Duration → Bool
unfolding less equal
at_least d e = less e d || equal d e

-- The asserts are the inner tests; the sum of the nanoseconds is a `u32`.
unfoldable pub checked_add : Duration → Duration → Result Error Duration
unfolding duration
checked_add d e =
    let nanos = (d.nanos + e.nanos) % 2 ^ 32 in
    let secs = ((d.secs + e.secs) % 2 ^ 64 + nanos / second_nanos) % 2 ^ 64 in
    if ltb d.nanos second_nanos && ltb e.nanos second_nanos
    then (if ltb secs d.secs || ltb secs e.secs
        then err overflow_error
        else duration secs (nanos % second_nanos))
    else err assertion_failure

unfoldable pub saturating_add : Duration → Duration → Result Error Duration
unfolding duration
saturating_add d e =
    let nanos = (d.nanos + e.nanos) % 2 ^ 32 in
    let secs = (nanos / second_nanos + d.secs + e.secs) % 2 ^ 64 in
    if ltb secs d.secs || ltb secs e.secs
    then ok max_duration
    else duration secs (nanos % second_nanos)

-- What both subtractions return when the first operand is not the smaller one
unfoldable pub difference : Duration → Duration → Result Error Duration
unfolding duration
difference d e =
    if ltb d.nanos e.nanos
    then duration ((d.secs + 2 ^ 64 - e.secs + 2 ^ 64 - 1) % 2 ^ 64)
        ((second_nanos + d.nanos + 2 ^ 32 - e.nanos) % 2 ^ 32)
    else duration ((d.secs + 2 ^ 64 - e.secs) % 2 ^ 64) ((d.nanos + 2 ^ 32 - e.nanos) % 2 ^ 32)

unfoldable pub checked_sub : Duration → Duration → Result Error Duration
unfolding less difference
checked_sub d e = if less d e then err overflow_error else difference d e

unfoldable pub saturating_sub : Duration → Duration → Result Error Duration
unfolding less difference
saturating_sub d e = if less d e then ok zero_duration else difference d e

-- `timespec`, whose fields are signed and have 64 bits
pub record Timespec : Type 0 where
  pub tv_sec : ℤ
  pub tv_nsec : ℤ

-- A signed number of 64 bits as an unsigned one of `w` bits, and back from 64 bits
unfoldable pub to_unsigned : ℕ → ℤ → ℕ
to_unsigned m (pos n) = n % m
to_unsigned m (negsuc n) = m - 1 - n % m

unfoldable pub to_signed : ℕ → ℤ
to_signed n = if ltb n (2 ^ 63) then pos n else negsuc (2 ^ 64 - 1 - n)

-- Whether `narrow_cast<u32>` of a signed number of 64 bits gives the number back
abbrev pub fits_u32 : ℤ → Bool
fits_u32 (pos n) = ltb n (2 ^ 32)
fits_u32 (negsuc n) = false

-- The overload for a pointer, which is null or not, converts without a check.
unfoldable pub from_timespec_ptr : Option Timespec → Result Error Duration
unfolding to_unsigned duration
from_timespec_ptr none = err assertion_failure
from_timespec_ptr (some ts) =
    duration (to_unsigned (2 ^ 64) ts.tv_sec) (to_unsigned (2 ^ 32) ts.tv_nsec)

-- `narrow_cast` between signed and unsigned numbers of one size converts and asserts that the number
-- comes back, as every one does, although its documentation leaves a value that the other type cannot
-- hold undefined.
unfoldable pub from_timespec : Timespec → Result Error Duration
unfolding to_unsigned duration
from_timespec ts =
    if fits_u32 ts.tv_nsec
    then duration (to_unsigned (2 ^ 64) ts.tv_sec) (to_unsigned (2 ^ 32) ts.tv_nsec)
    else err assertion_failure

unfoldable pub to_timespec : Duration → Timespec
unfolding to_signed
to_timespec d = record { tv_sec = to_signed d.secs; tv_nsec = pos d.nanos }
