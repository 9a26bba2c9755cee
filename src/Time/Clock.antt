-- ===== src/Time/Clock.antt =====
-- include/gpcl/time.hpp: what `now` reads, a `timespec` or an error of `clock_gettime`.
use gpcl.Base.{Option, none, some}
use gpcl.Base.Results.{Result, ok, err}
use gpcl.Time.{Error, Duration, Timespec, from_timespec}

pub data ClockError : Type 0 where
  last_error : ClockError
  conversion : Error → ClockError

abbrev pub converted {ℓ} : {A : Type ℓ} → Result Error A → Result ClockError A
converted (ok a) = ok a
converted (err e) = err (conversion e)

abbrev pub read : Option Timespec → Result ClockError Duration
read none = err last_error
read (some ts) = converted (from_timespec ts)
