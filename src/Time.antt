-- ===== src/Time.antt =====
-- `SystemTime` and `Duration` of Rust's standard library, and the clock arithmetic of the handlers.
-- A duration is its number of nanoseconds; a time is the duration since the UNIX epoch, so clocks
-- set before 1970 are left out.
use strata_p2p.Common.{ℕ, ◌+◌, ◌-◌, ◌*◌, ◌/◌, ◌%◌, ◌^◌, Option, none, some, leb, if◌then◌else◌}

abbrev pub Duration : Type 0
Duration = ℕ

abbrev pub SystemTime : Type 0
SystemTime = ℕ

abbrev pub nanos_per_sec : ℕ
nanos_per_sec = 1000000000

abbrev pub from_secs : ℕ → Duration
from_secs s = s * nanos_per_sec

abbrev pub as_secs : Duration → ℕ
as_secs d = d / nanos_per_sec

abbrev pub duration_since : SystemTime → SystemTime → Option Duration
duration_since now earlier = if leb earlier now then some (now - earlier) else none

abbrev pub u64_mod : ℕ
u64_mod = 2 ^ 64

-- `a + b` on `u64` as a release build computes it.
abbrev pub add_u64 : ℕ → ℕ → ℕ
add_u64 a b = (a + b) % u64_mod
