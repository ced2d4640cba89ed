-- ===== src/Envelope.antt =====
-- The timestamp tests of the handlers: `date` is an envelope's time in seconds, `now` the system
-- clock. crates/p2p/src/swarm/mod.rs for gossip, requests, responses and DHT records,
-- crates/p2p/src/swarm/setup/handler.rs for the setup handshake.
pub mod Window
use strata_p2p.Common.{
  ℕ, ◌+◌, ◌-◌, ◌==◌, Bool, false, Option, none, some, ltb, if◌then◌else◌, unwrap_or,
}
use strata_p2p.Time.{SystemTime, Duration, from_secs, as_secs, add_u64, u64_mod}

-- The tunables of `P2PConfig` that bound timestamps.
pub record Limits : Type 0 where
  pub envelope_max_age : Option Duration
  pub max_clock_skew : Option Duration

abbrev pub default_envelope_max_age : Duration
default_envelope_max_age = from_secs 300

abbrev pub max_age_of : Limits → Duration
max_age_of c = unwrap_or c.envelope_max_age default_envelope_max_age

abbrev pub clock_skew_of : Limits → Duration
clock_skew_of c = unwrap_or c.max_clock_skew (from_secs 0)

-- `date > now_secs + max_clock_skew.as_secs()`, a sum of two `u64`
unfoldable pub is_future : Limits → SystemTime → ℕ → Bool
is_future c now date = ltb (add_u64 (as_secs now) (as_secs (clock_skew_of c))) date

-- `Duration::from_secs(now_secs.saturating_sub(date)) > max_age`
unfoldable pub is_stale : Limits → SystemTime → ℕ → Bool
is_stale c now date = ltb (max_age_of c) (from_secs (as_secs now - date))

-- The test of `SetupHandler::on_connection_event`, where the handler has the two limits.
unfoldable pub setup_is_stale : Duration → SystemTime → ℕ → Bool
setup_is_stale envelope_max_age now date = ltb envelope_max_age (from_secs (as_secs now - date))

unfoldable pub setup_is_future : Duration → SystemTime → ℕ → Bool
setup_is_future max_clock_skew now date =
    let now_secs = as_secs now in
    if ltb now_secs date then ltb max_clock_skew (from_secs (date - now_secs)) else false

pub data DateError : Type 0 where
  date_is_max date_in_future date_too_old : DateError

-- `validate_record_date`, with `none` for `Ok(())`. Only a clock before 1970 gives its fourth error.
unfoldable pub validate_record_date : Limits → SystemTime → ℕ → Option DateError
validate_record_date c now date =
    if date == u64_mod - 1
    then some date_is_max
    else if ltb (add_u64 (as_secs now) (as_secs (clock_skew_of c))) date
    then some date_in_future
    else if ltb (as_secs (max_age_of c)) (as_secs now - date)
    then some date_too_old
    else none
