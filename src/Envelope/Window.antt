-- ===== src/Envelope/Window.antt =====
-- The timestamp tests against the window of dates that they stand for.
use strata_p2p.Common.{ℕ, ◌+◌, ◌-◌, ◌≤◌, ◌<◌, ◌≡◌, ◌≢◌, refl, ◌↔◌, true, false, none, arith, ltb}
use strata_p2p.Time.{SystemTime, Duration, as_secs, from_secs, add_u64, u64_mod}
use strata_p2p.Envelope.{
  Limits, max_age_of, clock_skew_of, is_future, is_stale, setup_is_stale, setup_is_future,
  validate_record_date,
}

-- A whole number of seconds is longer than a duration exactly when it is above its whole seconds.
ltb-from_secs : (d : Duration) (s : ℕ) → ltb d (from_secs s) ≡ ltb (as_secs d) s
ltb-from_secs d s = ground arith

module _ (c : Limits) (now : SystemTime) (date : ℕ) where
  -- the clock plus the skew fits `u64`
  module _ (fits : as_secs now + as_secs (clock_skew_of c) < u64_mod) where
    add_fits :
        add_u64 (as_secs now) (as_secs (clock_skew_of c)) ≡ as_secs now + as_secs (clock_skew_of c)
    add_fits = omega arith

    -- Where the clock plus the skew fits `u64`: a gossip or request-response envelope passes both
    -- timestamp tests exactly when its date is at most the clock plus the skew and at least the
    -- clock minus the age, in whole seconds.
    pub window_iff : ((is_future c now date ≡ false) × (is_stale c now date ≡ false)) ↔ (
        (date ≤ as_secs now + as_secs (clock_skew_of c))
        × (as_secs now ≤ date + as_secs (max_age_of c)))
    unfolding is_future is_stale
    window_iff = rw (add_fits, ltb-from_secs (max_age_of c) (as_secs now - date)) (ground arith)

    -- The handshake's tests agree with the ones on the other envelopes.
    setup_tests_eq :
        (setup_is_future (clock_skew_of c) now date ≡ is_future c now date)
        × (setup_is_stale (max_age_of c) now date ≡ is_stale c now date)
    unfolding is_future setup_is_future is_stale setup_is_stale
    setup_tests_eq =
        (rw (add_fits, ltb-from_secs (clock_skew_of c) (date - as_secs now)) (ground arith), refl)

    -- Where the clock plus the skew fits `u64`: a DHT record's date is accepted exactly when an
    -- envelope with that date passes both tests and it is not the largest `u64`.
    pub validate_record_date_iff :
        (validate_record_date c now date ≡ none)
        ↔ ((date ≢ u64_mod - 1) × (is_future c now date ≡ false) × (is_stale c now date ≡ false))
    unfolding is_future is_stale validate_record_date
    validate_record_date_iff = rw (ltb-from_secs (max_age_of c) (as_secs now - date)) (ground arith)

  -- Where the sum of clock and skew wraps around, an envelope dated now is rejected as one from the
  -- future, while the handshake accepts that date.
  pub skew_wraps :
      as_secs now < u64_mod
      → as_secs (clock_skew_of c) < u64_mod
      → u64_mod ≤ as_secs now + as_secs (clock_skew_of c)
      → date ≡ as_secs now
      → (is_future c now date ≡ true) × (setup_is_future (clock_skew_of c) now date ≡ false)
  unfolding is_future setup_is_future
  skew_wraps h₁ h₂ wraps e = (ground arith, ground arith)
