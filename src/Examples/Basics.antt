-- ===== src/Examples/Basics.antt =====
-- The theorems on signatures, timestamps, retries and the order of addresses.
use strata_p2p.Common.{
  ℕ, zero, suc, ◌≡◌, refl, sym, ap, is_some_and, true, false, none, some, [], ◌∷◌, arith, ◌-◌,
}
use strata_p2p.Ids.{PublicKey, Bytes}
use strata_p2p.Time.{from_secs, u64_mod}
use strata_p2p.Message.Signed
use strata_p2p.Message.Signed.{SignedMessage, ApplicationSigner, verify-new}
use strata_p2p.Envelope.{Limits, is_future, is_stale, setup_is_future, validate_record_date}
use strata_p2p.Envelope.Window.{window_iff, validate_record_date_iff, skew_wraps}
use strata_p2p.Examples.{toy_verify, limits, now}

-- A signature of 64 bytes, each of which is the key.
abbrev padded : ℕ → PublicKey → Bytes
padded zero key = []
padded (suc n) key = key ∷ padded n key

abbrev padded_sign : ApplicationSigner
padded_sign bytes = some (padded 64 7)

abbrev envelope : SignedMessage ℕ
envelope = record { message = 42; signature = padded 64 7 }

fits :
    (bytes signature : Bytes)
    → padded_sign bytes ≡ some signature
    → toy_verify 7 bytes signature ≡ true
fits bytes signature signed = sym (ap (λ o. is_some_and o (λ s. toy_verify 7 bytes s)) signed)

verify-new_example : Signed.verify (λ m. some (m ∷ [])) toy_verify (λ m. 7) envelope ≡ some true
unfolding Signed.new Signed.transport_sign
verify-new_example =
    (verify-new (λ m. some (m ∷ [])) toy_verify (λ m. 7) padded_sign 42 envelope fits refl).0

window_iff_example : (is_future limits now 990 ≡ false) × (is_stale limits now 990 ≡ false)
window_iff_example = (window_iff limits now 990 (omega arith)).1 (omega arith, omega arith)

validate_record_date_iff_example : validate_record_date limits now 990 ≡ none
unfolding is_future is_stale
validate_record_date_iff_example =
    (validate_record_date_iff limits now 990 (omega arith)).1 (ground arith, refl, refl)

-- A skew of almost `u64::MAX` seconds.
abbrev lax : Limits
lax = record { envelope_max_age = none; max_clock_skew = some (from_secs (u64_mod - 1)) }

skew_wraps_example :
    (is_future lax now 1000 ≡ true) × (setup_is_future (from_secs (u64_mod - 1)) now 1000 ≡ false)
skew_wraps_example = skew_wraps lax now 1000 (omega arith) (omega arith) (omega arith) refl
