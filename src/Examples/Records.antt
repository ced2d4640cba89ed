-- ===== src/Examples/Records.antt =====
-- The theorems on DHT records at records of the key 7.
use strata_p2p.Common.{
  ℕ, ◌≡◌, ◌≢◌, ◌==◌, refl, ap, ◌∙◌, ◌<◌, and_then, Option, none, some, [], ◌∷◌, arith, Bool,
}
use strata_p2p.Ids.{PublicKey, Bytes}
use strata_p2p.Message.Signed
use strata_p2p.Envelope.{validate_record_date}
use strata_p2p.P2p.Records.{SignedRecord, date_of, record_to_store}
use strata_p2p.P2p.Records.Filed.{IsAcceptable, record_to_store_iff}
use strata_p2p.Examples.{toy_deps, limits, now, head_or_zero, record_of}

abbrev matches : PublicKey → Bytes → Bool
matches key place = key == head_or_zero place

abbrev dated : ℕ → SignedRecord
dated d = record {
  message = record { public_key = 7; multiaddresses = d ∷ []; date = d };
  signature = 7 ∷ [];
}

abbrev value : ℕ → Bytes
value d = 7 ∷ d ∷ 7 ∷ d ∷ []

dated-IsAcceptable : IsAcceptable toy_deps limits matches now (7 ∷ []) (value 990) (dated 990)
unfolding Signed.verify validate_record_date
dated-IsAcceptable = record { decoded = refl; verified = refl; dated = refl; owned = refl }

date_or_zero : Option SignedRecord → ℕ
date_or_zero none = 0
date_or_zero (some r) = date_of r

newer :
    (old_value : Bytes) (old : SignedRecord)
    → some (value 980) ≡ some old_value
    → toy_deps.record_wire.from_slice old_value ≡ some old
    → date_of old < 990
unfolding date_or_zero
newer old_value old found decoded =
    let e : some (dated 980) ≡ some old = ap (λ o. and_then o record_of) found ∙ decoded in
    omega (arith, ap date_or_zero e)

-- The record of the time 990 replaces the one of the time 980.
record_to_store_iff_example :
    record_to_store toy_deps limits matches now (some (value 980)) (some (7 ∷ [], value 990)) ≢ none
record_to_store_iff_example =
    (record_to_store_iff toy_deps limits matches now (7 ∷ []) (value 990) (some (value 980))).1
      (dated 990, dated-IsAcceptable, newer)
