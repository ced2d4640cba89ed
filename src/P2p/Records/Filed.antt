-- ===== src/P2p/Records/Filed.antt =====
-- Which DHT records are stored and which are collected for a query.
use mathlib.Core.Option
use strata_p2p.Common.{
  ◌<◌, ◌≡◌, ◌≢◌, ◌↔◌, ◌⊎◌, Bool, true, Option, none, some, List, [], ◌∷◌, ◌++◌, arith, ◌==◌,
  if◌then◌else◌, Bool-cases, Option-cases, inl, inr,
}
use strata_p2p.Ids.{QueryId, PublicKey, Bytes}
use strata_p2p.Map
use strata_p2p.Map.{Map}
use strata_p2p.Time.{SystemTime}
use strata_p2p.Message.Signed
use strata_p2p.Envelope.{Limits, validate_record_date}
use strata_p2p.P2p.{Deps}
use strata_p2p.P2p.Records.{SignedRecord, date_of, is_valid_record, record_to_store, file_record}

module _ (deps : Deps) (limits : Limits) (key_matches : PublicKey → Bytes → Bool) where
  module _ (now : SystemTime) (key value : Bytes) where
    -- The value decodes to a record that is signed by the key that it names, whose date is valid,
    -- and whose key belongs to the place where it is stored.
    pub record IsAcceptable (signed : SignedRecord) : Type 0 where
      pub decoded : deps.record_wire.from_slice value ≡ some signed
      pub verified :
          Signed.verify deps.record_to_vec deps.verify (λ m. m.public_key) signed ≡ some true
      pub dated : validate_record_date limits now signed.message.date ≡ none
      pub owned : key_matches signed.message.public_key key ≡ true

    -- It is newer than what the store holds, if that decodes.
    abbrev pub IsNewer : Option Bytes → SignedRecord → Type 0
    IsNewer existing signed =
        (old_value : Bytes) (old : SignedRecord)
        → existing ≡ some old_value
        → deps.record_wire.from_slice old_value ≡ some old
        → date_of old < date_of signed

    IsAcceptable-of_tests :
        (signed : SignedRecord)
        → deps.record_wire.from_slice value ≡ some signed
        → is_valid_record deps limits now signed ≡ true
        → key_matches signed.message.public_key key ≡ true
        → IsAcceptable signed
    unfolding is_valid_record
    IsAcceptable-of_tests signed d v k = record {
      decoded = d;
      verified = ground arith;
      dated = ground arith;
      owned = k;
    }

    valid-IsAcceptable :
        (signed : SignedRecord)
        → IsAcceptable signed
        → is_valid_record deps limits now signed ≡ true
    unfolding is_valid_record
    valid-IsAcceptable signed h = ground (arith, h.verified, h.dated)

    pub IsAcceptable-cases :
        ((signed : SignedRecord) × IsAcceptable signed)
        ⊎ ((signed : SignedRecord) → ¬ IsAcceptable signed)
    IsAcceptable-cases = elim (Option-cases (deps.record_wire.from_slice value)) [
      | inl e ↦ inr (λ signed h. ground (arith, e, h.decoded))
      | inr (signed, e) ↦ elim (Bool-cases (is_valid_record deps limits now signed)) [
        | inl v ↦ elim (Bool-cases (key_matches signed.message.public_key key)) [
          | inl k ↦ inl (signed, IsAcceptable-of_tests signed e v k)
          | inr k ↦ inr (λ other h. ground (arith, e, k, h.decoded, h.owned))
        ]
        | inr v ↦ inr (λ other h. ground (arith, e, v, h.decoded, valid-IsAcceptable other h))
      ]
    ]

    module _ (existing : Option Bytes) where
      abbrev stored : Option (Bytes × Bytes)
      stored = record_to_store deps limits key_matches now existing (some (key, value))

      IsAcceptable-of_stored :
          stored ≢ none → (signed : SignedRecord) × IsAcceptable signed × IsNewer existing signed
      unfolding record_to_store
      IsAcceptable-of_stored kept = elim (Option-cases (deps.record_wire.from_slice value)) [
        | inl e ↦ absurd (kept (ground arith))
        | inr (signed, e) ↦ (
          signed,
          IsAcceptable-of_tests signed e (ground arith) (ground arith),
          λ old_value old found decoded. ground arith,
        )
      ]

      stored_of_acceptable :
          (signed : SignedRecord)
          → IsAcceptable signed
          → IsNewer existing signed
          → stored ≡ some (key, value)
      unfolding record_to_store
      stored_of_acceptable signed h newer = elim (Option-cases existing) [
        | inl e ↦ ground (arith, e, h.decoded, valid-IsAcceptable signed h, h.owned)
        | inr (old_value, e) ↦ elim (Option-cases (deps.record_wire.from_slice old_value)) [
          | inl e' ↦ ground (arith, e, e', h.decoded, valid-IsAcceptable signed h, h.owned)
          | inr (old, e') ↦ ground (
            arith,
            e,
            e',
            h.decoded,
            valid-IsAcceptable signed h,
            h.owned,
            newer old_value old e e',
          )
        ]
      ]

      -- A peer's record is put into the store exactly when it decodes, is signed by the key that it
      -- names, has a valid date and belongs to its place, and is newer than the record that the
      -- store holds there.
      pub record_to_store_iff :
          (stored ≢ none)
          ↔ ((signed : SignedRecord) × IsAcceptable signed × IsNewer existing signed)
      record_to_store_iff = (
        IsAcceptable-of_stored,
        λ w. let e : stored ≡ some (key, value) = stored_of_acceptable w.0 w.1 w.2 in λ gone. cc,
      )

    -- An acceptable record that is found for a query is added at the end of that query's records, if
    -- the query is known, and the records of no other query change.
    pub get-file_record :
        (records : Map (List SignedRecord)) (id j : QueryId) (signed : SignedRecord)
        → IsAcceptable signed
        → Map.get (file_record deps limits key_matches now records id key value) j ≡ (
            if id == j
            then Option.map (λ found. found ++ signed ∷ []) (Map.get records j)
            else Map.get records j)
    unfolding file_record
    get-file_record records id j signed h = elim (Option-cases (Map.get records id)) [
      | inl e ↦ ground (arith, e)
      | inr (found, e) ↦ ground (
        arith,
        e,
        h.decoded,
        valid-IsAcceptable signed h,
        h.owned,
        Map.get-insert records id j (found ++ signed ∷ []),
      )
    ]

    pub file_record_refused :
        (records : Map (List SignedRecord)) (id : QueryId)
        → ((signed : SignedRecord) → ¬ IsAcceptable signed)
        → file_record deps limits key_matches now records id key value ≡ records
    unfolding file_record
    file_record_refused records id refused =
        elim (Option-cases (deps.record_wire.from_slice value)) [
          | inl e ↦ ground (arith, e)
          | inr (signed, e) ↦ elim (Bool-cases (is_valid_record deps limits now signed)) [
            | inl v ↦ elim (Bool-cases (key_matches signed.message.public_key key)) [
              | inl k ↦ absurd (refused signed (IsAcceptable-of_tests signed e v k))
              | inr k ↦ ground (arith, e, k)
            ]
            | inr v ↦ ground (arith, e, v)
          ]
        ]
