-- ===== src/P2p/Records.antt =====
-- DHT records: the parts of `handle_kademlia_event`, `finish_looking_for_dht_record` and
-- `ask_kademlia_put_record` of crates/p2p/src/swarm/mod.rs that are the same with and without `byos`.
pub mod Latest
pub mod Filed
use strata_p2p.Common.{
  ℕ, Bool, false, not, Option, none, some, List, [], ◌∷◌, ◌++◌, leb, if◌then◌else◌, is_some,
}
use strata_p2p.Ids.{QueryId, PublicKey, Multiaddr, Bytes}
use strata_p2p.Map
use strata_p2p.Map.{Map}
use strata_p2p.Time.{SystemTime}
use strata_p2p.Message.{RecordData, new_record}
use strata_p2p.Message.Signed
use strata_p2p.Message.Signed.{SignedMessage, ApplicationSigner}
use strata_p2p.Envelope.{Limits, validate_record_date}
use strata_p2p.P2p.{Effect, Step, Deps, put_record, result_find_multiaddress, panicked, return_ok}

abbrev pub SignedRecord : Type 0
SignedRecord = SignedMessage RecordData

abbrev pub date_of : SignedRecord → ℕ
date_of r = r.message.date

-- The verification and the date test, in this order for both uses. An error of `verify` and an
-- invalid signature end the handler in the same way.
pub is_valid_record : Deps → Limits → SystemTime → SignedRecord → Bool
unfolding Signed.verify
is_valid_record deps limits now signed =
    elim (Signed.verify deps.record_to_vec deps.verify (λ m. m.public_key) signed) [
      | none ↦ false
      | some is_valid ↦
          if not is_valid
          then false
          else not (is_some (validate_record_date limits now signed.message.date))
    ]

-- `InboundRequest::PutRecord`: what is put into the store. `key_matches` compares the record's
-- public key with its key in the DHT, and `existing` is what the store holds under that key.
pub record_to_store :
    Deps
    → Limits
    → (key_matches : PublicKey → Bytes → Bool) → SystemTime
    → (existing : Option Bytes) → Option (Bytes × Bytes)
    → Option (Bytes × Bytes)
record_to_store deps limits key_matches now existing none = none
record_to_store deps limits key_matches now existing (some (key, value)) =
    elim (deps.record_wire.from_slice value) [
      | none ↦ none
      | some signed ↦
          if not (is_valid_record deps limits now signed)
          then none
          else if not (key_matches signed.message.public_key key)
          then none
          else elim existing [
            | none ↦ some (key, value)
            | some old_value ↦ elim (deps.record_wire.from_slice old_value) [
              | none ↦ some (key, value)
              | some old ↦ if leb (date_of signed) (date_of old) then none else some (key, value)
            ]
          ]
    ]

-- `FoundRecord`: the records of the queries with this one added, if it is accepted.
pub file_record :
    Deps
    → Limits
    → (key_matches : PublicKey → Bytes → Bool) → SystemTime
    → Map (List SignedRecord)
    → QueryId
    → Bytes
    → Bytes
    → Map (List SignedRecord)
file_record deps limits key_matches now records id key value = elim (Map.get records id) [
  | none ↦ records
  | some vec_records ↦ elim (deps.record_wire.from_slice value) [
    | none ↦ records
    | some signed ↦
        if not (key_matches signed.message.public_key key)
        then records
        else if not (is_valid_record deps limits now signed)
        then records
        else Map.insert records id (vec_records ++ signed ∷ [])
  ]
]

-- `max_by` on the dates: of equals, the last.
pub latest : SignedRecord → List SignedRecord → SignedRecord
latest x [] = x
latest x (y ∷ rest) = latest (if leb (date_of x) (date_of y) then y else x) rest

-- `finish_looking_for_dht_record`
abbrev pub result_of : List SignedRecord → Option (List Multiaddr)
result_of [] = none
result_of (r ∷ rest) = some (latest r rest).message.multiaddresses

unfoldable pub finish_looking_for_dht_record :
    {R : Type 0} → Map (List SignedRecord) → QueryId → Map (List SignedRecord) × List (Effect R)
finish_looking_for_dht_record records id = elim (Map.get records id) [
  | none ↦ (records, [])
  | some found ↦ (Map.remove records id, result_find_multiaddress (result_of found) ∷ [])
]

-- `ask_kademlia_put_record`, where `key` is the node's own key in the DHT.
unfoldable pub publish_record :
    {P R : Type 0}
    → Deps
    → ApplicationSigner
    → P
    → SystemTime
    → PublicKey
    → (key : Bytes) → List Multiaddr
    → Step P R
unfolding Signed.new new_record
publish_record deps signer p now public_key key addresses =
    elim (Signed.new deps.record_to_vec signer (new_record now public_key addresses)) [
      | none ↦ return_ok p []
      | some signed ↦ elim (deps.record_wire.to_vec signed) [
        | none ↦ record { state = p; effects = []; result = panicked }
        | some value ↦ return_ok p (put_record key value ∷ [])
      ]
    ]
