-- ===== src/Byos/Kademlia/Published.antt =====
-- The addresses that a node publishes, and those that a node that looks for it reports.
use strata_p2p.Common.{
  ◌<◌, ◌≡◌, ◌⊎◌, true, refl, ap, subst, ◌∙◌, Option, none, some, List, [], ◌∷◌, ◌++◌, arith, inl,
  inr,
}
use strata_p2p.Ids.{QueryId, Multiaddr, Bytes}
use strata_p2p.Time.{SystemTime}
use strata_p2p.Message.{RecordData, new_record, get_timestamp}
use strata_p2p.Message.Signed
use strata_p2p.Envelope.{Limits, validate_record_date}
use strata_p2p.P2p.{Effect, Deps, put_record, panicked, return_ok, result_find_multiaddress}
use strata_p2p.P2p.Kademlia.{found_record}
use strata_p2p.P2p.Records.{SignedRecord, date_of, publish_record}
use strata_p2p.P2p.Records.Filed.{IsAcceptable}
use strata_p2p.Byos.{Node, Reply}
use strata_p2p.Byos.Kademlia.{key_matches, ask_kademlia_put_record}
use strata_p2p.Byos.Kademlia.Lookup.{Occurrence, occurring, StaysOpen, Answers, IsFound}
use strata_p2p.Byos.Kademlia.Reported.{reported, reports_newest}
use strata_p2p.Byos.Messages.Reliable.{IsReliable, signed_and_written}

module _ {S Q : Type 0} (deps : Deps) (n : Node S Q)
    (reliable : IsReliable deps deps.record_wire n.signer n.config.app_public_key)
    (decodes : deps.try_decode_protobuf (deps.encode_protobuf n.config.app_public_key)
      ≡ some n.config.app_public_key)
    (sent_at : SystemTime) (key value : Bytes)
    (publishes : (ask_kademlia_put_record deps n sent_at).effects ≡ put_record key value ∷ []) where
  published_signed :
      (signed : SignedRecord) × (signed.message
        ≡ new_record sent_at n.config.app_public_key n.swarm.external_addresses)
      × (Signed.verify deps.record_to_vec deps.verify (λ r. r.public_key) signed ≡ some true)
      × (deps.record_wire.from_slice value ≡ some signed)
      × (deps.encode_protobuf n.config.app_public_key ≡ key)
  unfolding ask_kademlia_put_record publish_record
  published_signed =
      let public_key = n.config.app_public_key in
      let (signed, written, done, content, valid, decoded) =
        signed_and_written deps deps.record_wire n.signer public_key deps.record_to_vec
          (λ r. r.public_key) (new_record sent_at public_key n.swarm.external_addresses)
          (return_ok n []) (record { state = n; effects = []; result = panicked })
          (λ v. return_ok n (put_record (deps.encode_protobuf public_key) v ∷ [])) (λ s. s.effects)
          (put_record key value ∷ []) reliable (unfold new_record in refl) publishes (λ x. cc)
          (λ x. cc) in
      (
        signed,
        content,
        valid,
        subst (λ b. deps.record_wire.from_slice b ≡ some signed) (ground (arith, done)) decoded,
        ground (arith, done),
      )

  published-IsAcceptable :
      (limits : Limits) (at : SystemTime) (signed : SignedRecord)
      → signed.message ≡ new_record sent_at n.config.app_public_key n.swarm.external_addresses
      → Signed.verify deps.record_to_vec deps.verify (λ r. r.public_key) signed ≡ some true
      → deps.record_wire.from_slice value ≡ some signed
      → deps.encode_protobuf n.config.app_public_key ≡ key
      → validate_record_date limits at (get_timestamp sent_at) ≡ none
      → IsAcceptable deps limits (key_matches deps) at key value signed
  unfolding new_record key_matches
  published-IsAcceptable limits at signed content valid decoded place dated = record {
    decoded = decoded;
    verified = valid;
    dated = rw (content, new_record) dated;
    owned = rw (content, new_record, ← place, decodes) (ground arith);
  }

  IsFound-append :
      (limits : Limits) (id : QueryId) (signed : SignedRecord) (before after : List Occurrence)
      (o : Occurrence)
      → Answers deps limits id signed o
      → IsFound deps limits id signed (before ++ o ∷ after)
  IsFound-append limits id signed [] after o a = inl a
  IsFound-append limits id signed (b ∷ before) after o a =
      inr (IsFound-append limits id signed before after o a)

  -- Another node that looks for this one reports exactly the addresses that this one published, if it
  -- hears the published record before its query ends and finds the record's date valid, whatever other
  -- Kademlia events it handles meanwhile, where every other acceptable record that answers the query
  -- is older, the signer fits the key, and the serializer and the encoding of keys read back what
  -- they write.
  pub published_found :
      (other : Node S Q) (id : QueryId) (existing last : Option Bytes) (at end : SystemTime)
      (before after : List Occurrence)
      → let os = before ++ occurring existing (found_record id key value) at ∷ after in
        StaysOpen id os
        → validate_record_date other.config.limits at (get_timestamp sent_at) ≡ none
        → ((r : SignedRecord)
            → IsFound deps other.config.limits id r os
            → (deps.record_wire.from_slice value ≡ some r) ⊎ (date_of r < get_timestamp sent_at))
        → reported deps other n.config.app_public_key id os last end
          ≡ result_find_multiaddress (some n.swarm.external_addresses) ∷ []
  unfolding new_record
  published_found other id existing last at end before after stays dated older =
      let (signed, content, valid, decoded, place) = published_signed in
      let os = before ++ occurring existing (found_record id key value) at ∷ after in
      let acceptable =
        published-IsAcceptable other.config.limits at signed content valid decoded place dated in
      let found : IsFound deps other.config.limits id signed os =
        IsFound-append other.config.limits id signed before after
          (occurring existing (found_record id key value) at) (refl, acceptable) in
      elim (reports_newest deps other n.config.app_public_key id os last end stays) [
        | inl (nothing, missing) ↦ absurd (missing signed found)
        | inr (best, reports, heard, newest) ↦ elim (older best heard) [
          | inl same ↦
              let one : best ≡ signed = ground (arith, same, decoded) in
              reports
              ∙ ap report (
                  ap (λ (r : SignedRecord). r.message.multiaddresses) one
                  ∙ ap (λ (m : RecordData). m.multiaddresses) content)
          | inr past ↦
              absurd
                (omega (arith, newest signed found, ap (λ (m : RecordData). m.date) content, past))
        ]
      ]
    where
      report : List Multiaddr → List (Effect Reply)
      report addresses = result_find_multiaddress (some addresses) ∷ []
