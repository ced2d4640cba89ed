-- ===== src/Examples/Travels.antt =====
-- Answers, gossip messages and addresses on their way between two nodes with `byos`.
use strata_p2p.Common.{◌≡◌, ◌<◌, ◌⊎◌, refl, true, none, some, List, [], ◌∷◌, ◌++◌, arith, inl, inr}
use strata_p2p.P2p.{result_find_multiaddress}
use strata_p2p.P2p.Gossip.Delivery
use strata_p2p.P2p.Publish.{handle_gossip_command}
use strata_p2p.P2p.RawCodec.{Maxima, io_ok, all_written, read_response, write_response}
use strata_p2p.P2p.ReqResp.{sent, answer_request, deliver_request, open_request, is_wrong_envelope}
use strata_p2p.P2p.Response.ResponseDelivery
use strata_p2p.Byos.Messages.{handle_gossip_msg, handle_request, handle_response}
use strata_p2p.Byos.Messages.Reliable.{IsReliable}
use strata_p2p.Byos.Messages.Answers.{answer_arrives}
use strata_p2p.Byos.Messages.Spreads.{gossip_arrives}
use strata_p2p.Map
use strata_p2p.Ids.{Bytes}
use strata_p2p.Message.{new_gossip, new_response, new_record, get_timestamp, protocol_eq}
use strata_p2p.Message.Signed
use strata_p2p.Envelope.{is_future, is_stale, validate_record_date}
use strata_p2p.P2p.Kademlia.{found_record, get_record_finished}
use strata_p2p.P2p.Records.{SignedRecord, date_of, publish_record}
use strata_p2p.Setup.Behaviour
use strata_p2p.Setup.Behaviour.{get_app_public_key_by_transport_id}
use strata_p2p.Byos.Messages.{is_barred}
use strata_p2p.Byos.Messages.Allowed.{IsAdmitted}
use strata_p2p.Byos.Kademlia.{ask_kademlia_put_record}
use strata_p2p.Byos.Kademlia.Lookup.{Occurrence, occurring, StaysOpen, IsFound}
use strata_p2p.Byos.Kademlia.Reported.{Reports, reported, reports_newest}
use strata_p2p.Byos.Kademlia.Published.{published_found}
use strata_p2p.Examples.{limits, now, signer_of}
use strata_p2p.Examples.Paths.{deps, sender, receiver, clock}

seven_answers : IsReliable deps deps.response_wire (signer_of 7) 7
seven_answers = record {
  signs = λ bytes signature e. ground arith;
  reads_back = λ signed bytes e. ground arith;
}

five_gossips : IsReliable deps deps.gossip_wire (signer_of 5) 5
five_gossips = record {
  signs = λ bytes signature e. ground arith;
  reads_back = λ signed bytes e. ground arith;
}

five_records : IsReliable deps deps.record_wire (signer_of 5) 5
five_records = record {
  signs = λ bytes signature e. ground arith;
  reads_back = λ signed bytes e. ground arith;
}

seven-IsAdmitted : IsAdmitted deps sender 107 7
unfolding get_app_public_key_by_transport_id Behaviour.on_connection_handler_event Behaviour.new
    Map.insert Map.get
seven-IsAdmitted = record { allowed = refl; mapped = refl }

abbrev larger : Maxima
larger = record { request_size_maximum = 5; response_size_maximum = 10 }

-- The receiver answers 44 to the question 42.
answer_arrives_example :
    (arrived : Bytes) × (read_response larger
        (write_response (7 ∷ 1000 ∷ 7 ∷ 44 ∷ []) all_written).1
      ≡ io_ok arrived)
    × (ResponseDelivery.responses (handle_response deps sender 107 arrived clock sent).effects
        ≡ (44 ∷ []) ∷ [])
unfolding handle_request open_request is_barred is_wrong_envelope is_future is_stale protocol_eq
    deliver_request answer_request get_app_public_key_by_transport_id
    Behaviour.on_connection_handler_event Behaviour.new Map.insert Map.get Signed.new Signed.verify
    new_response get_timestamp
answer_arrives_example =
    answer_arrives deps receiver sender larger 105 107 (5 ∷ 1000 ∷ 107 ∷ 5 ∷ 42 ∷ []) (42 ∷ [])
      (44 ∷ []) (7 ∷ 1000 ∷ 7 ∷ 44 ∷ []) clock clock seven_answers refl (λ e. cc e) (omega arith)
      seven-IsAdmitted refl refl

-- The message comes by way of the peer 109.
gossip_arrives_example :
    Delivery.received
      (handle_gossip_msg deps receiver 109 1 (5 ∷ 1000 ∷ 5 ∷ 42 ∷ []) now true).effects
    ≡ (42 ∷ []) ∷ []
unfolding handle_gossip_command Signed.new new_gossip get_timestamp is_future is_stale
gossip_arrives_example =
    gossip_arrives deps sender receiver 109 1 now now (42 ∷ []) (5 ∷ 1000 ∷ 5 ∷ 42 ∷ [])
      five_gossips refl refl refl refl

-- An older record of the key 5 is heard first.
abbrev earlier : List Occurrence
earlier = occurring none (found_record 3 (5 ∷ []) (5 ∷ 990 ∷ 5 ∷ 21 ∷ [])) now ∷ []

abbrev later : List Occurrence
later = occurring none (get_record_finished 4) now ∷ []

abbrev all_heard : List Occurrence
all_heard = earlier ++ occurring none (found_record 3 (5 ∷ []) (5 ∷ 1000 ∷ 5 ∷ 20 ∷ [])) now ∷ later

stays : StaysOpen 3 all_heard
stays = (λ e. e, (λ e. e, (λ e. absurd (omega (arith, e)), tt)))

older :
    (r : SignedRecord)
    → IsFound deps limits 3 r all_heard
    → (deps.record_wire.from_slice (5 ∷ 1000 ∷ 5 ∷ 20 ∷ []) ≡ some r) ⊎ (date_of r < 1000)
older r (inl a) = inr (ground (arith, a.1.decoded))
older r (inr (inl a)) = inl a.1.decoded
older r (inr (inr (inl e))) = absurd e
older r (inr (inr (inr e))) = absurd e

published_found_example :
    reported deps receiver 5 3 all_heard none now ≡ result_find_multiaddress (some (20 ∷ [])) ∷ []
unfolding ask_kademlia_put_record publish_record Signed.new new_record get_timestamp
    validate_record_date
published_found_example =
    published_found deps sender five_records refl now (5 ∷ []) (5 ∷ 1000 ∷ 5 ∷ 20 ∷ []) refl
      receiver 3 none none now now earlier later stays refl older

reports_newest_example : Reports deps receiver 5 3 all_heard none now
reports_newest_example = reports_newest deps receiver 5 3 all_heard none now stays
