-- ===== src/Examples/Gossips.antt =====
-- The theorems on gossip at a message of the peer 107, whose key is 7.
use strata_p2p.Common.{◌≡◌, refl, true, false, [], ◌∷◌}
use strata_p2p.Ids.{Bytes}
use strata_p2p.Map
use strata_p2p.Float.Decimal.{decimal}
use strata_p2p.Validator
use strata_p2p.Message.{GossipMessage, gossip, v2}
use strata_p2p.Message.Signed
use strata_p2p.Message.Signed.{SignedMessage}
use strata_p2p.Envelope.{is_future, is_stale}
use strata_p2p.P2p.{err, gossip_events_channel_closed}
use strata_p2p.P2p.Node.{decay_request_response_score}
use strata_p2p.P2p.Node.Decay.{req_resp_score}
use strata_p2p.P2p.Command.{Reply}
use strata_p2p.P2p.Gossip.{GossipClock, handle_gossip_msg}
use strata_p2p.P2p.Gossip.Delivery.{IsAuthentic, received, delivered_iff}
use strata_p2p.P2p.Gossip.Outcome.{gossip_erases_decay, error_iff}
use strata_p2p.Float.Decimal.{Decimal}
use strata_p2p.Examples.{toy_deps, node, now, limits}

abbrev clock : GossipClock
clock = record {
  muted = now;
  decay = now;
  envelope = now;
  penalty = record { start = now; first = now; second = now };
}

abbrev pub hello : Bytes
hello = 7 ∷ 990 ∷ 7 ∷ 42 ∷ []

abbrev pub hello_signed : SignedMessage GossipMessage
hello_signed = record {
  message = record {
    version = v2;
    protocol = gossip;
    message = 42 ∷ [];
    public_key = 7;
    date = 990;
  };
  signature = 7 ∷ [];
}

pub hello-IsAuthentic : IsAuthentic toy_deps limits hello now hello_signed
unfolding Signed.verify is_future is_stale
hello-IsAuthentic = record {
  decoded = refl;
  verified = refl;
  past = refl;
  fresh = refl;
  protocol = refl;
  version = refl;
}

delivered_iff_example :
    received
      (handle_gossip_msg {R = Reply Decimal} decimal toy_deps node 107 1 hello clock true).effects
    ≡ (42 ∷ []) ∷ []
unfolding Validator.is_gossip_muted Map.get Validator.default_get_penalty
    Validator.default_validate_msg Validator.default_apply_decay
delivered_iff_example =
    (delivered_iff decimal (Reply Decimal) toy_deps node 107 1 hello clock true (42 ∷ [])).1
      (refl, (hello_signed, hello-IsAuthentic, refl), refl, refl)

gossip_erases_decay_example :
    req_resp_score
      (decay_request_response_score decimal
        (handle_gossip_msg {R = Reply Decimal} decimal toy_deps node 107 1 hello clock true).state
        107
        now)
      107
    ≡ req_resp_score node 107
unfolding Validator.is_gossip_muted Map.get
gossip_erases_decay_example =
    gossip_erases_decay decimal (Reply Decimal) toy_deps node 107 1 hello clock true refl

delivered_hello :
    received
      (handle_gossip_msg {R = Reply Decimal} decimal toy_deps node 107 1 hello clock true).effects
    ≡ (42 ∷ []) ∷ []
unfolding Validator.is_gossip_muted Map.get Validator.default_get_penalty
    Validator.default_validate_msg Validator.default_apply_decay
delivered_hello =
    (delivered_iff decimal (Reply Decimal) toy_deps node 107 1 hello clock true (42 ∷ [])).1
      (refl, (hello_signed, hello-IsAuthentic, refl), refl, refl)

error_iff_example :
    (handle_gossip_msg {R = Reply Decimal} decimal toy_deps node 107 1 hello clock false).result
    ≡ err gossip_events_channel_closed
unfolding Validator.is_gossip_muted Map.get Validator.default_get_penalty
    Validator.default_validate_msg Validator.default_apply_decay
error_iff_example = (error_iff decimal (Reply Decimal) toy_deps node 107 1 hello clock).1.1 (λ fine.
    let silent = (error_iff decimal (Reply Decimal) toy_deps node 107 1 hello clock).2.0 fine in
    cc (silent, delivered_hello))
