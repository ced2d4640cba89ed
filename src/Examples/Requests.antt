-- ===== src/Examples/Requests.antt =====
-- The theorems on requests and responses at messages of the peer 107, whose key is 7.
use strata_p2p.Common.{◌≡◌, ◌≢◌, refl, [], ◌∷◌}
use strata_p2p.Ids.{Bytes}
use strata_p2p.Map
use strata_p2p.Float.Decimal.{Decimal, decimal}
use strata_p2p.Validator
use strata_p2p.Message.{RequestMessage, ResponseMessage, request_response, v2, protocol_eq}
use strata_p2p.Message.Signed
use strata_p2p.Message.Signed.{SignedMessage}
use strata_p2p.Envelope.{is_future, is_stale}
use strata_p2p.P2p.{Step, ok}
use strata_p2p.P2p.Node.{Node, decay_request_response_score}
use strata_p2p.P2p.Command.{Reply}
use strata_p2p.P2p.ReqResp.{
  SendOutcome, Answer, sent, channel_closed, dropped, answered, is_wrong_envelope, open_request,
  deliver_request, answer_request,
}
use strata_p2p.P2p.Request.{ReqRespClock, handle_request, score_request, charge_req_resp}
use strata_p2p.P2p.Request.Charge.{verdict}
use strata_p2p.P2p.Request.RequestDelivery
use strata_p2p.P2p.Request.RequestDelivery.{
  requested, responded, request_delivered_iff, request_error_iff,
}
use strata_p2p.P2p.Response.{handle_response}
use strata_p2p.P2p.Response.ResponseDelivery
use strata_p2p.P2p.Response.ResponseDelivery.{responses, response_delivered_iff}
use strata_p2p.Examples.{toy_deps, node, now, limits}

abbrev clock : ReqRespClock
clock = record {
  muted = now;
  envelope = now;
  decay = now;
  penalty = record { start = now; first = now; second = now };
  age = now;
  answer = now;
}

abbrev pub ask : Bytes
ask = 7 ∷ 990 ∷ 105 ∷ 7 ∷ 42 ∷ []

abbrev pub ask_signed : SignedMessage RequestMessage
ask_signed = record {
  message = record {
    version = v2;
    protocol = request_response;
    message = 42 ∷ [];
    public_key = 7;
    date = 990;
    destination_peer_id = 105;
  };
  signature = 7 ∷ [];
}

abbrev pub tell : Bytes
tell = 7 ∷ 990 ∷ 7 ∷ 43 ∷ []

abbrev pub tell_signed : SignedMessage ResponseMessage
tell_signed = record {
  message = record {
    version = v2;
    protocol = request_response;
    message = 43 ∷ [];
    app_public_key = 7;
    date = 990;
  };
  signature = 7 ∷ [];
}

pub ask-IsAuthentic : RequestDelivery.IsAuthentic toy_deps limits 105 ask now ask_signed
unfolding Signed.verify is_future
ask-IsAuthentic = record {
  decoded = refl;
  verified = refl;
  destination = refl;
  past = refl;
  protocol = refl;
  version = refl;
}

pub tell-IsAuthentic : ResponseDelivery.IsAuthentic toy_deps limits tell now tell_signed
unfolding Signed.verify is_future
tell-IsAuthentic = record {
  not_empty = λ e. cc e;
  decoded = refl;
  verified = refl;
  past = refl;
  protocol = refl;
  version = refl;
}

abbrev asked : SendOutcome → Answer → Step (Node Decimal) (Reply Decimal)
asked outcome answer = handle_request decimal toy_deps node 107 ask clock outcome answer

request_delivered_iff_example : requested (asked sent dropped).effects ≡ (42 ∷ []) ∷ []
unfolding Validator.is_req_resp_muted Map.get Validator.default_get_penalty
    Validator.default_validate_msg Validator.default_apply_decay is_stale verdict
request_delivered_iff_example =
    (request_delivered_iff decimal (Reply Decimal) toy_deps node 107 ask clock dropped (42 ∷ [])).1
      (refl, (ask_signed, ask-IsAuthentic, refl, refl), refl)

response_delivered_iff_example :
    responses
      (handle_response {R = Reply Decimal} decimal toy_deps node 107 tell clock sent).effects
    ≡ (43 ∷ []) ∷ []
unfolding Validator.is_req_resp_muted Map.get Validator.default_get_penalty
    Validator.default_validate_msg Validator.default_apply_decay is_stale verdict
response_delivered_iff_example =
    (response_delivered_iff decimal (Reply Decimal) toy_deps node 107 tell clock (43 ∷ [])).1
      (refl, (tell_signed, tell-IsAuthentic, refl, refl), refl)

requested_once : requested (asked sent dropped).effects ≡ (42 ∷ []) ∷ []
unfolding Validator.is_req_resp_muted Map.get Validator.default_get_penalty
    Validator.default_validate_msg Validator.default_apply_decay is_stale verdict
requested_once =
    (request_delivered_iff decimal (Reply Decimal) toy_deps node 107 ask clock dropped (42 ∷ [])).1
      (refl, (ask_signed, ask-IsAuthentic, refl, refl), refl)

request_error_iff_example : (asked channel_closed dropped).result ≢ ok
request_error_iff_example =
    (request_error_iff decimal (Reply Decimal) toy_deps node 107 ask clock dropped channel_closed).1
      (refl, λ nothing. cc (nothing, requested_once))

-- The node answers with 44, signed by its own key.
answer_sent : responded (asked sent (answered (44 ∷ []))).effects ≡ (5 ∷ 1000 ∷ 5 ∷ 44 ∷ []) ∷ []
unfolding handle_request open_request is_wrong_envelope is_future protocol_eq score_request
    charge_req_resp deliver_request answer_request is_stale Validator.is_req_resp_muted Map.get
    Validator.default_get_penalty Validator.default_validate_msg Validator.default_apply_decay
    decay_request_response_score Map.insert
answer_sent = refl
