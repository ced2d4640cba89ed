-- ===== src/Byos/Run/Heard.antt =====
-- Which peers the application hears, after any events.
use Prim.Native.String.{String}
use mathlib.Core.Path.{fun_ext}
use strata_p2p.Common.{
  ◌≡◌, ◌↔◌, true, false, sym, ap, ◌∙◌, subst, contains, Option, none, some, List, [], ◌∷◌,
}
use strata_p2p.Ids.{PeerId, Bytes}
use strata_p2p.Message.{RequestMessage}
use strata_p2p.Message.Signed.{SignedMessage}
use strata_p2p.Envelope.{Limits, is_stale}
use strata_p2p.P2p.{Deps, ok}
use strata_p2p.P2p.ReqResp.{sent, Answer}
use strata_p2p.P2p.Request.RequestDelivery
use strata_p2p.Setup.Behaviour.{get_app_public_key_by_transport_id}
use strata_p2p.Byos.{Node, is_allowed}
use strata_p2p.Byos.DialManager.{Queue}
use strata_p2p.Byos.Messages.{ReqRespClock, handle_request}
use strata_p2p.Byos.Messages.Allowed.{handle_request-IsAdmitted}
use strata_p2p.Byos.Run.{Event, listen}
use strata_p2p.Byos.Run.Settled.{listen-settings}
use strata_p2p.Byos.Run.Keys.{announced, keys-announced}

module _ {S Q : Type 0} (q : Queue Q) (deps : Deps) (name : Option String) (n : Node S Q)
    (events : List (Event S)) where
  -- From a node that has mapped no key yet, where no handler has failed: after any events, the
  -- application receives a request, where its channel takes it, exactly when the bytes are an
  -- authentic request for this node, by the limits on dates that it began with neither too old nor
  -- from the future, and it is signed by a key of the allowlist that it began with, which is the last
  -- one that the sender has announced since its last connection closed.
  pub heard_iff :
      (peer : PeerId) (bytes : Bytes) (at : ReqRespClock) (answer : Answer) (m : Bytes)
      → ((t : PeerId) → get_app_public_key_by_transport_id n.setup t ≡ none)
      → (listen q deps name n events).result ≡ ok
      → let after = (listen q deps name n events).state in
        (RequestDelivery.requested (handle_request deps after peer bytes at sent answer).effects
          ≡ m ∷ [])
        ↔ ((signed : SignedMessage RequestMessage) × RequestDelivery.IsAuthentic deps
              n.config.limits after.swarm.local_peer_id bytes at.envelope signed
            × (is_allowed n signed.message.public_key ≡ true)
            × (announced (λ t. none) events peer ≡ some signed.message.public_key)
            × (is_stale n.config.limits at.age signed.message.date ≡ false)
            × (signed.message.message ≡ m))
  heard_iff peer bytes at answer m empty fine =
      let heard = handle_request-IsAdmitted deps after peer bytes at answer m in
      let key = keys-announced q deps name n events fine peer ∙ at_start in
      (
        λ got.
            let (signed, authentic, admitted, fresh, content) = heard.0 got in
            (
              signed,
              subst (AuthenticIn bytes at signed) same_limits authentic,
              sym (same_allowed signed) ∙ admitted.allowed,
              sym key ∙ admitted.mapped,
              sym (same_age at signed) ∙ fresh,
              content,
            ),
        λ w.
            let (signed, authentic, allowed, mapped, fresh, content) = w in
            heard.1 (
              signed,
              subst (AuthenticIn bytes at signed) (sym same_limits) authentic,
              record { allowed = same_allowed signed ∙ allowed; mapped = key ∙ mapped },
              same_age at signed ∙ fresh,
              content,
            ),
      )
    where
      after : Node S Q
      after = (listen q deps name n events).state

      AuthenticIn : Bytes → ReqRespClock → SignedMessage RequestMessage → Limits → Type 0
      AuthenticIn bytes at signed limits =
          RequestDelivery.IsAuthentic deps limits after.swarm.local_peer_id bytes at.envelope signed

      same_limits : after.config.limits ≡ n.config.limits
      same_limits = ap (λ p. p.0) (listen-settings q deps name n events)

      same_allowed :
          (signed : SignedMessage RequestMessage)
          → is_allowed after signed.message.public_key ≡ is_allowed n signed.message.public_key
      same_allowed signed =
          ap (λ p. contains p.2 signed.message.public_key) (listen-settings q deps name n events)

      same_age :
          (at : ReqRespClock) (signed : SignedMessage RequestMessage)
          → is_stale after.config.limits at.age signed.message.date
            ≡ is_stale n.config.limits at.age signed.message.date
      same_age at signed = ap (λ l. is_stale l at.age signed.message.date) same_limits

      at_start :
          announced (get_app_public_key_by_transport_id n.setup) events peer
          ≡ announced (λ t. none) events peer
      at_start = ap (λ known. announced known events peer) (fun_ext empty)
