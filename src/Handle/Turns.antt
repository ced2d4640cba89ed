-- ===== src/Handle/Turns.antt =====
-- What a query of a handle returns, whatever the loop handles before it.
use Prim.Native.String.{String}
use strata_p2p.Common.{
  ◌≡◌, refl, Bool, true, false, ◌&&◌, Option, List, [], ◌∷◌, arith, contains, if◌then◌else◌,
}
use strata_p2p.Ids.{PeerId, QueryId}
use strata_p2p.Time.{SystemTime, Duration}
use strata_p2p.Float.{Float}
use strata_p2p.P2p.{Effect, Deps, P2PResult, reply, ok, err, panicked}
use strata_p2p.P2p.Node.{Node}
use strata_p2p.P2p.Penalty.{PenaltyClock}
use strata_p2p.P2p.Command as Plain
use strata_p2p.P2p.Command.{Command, Reply, handle_command}
use strata_p2p.P2p.Run.{Event, handle, listen}
use strata_p2p.Handle.{TimeoutMs, Query, Waited, replied, is_connected, get_connected_peers}

-- What the environment decides while the query is handled, and whether the reply, or the end of its
-- sender, comes before the query's timeout.
pub record Turn : Type 0 where
  pub now : SystemTime
  pub at : PenaltyClock
  pub query_id : QueryId
  pub in_time : Bool

-- The reply that effects send on the query's oneshot channel, if they send one of its type.
pub bool_reply : {S : Type 0} → List (Effect (Reply S)) → Waited Bool
bool_reply (reply (Plain.connected b) ∷ es) = replied b
bool_reply _ = Waited.reply_dropped

pub peers_reply : {S : Type 0} → List (Effect (Reply S)) → Waited (List PeerId)
peers_reply (reply (Plain.connected_peers peers) ∷ es) = replied peers
peers_reply _ = Waited.reply_dropped

module _ {S : Type 0} (f : Float S) (deps : Deps) (name : Option String) where
  -- The loop handles all the events, and none of them ends it.
  unfoldable pub all_served : Node S → List (Event S) → Bool
  all_served n [] = true
  all_served n (event ∷ events) =
      let step = handle f deps name n event in
      let rest = all_served step.state events in
      elim step.result [ ok ↦ rest | err _ ↦ false | panicked ↦ false ]

  module _ {A : Type 0} (read : List (Effect (Reply S)) → Waited A) where
    -- What the query's channel brings: the reply, when the query's turn comes after the events ahead of
    -- it, or the end of its sender, with the loop that owns it, when a handler fails before.
    pub brings : Node S → (ahead : List (Event S)) → Command S → Turn → Waited A
    brings n [] cmd turn =
        read (handle f deps name n (Event.command cmd turn.now turn.at turn.query_id)).effects
    brings n (event ∷ events) cmd turn =
        let step = handle f deps name n event in
        let rest = brings step.state events cmd turn in
        elim step.result [
          | ok ↦ rest
          | err _ ↦ Waited.reply_dropped
          | panicked ↦ Waited.reply_dropped
        ]

    -- What the handle returns to its caller.
    pub asked :
        Node S → (ahead : List (Event S)) → Query (Command S) A → Turn → (is_sent : Bool) → A
    asked n ahead query turn is_sent =
        query.returns is_sent
          (if turn.in_time then brings n ahead query.command turn else Waited.elapsed)

    brings_step :
        (value : Node S → A) (r : P2PResult) (rest : Waited A) (served : Bool) (last first : Node S)
        → rest ≡ (if served then replied (value last) else Waited.reply_dropped)
        → (elim r [ ok ↦ rest | err _ ↦ Waited.reply_dropped | panicked ↦ Waited.reply_dropped ])
          ≡ (if (elim r [ ok ↦ served | err _ ↦ false | panicked ↦ false ])
              then replied (value (elim r [ ok ↦ last | err _ ↦ first | panicked ↦ first ]))
              else Waited.reply_dropped)
    brings_step value ok rest served last first h = h
    brings_step value (err e) rest served last first h = refl
    brings_step value panicked rest served last first h = refl

    brings_lem :
        (value : Node S → A) (cmd : Command S) (turn : Turn)
        → ((m : Node S)
            → read (handle f deps name m (Event.command cmd turn.now turn.at turn.query_id)).effects
              ≡ replied (value m))
        → (n : Node S) (ahead : List (Event S))
        → brings n ahead cmd turn ≡ (
            if all_served n ahead
            then replied (value (listen f deps name n ahead))
            else Waited.reply_dropped)
    unfolding brings all_served listen
    brings_lem value cmd turn replies n [] = replies n
    brings_lem value cmd turn replies n (event ∷ events) =
        let step = handle f deps name n event in
        brings_step value step.result (brings step.state events cmd turn)
          (all_served step.state events) (listen f deps name step.state events) step.state
          (brings_lem value cmd turn replies step.state events)

  -- Whatever the loop handles before a query's turn comes, the handle returns whether the swarm is
  -- connected to the peer, or its connected peers, as they are when the query's turn comes, if the query
  -- was sent, no handler before it failed, and the reply is in time. Otherwise it returns false, or no
  -- peers.
  pub answered_in_turn :
      (n : Node S) (ahead : List (Event S)) (peer : PeerId) (ms : TimeoutMs)
      (duration : Option Duration) (turn : Turn) (is_sent : Bool)
      → let peers = (listen f deps name n ahead).swarm.connected_peers in
        let answered = is_sent && (turn.in_time && all_served n ahead) in
        (asked bool_reply n ahead (is_connected ms duration peer) turn is_sent
          ≡ (if answered then contains peers peer else false))
        × (asked peers_reply n ahead (get_connected_peers ms duration) turn is_sent
            ≡ (if answered then peers else []))
  unfolding asked is_connected get_connected_peers handle handle_command bool_reply peers_reply
  answered_in_turn n ahead peer ms duration turn is_sent = (
    ground (
      arith,
      brings_lem bool_reply (λ m. contains m.swarm.connected_peers peer)
          (Plain.query_is_connected peer) turn (λ m. refl) n ahead,
    ),
    ground (
      arith,
      brings_lem peers_reply (λ m. m.swarm.connected_peers) Plain.query_connected_peers turn
          (λ m. refl) n ahead,
    ),
  )
