-- ===== src/Byos/Run/Polls.antt =====
-- The events of the setup behaviour all reach the node.
use Prim.Native.String.{String}
use strata_p2p.Common.{
  ℕ, zero, suc, ◌≡◌, refl, ap, ◌∙◌, Option, none, some, List, [], ◌∷◌, ◌++◌, arith, if◌then◌else◌,
  length, contains,
}
use strata_p2p.Ids.{PeerId, PublicKey}
use strata_p2p.P2p.{Effect, Step, Deps, disconnect_peer_id, ok}
use strata_p2p.Setup.{
  SetupBehaviourEvent, app_key_received, negotiation_failed, error_during_setup_handshake,
}
use strata_p2p.Setup.Behaviour
use strata_p2p.Byos.{Node, Reply}
use strata_p2p.Byos.DialManager.{Queue}
use strata_p2p.Byos.Control.{filter_map, handle_setup_event}
use strata_p2p.Byos.Run.{Event, handle, listen, proceed, poll_setup}

-- `n` polls of the setup behaviour, one after the other.
abbrev pub polls : {S : Type 0} → ℕ → List (Event S)
polls zero = []
polls (suc n) = Event.setup_poll ∷ polls n

-- The peer of an event that does not announce an allowed key.
abbrev pub unwelcome : List PublicKey → SetupBehaviourEvent → Option PeerId
unwelcome allowlist e = elim e.event [
  | app_key_received key ↦ if contains allowlist key then none else some e.transport_id
  | negotiation_failed ↦ some e.transport_id
  | error_during_setup_handshake error ↦ some e.transport_id
]

-- The peers that the swarm is asked to disconnect.
abbrev pub disconnects : {R : Type 0} → List (Effect R) → List PeerId
disconnects [] = []
disconnects (disconnect_peer_id peer ∷ effects) = peer ∷ disconnects effects
disconnects (effect ∷ effects) = disconnects effects

disconnects-append :
    {R : Type 0} (xs ys : List (Effect R))
    → disconnects (xs ++ ys) ≡ disconnects xs ++ disconnects ys
disconnects-append [] ys = refl
disconnects-append (x ∷ xs) ys = ground (arith, disconnects-append xs ys)

module _ {S Q : Type 0} where
  with_events : Node S Q → List SetupBehaviourEvent → Node S Q
  with_events n events = record n { setup = record n.setup { events = events } }

  poll_one :
      (n : Node S Q) (e : SetupBehaviourEvent) (rest : List SetupBehaviourEvent)
      → n.setup.events ≡ e ∷ rest
      → (poll_setup n).state ≡ with_events n rest
  unfolding poll_setup Behaviour.poll handle_setup_event with_events
  poll_one n e rest h = ground arith

  poll-result :
      (n : Node S Q) (e : SetupBehaviourEvent) (rest : List SetupBehaviourEvent)
      → n.setup.events ≡ e ∷ rest
      → (poll_setup n).result ≡ ok
  unfolding poll_setup Behaviour.poll handle_setup_event
  poll-result n e rest h = ground arith

  poll-disconnects :
      (n : Node S Q) (e : SetupBehaviourEvent) (rest : List SetupBehaviourEvent)
      → n.setup.events ≡ e ∷ rest
      → disconnects (poll_setup n).effects ≡ filter_map (unwelcome n.app_allowlist) (e ∷ [])
  unfolding poll_setup Behaviour.poll handle_setup_event
  poll-disconnects n e rest h = ground arith

  module _ (q : Queue Q) (deps : Deps) (name : Option String) where
    -- What the polls of all pending events leave.
    record IsDrained (n : Node S Q) (events : List SetupBehaviourEvent)
        (step : Step (Node S Q) Reply) : Type 0 where
      fine : step.result ≡ ok
      none_left : step.state ≡ with_events n []
      asked : disconnects step.effects ≡ filter_map (unwelcome n.app_allowlist) events

    proceed-IsDrained :
        (n m : Node S Q) (e : SetupBehaviourEvent) (rest : List SetupBehaviourEvent)
        (first later : Step (Node S Q) Reply)
        → first.result ≡ ok
        → m ≡ with_events n rest
        → disconnects first.effects ≡ filter_map (unwelcome n.app_allowlist) (e ∷ [])
        → IsDrained m rest later
        → IsDrained n (e ∷ rest) (proceed q deps name first.result first later)
    unfolding proceed with_events
    proceed-IsDrained n m e rest first later h same d k = record {
      fine = rw h k.fine;
      none_left = rw h (k.none_left ∙ ap (λ x. with_events x []) same);
      asked =
          rw (h, disconnects-append first.effects later.effects) (ground (arith, d, k.asked, same));
    }

    drained :
        (n : Node S Q) (events : List SetupBehaviourEvent)
        → n.setup.events ≡ events
        → IsDrained n events (listen q deps name n (polls (length events)))
    unfolding listen handle with_events
    drained n [] h = record { fine = refl; none_left = ground arith; asked = refl }
    drained n (e ∷ rest) h =
        let step = poll_setup n in
        proceed-IsDrained n step.state e rest step _ (poll-result n e rest h) (poll_one n e rest h)
          (poll-disconnects n e rest h)
          (drained step.state rest (ap (λ m. m.setup.events) (poll_one n e rest h)))

    -- As many polls as events are pending hand all of them to the node: no handler fails, no event is
    -- left, nothing else of the node changes, and the swarm is asked to disconnect exactly the peers
    -- whose event does not announce an allowed key, the newest event first.
    pub polls-drained :
        (n : Node S Q)
        → let step = listen q deps name n (polls (length n.setup.events)) in
          (step.result ≡ ok)
          × (step.state ≡ record n { setup = record n.setup { events = [] } })
          × (disconnects step.effects ≡ filter_map (unwelcome n.app_allowlist) n.setup.events)
    unfolding with_events
    polls-drained n = let d = drained n n.setup.events refl in (d.fine, d.none_left, d.asked)
