-- ===== src/Byos/Run/Keys.antt =====
-- The keys that the node maps to its peers, over all events, against what the peers announced.
use Prim.Native.String.{String}
use mathlib.Core.Path.{fun_ext}
use strata_p2p.Common.{
  ℕ, zero, suc, ◌≡◌, refl, ap, ◌∙◌, ◌==◌, Option, none, some, List, [], ◌∷◌, arith, if◌then◌else◌,
  Option-cases, inl, inr,
}
use strata_p2p.Ids.{PeerId, PublicKey}
use strata_p2p.P2p.{Step, Deps, P2PResult, ok, err, panicked}
use strata_p2p.Setup.{app_key_received, negotiation_failed, error_during_setup_handshake}
use strata_p2p.Setup.Behaviour
use strata_p2p.Setup.Behaviour.{SetupBehaviour, get_app_public_key_by_transport_id}
use strata_p2p.Setup.Behaviour.Mapping.{
  received_keys, closed_keys, closed_unmapped, still_connected,
}
use strata_p2p.Byos.{Node, Reply}
use strata_p2p.Byos.DialManager.{Queue}
use strata_p2p.Byos.Run.{Event, handle, proceed, listen}
use strata_p2p.Byos.Run.Setups.{setup_after, handle-setup}

-- The abstract view of the setup behaviour: the last key that each peer has announced since its last
-- connection closed.
abbrev pub KeyOf : Type 0
KeyOf = PeerId → Option PublicKey

unfoldable pub note : {S : Type 0} → KeyOf → Event S → KeyOf
note known (Event.setup_handler peer conn_id (app_key_received key)) t =
    if peer == t then some key else known t
note known (Event.setup_handler peer conn_id negotiation_failed) t = known t
note known (Event.setup_handler peer conn_id (error_during_setup_handshake e)) t = known t
note known (Event.disconnected peer remaining) t =
    if remaining == 0 then (if peer == t then none else known t) else known t
note known event t = known t

unfoldable pub announced : {S : Type 0} → KeyOf → List (Event S) → KeyOf
announced known [] = known
announced known (event ∷ events) = announced (note known event) events

keys-closed :
    (b : SetupBehaviour) (peer : PeerId) (remaining : ℕ) (t : PeerId)
    → get_app_public_key_by_transport_id (Behaviour.on_connection_closed b peer remaining) t ≡ (
        if remaining == 0
        then (if peer == t then none else get_app_public_key_by_transport_id b t)
        else get_app_public_key_by_transport_id b t)
keys-closed b peer zero t = elim (Option-cases (get_app_public_key_by_transport_id b peer)) [
  | inl e ↦ rw (closed_unmapped b peer e) (ground arith)
  | inr (key, e) ↦ closed_keys b peer key t e
]
keys-closed b peer (suc left) t = rw (still_connected b peer left) (ground arith)

keys-setup_after :
    {S : Type 0} (b : SetupBehaviour) (event : Event S) (t : PeerId)
    → get_app_public_key_by_transport_id (setup_after b event) t
      ≡ note (get_app_public_key_by_transport_id b) event t
unfolding setup_after note
keys-setup_after b (Event.setup_handler peer conn_id (app_key_received key)) t =
    received_keys b peer conn_id key t
keys-setup_after b (Event.setup_handler peer conn_id negotiation_failed) t =
    unfold Behaviour.on_connection_handler_event get_app_public_key_by_transport_id in refl
keys-setup_after b (Event.setup_handler peer conn_id (error_during_setup_handshake e)) t =
    unfold Behaviour.on_connection_handler_event get_app_public_key_by_transport_id in refl
keys-setup_after b Event.setup_poll t =
    unfold Behaviour.poll get_app_public_key_by_transport_id in ground arith
keys-setup_after b (Event.disconnected peer remaining) t = keys-closed b peer remaining t
keys-setup_after b (Event.gossip_message source id bytes now receivers) t = refl
keys-setup_after b event t = refl

module _ {S Q : Type 0} (q : Queue Q) (deps : Deps) (name : Option String) where
  abbrev pub keys_of : Node S Q → KeyOf
  keys_of n = get_app_public_key_by_transport_id n.setup

  keys-handle :
      (n : Node S Q) (event : Event S)
      → keys_of (handle q deps name n event).state ≡ note (keys_of n) event
  keys-handle n event = fun_ext (λ t.
      ap (λ b. get_app_public_key_by_transport_id b t) (handle-setup q deps name n event)
      ∙ keys-setup_after n.setup event t)

  proceed-ok :
      (r : P2PResult) (first rest : Step (Node S Q) Reply)
      → first.result ≡ r
      → (proceed q deps name r first rest).result ≡ ok
      → ((proceed q deps name r first rest).state ≡ rest.state) × (rest.result ≡ ok)
  unfolding proceed
  proceed-ok ok first rest e fine = (refl, fine)
  proceed-ok (err x) first rest e fine = absurd (ground arith)
  proceed-ok panicked first rest e fine = absurd (ground arith)

  -- Where no handler fails, the setup behaviour refines its abstract view: after any events, the key
  -- that it maps to a peer is the last one that the peer has announced since its last connection
  -- closed, or the one that was mapped at the start if there was neither.
  pub keys-announced :
      (n : Node S Q) (events : List (Event S))
      → (listen q deps name n events).result ≡ ok
      → (t : PeerId)
      → get_app_public_key_by_transport_id (listen q deps name n events).state.setup t
        ≡ announced (get_app_public_key_by_transport_id n.setup) events t
  unfolding listen announced
  keys-announced n [] fine t = refl
  keys-announced n (event ∷ events) fine t =
      let step = handle q deps name n event in
      let (same, later) =
        proceed-ok step.result step (listen q deps name step.state events) refl fine in
      ap (λ m. keys_of m t) same
      ∙ keys-announced step.state events later t
      ∙ ap (λ k. announced k events t) (keys-handle n event)
