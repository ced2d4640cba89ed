-- ===== src/Byos/Run/Settled.antt =====
-- What stays as it is over all events of the byos loop.
use Prim.Native.String.{String}
use strata_p2p.Common.{◌≡◌, refl, ◌∙◌, Option, List, [], ◌∷◌}
use strata_p2p.P2p.{Step, Deps, P2PResult, ok, err, panicked}
use strata_p2p.Byos.{Node, Reply}
use strata_p2p.Byos.DialManager.{Queue}
use strata_p2p.Byos.Run.{Event, handle, proceed, listen}
use strata_p2p.Byos.Run.Setups.{settings, handle-settings}

module _ {S Q : Type 0} (q : Queue Q) (deps : Deps) (name : Option String) where
  proceed-settings :
      (n : Node S Q) (r : P2PResult) (first rest : Step (Node S Q) Reply)
      → settings first.state ≡ settings n
      → settings rest.state ≡ settings first.state
      → settings (proceed q deps name r first rest).state ≡ settings n
  unfolding proceed
  proceed-settings n ok first rest e d = d ∙ e
  proceed-settings n (err x) first rest e d = e
  proceed-settings n panicked first rest e d = e

  -- No events, whether or not a handler fails, change the limits on dates, the node's own key, its
  -- allowlist or its signer.
  pub listen-settings :
      (n : Node S Q) (events : List (Event S))
      → settings (listen q deps name n events).state ≡ settings n
  unfolding listen
  listen-settings n [] = refl
  listen-settings n (event ∷ events) =
      let step = handle q deps name n event in
      proceed-settings n step.result step (listen q deps name step.state events)
        (handle-settings q deps name n event) (listen-settings step.state events)
