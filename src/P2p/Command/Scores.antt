-- ===== src/P2p/Command/Scores.antt =====
-- The commands on scores.
use strata_p2p.Common.{
  ◌≡◌, refl, ap, ◌∙◌, Option, none, some, [], ◌∷◌, arith, ◌==◌, Bool-cases, inl, inr,
}
use strata_p2p.Ids.{PeerId, QueryId}
use strata_p2p.Map
use strata_p2p.Time.{SystemTime}
use strata_p2p.Float.{Float}
use strata_p2p.Score
use strata_p2p.Score.{AppPeerScore}
use strata_p2p.Validator.{Action, apply_penalty, remove_penalty}
use strata_p2p.P2p.{Deps, reply}
use strata_p2p.P2p.Node.{Node, get_all_scores, get_elapsed_decay_time}
use strata_p2p.P2p.Node.Decay.{last_decay}
use strata_p2p.P2p.Penalty
use strata_p2p.P2p.Penalty.{PenaltyClock}
use strata_p2p.P2p.Command.{
  get_peer_score, set_score, peer_score, handle_command, get_peer_score_step, moderate, rescore,
}

module _ {S : Type 0} (f : Float S) (peer : PeerId) where
  scores-moderate :
      (n : Node S) (action : Option Action) (at : PenaltyClock)
      → (moderate n peer action at).0.score_manager ≡ n.score_manager
  unfolding moderate Penalty.apply_penalty Penalty.remove_penalty
  scores-moderate n none at = refl
  scores-moderate n (some (apply_penalty penalty)) at = ground arith
  scores-moderate n (some (remove_penalty pardon)) at = ground arith

  scores-rescore :
      (n : Node S) (callback : AppPeerScore S → AppPeerScore S)
      → (get_all_scores f (rescore f n peer (some callback)) peer).app_score
        ≡ callback (get_all_scores f n peer).app_score
  unfolding rescore get_all_scores Score.get_gossipsub_app_score Score.get_req_resp_score
      Score.update_gossipsub_app_score Score.update_req_resp_app_score
  scores-rescore n callback =
      rw
        (
          Map.get-insert_self n.score_manager.gossipsub_app_score peer _,
          Map.get-insert_self n.score_manager.req_resp_app_score peer _,
        )
        refl

  app_scores_of_scores :
      (n m : Node S)
      → m.score_manager ≡ n.score_manager
      → (get_all_scores f m peer).app_score ≡ (get_all_scores f n peer).app_score
  unfolding get_all_scores
  app_scores_of_scores n m same = rw same refl

module _ {S : Type 0} (f : Float S) (deps : Deps) (n : Node S) (peer : PeerId) (now : SystemTime)
    (at : PenaltyClock) (id : QueryId) where
  -- `GetPeerScore` replies with the scores that it leaves stored, and restarts the decay clock.
  reported_is_stored :
      let step = handle_command f deps n (get_peer_score peer) now at id in
      (step.effects ≡ reply (peer_score (get_all_scores f step.state peer)) ∷ [])
      × (last_decay step.state peer ≡ some now)
  unfolding handle_command get_peer_score_step get_all_scores get_elapsed_decay_time
      Score.update_gossipsub_app_score Score.update_req_resp_app_score
      Score.update_last_scoring_decay_time Score.get_gossipsub_app_score Score.get_req_resp_score
  reported_is_stored =
      let restarted = Map.get-insert_self n.score_manager.last_scoring_decay_time peer now in
      elim (Bool-cases ((get_elapsed_decay_time n peer now).0 == 0)) [
        | inl zero ↦ rw zero (refl, restarted)
        | inr passed ↦
            rw
              (
                passed,
                Map.get-insert_self n.score_manager.gossipsub_app_score peer _,
                Map.get-insert_self n.score_manager.req_resp_app_score peer _,
              )
              (refl, restarted)
      ]

  -- `SetScore` with a callback sets the peer's scores to the callback's result on the scores that it
  -- had, whatever penalty the same command applies or removes.
  score_is_set :
      (action : Option Action) (callback : AppPeerScore S → AppPeerScore S)
      → (get_all_scores f
          (handle_command f deps n (set_score peer action (some callback)) now at id).state
          peer).app_score
        ≡ callback (get_all_scores f n peer).app_score
  unfolding handle_command
  score_is_set action callback =
      scores-rescore f peer _ callback
      ∙ ap callback (
          app_scores_of_scores f peer n (moderate n peer action at).0
            (scores-moderate f peer n action at))
