-- ===== src/P2p/Run/Kept.antt =====
-- Steps after which every mute and every ban is still there.
use strata_p2p.Common.{
  ◌≤◌, ◌≡◌, ◌⊎◌, subst, Bool, true, false, Option, none, some, arith, inl, inr, ◌==◌, if◌then◌else◌,
}
use strata_p2p.Ids.{PeerId}
use strata_p2p.Time.{SystemTime}
use strata_p2p.Validator.{
  PenaltyPeerStorage, PenaltyType, mute_gossip, mute_reqresp, mute_both, ban,
}
use strata_p2p.Validator.Penalties.{Answers, answers}
use strata_p2p.P2p.{Step, return_ok}
use strata_p2p.P2p.Node.{Node}
use strata_p2p.P2p.Penalty.{PenaltyClock, apply_penalty}
use strata_p2p.P2p.Penalty.Answered.{answers-apply_penalty, penalized}
use strata_p2p.P2p.Command.{Reply}

-- What is muted or banned in the first answers is so in the second ones.
pub record Lasts (a b : Answers) : Type 0 where
  pub gossip : a.gossip_muted ≡ true → b.gossip_muted ≡ true
  pub req_resp : a.req_resp_muted ≡ true → b.req_resp_muted ≡ true
  pub banned : a.banned ≡ true → b.banned ≡ true

pub Lasts-refl : (a : Answers) → Lasts a a
Lasts-refl a = record { gossip = λ e. e; req_resp = λ e. e; banned = λ e. e }

Lasts-of_storage :
    (q : PeerId) (t : SystemTime) (before after : PenaltyPeerStorage)
    → after ≡ before
    → Lasts (answers before q t) (answers after q t)
Lasts-of_storage q t before after same = rw same (Lasts-refl (answers before q t))

Lasts-penalized :
    (penalty : PenaltyType) (start t : SystemTime) (a : Answers) (hit : Bool)
    → Lasts a (if hit then penalized penalty start t a else a)
Lasts-penalized penalty start t a false = Lasts-refl a
Lasts-penalized (mute_gossip d) start t a true = record {
  gossip = λ e. ground arith;
  req_resp = λ e. e;
  banned = λ e. e;
}
Lasts-penalized (mute_reqresp d) start t a true = record {
  gossip = λ e. e;
  req_resp = λ e. ground arith;
  banned = λ e. e;
}
Lasts-penalized (mute_both d) start t a true = record {
  gossip = λ e. ground arith;
  req_resp = λ e. ground arith;
  banned = λ e. e;
}
Lasts-penalized (ban d) start t a true = record {
  gossip = λ e. e;
  req_resp = λ e. e;
  banned = λ e. ground arith;
}

module _ {S : Type 0} (q : PeerId) (t : SystemTime) where
  abbrev pub answers_of : Node S → Answers
  answers_of n = answers n.peer_penalty_storage q t

  pub Lasts-apply_penalty :
      (n : Node S) (p : PeerId) (penalty : PenaltyType) (at : PenaltyClock)
      → at.first ≤ t
      → at.second ≤ t
      → Lasts (answers_of n) (answers_of (apply_penalty (Reply S) n p penalty at).0)
  Lasts-apply_penalty n p penalty at h₁ h₂ =
      let e = (answers-apply_penalty (Reply S) n p q penalty at t h₁ h₂).0 in
      rw e (Lasts-penalized penalty at.start t (answers_of n) (p == q))

  -- The same after a step.
  unfoldable pub Kept : Answers → Step (Node S) (Reply S) → Type 0
  Kept a step = Lasts a (answers_of step.state)

  pub Kept-if :
      (a : Answers) (b : Bool) (x y : Step (Node S) (Reply S))
      → Kept a x
      → Kept a y
      → Kept a (if b then x else y)
  Kept-if a true x y hx hy = hx
  Kept-if a false x y hx hy = hy

  pub Kept-option :
      {A : Type 0} (a : Answers) (o : Option A) (x : Step (Node S) (Reply S))
      (y : A → Step (Node S) (Reply S))
      → Kept a x
      → ((v : A) → Kept a (y v))
      → Kept a (elim o as (λ _. Step (Node S) (Reply S)) [ none ↦ x | some v ↦ y v ])
  Kept-option a none x y hx hy = hx
  Kept-option a (some v) x y hx hy = hy v

  pub Kept-sum :
      {A B : Type 0} (a : Answers) (o : A ⊎ B) (x : A → Step (Node S) (Reply S))
      (y : B → Step (Node S) (Reply S))
      → ((v : A) → Kept a (x v))
      → ((v : B) → Kept a (y v))
      → Kept a (elim o as (λ _. Step (Node S) (Reply S)) [ inl v ↦ x v | inr v ↦ y v ])
  Kept-sum a (inl v) x y hx hy = hx v
  Kept-sum a (inr v) x y hx hy = hy v

  -- A state with the storage that `n` had.
  pub Kept-same :
      (n : Node S) (step : Step (Node S) (Reply S))
      → step.state.peer_penalty_storage ≡ n.peer_penalty_storage
      → Kept (answers_of n) step
  unfolding Kept
  Kept-same n step same = Lasts-of_storage q t n.peer_penalty_storage _ same

  -- A penalty on a node with the storage that `n` had.
  Kept-penalized :
      (n m : Node S) (p : PeerId) (penalty : PenaltyType) (at : PenaltyClock)
      → at.first ≤ t
      → at.second ≤ t
      → m.peer_penalty_storage ≡ n.peer_penalty_storage
      → Kept
          (answers_of n)
          (let (m', effects) = apply_penalty (Reply S) m p penalty at in return_ok m' effects)
  unfolding Kept
  Kept-penalized n m p penalty at h₁ h₂ same =
      subst
        (λ storage.
          Lasts (answers storage q t) (answers_of (apply_penalty (Reply S) m p penalty at).0))
        same (Lasts-apply_penalty m p penalty at h₁ h₂)

  -- A verdict, and the delivery for the case that there is none.
  pub Kept-verdict :
      (n m : Node S) (v : Option PenaltyType) (p : PeerId) (at : PenaltyClock)
      (deliver : Step (Node S) (Reply S))
      → at.first ≤ t
      → at.second ≤ t
      → m.peer_penalty_storage ≡ n.peer_penalty_storage
      → Kept (answers_of n) deliver
      → Kept (answers_of n) (elim v as (λ _. Step (Node S) (Reply S)) [
        | some penalty ↦
            let (m', effects) = apply_penalty (Reply S) m p penalty at in return_ok m' effects
        | none ↦ deliver
      ])
  Kept-verdict n m none p at deliver h₁ h₂ same delivered = delivered
  Kept-verdict n m (some penalty) p at deliver h₁ h₂ same delivered =
      Kept-penalized n m p penalty at h₁ h₂ same
