-- ===== src/Validator.antt =====
-- crates/p2p/src/validator.rs: messages, penalties, the validator interface with its default
-- implementation, and the storage of penalties. Every read of the system clock is an argument.
pub mod Penalties
use strata_p2p.Common.{
  ◌*◌, Bool, false, ◌||◌, Option, none, some, [], ltb, max, if◌then◌else◌, is_some_and, and_then,
  unwrap_or,
}
use strata_p2p.Ids.{PeerId, Bytes}
use strata_p2p.Map
use strata_p2p.Map.{Map}
use strata_p2p.Time.{SystemTime, Duration, from_secs}
use strata_p2p.Float.{Float}
use strata_p2p.Score.{PeerScore}

-- 30 days
abbrev pub default_ban_period : Duration
default_ban_period = from_secs (60 * 60 * 24 * 30)

abbrev pub default_mute_duration : Duration
default_mute_duration = from_secs 60

pub data Message : Type 0 where
  gossipsub : Bytes → Message
  request : Bytes → Message
  response : Bytes → Message

pub data PenaltyType : Type 0 where
  mute_gossip : Duration → PenaltyType
  mute_reqresp : Duration → PenaltyType
  mute_both : Duration → PenaltyType
  ban : Option Duration → PenaltyType

-- commands.rs
pub data UnpenaltyType : Type 0 where
  unban unmute_gossipsub unmute_request_response unmute_both : UnpenaltyType

pub data Action : Type 0 where
  apply_penalty : PenaltyType → Action
  remove_penalty : UnpenaltyType → Action

pub record PenaltyInfo : Type 0 where
  pub mute_gossip_until : Option SystemTime
  pub mute_req_resp_until : Option SystemTime
  pub ban_until : Option SystemTime

abbrev pub no_penalty : PenaltyInfo
no_penalty = record { mute_gossip_until = none; mute_req_resp_until = none; ban_until = none }

pub record PenaltyPeerStorage : Type 0 where
  pub penalties : Map PenaltyInfo

-- `trait Validator`
pub record Validator (S : Type 0) : Type 0 where
  pub validate_msg : Message → S → S
  pub get_penalty : Message → PeerScore S → Option PenaltyType
  pub apply_decay : S → Duration → S

-- `DefaultP2PValidator`
module _ {S : Type 0} (f : Float S) where
  unfoldable pub default_validate_msg : Message → S → S
  default_validate_msg msg old_app_score = f.sub old_app_score f.one

  unfoldable pub default_get_penalty : Message → PeerScore S → Option PenaltyType
  default_get_penalty (gossipsub _) peer_score =
      if f.lt peer_score.app_score.gossipsub_app_score f.minus_hundred
      then some (mute_gossip default_mute_duration)
      else none
  default_get_penalty (request _) peer_score =
      if f.lt peer_score.app_score.req_resp_app_score f.minus_hundred
      then some (mute_reqresp default_mute_duration)
      else none
  default_get_penalty (response _) peer_score =
      if f.lt peer_score.app_score.req_resp_app_score f.minus_hundred
      then some (mute_reqresp default_mute_duration)
      else none

  unfoldable pub default_apply_decay : S → Duration → S
  default_apply_decay score time_since_last_decay =
      let decay_increment = f.mul f.nine_tenths (f.as_secs_f64 time_since_last_decay) in
      f.min (f.add score decay_increment) f.zero

  abbrev pub default_validator : Validator S
  default_validator = record {
    validate_msg = default_validate_msg;
    get_penalty = default_get_penalty;
    apply_decay = default_apply_decay;
  }

abbrev pub new : PenaltyPeerStorage
new = record { penalties = [] }

-- `is_some_and(|timestamp| timestamp > SystemTime::now())`
abbrev pub active : Option SystemTime → SystemTime → Bool
active until now = is_some_and until (λ timestamp. ltb now timestamp)

unfoldable pub is_gossip_muted : PenaltyPeerStorage → PeerId → SystemTime → Bool
is_gossip_muted s peer_id now =
    active (and_then (Map.get s.penalties peer_id) (λ penalty. penalty.mute_gossip_until)) now

unfoldable pub is_req_resp_muted : PenaltyPeerStorage → PeerId → SystemTime → Bool
is_req_resp_muted s peer_id now =
    active (and_then (Map.get s.penalties peer_id) (λ penalty. penalty.mute_req_resp_until)) now

pub is_banned : PenaltyPeerStorage → PeerId → SystemTime → Bool
is_banned s peer_id now =
    active (and_then (Map.get s.penalties peer_id) (λ penalty. penalty.ban_until)) now

-- `entry(peer_id).or_insert_with(|| PenaltyInfo::new(None, None, None))`
abbrev pub entry : PenaltyPeerStorage → PeerId → PenaltyInfo
entry s peer_id = unwrap_or (Map.get s.penalties peer_id) no_penalty

-- An active term is never shortened, any other is replaced.
abbrev pub extend : Option SystemTime → SystemTime → SystemTime → SystemTime
extend none until now = until
extend (some old) until now = if ltb now old then max old until else until

-- The three methods below always return `Ok(())`.
pub mute_peer_gossip : PenaltyPeerStorage → PeerId → SystemTime → SystemTime → PenaltyPeerStorage
mute_peer_gossip s peer_id until now =
    let penalty = entry s peer_id in
    let penalty' = record penalty {
      mute_gossip_until = some (extend penalty.mute_gossip_until until now);
    } in
    record { penalties = Map.insert s.penalties peer_id penalty' }

pub mute_peer_req_resp : PenaltyPeerStorage → PeerId → SystemTime → SystemTime → PenaltyPeerStorage
mute_peer_req_resp s peer_id until now =
    let penalty = entry s peer_id in
    let penalty' = record penalty {
      mute_req_resp_until = some (extend penalty.mute_req_resp_until until now);
    } in
    record { penalties = Map.insert s.penalties peer_id penalty' }

pub ban_peer : PenaltyPeerStorage → PeerId → SystemTime → SystemTime → PenaltyPeerStorage
ban_peer s peer_id until now =
    let penalty = entry s peer_id in
    let penalty' = record penalty { ban_until = some (extend penalty.ban_until until now) } in
    record { penalties = Map.insert s.penalties peer_id penalty' }

-- `if let Some(penalty) = self.penalties.get_mut(peer_id) { .. }`
pub get_mut : PenaltyPeerStorage → PeerId → (PenaltyInfo → PenaltyInfo) → PenaltyPeerStorage
get_mut s peer_id change = elim (Map.get s.penalties peer_id) [
  | none ↦ s
  | some penalty ↦ record { penalties = Map.insert s.penalties peer_id (change penalty) }
]

pub unban_peer : PenaltyPeerStorage → PeerId → PenaltyPeerStorage
unban_peer s peer_id = get_mut s peer_id (λ penalty. record penalty { ban_until = none })

pub unmute_peer_gossip : PenaltyPeerStorage → PeerId → PenaltyPeerStorage
unmute_peer_gossip s peer_id =
    get_mut s peer_id (λ penalty. record penalty { mute_gossip_until = none })

pub unmute_peer_req_resp : PenaltyPeerStorage → PeerId → PenaltyPeerStorage
unmute_peer_req_resp s peer_id =
    get_mut s peer_id (λ penalty. record penalty { mute_req_resp_until = none })

-- The clock is read for each of the three tests.
pub has_active_penalties : PenaltyPeerStorage → PeerId → SystemTime → SystemTime → SystemTime → Bool
has_active_penalties s peer_id now₁ now₂ now₃ = elim (Map.get s.penalties peer_id) [
  | none ↦ false
  | some penalty ↦
      active penalty.ban_until now₁
      || (active penalty.mute_gossip_until now₂ || active penalty.mute_req_resp_until now₃)
]

unfoldable pub remove_peer : PenaltyPeerStorage → PeerId → PenaltyPeerStorage
remove_peer s peer_id = record { penalties = Map.remove s.penalties peer_id }
