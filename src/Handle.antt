-- ===== src/Handle.antt =====
-- crates/p2p/src/swarm/handle.rs: the queries of `CommandHandle` and the sinks of the handles, and the
-- default timeout of the queries in crates/p2p/src/swarm/mod.rs. What tokio's channels do is an
-- argument: whether the command was sent, and what the wait for the reply brings.
pub mod Turns
use strata_p2p.Common.{
  ℕ, ◌*◌, ◌/◌, ◌%◌, Bool, true, false, Option, none, some, List, [], if◌then◌else◌, unwrap_or,
}
use strata_p2p.Ids.{PeerId, PublicKey}
use strata_p2p.Time.{Duration, u64_mod}
use strata_p2p.P2p.Command as Plain
use strata_p2p.Byos.Control as Control

abbrev pub nanos_per_milli : ℕ
nanos_per_milli = 1000000

-- `HANDLE_DEFAULT_TIMEOUT_MS`, and its value at the start.
abbrev pub TimeoutMs : Type 0
TimeoutMs = ℕ

abbrev pub initial_timeout_ms : TimeoutMs
initial_timeout_ms = 1000

-- `duration.as_millis() as u64`
unfoldable pub set_handle_default_timeout : Duration → TimeoutMs
set_handle_default_timeout duration = (duration / nanos_per_milli) % u64_mod

unfoldable pub default_handle_timeout : TimeoutMs → Duration
default_handle_timeout ms = ms * nanos_per_milli

-- `timeout(duration, receiver).await`: the reply, the end of its sender, or the timeout.
pub data Waited (A : Type 0) : Type 0 where
  replied : A → Waited A
  reply_dropped elapsed : Waited A

-- What a query sends, how long it waits at most, and what it returns.
pub record Query (C : Type 0) (A : Type 0) : Type 0 where
  pub command : C
  pub duration : Duration
  pub returns : (is_sent : Bool) → Waited A → A

abbrev pub reply_or : {A : Type 0} → A → Bool → Waited A → A
reply_or default false waited = default
reply_or default true (replied a) = a
reply_or default true reply_dropped = default
reply_or default true elapsed = default

module _ (timeout_ms : TimeoutMs) (timeout_duration : Option Duration) where
  abbrev wait : Duration
  wait = unwrap_or timeout_duration (default_handle_timeout timeout_ms)

  -- The handle without the feature `byos`.
  pub is_connected : {S : Type 0} → PeerId → Query (Plain.Command S) Bool
  is_connected transport_id = record {
    command = Plain.query_is_connected transport_id;
    duration = wait;
    returns = reply_or false;
  }

  unfoldable pub get_connected_peers : {S : Type 0} → Query (Plain.Command S) (List PeerId)
  get_connected_peers = record {
    command = Plain.query_connected_peers;
    duration = wait;
    returns = reply_or [];
  }

  -- The handle with the feature `byos`.
  unfoldable pub is_connected_key : PublicKey → Query Control.Command Bool
  is_connected_key app_public_key = record {
    command = Control.query_is_connected app_public_key;
    duration = wait;
    returns = reply_or false;
  }

  unfoldable get_connected_keys : Query Control.Command (List PublicKey)
  get_connected_keys = record {
    command = Control.query_connected_peers;
    duration = wait;
    returns = reply_or [];
  }

-- `try_send`: the item comes back with the error.
pub data TrySend (A : Type 0) : Type 0 where
  accepted : TrySend A
  full closed : A → TrySend A

-- `start_send` of the three sinks, with `none` for `Ok(())` and the item of the `SendError`.
unfoldable start_send : {A : Type 0} → TrySend A → Option A
start_send accepted = none
start_send (full item) = some item
start_send (closed item) = some item
