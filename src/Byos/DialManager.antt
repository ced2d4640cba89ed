-- ===== src/Byos/DialManager.antt =====
-- crates/p2p/src/swarm/dial_manager.rs: the addresses that are still to be tried for each peer.
pub mod Fifo
use strata_p2p.Common.{Bool, Option, none, some, List, []}
use strata_p2p.Ids.{PublicKey, ConnectionId, Multiaddr}
use strata_p2p.Map
use strata_p2p.Map.{Map}

-- cynosure's `Queue`, as far as the code calls it.
pub record Queue (Q : Type 0) : Type 0 where
  pub from_iter : List Multiaddr → Q
  pub pop_front : Q → Option Multiaddr × Q

pub record DialManager (Q : Type 0) : Type 0 where
  pub dial_queues : Map Q
  pub conn_to_dial : Map PublicKey

module _ {Q : Type 0} where
  unfoldable pub new : DialManager Q
  new = record { dial_queues = []; conn_to_dial = [] }

  unfoldable pub insert_queue : DialManager Q → PublicKey → Q → DialManager Q
  insert_queue d app_public_key queue = record d {
    dial_queues = Map.insert d.dial_queues app_public_key queue;
  }

  -- `get_mut` and `pop_front`: the queue that is left stays in the map.
  unfoldable pub pop_next_addr :
      Queue Q → DialManager Q → PublicKey → Option Multiaddr × DialManager Q
  pop_next_addr q d app_public_key = elim (Map.get d.dial_queues app_public_key) [
    | none ↦ (none, d)
    | some entry ↦
        let (addr, rest) = q.pop_front entry in
        (addr, record d { dial_queues = Map.insert d.dial_queues app_public_key rest })
  ]

  unfoldable pub map_connid : DialManager Q → ConnectionId → PublicKey → DialManager Q
  map_connid d conn_id app_public_key = record d {
    conn_to_dial = Map.insert d.conn_to_dial conn_id app_public_key;
  }

  -- No caller reads the key that it returns.
  unfoldable pub remove_connid : DialManager Q → ConnectionId → Option PublicKey × DialManager Q
  remove_connid d conn_id = (
    Map.get d.conn_to_dial conn_id,
    record d { conn_to_dial = Map.remove d.conn_to_dial conn_id },
  )

  unfoldable pub remove_queue : DialManager Q → PublicKey → DialManager Q
  remove_queue d app_public_key = record d { dial_queues = Map.remove d.dial_queues app_public_key }

  unfoldable pub get_app_public_key_by_connection_id :
      DialManager Q → ConnectionId → Option PublicKey
  get_app_public_key_by_connection_id d conn_id = Map.get d.conn_to_dial conn_id

  unfoldable pub has_app_public_key : DialManager Q → PublicKey → Bool
  has_app_public_key d app_public_key = Map.contains_key d.dial_queues app_public_key
