-- ===== src/Byos/Dialing/Attempts.antt =====
-- The addresses that are dialed for a peer, from the command to the last failure or refusal.
use strata_p2p.Common.{
  ℕ, suc, ◌≡◌, ◌<◌, refl, ◌++◌, Bool, true, false, any, Option, none, some, List, [], ◌∷◌, map,
  arith, length, ap,
}
use strata_p2p.Ids.{PublicKey, ConnectionId, Multiaddr}
use strata_p2p.Map
use strata_p2p.P2p.{Step, Effect, Deps, dial_address, ok}
use strata_p2p.P2p.Dial.{sort_addresses}
use strata_p2p.P2p.Dial.Order.{length-sort_addresses}
use strata_p2p.Byos.{Node, Reply}
use strata_p2p.Byos.DialManager
use strata_p2p.Byos.DialManager.{Queue, has_app_public_key, get_app_public_key_by_connection_id}
use strata_p2p.Byos.DialManager.Fifo.{IsFifo}
use strata_p2p.Byos.Dialing.{
  connect_to_peer, dial_first, dial_next, dial_and_map, handle_connection_event,
  outgoing_connection_error,
}

pub not_in-remove :
    {V : Type 0} (m : Map.Map V) (k : ℕ) → Map.contains_key (Map.remove m k) k ≡ false
not_in-remove m k = ground (arith, Map.get-remove m k k)

popped :
    {Q : Type 0} (q : Queue Q) (d : DialManager.DialManager Q) (key : PublicKey) (queue : Q)
    (next : Option Multiaddr)
    → Map.get d.dial_queues key ≡ some queue
    → (q.pop_front queue).0 ≡ next
    → DialManager.pop_next_addr q d key
      ≡ (next, record d { dial_queues = Map.insert d.dial_queues key ((q.pop_front queue).1) })
unfolding DialManager.pop_next_addr
popped q d key queue next queued front = ground (arith, queued, front)

-- What becomes of a dial that does not connect. libp2p refuses it at once, so that `swarm.dial` returns
-- an error, and no event ever comes for its connection; or the dial fails later, with an event, and the
-- node's next dial is on the connection `next`.
pub data Fate : Type 0 where
  refused : Fate
  fails : (next : ConnectionId) → Fate

pub is_refused : Fate → Bool
is_refused refused = true
is_refused (fails next) = false

-- The addresses up to the first one whose dial is refused.
pub tried : List Multiaddr → List Fate → List Multiaddr
tried [] fates = []
tried (x ∷ xs) [] = x ∷ []
tried (x ∷ xs) (refused ∷ fates) = x ∷ []
tried (x ∷ xs) (fails next ∷ fates) = x ∷ tried xs fates

module _ {S Q : Type 0} (q : Queue Q) where
  -- What the node does about the dial on `current` and those after it, with the fate of each.
  pub try_all :
      Node S Q → (current : ConnectionId) → (fates : List Fate) → Node S Q × List (Effect Reply)
  try_all n current [] = (n, [])
  try_all n current (refused ∷ fates) = (n, [])
  try_all n current (fails next ∷ fates) =
      let step = handle_connection_event q n (outgoing_connection_error current) next in
      let (n', effects) = try_all step.state next fates in (n', step.effects ++ effects)

  -- The dial on `current` is for `key`, and `xs` are the addresses that are left.
  record IsDialing (fifo : IsFifo q) (n : Node S Q) (key : PublicKey) (current : ConnectionId)
      (xs : List Multiaddr) : Type 0 where
    pub on : get_app_public_key_by_connection_id n.dial_manager current ≡ some key
    pub queue : Q
    pub queued : Map.get n.dial_manager.dial_queues key ≡ some queue
    pub left : fifo.contents queue ≡ xs

  module _ (fifo : IsFifo q) (key : PublicKey) (current next : ConnectionId) (n : Node S Q) where
    abbrev failed : Step (Node S Q) Reply
    failed = handle_connection_event q n (outgoing_connection_error current) next

    abbrev removed : DialManager.DialManager Q
    removed = (DialManager.remove_connid n.dial_manager current).1

    -- The node after the address at the front of the queue, if there is one, is dialed.
    failed_lem :
        (xs : List Multiaddr) (d : IsDialing fifo n key current xs) (front : Option Multiaddr)
        → (q.pop_front d.queue).0 ≡ front
        → failed
          ≡ dial_next n key next (
            front,
            record removed {
              dial_queues = Map.insert removed.dial_queues key ((q.pop_front d.queue).1);
            },
          )
    unfolding handle_connection_event get_app_public_key_by_connection_id DialManager.remove_connid
    failed_lem xs d front e =
        rw (handle_connection_event, d.on)
          (ap (dial_next n key next) (popped q removed key d.queue front d.queued e))

    fail_last :
        IsDialing fifo n key current []
        → (failed.effects ≡ []) × (has_app_public_key failed.state.dial_manager key ≡ false)
    unfolding dial_next has_app_public_key DialManager.remove_queue
    fail_last d =
        rw (failed_lem [] d none (fifo.pop-empty d.queue d.left)) (refl, not_in-remove _ key)

    fail_next :
        (x : Multiaddr) (xs : List Multiaddr)
        → IsDialing fifo n key current (x ∷ xs)
        → (failed.effects ≡ dial_address x ∷ []) × IsDialing fifo failed.state key next xs
    unfolding dial_next dial_and_map DialManager.map_connid get_app_public_key_by_connection_id
    fail_next x xs d =
        let (front, rest) = fifo.pop-front d.queue x xs d.left in
        rw (failed_lem (x ∷ xs) d (some x) front) (
          refl,
          record {
            on = Map.get-insert_self _ next key;
            queue = (q.pop_front d.queue).1;
            queued = Map.get-insert_self _ key _;
            left = rest;
          },
        )

  module _ (fifo : IsFifo q) (key : PublicKey) where
    -- A key with a queue is being dialed.
    busy :
        (n : Node S Q) (current : ConnectionId) (xs : List Multiaddr)
        → IsDialing fifo n key current xs
        → has_app_public_key n.dial_manager key ≡ true
    unfolding has_app_public_key
    busy n current xs d = ground (arith, d.queued)

    -- The addresses that are left are dialed in order up to the first refusal, and then the key is
    -- free again, unless there was one.
    try_all-dials :
        (x : Multiaddr) (xs : List Multiaddr) (fates : List Fate) (n : Node S Q)
        (current : ConnectionId)
        → length fates ≡ suc (length xs)
        → IsDialing fifo n key current xs
        → (dial_address x ∷ (try_all n current fates).1 ≡ map dial_address (tried (x ∷ xs) fates))
          × (has_app_public_key (try_all n current fates).0.dial_manager key ≡ any is_refused fates)
    unfolding try_all tried is_refused
    try_all-dials x xs [] n current count d = absurd (ground arith)
    try_all-dials x xs (refused ∷ fates) n current count d = (refl, busy n current xs d)
    try_all-dials x [] (fails next ∷ []) n current count d =
        let (none_dialed, free) = fail_last fifo key current next n d in (rw none_dialed refl, free)
    try_all-dials x [] (fails next ∷ _ ∷ _) n current count d = absurd (ground arith)
    try_all-dials x (y ∷ xs) (fails next ∷ fates) n current count d =
        let (dialed, dialing) = fail_next fifo key current next n y xs d in
        let (effects, free) = try_all-dials y xs fates _ next (omega arith) dialing in
        (rw dialed (ap (λ es. dial_address x ∷ es) effects), free)

    connect_lem :
        (deps : Deps) (n : Node S Q) (a : Multiaddr) (addresses : List Multiaddr)
        (first : ConnectionId)
        → has_app_public_key n.dial_manager key ≡ false
        → (x : Multiaddr) (xs : List Multiaddr)
        → sort_addresses deps.is_quic (a ∷ addresses) ≡ x ∷ xs
        → let step = connect_to_peer q deps n key (a ∷ addresses) first in
          ((step.result ≡ ok) × (step.effects ≡ dial_address x ∷ []))
          × IsDialing fifo step.state key first xs
    unfolding connect_to_peer dial_first dial_and_map DialManager.insert_queue
        DialManager.map_connid get_app_public_key_by_connection_id
    connect_lem deps n a addresses first free x xs sorted =
        let queue = q.from_iter (x ∷ xs) in
        let (front, rest) = fifo.pop-front queue x xs (fifo.contents-from_iter (x ∷ xs)) in
        rw (free, sorted, opened front)
          (
            (refl, refl),
            record {
              on = Map.get-insert_self _ first key;
              queue = (q.pop_front queue).1;
              queued = Map.get-insert_self _ key _;
              left = rest;
            },
          )
      where
        opened :
            (q.pop_front (q.from_iter (x ∷ xs))).0 ≡ some x
            → q.pop_front (q.from_iter (x ∷ xs)) ≡ (some x, (q.pop_front (q.from_iter (x ∷ xs))).1)
        opened front = rw front refl

    -- With a queue that is first in, first out: when `ConnectToPeer` names a key that is not being
    -- dialed and at least one address, and each dial in turn fails or is refused by libp2p, the
    -- addresses are dialed once each, those over QUIC first, up to the first one that libp2p refuses.
    -- Then the key is not being dialed any more, exactly if none was refused.
    pub connect-dials :
        (deps : Deps) (n : Node S Q) (addresses : List Multiaddr) (first : ConnectionId)
        (fates : List Fate)
        → has_app_public_key n.dial_manager key ≡ false
        → 0 < length addresses
        → length fates ≡ length addresses
        → let step = connect_to_peer q deps n key addresses first in
          (step.result ≡ ok)
          × (step.effects ++ (try_all step.state first fates).1
              ≡ map dial_address (tried (sort_addresses deps.is_quic addresses) fates))
          × (has_app_public_key (try_all step.state first fates).0.dial_manager key
              ≡ any is_refused fates)
    connect-dials deps n [] first fates free some_address count = absurd (ground arith)
    connect-dials deps n (a ∷ addresses) first fates free some_address count =
        dials (sort_addresses deps.is_quic (a ∷ addresses))
          (length-sort_addresses deps.is_quic (a ∷ addresses)) refl
      where
        dials :
            (sorted : List Multiaddr)
            → length sorted ≡ length (a ∷ addresses)
            → sort_addresses deps.is_quic (a ∷ addresses) ≡ sorted
            → let step = connect_to_peer q deps n key (a ∷ addresses) first in
              (step.result ≡ ok)
              × (step.effects ++ (try_all step.state first fates).1
                  ≡ map dial_address (tried sorted fates))
              × (has_app_public_key (try_all step.state first fates).0.dial_manager key
                  ≡ any is_refused fates)
        dials [] none_left e = absurd (ground arith)
        dials (x ∷ xs) some_left e =
            let ((fine, opened), dialing) = connect_lem deps n a addresses first free x xs e in
            let (effects, state) = try_all-dials x xs fates _ first (omega arith) dialing in
            (fine, rw opened effects, state)
