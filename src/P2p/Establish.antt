-- ===== src/P2p/Establish.antt =====
-- `establish_connections` of crates/p2p/src/swarm/mod.rs, the same with and without the feature `byos`:
-- it dials each address of `connect_to`, subscribes to the topic, and waits for the connections.
pub mod Awaited
pub mod Tried
use strata_p2p.Common.{
  ℕ, ◌+◌, ◌==◌, not, Bool, Option, List, [], ◌∷◌, ◌++◌, contains, if◌then◌else◌, unwrap_or,
}
use strata_p2p.Ids.{PeerId, Multiaddr}
use strata_p2p.P2p.Dial.{retry_loop, default_max_retries}

-- What `self.swarm.next()` yields. A connection is established as the dialer, with the address that was
-- dialed, or as the listener.
pub data SwarmEvent : Type 0 where
  subscribed : PeerId → SwarmEvent
  established_as_dialer : Multiaddr → SwarmEvent
  established_as_listener : PeerId → SwarmEvent
  connection_error other : SwarmEvent

-- How the wait ends: the requirements are met, the swarm's stream ends, or `general_timeout` is over.
pub data Outcome : Type 0 where
  established stream_ended timed_out : Outcome

-- The variables that the wait changes. A `HashSet` of addresses is a list.
pub record Progress : Type 0 where
  pub is_not_connected : List Multiaddr
  pub subscriptions : ℕ

unfoldable pub insert : List Multiaddr → Multiaddr → List Multiaddr
insert set addr = if contains set addr then set else set ++ (addr ∷ [])

unfoldable pub remove : List Multiaddr → Multiaddr → List Multiaddr
remove [] addr = []
remove (x ∷ set) addr = let rest = remove set addr in if x == addr then rest else x ∷ rest

-- The part of the loop's body before its test.
pub progress : Progress → SwarmEvent → Progress
progress p (subscribed peer) = record p { subscriptions = p.subscriptions + 1 }
progress p (established_as_dialer address) = record p {
  is_not_connected = remove p.is_not_connected address;
}
progress p (established_as_listener peer) = p
progress p connection_error = p
progress p other = p

abbrev pub is_empty : List Multiaddr → Bool
is_empty [] = Bool.true
is_empty (x ∷ xs) = Bool.false

abbrev pub is_listener : SwarmEvent → Bool
is_listener (established_as_listener peer) = Bool.true
is_listener (subscribed peer) = Bool.false
is_listener (established_as_dialer address) = Bool.false
is_listener connection_error = Bool.false
is_listener other = Bool.false

-- `connection_future` under `timeout(general_timeout, _)`: `events` are those before the timeout, and
-- `ended` says whether the swarm's stream ends after them. A connection as the listener skips the test.
pub await_connections : Progress → List SwarmEvent → (ended : Bool) → Progress × Outcome
await_connections p [] ended = (p, if ended then stream_ended else timed_out)
await_connections p (event ∷ events) ended =
    let p' = progress p event in
    let rest = await_connections p' events ended in
    if not (is_listener event)
    then (if is_empty p'.is_not_connected then (p', established) else rest)
    else rest

-- The number of dials of an address, and whether the last one was accepted; `none` would say that the
-- fuel is too small.
abbrev pub Attempts : Type 0
Attempts = Option (ℕ × Bool)

pub record Establishment : Type 0 where
  pub dials : List (Multiaddr × Attempts)
  pub subscription : Attempts
  pub left : Progress
  pub outcome : Outcome

abbrev pub retries : Option ℕ → (ℕ → Bool) → Attempts
retries max_retries attempt =
    let max_retry_count = unwrap_or max_retries default_max_retries in
    retry_loop attempt max_retry_count (max_retry_count + 1) 0

-- The loop over `connect_to`: the dials, and the set of addresses.
pub dial_all :
    Option ℕ
    → (dial : Multiaddr → ℕ → Bool) → List Multiaddr
    → List Multiaddr
    → List (Multiaddr × Attempts) × List Multiaddr
unfolding insert
dial_all max_retries dial [] set = ([], set)
dial_all max_retries dial (addr ∷ addrs) set =
    let (dials, set') = dial_all max_retries dial addrs (insert set addr) in
    ((addr, retries max_retries (dial addr)) ∷ dials, set')

-- `dial addr k` and `subscribe k` are the outcomes after `k` failures.
pub establish_connections :
    Option ℕ
    → (connect_to : List Multiaddr) (dial : Multiaddr → ℕ → Bool) (subscribe : ℕ → Bool)
    → List SwarmEvent
    → (ended : Bool) → Establishment
unfolding dial_all await_connections
establish_connections max_retries connect_to dial subscribe events ended =
    let (dials, is_not_connected) = dial_all max_retries dial connect_to [] in
    let (left, outcome) =
      await_connections (record { is_not_connected = is_not_connected; subscriptions = 0 }) events
        ended in
    record {
      dials = dials;
      subscription = retries max_retries subscribe;
      left = left;
      outcome = outcome;
    }
