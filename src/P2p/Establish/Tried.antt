-- ===== src/P2p/Establish/Tried.antt =====
-- How often `establish_connections` tries.
use strata_p2p.Common.{ℕ, ◌+◌, ◌≡◌, refl, Bool, Option, some, List, [], ◌∷◌, arith, unwrap_or}
use strata_p2p.Ids.{Multiaddr}
use strata_p2p.P2p.Dial.{default_max_retries}
use strata_p2p.P2p.Dial.Retries.{IsDone, retry_loop-IsDone}
use strata_p2p.P2p.Establish.{SwarmEvent, Attempts, insert, dial_all, establish_connections}

-- The dials of `connect_to`, in its order, with their addresses and numbers.
abbrev pub AllDone :
    (Multiaddr → ℕ → Bool) → ℕ → List Multiaddr → List (Multiaddr × Attempts) → Type 0
AllDone dial max [] [] = Unit {0}
AllDone dial max (addr ∷ addrs) ((a, attempts) ∷ dials) =
    (a ≡ addr)
    × ((count : ℕ) × (connected : Bool) × (attempts ≡ some (count, connected))
        × IsDone (dial addr) max 0 count connected)
    × AllDone dial max addrs dials
AllDone dial max [] (d ∷ dials) = ⊥
AllDone dial max (addr ∷ addrs) [] = ⊥

dial_all-AllDone :
    (max_retries : Option ℕ) (dial : Multiaddr → ℕ → Bool) (connect_to set : List Multiaddr)
    → AllDone dial
        (unwrap_or max_retries default_max_retries)
        connect_to
        (dial_all max_retries dial connect_to set).0
unfolding dial_all
dial_all-AllDone max_retries dial [] set = tt
dial_all-AllDone max_retries dial (addr ∷ addrs) set =
    let max = unwrap_or max_retries default_max_retries in
    (
      refl,
      retry_loop-IsDone (dial addr) max (max + 1) 0 (omega arith) (omega arith),
      dial_all-AllDone max_retries dial addrs (insert set addr),
    )

-- `establish_connections` dials every address of `connect_to` in order and then subscribes, each at
-- least once and at most once more than the configured retries, or 3 retries by default, stopping at
-- the first attempt that is accepted.
pub establish-AllDone :
    (max_retries : Option ℕ) (connect_to : List Multiaddr) (dial : Multiaddr → ℕ → Bool)
    (subscribe : ℕ → Bool) (events : List SwarmEvent) (ended : Bool)
    → let e = establish_connections max_retries connect_to dial subscribe events ended in
      let max = unwrap_or max_retries default_max_retries in
      AllDone dial max connect_to e.dials
      × ((count : ℕ) × (subscribed : Bool) × (e.subscription ≡ some (count, subscribed))
          × IsDone subscribe max 0 count subscribed)
unfolding establish_connections
establish-AllDone max_retries connect_to dial subscribe events ended =
    let max = unwrap_or max_retries default_max_retries in
    (
      dial_all-AllDone max_retries dial connect_to [],
      retry_loop-IsDone subscribe max (max + 1) 0 (omega arith) (omega arith),
    )
