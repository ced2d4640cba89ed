-- ===== src/Start/Configured.antt =====
-- The timeout of the handles and the maxima of the raw codec, as the configuration names them.
use strata_p2p.Common.{
  Option, List, [], ◌∷◌, ℕ, ◌+◌, ◌/◌, ◌≤◌, ◌<◌, ◌≡◌, some, ◌⊎◌, arith, Bool, unwrap_or,
}
use strata_p2p.Time.{Duration, u64_mod}
use strata_p2p.P2p.RawCodec.{Maxima, initial_maxima}
use strata_p2p.Handle.{
  TimeoutMs, default_handle_timeout, set_handle_default_timeout, nanos_per_milli,
}
use strata_p2p.Start.{P2PConfig}
use strata_p2p.Start.Behaviours.{Built}
use strata_p2p.Start.Swarms.{
  swarm_built, set_maxima, with_quic_transport, with_tcp_transport, with_inmemory_transport,
}
use strata_p2p.Start.Nodes.{timeout_after}

-- The default timeout of a handle, after a node is constructed with one, is that one rounded down to
-- whole milliseconds, where they fit `u64`.
timeout_rounded :
    {A B L : Type 0} (cfg : P2PConfig A B L) (ms : TimeoutMs) (d : Duration)
    → cfg.handle_default_timeout ≡ some d
    → d / nanos_per_milli < u64_mod
    → let t = default_handle_timeout (timeout_after cfg ms) in (t ≤ d) × (d < t + nanos_per_milli)
unfolding timeout_after set_handle_default_timeout default_handle_timeout
timeout_rounded cfg ms d e fits = ground (arith, e, fits)

-- The maxima after the configurations of the swarms that a process has constructed, the latest first.
unfoldable pub maxima_after : {A B L : Type 0} → List (P2PConfig A B L) → Maxima
maxima_after [] = initial_maxima
maxima_after (cfg ∷ earlier) = set_maxima cfg (maxima_after earlier)

-- What the latest configuration that names a value says, or else the default.
unfoldable pub in_force : {C : Type 0} → (C → Option ℕ) → (default : ℕ) → List C → ℕ
in_force get default [] = default
in_force get default (cfg ∷ earlier) = unwrap_or (get cfg) (in_force get default earlier)

-- One of the three constructions of a swarm succeeds, and leaves the maxima `after`.
abbrev pub IsBuilt :
    {A B L Y : Type 0} → P2PConfig A B L → Built Y → (before after : Maxima) → Type 0
IsBuilt {Y = Y} cfg behaviour before after =
    (y : Y) × (idle : Duration) × (has_tcp : Bool) × (has_dns : Bool) × ((with_quic_transport
          has_tcp has_dns cfg behaviour before
        ≡ (swarm_built y idle, after))
      ⊎ ((with_tcp_transport has_tcp has_dns cfg behaviour before ≡ (swarm_built y idle, after))
          ⊎ (with_inmemory_transport has_tcp cfg behaviour before ≡ (swarm_built y idle, after))))
