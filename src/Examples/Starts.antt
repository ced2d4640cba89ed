-- ===== src/Examples/Starts.antt =====
-- The theorems on `establish_connections` for the addresses 20 and 21.
use strata_p2p.Common.{◌≡◌, refl, true, false, none, List, [], ◌∷◌, ◌==◌, ◌&&◌, ltb, arith}
use strata_p2p.P2p.Establish.{
  SwarmEvent, established_as_dialer, established_as_listener, established, establish_connections,
}
use strata_p2p.P2p.Establish.Awaited.{established_iff}
use strata_p2p.P2p.Establish.Tried.{AllDone, establish-AllDone}

abbrev arrivals : List SwarmEvent
arrivals = established_as_dialer 21 ∷ established_as_listener 107 ∷ established_as_dialer 20 ∷ []

-- The topic is never subscribed, and no peer subscribes.
established_iff_example :
    (establish_connections none (20 ∷ 21 ∷ []) (λ addr k. true) (λ k. false) arrivals false).outcome
    ≡ established
established_iff_example =
    (established_iff none (20 ∷ 21 ∷ []) (λ addr k. true) (λ k. false) arrivals false).1 (
      established_as_dialer 21 ∷ established_as_listener 107 ∷ [],
      established_as_dialer 20,
      [],
      refl,
      refl,
      λ addr h. ground arith,
    )

-- The address 20 is accepted at the third dial, and the address 21 never.
establish-AllDone_example :
    AllDone
      (λ addr k. addr == 20 && ltb 1 k)
      3
      (20 ∷ 21 ∷ [])
      (establish_connections none
        (20 ∷ 21 ∷ [])
        (λ addr k. addr == 20 && ltb 1 k)
        (λ k. true)
        []
        false).dials
establish-AllDone_example =
    (establish-AllDone none (20 ∷ 21 ∷ []) (λ addr k. addr == 20 && ltb 1 k) (λ k. true) [] false).0
