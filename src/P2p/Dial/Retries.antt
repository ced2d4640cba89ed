-- ===== src/P2p/Dial/Retries.antt =====
-- The number of dials of an address.
use strata_p2p.Common.{
  ℕ, zero, suc, ◌+◌, ◌-◌, ◌≤◌, ◌<◌, ◌≡◌, Bool, true, false, some, arith, ltb, Bool-cases, inl, inr,
}
use strata_p2p.P2p.Dial.{retry_loop}

-- What a finished loop says: how many dials there were, and that all but the last failed.
pub record IsDone (attempt : ℕ → Bool) (max_retry_count start dials : ℕ) (connected : Bool)
    : Type 0 where
  pub at_least_one : start < dials
  pub at_most : dials ≤ max_retry_count + 1
  pub last : attempt (dials - 1) ≡ connected
  pub before : (k : ℕ) → start ≤ k → k + 1 < dials → attempt k ≡ false
  pub gave_up : connected ≡ false → dials ≡ max_retry_count + 1

back : (k : ℕ) → k + 1 - 1 ≡ k
back k = omega arith

-- With fuel for the retries that are left, the loop ends. It dials at least once and at most once
-- more than `max_retry_count`, stops at the first dial that is accepted, and gives up only after
-- all of them have failed.
pub retry_loop-IsDone :
    (attempt : ℕ → Bool) (max_retry_count fuel num_retries : ℕ)
    → num_retries ≤ max_retry_count
    → max_retry_count < num_retries + fuel
    → (dials : ℕ) × (connected : Bool) × (retry_loop attempt max_retry_count fuel num_retries
        ≡ some (dials, connected))
      × IsDone attempt max_retry_count num_retries dials connected
unfolding retry_loop
retry_loop-IsDone attempt max zero k h enough = absurd (omega arith)
retry_loop-IsDone attempt max (suc fuel) k h enough = elim (Bool-cases (attempt k)) [
  | inl accepted ↦ (
    k + 1,
    true,
    rw accepted,
    record {
      at_least_one = omega arith;
      at_most = omega arith;
      last = rw (back k) accepted;
      before = λ j a b. absurd (omega arith);
      gave_up = λ e. cc;
    },
  )
  | inr refused ↦ elim (Bool-cases (ltb max (k + 1))) [
    | inl over ↦ (
      k + 1,
      false,
      rw (refused, over),
      record {
        at_least_one = omega arith;
        at_most = omega arith;
        last = rw (back k) refused;
        before = λ j a b. absurd (omega arith);
        gave_up = λ e. ground arith;
      },
    )
    | inr under ↦
        let (dials, connected, e, done) =
          retry_loop-IsDone attempt max fuel (k + 1) (ground arith) (omega arith) in
        (
          dials,
          connected,
          rw (refused, under) e,
          record {
            at_least_one = omega (arith, done.at_least_one);
            at_most = done.at_most;
            last = done.last;
            before = λ j a b. ground (arith, refused, done.before j);
            gave_up = done.gave_up;
          },
        )
  ]
]
