-- ===== src/P2p/Dial.antt =====
-- `addresses.sort_by_key(|addr| !is_quic(addr))` of the connect commands, the retries of
-- `establish_connections`, in crates/p2p/src/swarm/mod.rs.
pub mod Order
pub mod Retries
use strata_p2p.Common.{
  ℕ, zero, suc, ◌+◌, ltb, Option, none, some, Bool, true, false, not, ◌||◌, List, [], ◌∷◌, ◌++◌,
  if◌then◌else◌,
}
use strata_p2p.Ids.{Multiaddr}

-- The stable sort of Rust's standard library, by insertion; `false` is below `true`.
pub insert_by_key : {A : Type 0} → (A → Bool) → A → List A → List A
insert_by_key key x [] = x ∷ []
insert_by_key key x (y ∷ ys) =
    if not (key x) || key y then x ∷ y ∷ ys else y ∷ insert_by_key key x ys

pub sort_by_key : {A : Type 0} → (A → Bool) → List A → List A
unfolding insert_by_key
sort_by_key key [] = []
sort_by_key key (x ∷ xs) = insert_by_key key x (sort_by_key key xs)

pub sort_addresses : (Multiaddr → Bool) → List Multiaddr → List Multiaddr
unfolding sort_by_key
sort_addresses is_quic = sort_by_key (λ addr. not (is_quic addr))

-- The loop that dials one address of `connect_to`, on fuel: `attempt k` is the outcome of the dial
-- after `k` failures. The result is the number of dials and whether the last one was accepted. The
-- loop that subscribes to the topic has the same shape.
pub retry_loop : (attempt : ℕ → Bool) → (max_retry_count fuel num_retries : ℕ) → Option (ℕ × Bool)
retry_loop attempt max_retry_count zero num_retries = none
retry_loop attempt max_retry_count (suc fuel) num_retries =
    let rest = retry_loop attempt max_retry_count fuel (num_retries + 1) in
    if attempt num_retries
    then some (num_retries + 1, true)
    else if ltb max_retry_count (num_retries + 1)
    then some (num_retries + 1, false)
    else rest

-- `DEFAULT_MAX_RETRIES`
abbrev pub default_max_retries : ℕ
default_max_retries = 3
