-- ===== src/P2p/Establish/Awaited.antt =====
-- When `establish_connections` says that all connections are established.
use strata_p2p.Common.{
  ℕ, ◌≡◌, ◌↔◌, refl, ap, ◌==◌, ◌||◌, ◌&&◌, not, Bool, true, false, Option, List, [], ◌∷◌, ◌++◌,
  arith, contains, if◌then◌else◌, ◌⊎◌, inl, inr,
}
use strata_p2p.Ids.{Multiaddr}
use strata_p2p.P2p.Establish.{
  SwarmEvent, subscribed, established_as_dialer, established_as_listener, connection_error, other,
  Outcome, established, Progress, insert, remove, progress, is_empty, is_listener,
  await_connections, dial_all, establish_connections,
}

-- The addresses of the connections that were established as the dialer.
abbrev pub dialed : List SwarmEvent → List Multiaddr
dialed [] = []
dialed (established_as_dialer address ∷ events) = address ∷ dialed events
dialed (event ∷ events) = dialed events

abbrev pub AllIn : List Multiaddr → List Multiaddr → Type 0
AllIn addrs seen = (addr : Multiaddr) → contains addrs addr ≡ true → contains seen addr ≡ true

-- After some event that is no connection as the listener, a connection to each of the addresses has
-- been established as the dialer.
abbrev pub AreMet : List Multiaddr → List SwarmEvent → Type 0
AreMet addrs events =
    (before : List SwarmEvent) × (event : SwarmEvent) × (after : List SwarmEvent) × (events
      ≡ before ++ (event ∷ after))
    × (is_listener event ≡ false)
    × AllIn addrs (dialed (before ++ (event ∷ [])))

contains-append :
    (xs ys : List Multiaddr) (y : Multiaddr)
    → contains (xs ++ ys) y ≡ (contains xs y || contains ys y)
contains-append [] ys y = refl
contains-append (x ∷ xs) ys y = ground (arith, contains-append xs ys y)

contains-eq : (set : List Multiaddr) (x y : Multiaddr) → x ≡ y → contains set x ≡ contains set y
contains-eq set x y e = ap (contains set) e

contains-insert :
    (set : List Multiaddr) (x y : Multiaddr)
    → contains (insert set x) y ≡ (x == y || contains set y)
unfolding insert
contains-insert set x y = ground (arith, contains-append set (x ∷ []) y, contains-eq set x y)

contains-remove :
    (set : List Multiaddr) (x y : Multiaddr)
    → contains (remove set x) y ≡ (not (x == y) && contains set y)
unfolding remove
contains-remove [] x y = ground arith
contains-remove (z ∷ set) x y = ground (arith, contains-remove set x y)

empty_iff :
    (set : List Multiaddr) → (is_empty set ≡ true) ↔ ((y : Multiaddr) → contains set y ≡ false)
empty_iff [] = (λ e y. refl, λ h. refl)
empty_iff (x ∷ set) = (λ e. absurd (ground arith), λ h. absurd (ground (arith, h x)))

dialed-split :
    (event : SwarmEvent) (events : List SwarmEvent)
    → dialed (event ∷ events) ≡ dialed (event ∷ []) ++ dialed events
dialed-split (subscribed peer) events = refl
dialed-split (established_as_dialer address) events = refl
dialed-split (established_as_listener peer) events = refl
dialed-split connection_error events = refl
dialed-split other events = refl

left-progress :
    (p : Progress) (event : SwarmEvent) (y : Multiaddr)
    → contains (progress p event).is_not_connected y
      ≡ (not (contains (dialed (event ∷ [])) y) && contains p.is_not_connected y)
unfolding progress
left-progress p (subscribed peer) y = refl
left-progress p (established_as_dialer address) y =
    ground (arith, contains-remove p.is_not_connected address y)
left-progress p (established_as_listener peer) y = refl
left-progress p connection_error y = refl
left-progress p other y = refl

module _ (p : Progress) (event : SwarmEvent) where
  abbrev later : List Multiaddr
  later = (progress p event).is_not_connected

  met_now : is_empty later ≡ true → AllIn p.is_not_connected (dialed (event ∷ []))
  met_now e y inside = ground (arith, (empty_iff later).0 e y, left-progress p event y, inside)

  now_met : AllIn p.is_not_connected (dialed (event ∷ [])) → is_empty later ≡ true
  now_met h = (empty_iff later).1 (λ y. ground (arith, left-progress p event y, h y))

  module _ (events : List SwarmEvent) where
    met_after : AllIn later (dialed events) → AllIn p.is_not_connected (dialed (event ∷ events))
    met_after h y inside =
        rw (dialed-split event events, contains-append (dialed (event ∷ [])) (dialed events) y)
          (ground (arith, left-progress p event y, h y, inside))

    after_met : AllIn p.is_not_connected (dialed (event ∷ events)) → AllIn later (dialed events)
    after_met h y inside = ground (
      arith,
      left-progress p event y,
      h y,
      inside,
      dialed-split event events,
      contains-append (dialed (event ∷ [])) (dialed events) y,
    )

met-step :
    (p : Progress) (event : SwarmEvent) (events : List SwarmEvent) (before : List SwarmEvent)
    (last : SwarmEvent) (after : List SwarmEvent)
    → event ∷ events ≡ before ++ (last ∷ after)
    → is_listener last ≡ false
    → AllIn p.is_not_connected (dialed (before ++ (last ∷ [])))
    → ((is_listener event ≡ false) × (is_empty (later p event) ≡ true))
      ⊎ AreMet (later p event) events
met-step p event events [] last after e l h =
    let same : event ≡ last = cc e in inl (rw same l, now_met p event (rw same h))
met-step p event events (b ∷ before) last after e l h =
    let same : event ≡ b = cc e in
    inr (before, last, after, cc e, l, after_met p event (before ++ (last ∷ [])) (rw same h))

met-cons :
    (p : Progress) (event : SwarmEvent) (events : List SwarmEvent)
    → AreMet (later p event) events
    → AreMet p.is_not_connected (event ∷ events)
met-cons p event events (before, last, after, e, l, h) = (
  event ∷ before,
  last,
  after,
  ap (λ es. event ∷ es) e,
  l,
  met_after p event (before ++ (last ∷ [])) h,
)

no_event :
    (before : List SwarmEvent) (last : SwarmEvent) (after : List SwarmEvent)
    → [] ≡ before ++ (last ∷ after)
    → ⊥
no_event [] last after e = cc e
no_event (b ∷ before) last after e = cc e

branch_iff :
    (listens empty : Bool) (p : Progress) (rest : Progress × Outcome)
    → ((if not listens then (if empty then (p, established) else rest) else rest).1 ≡ established)
      ↔ (((listens ≡ false) × (empty ≡ true)) ⊎ (rest.1 ≡ established))
branch_iff true empty p rest = (λ e. inr e, λ h. ground arith)
branch_iff false true p rest = (λ e. inl (refl, refl), λ h. refl)
branch_iff false false p rest = (λ e. inr e, λ h. ground arith)

await-met :
    (p : Progress) (events : List SwarmEvent) (ended : Bool)
    → ((await_connections p events ended).1 ≡ established) ↔ AreMet p.is_not_connected events
unfolding await_connections
await-met p [] true = (λ e. absurd (ground arith), λ w. absurd (no_event w.0 w.1 w.2 w.3))
await-met p [] false = (λ e. absurd (ground arith), λ w. absurd (no_event w.0 w.1 w.2 w.3))
await-met p (event ∷ events) ended =
    let (sound, complete) = await-met (progress p event) events ended in
    let (came, goes) =
      branch_iff (is_listener event) (is_empty (later p event)) (progress p event)
        (await_connections (progress p event) events ended) in
    (
      λ e. elim (came e) [
        | inl now ↦ ([], event, events, refl, now.0, met_now p event now.1)
        | inr then_ ↦ met-cons p event events (sound then_)
      ],
      λ w. goes (elim (met-step p event events w.0 w.1 w.2 w.3 w.4 w.5) [
        | inl now ↦ inl now
        | inr after ↦ inr (complete after)
      ]),
    )

contains-dial_all :
    (max_retries : Option ℕ) (dial : Multiaddr → ℕ → Bool) (connect_to set : List Multiaddr)
    (y : Multiaddr)
    → contains (dial_all max_retries dial connect_to set).1 y
      ≡ (contains connect_to y || contains set y)
unfolding dial_all
contains-dial_all max_retries dial [] set y = refl
contains-dial_all max_retries dial (addr ∷ addrs) set y = ground (
  arith,
  contains-dial_all max_retries dial addrs (insert set addr) y,
  contains-insert set addr y,
)

-- `establish_connections` finds all connections established exactly when, after some event before
-- the timeout that is no connection as the listener, a connection to each address of `connect_to`
-- has been established as the dialer, whatever became of the dials and of the subscriptions.
pub established_iff :
    (max_retries : Option ℕ) (connect_to : List Multiaddr) (dial : Multiaddr → ℕ → Bool)
    (subscribe : ℕ → Bool) (events : List SwarmEvent) (ended : Bool)
    → ((establish_connections max_retries connect_to dial subscribe events ended).outcome
        ≡ established)
      ↔ AreMet connect_to events
unfolding establish_connections
established_iff max_retries connect_to dial subscribe events ended =
    let set = (dial_all max_retries dial connect_to []).1 in
    let (sound, complete) =
      await-met (record { is_not_connected = set; subscriptions = 0 }) events ended in
    let inside = λ (y : Multiaddr). contains-dial_all max_retries dial connect_to [] y in
    (
      λ e.
          let (before, last, after, split, l, h) = sound e in
          (before, last, after, split, l, λ y c. h y (ground (arith, inside y, c))),
      λ w.
          let (before, last, after, split, l, h) = w in
          complete (before, last, after, split, l, λ y c. h y (ground (arith, inside y, c))),
    )
