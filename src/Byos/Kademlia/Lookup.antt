-- ===== src/Byos/Kademlia/Lookup.antt =====
-- A whole query for a peer's addresses: what the node asks, what it hears until the query ends, and
-- what it reports.
use mathlib.Core.List.{append-nil}
use strata_p2p.Common.{
  ◌≡◌, ◌≢◌, ◌↔◌, ◌⊎◌, refl, ap, sym, ◌∙◌, Option, some, List, [], ◌∷◌, ◌++◌, arith, ◌==◌,
  Bool-cases, Option-cases, inl, inr,
}
use strata_p2p.Ids.{QueryId, Bytes}
use strata_p2p.Map
use strata_p2p.Map.{Map}
use strata_p2p.Time.{SystemTime}
use strata_p2p.Envelope.{Limits}
use strata_p2p.P2p.{Deps}
use strata_p2p.P2p.Kademlia.{
  KademliaEvent, inbound_put_record, found_record, get_record_finished, put_record_ok,
  put_record_failed, routing_updated,
}
use strata_p2p.P2p.Records.{SignedRecord, record_to_store, finish_looking_for_dht_record}
use strata_p2p.P2p.Records.Filed.{
  IsAcceptable, IsAcceptable-cases, get-file_record, file_record_refused,
}
use strata_p2p.P2p.Records.Latest.{In}
use strata_p2p.Byos.{Node, Reply}
use strata_p2p.Byos.Kademlia.{key_matches, handle_kademlia_event}

-- A Kademlia event, when it comes, and what the store then holds under its key.
pub record Occurrence : Type 0 where
  pub existing : Option Bytes
  pub event : KademliaEvent
  pub at : SystemTime

abbrev pub occurring : Option Bytes → KademliaEvent → SystemTime → Occurrence
occurring existing event at = record { existing = existing; event = event; at = at }

-- The event ends the query.
abbrev pub Ends : QueryId → KademliaEvent → Type 0
Ends id (get_record_finished j) = j ≡ id
Ends id event = ⊥

abbrev pub StaysOpen : QueryId → List Occurrence → Type 0
StaysOpen id [] = Unit {0}
StaysOpen id (o ∷ os) = (¬ Ends id o.event) × StaysOpen id os

module _ {S Q : Type 0} (deps : Deps) where
  -- The node after it has handled the events.
  unfoldable pub hear : Node S Q → List Occurrence → Node S Q
  hear n [] = n
  hear n (o ∷ os) = hear (handle_kademlia_event deps n o.existing o.event o.at).state os

  inbound-state :
      (n : Node S Q) (existing : Option Bytes) (r : Option (Bytes × Bytes)) (now : SystemTime)
      → (handle_kademlia_event deps n existing (inbound_put_record r) now).state ≡ n
  unfolding handle_kademlia_event
  inbound-state n existing r now =
      elim (Option-cases (record_to_store deps n.config.limits (key_matches deps) now existing r)) [
        | inl e ↦ rw (e, handle_kademlia_event) refl
        | inr (kv, e) ↦ rw (e, handle_kademlia_event) refl
      ]

  pub limits-handle :
      (n : Node S Q) (existing : Option Bytes) (event : KademliaEvent) (now : SystemTime)
      → (handle_kademlia_event deps n existing event now).state.config.limits ≡ n.config.limits
  unfolding handle_kademlia_event
  limits-handle n existing (inbound_put_record r) now =
      ap (λ (m : Node S Q). m.config.limits) (inbound-state n existing r now)
  limits-handle n existing (found_record id key value) now = refl
  limits-handle n existing (get_record_finished id) now = refl
  limits-handle n existing put_record_ok now = refl
  limits-handle n existing put_record_failed now = refl
  limits-handle n existing routing_updated now = ground arith

module _ (deps : Deps) (limits : Limits) (id : QueryId) where
  -- The event answers the query with an acceptable record.
  abbrev pub Answers : SignedRecord → Occurrence → Type 0
  Answers signed o = elim o.event [
    | found_record j key value ↦
        (j ≡ id) × IsAcceptable deps limits (key_matches deps) o.at key value signed
    | _ ↦ ⊥
  ]

  -- One of the events answers the query with this record.
  abbrev pub IsFound : SignedRecord → List Occurrence → Type 0
  IsFound signed [] = ⊥
  IsFound signed (o ∷ os) = Answers signed o ⊎ IsFound signed os

  -- The records are those that the events answer the query with.
  abbrev pub AreFound : List SignedRecord → List Occurrence → Type 0
  AreFound new os = (signed : SignedRecord) → In signed new ↔ IsFound signed os

  In-append :
      (signed : SignedRecord) (xs ys : List SignedRecord)
      → In signed (xs ++ ys) ↔ (In signed xs ⊎ In signed ys)
  In-append signed [] ys = (λ i. inr i, λ i. elim i [ inl j ↦ absurd j | inr j ↦ j ])
  In-append signed (x ∷ xs) ys =
      let rest = In-append signed xs ys in
      (
        λ i. elim i [
          | inl e ↦ inl (inl e)
          | inr j ↦ elim (rest.0 j) [ inl k ↦ inl (inr k) | inr k ↦ inr k ]
        ],
        λ i. elim i [
          | inl (inl e) ↦ inl e
          | inl (inr k) ↦ inr (rest.1 (inl k))
          | inr k ↦ inr (rest.1 (inr k))
        ],
      )

  pub AreFound-cons :
      (new rest : List SignedRecord) (o : Occurrence) (os : List Occurrence)
      → ((signed : SignedRecord) → In signed new ↔ Answers signed o)
      → AreFound rest os
      → AreFound (new ++ rest) (o ∷ os)
  AreFound-cons new rest o os first others signed =
      let split = In-append signed new rest in
      (
        λ i. elim (split.0 i) [
          | inl j ↦ inl ((first signed).0 j)
          | inr j ↦ inr ((others signed).0 j)
        ],
        λ found.
            split.1
              (elim found [ inl a ↦ inl ((first signed).1 a) | inr a ↦ inr ((others signed).1 a) ]),
      )

  get-finish :
      (records : Map (List SignedRecord)) (j : QueryId)
      → j ≢ id
      → Map.get (finish_looking_for_dht_record {R = Reply} records j).0 id ≡ Map.get records id
  unfolding finish_looking_for_dht_record
  get-finish records j other = elim (Option-cases (Map.get records j)) [
    | inl e ↦ ground (arith, e)
    | inr (found, e) ↦ ground (arith, e, other, Map.get-remove records j id)
  ]

  module _ {S Q : Type 0} where
    abbrev pub records_of : Node S Q → Option (List SignedRecord)
    records_of n = Map.get n.kademlia_map_received_records id

    -- What one event adds to the records of the query.
    abbrev pub Added : Node S Q → List SignedRecord → Occurrence → Type 0
    Added n acc o =
        (new : List SignedRecord) × (records_of
            (handle_kademlia_event deps n o.existing o.event o.at).state
          ≡ some (acc ++ new))
        × ((signed : SignedRecord) → In signed new ↔ Answers signed o)

    nothing-Added :
        (n : Node S Q) (acc : List SignedRecord) (o : Occurrence)
        → records_of (handle_kademlia_event deps n o.existing o.event o.at).state ≡ some acc
        → ((signed : SignedRecord) → ¬ Answers signed o)
        → Added n acc o
    nothing-Added n acc o e refused = (
      [],
      e ∙ ap some (sym (append-nil acc)),
      λ signed. (λ i. absurd i, λ a. absurd (refused signed a)),
    )

    module _ (n : Node S Q) (acc : List SignedRecord) (known : records_of n ≡ some acc)
        (same : n.config.limits ≡ limits) where
      found-Added :
          (existing : Option Bytes) (j : QueryId) (key value : Bytes) (at : SystemTime)
          → Added n acc (occurring existing (found_record j key value) at)
      unfolding handle_kademlia_event
      found-Added existing j key value at =
          elim (IsAcceptable-cases deps limits (key_matches deps) at key value) [
            | inr refused ↦
                nothing-Added n acc (occurring existing (found_record j key value) at)
                  (ap (λ m. Map.get m id)
                      (file_record_refused deps n.config.limits (key_matches deps) at key value
                        n.kademlia_map_received_records j (rw same refused))
                    ∙ known)
                  (λ signed a. refused signed a.1)
            | inl (signed, h) ↦
                let filed =
                  get-file_record deps n.config.limits (key_matches deps) at key value
                    n.kademlia_map_received_records j id signed (rw same h) in
                elim (Bool-cases (j == id)) [
                  | inr e ↦
                      nothing-Added n acc (occurring existing (found_record j key value) at)
                        (ground (arith, filed, e, known)) (λ other a. ground (arith, e, a.0))
                  | inl e ↦ (
                    signed ∷ [],
                    ground (arith, filed, e, known),
                    λ other. (
                      λ i. elim i [
                        | inl same_one ↦ (ground (arith, e), rw same_one h)
                        | inr j' ↦ absurd j'
                      ],
                      λ a. inl (ground (arith, a.1.decoded, h.decoded)),
                    ),
                  )
                ]
          ]

      pub event-Added :
          (x : Option Bytes) (event : KademliaEvent) (at : SystemTime)
          → ¬ Ends id event
          → Added n acc (occurring x event at)
      unfolding handle_kademlia_event finish_looking_for_dht_record
      event-Added x (found_record j key value) at open_query = found-Added x j key value at
      event-Added x (inbound_put_record r) at open_query =
          nothing-Added n acc (occurring x (inbound_put_record r) at)
            (ap records_of (inbound-state deps n x r at) ∙ known) (λ signed a. absurd a)
      event-Added x (get_record_finished j) at open_query =
          nothing-Added n acc (occurring x (get_record_finished j) at)
            (get-finish n.kademlia_map_received_records j open_query ∙ known) (λ signed a. absurd a)
      event-Added x put_record_ok at open_query =
          nothing-Added n acc (occurring x put_record_ok at) known (λ signed a. absurd a)
      event-Added x put_record_failed at open_query =
          nothing-Added n acc (occurring x put_record_failed at) known (λ signed a. absurd a)
      event-Added x routing_updated at open_query =
          nothing-Added n acc (occurring x routing_updated at) (ground arith) (λ signed a. absurd a)
