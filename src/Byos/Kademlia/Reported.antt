-- ===== src/Byos/Kademlia/Reported.antt =====
-- What a node reports at the end of a query for a peer's addresses.
use mathlib.Core.List.{append_assoc, append-nil}
use strata_p2p.Common.{
  ℕ, ◌≤◌, ◌≡◌, ◌⊎◌, refl, ap, sym, ◌∙◌, Option, none, some, List, [], ◌∷◌, ◌++◌, arith, inl, inr,
}
use strata_p2p.Ids.{QueryId, PublicKey, Bytes}
use strata_p2p.Map
use strata_p2p.Time.{SystemTime}
use strata_p2p.Envelope.{Limits}
use strata_p2p.P2p.{Deps, Effect, result_find_multiaddress}
use strata_p2p.P2p.Kademlia.{get_record_finished}
use strata_p2p.P2p.Records.{SignedRecord, date_of, finish_looking_for_dht_record, latest}
use strata_p2p.P2p.Records.Latest.{In, NoneAfter, latest_is_newest}
use strata_p2p.Byos.{Node, Reply}
use strata_p2p.Byos.Kademlia.{ask_kademlia_get_record, handle_kademlia_event}
use strata_p2p.Byos.Kademlia.Lookup.{
  Occurrence, StaysOpen, hear, IsFound, AreFound, AreFound-cons, records_of, event-Added,
  limits-handle,
}

le-NoneAfter :
    (d : ℕ) (r : SignedRecord) (l : List SignedRecord) → NoneAfter d l → In r l → date_of r ≤ d
le-NoneAfter d r [] none_after in_nil = absurd in_nil
le-NoneAfter d r (x ∷ l) (first, rest) (inl e) = ground (arith, e, first)
le-NoneAfter d r (x ∷ l) (first, rest) (inr i) = le-NoneAfter d r l rest i

module _ (deps : Deps) (limits : Limits) (id : QueryId) {S Q : Type 0} where
  heard :
      (n : Node S Q) (acc : List SignedRecord) (os : List Occurrence)
      → records_of deps limits id n ≡ some acc
      → n.config.limits ≡ limits
      → StaysOpen id os
      → (all : List SignedRecord) × (records_of deps limits id (hear deps n os) ≡ some (acc ++ all))
        × AreFound deps limits id all os
  unfolding hear
  heard n acc [] known same stays =
      ([], known ∙ ap some (sym (append-nil acc)), λ signed. (λ i. i, λ a. a))
  heard n acc (o ∷ os) known same stays =
      let (new, first, answers) =
        event-Added deps limits id n acc known same o.existing o.event o.at stays.0 in
      let (rest, later, others) =
        heard (handle_kademlia_event deps n o.existing o.event o.at).state (acc ++ new) os first
          (limits-handle deps n o.existing o.event o.at ∙ same) stays.1 in
      (
        new ++ rest,
        later ∙ ap some (append_assoc acc new rest),
        AreFound-cons deps limits id new rest o os answers others,
      )

module _ {S Q : Type 0} (deps : Deps) (n : Node S Q) (owner : PublicKey) (id : QueryId)
    (os : List Occurrence) (last : Option Bytes) (end : SystemTime) where
  -- What the node reports when the query ends, after it has asked and heard the events.
  abbrev pub reported : List (Effect Reply)
  reported =
      (handle_kademlia_event deps (hear deps (ask_kademlia_get_record deps n owner id).state os)
        last (get_record_finished id) end).effects

  abbrev asked : Node S Q
  asked = (ask_kademlia_get_record deps n owner id).state

  report_none :
      records_of deps n.config.limits id (hear deps asked os) ≡ some []
      → reported ≡ result_find_multiaddress none ∷ []
  unfolding handle_kademlia_event finish_looking_for_dht_record
  report_none e = ground (arith, e)

  report_latest :
      (x : SignedRecord) (l : List SignedRecord)
      → records_of deps n.config.limits id (hear deps asked os) ≡ some (x ∷ l)
      → reported ≡ result_find_multiaddress (some (latest x l).message.multiaddresses) ∷ []
  unfolding handle_kademlia_event finish_looking_for_dht_record
  report_latest x l e = ground (arith, e)

  asked_known : records_of deps n.config.limits id asked ≡ some []
  unfolding ask_kademlia_get_record
  asked_known = Map.get-insert_self n.kademlia_map_received_records id []

  asked_limits : asked.config.limits ≡ n.config.limits
  unfolding ask_kademlia_get_record
  asked_limits = refl

  -- No addresses, or those of a newest record that answered the query.
  abbrev pub Reports : Type 0
  Reports =
      ((reported ≡ result_find_multiaddress none ∷ [])
        × ((signed : SignedRecord) → ¬ IsFound deps n.config.limits id signed os))
      ⊎ ((signed : SignedRecord) × (reported
            ≡ result_find_multiaddress (some signed.message.multiaddresses) ∷ [])
          × IsFound deps n.config.limits id signed os
          × ((other : SignedRecord)
              → IsFound deps n.config.limits id other os
              → date_of other ≤ date_of signed))

  reports-AreFound :
      (all : List SignedRecord)
      → records_of deps n.config.limits id (hear deps asked os) ≡ some all
      → AreFound deps n.config.limits id all os
      → Reports
  reports-AreFound [] e found = inl (report_none e, λ signed f. (found signed).1 f)
  reports-AreFound (x ∷ l) e found =
      let (inside, newest) = latest_is_newest x l in
      inr (
        latest x l,
        report_latest x l e,
        (found (latest x l)).0 inside,
        λ other f. le-NoneAfter (date_of (latest x l)) other (x ∷ l) newest ((found other).1 f),
      )

  -- At the end of a query the node reports once, whatever Kademlia events it has handled since it asked,
  -- none of which ended the query: no addresses, if no event answered the query with an acceptable
  -- record, or else the addresses of an acceptable record that is not older than any other that
  -- answered the query.
  pub reports_newest : StaysOpen id os → Reports
  reports_newest stays =
      let (all, gathered, found) =
        heard deps n.config.limits id asked [] os asked_known asked_limits stays in
      reports-AreFound all gathered found
