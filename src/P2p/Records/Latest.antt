-- ===== src/P2p/Records/Latest.antt =====
-- The answer to a query for a record: the addresses of a latest record.
use strata_p2p.Common.{
  ℕ, ◌≤◌, ◌≡◌, ◌⊎◌, refl, Bool, true, false, List, [], ◌∷◌, arith, leb, if◌then◌else◌, inl, inr,
}
use strata_p2p.P2p.Records.{SignedRecord, date_of, latest}

-- Every record of a list has a date of at most `d`.
abbrev pub NoneAfter : ℕ → List SignedRecord → Type 0
NoneAfter d [] = Unit {0}
NoneAfter d (r ∷ l) = (date_of r ≤ d) × NoneAfter d l

-- A record stands in a list.
abbrev pub In : SignedRecord → List SignedRecord → Type 0
In r [] = ⊥
In r (x ∷ l) = (r ≡ x) ⊎ In r l

IsNewest : SignedRecord → List SignedRecord → Type 0
IsNewest r l = In r l × NoneAfter (date_of r) l

-- Of two records the loop goes on with one that is not older; it stands for both.
IsNewest-step :
    (x y : SignedRecord) (l : List SignedRecord) (b : Bool)
    → leb (date_of x) (date_of y) ≡ b
    → (let r = latest (if b then y else x) l in IsNewest r ((if b then y else x) ∷ l))
    → IsNewest (latest (if b then y else x) l) (x ∷ y ∷ l)
unfolding IsNewest
IsNewest-step x y l true e (found, bound) = (inr found, (ground (arith, bound.0), bound))
IsNewest-step x y l false e (inl e', bound) =
    (inl e', (bound.0, (ground (arith, bound.0), bound.1)))
IsNewest-step x y l false e (inr i, bound) =
    (inr (inr i), (bound.0, (ground (arith, bound.0), bound.1)))

-- The record that `latest` chooses from a list that is not empty stands in the list, and no record
-- of the list is newer.
pub latest_is_newest :
    (x : SignedRecord) (l : List SignedRecord)
    → In (latest x l) (x ∷ l) × NoneAfter (date_of (latest x l)) (x ∷ l)
unfolding latest IsNewest
latest_is_newest x [] = (inl refl, (omega arith, tt))
latest_is_newest x (y ∷ l) =
    IsNewest-step x y l (leb (date_of x) (date_of y)) refl
      (latest_is_newest (if leb (date_of x) (date_of y) then y else x) l)
