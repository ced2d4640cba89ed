-- ===== src/P2p/Dial/Order.antt =====
-- The order in which the addresses of a peer are dialled.
use strata_p2p.Common.{
  suc, length, ◌≡◌, refl, Bool, true, false, not, List, [], ◌∷◌, ◌++◌, arith, if◌then◌else◌,
  Bool-cases, inl, inr,
}
use strata_p2p.Ids.{Multiaddr}
use strata_p2p.P2p.Dial.{insert_by_key, sort_by_key, sort_addresses}

module _ {A : Type 0} where
  -- The elements that pass a test, in their order.
  abbrev pub select : (A → Bool) → List A → List A
  select p [] = []
  select p (x ∷ xs) = if p x then x ∷ select p xs else select p xs

  module _ (key : A → Bool) (x : A) where
    insert_low : (l : List A) → key x ≡ false → insert_by_key key x l ≡ x ∷ l
    unfolding insert_by_key
    insert_low [] low = refl
    insert_low (y ∷ l) low = ground arith

    insert_high :
        (m : List A) → key x ≡ true → insert_by_key key x (select key m) ≡ x ∷ select key m
    unfolding insert_by_key
    insert_high [] high = refl
    insert_high (y ∷ m) high = elim (Bool-cases (key y)) [
      | inl e ↦ rw e (ground arith)
      | inr e ↦ rw e (insert_high m high)
    ]

    insert_between :
        (l m : List A)
        → key x ≡ true
        → insert_by_key key x (select (λ a. not (key a)) l ++ select key m)
          ≡ select (λ a. not (key a)) l ++ (x ∷ select key m)
    unfolding insert_by_key
    insert_between [] m high = insert_high m high
    insert_between (y ∷ l) m high = elim (Bool-cases (key y)) [
      | inl e ↦ rw e (insert_between l m high)
      | inr e ↦ rw e (ground (arith, insert_between l m high))
    ]

  sort_by_key-select :
      (key : A → Bool) (l : List A)
      → sort_by_key key l ≡ select (λ a. not (key a)) l ++ select key l
  unfolding sort_by_key
  sort_by_key-select key [] = refl
  sort_by_key-select key (x ∷ l) = elim (Bool-cases (key x)) [
    | inl high ↦ rw (sort_by_key-select key l, high) (insert_between key x l l high)
    | inr low ↦ rw (sort_by_key-select key l, low) (insert_low key x _ low)
  ]

length-insert_by_key :
    {A : Type 0} (key : A → Bool) (x : A) (l : List A)
    → length (insert_by_key key x l) ≡ suc (length l)
unfolding insert_by_key
length-insert_by_key key x [] = refl
length-insert_by_key key x (y ∷ l) = ground (arith, length-insert_by_key key x l)

length-sort_by_key :
    {A : Type 0} (key : A → Bool) (l : List A) → length (sort_by_key key l) ≡ length l
unfolding sort_by_key
length-sort_by_key key [] = refl
length-sort_by_key key (x ∷ l) =
    omega (arith, length-insert_by_key key x (sort_by_key key l), length-sort_by_key key l)

pub length-sort_addresses :
    (is_quic : Multiaddr → Bool) (l : List Multiaddr) → length (sort_addresses is_quic l) ≡ length l
unfolding sort_addresses
length-sort_addresses is_quic l = length-sort_by_key (λ addr. not (is_quic addr)) l

select-not-not :
    (p : Multiaddr → Bool) (l : List Multiaddr) → select (λ a. not (not (p a))) l ≡ select p l
select-not-not p [] = refl
select-not-not p (x ∷ l) = ground (arith, select-not-not p l)

-- The QUIC addresses are dialled first, then the others, each group in the order that was given.
sort_addresses-select :
    (is_quic : Multiaddr → Bool) (l : List Multiaddr)
    → sort_addresses is_quic l ≡ select is_quic l ++ select (λ a. not (is_quic a)) l
unfolding sort_addresses
sort_addresses-select is_quic l =
    rw (sort_by_key-select (λ addr. not (is_quic addr)) l, select-not-not is_quic l)
