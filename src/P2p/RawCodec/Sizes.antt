-- ===== src/P2p/RawCodec/Sizes.antt =====
-- What a reader makes of messages below and above the maximum.
use strata_p2p.Common.{
  ℕ, zero, suc, ◌≤◌, ◌<◌, ◌≡◌, ◌↔◌, refl, ap, subst, List, [], ◌∷◌, arith, length, take,
  length-take-le,
}
use strata_p2p.Ids.{Bytes}
use strata_p2p.P2p.RawCodec.{
  Maxima, io_ok, Received, read_request, read_response, all_written, write_request, write_response,
}

io_ok-injective : {A : Type 0} {x y : A} → io_ok x ≡ io_ok y → x ≡ y
io_ok-injective e = cc e

module _ {A : Type 0} where
  take_all : (n : ℕ) (xs : List A) → length xs ≤ n → take n xs ≡ xs
  take_all zero [] h = refl
  take_all zero (x ∷ xs) h = absurd (omega arith)
  take_all (suc n) [] h = refl
  take_all (suc n) (x ∷ xs) h = ap (λ ys. x ∷ ys) (take_all n xs (omega arith))

  length_of_take : (n : ℕ) (xs : List A) → take n xs ≡ xs → length xs ≤ n
  length_of_take n xs e = subst (λ ys. length ys ≤ n) e (length-take-le n xs)

  length-take : (n : ℕ) (xs : List A) → n < length xs → length (take n xs) ≡ n
  length-take zero xs h = refl
  length-take (suc n) [] h = absurd (omega arith)
  length-take (suc n) (x ∷ xs) h = omega (arith, length-take n xs (omega arith))

length_of_taken : (n : ℕ) (xs ys : Bytes) → take n xs ≡ ys → length ys ≤ n
length_of_taken n xs ys same = subst (λ zs. length zs ≤ n) same (length-take-le n xs)

module _ (m : Maxima) (message : Bytes) where
  -- What is written in full is read in full exactly when it is no longer than the reader's maximum,
  -- for requests and for responses.
  pub read-write_iff :
      ((read_request m (write_request message all_written).1 ≡ io_ok message)
        ↔ (length message ≤ m.request_size_maximum))
      × ((read_response m (write_response message all_written).1 ≡ io_ok message)
          ↔ (length message ≤ m.response_size_maximum))
  unfolding read_request read_response write_request write_response
  read-write_iff = (
    (
      λ e. length_of_take m.request_size_maximum message (io_ok-injective (ground (arith, e))),
      λ h. ground (arith, take_all m.request_size_maximum message h),
    ),
    (
      λ e. length_of_take m.response_size_maximum message (io_ok-injective (ground (arith, e))),
      λ h. ground (arith, take_all m.response_size_maximum message h),
    ),
  )

  -- A request above the maximum is no error for either side: the writer has written it all, and the
  -- reader reads as many bytes of it as the maximum says.
  oversized_cut :
      m.request_size_maximum < length message
      → (cut : Bytes) × ((write_request message all_written).0 ≡ io_ok tt)
        × (read_request m (write_request message all_written).1 ≡ io_ok cut)
        × (cut ≡ take m.request_size_maximum message)
        × (length cut ≡ m.request_size_maximum)
  unfolding read_request write_request
  oversized_cut h = (
    take m.request_size_maximum message,
    refl,
    ground arith,
    refl,
    length-take m.request_size_maximum message h,
  )

-- Whatever arrives, and however the stream ends, nothing longer than the maximum is ever read.
pub read_request-le :
    (m : Maxima) (io : Received) (bytes : Bytes)
    → read_request m io ≡ io_ok bytes
    → length bytes ≤ m.request_size_maximum
unfolding read_request
read_request-le m io bytes e =
    let same : take m.request_size_maximum io.bytes ≡ bytes = io_ok-injective (ground (arith, e)) in
    length_of_taken m.request_size_maximum io.bytes bytes same

pub read_response-le :
    (m : Maxima) (io : Received) (bytes : Bytes)
    → read_response m io ≡ io_ok bytes
    → length bytes ≤ m.response_size_maximum
unfolding read_response
read_response-le m io bytes e =
    let same : take m.response_size_maximum io.bytes ≡ bytes =
      io_ok-injective (ground (arith, e)) in
    length_of_taken m.response_size_maximum io.bytes bytes same
