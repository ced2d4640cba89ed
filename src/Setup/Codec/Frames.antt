-- ===== src/Setup/Codec/Frames.antt =====
-- Frames are read back as they were written, in any stream and at any cut.
use strata_p2p.Common.{
  ℕ, zero, suc, ◌+◌, ◌/◌, ◌%◌, ◌^◌, ◌≤◌, ◌<◌, ◌≡◌, refl, Option, some, [], ◌++◌, arith, ltb, length,
  take, take-length-append, drop-length-append, length-append, length-take-le, true, false,
}
use strata_p2p.Ids.{Bytes}
use strata_p2p.Setup.Codec.{
  max_frame_size, to_be_bytes, from_be_bytes, encode, need_more, decoded, frame_too_large, decode,
}

-- The four bytes of a length are read back.
be_bytes_back :
    (n : ℕ)
    → n < 2 ^ 32
    → from_be_bytes (n / 2 ^ 24 % 256) (n / 2 ^ 16 % 256) (n / 2 ^ 8 % 256) (n % 256) ≡ n
be_bytes_back n h = omega arith

abbrev pub frame : Bytes → Bytes
frame bytes = to_be_bytes (length bytes) ++ bytes

module _ {T : Type 0} (from_slice : Bytes → Option T) (bytes : Bytes)
    (small : length bytes ≤ max_frame_size) where
  not_too_large : ltb max_frame_size (length bytes) ≡ false
  not_too_large = ground arith

  -- A frame at the front of the buffer is decoded, and exactly the frame is taken off.
  decode-frame :
      {item : T} (rest : Bytes)
      → from_slice bytes ≡ some item
      → decode from_slice (frame bytes ++ rest) ≡ (decoded item, rest)
  unfolding decode
  decode-frame rest back =
      let whole : ltb (length (bytes ++ rest)) (length bytes) ≡ false =
        ground (arith, length-append bytes rest) in
      rw (
        be_bytes_back (length bytes) (omega arith),
        not_too_large,
        whole,
        take-length-append bytes rest,
        back,
        be_bytes_back (length bytes) (omega arith),
        drop-length-append bytes rest,
      )

  -- While a part of a frame of at most 1 MiB is missing, the decoder asks for more and keeps the
  -- buffer.
  decode_cut :
      (cut : ℕ)
      → cut < 4 + length bytes
      → decode from_slice (take cut (frame bytes)) ≡ (need_more, take cut (frame bytes))
  unfolding decode
  decode_cut zero h = refl
  decode_cut (suc zero) h = refl
  decode_cut (suc (suc zero)) h = refl
  decode_cut (suc (suc (suc zero))) h = refl
  decode_cut (suc (suc (suc (suc cut)))) h =
      let partial : ltb (length (take cut bytes)) (length bytes) ≡ true =
        ground (arith, length-take-le cut bytes) in
      rw (be_bytes_back (length bytes) (omega arith), not_too_large, partial)

-- What `encode` writes into an empty buffer, `decode` reads back from a stream that begins with it,
-- and it takes off exactly the frame, where the payload is at most 1 MiB long and the serializer
-- reads it back.
pub decode-encode :
    {T : Type 0} (to_vec : T → Option Bytes) (from_slice : Bytes → Option T) (item : T)
    (bytes rest : Bytes)
    → to_vec item ≡ some bytes
    → from_slice bytes ≡ some item
    → length bytes ≤ max_frame_size
    → (written : Bytes) × (encode to_vec item [] ≡ some written)
      × (decode from_slice (written ++ rest) ≡ (decoded item, rest))
unfolding encode
decode-encode to_vec from_slice item bytes rest w r small =
    (frame bytes, rw (w, encode), decode-frame from_slice bytes small rest r)

-- A frame whose length field is above 1 MiB is refused before its payload is read.
decode_oversized :
    {T : Type 0} (from_slice : Bytes → Option T) (n : ℕ) (received : Bytes)
    → max_frame_size < n
    → n < 2 ^ 32
    → decode from_slice (to_be_bytes n ++ received) ≡ (frame_too_large, to_be_bytes n ++ received)
unfolding decode
decode_oversized from_slice n received large fits =
    let over : ltb max_frame_size n ≡ true = ground arith in rw (be_bytes_back n fits, over)
