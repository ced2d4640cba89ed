-- ===== src/Setup/Codec.antt =====
-- crates/p2p/src/swarm/setup/flexbuffers_codec.rs: frames of four length bytes and a payload.
pub mod Frames
use strata_p2p.Common.{
  ℕ, ◌+◌, ◌*◌, ◌/◌, ◌%◌, ◌^◌, Option, none, some, List, [], ◌∷◌, ◌++◌, ltb, if◌then◌else◌, length,
  take, drop,
}
use strata_p2p.Ids.{Bytes}

-- 1 MiB
abbrev pub max_frame_size : ℕ
max_frame_size = 1024 * 1024

-- `u32::to_be_bytes`, of `n as u32`
abbrev pub to_be_bytes : ℕ → Bytes
to_be_bytes n = (n / 2 ^ 24 % 256) ∷ (n / 2 ^ 16 % 256) ∷ (n / 2 ^ 8 % 256) ∷ (n % 256) ∷ []

abbrev pub from_be_bytes : ℕ → ℕ → ℕ → ℕ → ℕ
from_be_bytes a b c d = ((a * 256 + b) * 256 + c) * 256 + d

-- `Encoder::encode`: what is left in the buffer, or an error.
unfoldable pub encode : {T : Type 0} → (T → Option Bytes) → T → Bytes → Option Bytes
encode to_vec item dst = elim (to_vec item) [
  | none ↦ none
  | some bytes ↦ some (dst ++ (to_be_bytes (length bytes) ++ bytes))
]

pub data Decoded (T : Type 0) : Type 0 where
  need_more : Decoded T
  frame_too_large : Decoded T
  undecodable : Decoded T
  decoded : T → Decoded T

-- `Decoder::decode`: the result and the buffer after it.
pub decode : {T : Type 0} → (Bytes → Option T) → Bytes → Decoded T × Bytes
decode from_slice (a ∷ b ∷ c ∷ d ∷ rest) =
    let length_field = from_be_bytes a b c d in
    if ltb max_frame_size length_field
    then (frame_too_large, a ∷ b ∷ c ∷ d ∷ rest)
    else if ltb (length rest) length_field
    then (need_more, a ∷ b ∷ c ∷ d ∷ rest)
    else elim (from_slice (take length_field rest)) [
      | none ↦ (undecodable, rest)
      | some item ↦ (decoded item, drop length_field rest)
    ]
decode from_slice src = (need_more, src)
