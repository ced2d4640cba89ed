-- ===== src/Message/Serde.antt =====
-- crates/p2p/src/swarm/message/serde.rs: how keys, signatures and contents become byte blobs. What the
-- deserializer hands over is an argument: the bytes of a blob, or an error as `none`.
use strata_p2p.Common.{◌≡◌, ◌↔◌, Option, none, some, arith, ◌==◌, length, and_then, if◌then◌else◌}
use strata_p2p.Ids.{PublicKey, Bytes}

-- `pubkey_serializer`, over libp2p's protobuf encoding of keys.
serialize_key : (encode_protobuf : PublicKey → Bytes) → PublicKey → Bytes
serialize_key encode_protobuf key = encode_protobuf key

deserialize_key : (try_decode_protobuf : Bytes → Option PublicKey) → Option Bytes → Option PublicKey
deserialize_key try_decode_protobuf blob = and_then blob try_decode_protobuf

-- `signature_serializer`: arrays of 64 bytes.
serialize_signature : Bytes → Bytes
serialize_signature signature = signature

deserialize_signature : Option Bytes → Option Bytes
deserialize_signature blob =
    and_then blob (λ bytes. if length bytes == 64 then some bytes else none)

-- `bytes_serializer`
unfoldable serialize_bytes : Bytes → Bytes
serialize_bytes bytes = bytes

unfoldable deserialize_bytes : Option Bytes → Option Bytes
deserialize_bytes blob = blob

-- A signature is read from a blob exactly if it is the blob, and has 64 bytes.
deserialize_signature_iff :
    (blob : Option Bytes) (signature : Bytes)
    → (deserialize_signature blob ≡ some signature)
      ↔ ((blob ≡ some (serialize_signature signature)) × (length signature ≡ 64))
unfolding deserialize_signature serialize_signature
deserialize_signature_iff none signature = (λ e. absurd (ground arith), λ w. absurd (ground arith))
deserialize_signature_iff (some bytes) signature =
    (λ e. (ground arith, ground arith), λ w. ground arith)

-- A key is read back where its protobuf encoding is decoded to it.
deserialize-serialize_key :
    (encode_protobuf : PublicKey → Bytes) (try_decode_protobuf : Bytes → Option PublicKey)
    (key : PublicKey)
    → try_decode_protobuf (encode_protobuf key) ≡ some key
    → deserialize_key try_decode_protobuf (some (serialize_key encode_protobuf key)) ≡ some key
unfolding deserialize_key serialize_key
deserialize-serialize_key encode_protobuf try_decode_protobuf key e = e
