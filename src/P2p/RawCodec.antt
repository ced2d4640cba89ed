-- ===== src/P2p/RawCodec.antt =====
-- crates/p2p/src/swarm/codec_raw.rs: requests and responses as raw bytes on a stream of their own.
pub mod Sizes
use strata_p2p.Common.{ℕ, ◌*◌, ◌&&◌, Bool, true, false, ltb, length, take, if◌then◌else◌}
use strata_p2p.Ids.{Bytes}

-- The two statics, `REQUEST_SIZE_MAXIMUM` and `RESPONSE_SIZE_MAXIMUM`.
pub record Maxima : Type 0 where
  pub request_size_maximum : ℕ
  pub response_size_maximum : ℕ

abbrev pub initial_maxima : Maxima
initial_maxima = record {
  request_size_maximum = 1024 * 1024;
  response_size_maximum = 10 * 1024 * 1024;
}

unfoldable pub set_request_max_bytes : Maxima → ℕ → Maxima
set_request_max_bytes m max = record m { request_size_maximum = max }

unfoldable pub set_response_max_bytes : Maxima → ℕ → Maxima
set_response_max_bytes m max = record m { response_size_maximum = max }

-- `io::Result`
pub data IoResult (A : Type 0) : Type 0 where
  io_ok : A → IoResult A
  io_error : IoResult A

-- What one end of a stream receives: bytes, and then the end or an error.
pub record Received : Type 0 where
  pub bytes : Bytes
  pub fails : Bool

-- `io.take(limit).read_to_end(&mut vec)`: the error is met only if it comes before the limit.
abbrev pub read_to_end_of_take : ℕ → Received → IoResult Bytes
read_to_end_of_take limit io =
    if ltb (length io.bytes) limit && io.fails then io_error else io_ok (take limit io.bytes)

unfoldable pub read_request : Maxima → Received → IoResult Bytes
read_request m io = read_to_end_of_take m.request_size_maximum io

unfoldable pub read_response : Maxima → Received → IoResult Bytes
read_response m io = read_to_end_of_take m.response_size_maximum io

-- How far `io.write_all` comes, which the environment chooses; a stream that breaks ends or fails at
-- the reader.
pub data WriteOutcome : Type 0 where
  all_written : WriteOutcome
  broken_after : ℕ → (fails : Bool) → WriteOutcome

-- The result of `io.write_all`, and what the other end receives.
abbrev pub write_all : Bytes → WriteOutcome → IoResult (Unit {0}) × Received
write_all bytes all_written = (io_ok tt, record { bytes = bytes; fails = false })
write_all bytes (broken_after n fails) = (io_error, record { bytes = take n bytes; fails = fails })

pub write_request : Bytes → WriteOutcome → IoResult (Unit {0}) × Received
write_request req outcome = write_all req outcome

pub write_response : Bytes → WriteOutcome → IoResult (Unit {0}) × Received
write_response resp outcome = write_all resp outcome
