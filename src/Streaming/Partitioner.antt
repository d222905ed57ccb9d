-- ===== src/Streaming/Partitioner.antt =====
-- streaming/partitioner.py. The digest is hashlib's: the bytes of the md5 of a text's UTF-8 form.
use distributed_transaction.Prelude.{
  ℕ, zero, suc, ◌+◌, ◌*◌, ◌%◌, String, List, [], ◌∷◌, take, Result, ok, raise,
}

-- what streaming/ raises: `ValueError` for a partition count, a partition and a
-- member, and `KeyError` for a partition that a consumer does not read
pub data StreamError : Type 0 where
  no_partitions partition_out_of_range unknown_partition unknown_member : StreamError

-- `int.from_bytes(..., byteorder="big")`, on top of the bytes before
abbrev pub from_bytes : ℕ → List ℕ → ℕ
from_bytes acc [] = acc
from_bytes acc (b ∷ bs) = from_bytes (acc * 256 + b) bs

unfoldable pub key_to_partition : (String → List ℕ) → String → ℕ → Result StreamError ℕ
key_to_partition md5 key zero = raise no_partitions
key_to_partition md5 key (suc k) = ok (from_bytes 0 (take 4 (md5 key)) % suc k)
