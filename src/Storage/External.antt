-- ===== src/Storage/External.antt =====
-- What the storage calls and the repository does not hold: the serializer (postcard), the checksum
-- (crc32fast) and the compressor (zstd).
use rpglot.Prelude.{ℕ, ◌≤◌, ◌<◌, ◌^◌, ◌≡◌, String, List, length}
use rpglot.Prelude.Bytes.{Bytes}
use rpglot.Prelude.Result.{Result, ok}

-- `postcard::to_allocvec` and `postcard::from_bytes` at one type. What was written is read back.
pub record Postcard (A : Type 0) : Type 0 where
  pub to_allocvec : A → Result String Bytes
  pub from_bytes : Bytes → Result String A
  pub from_bytes-to_allocvec : (a : A) (b : Bytes) → to_allocvec a ≡ ok b → from_bytes b ≡ ok a

-- `crc32fast::hash` returns a `u32`.
pub record Crc32 : Type 0 where
  pub hash : Bytes → ℕ
  pub hash_u32 : (b : Bytes) → hash b < 2 ^ 32

-- `zstd`. A dictionary is its bytes. Decompression, into a buffer of a capacity that suffices, undoes
-- compression with the same dictionary; `decode_all` undoes `encode_all`.
pub record Zstd : Type 0 where
  pub from_samples : List Bytes → ℕ → Result String Bytes
  pub compress : Bytes → Bytes → Result String Bytes
  pub decompress : Bytes → Bytes → ℕ → Result String Bytes
  pub encode_all : Bytes → Result String Bytes
  pub decode_all : Bytes → Result String Bytes
  pub decompress-compress :
      (dictionary raw packed : Bytes) (capacity : ℕ)
      → compress dictionary raw ≡ ok packed
      → length raw ≤ capacity
      → decompress dictionary packed capacity ≡ ok raw
  pub decode-encode_all :
      (raw packed : Bytes) → encode_all raw ≡ ok packed → decode_all packed ≡ ok raw
