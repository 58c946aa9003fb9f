-- ===== src/Tests/Codecs.antt =====
-- Concrete stand-ins for what the storage calls: they meet the laws of Storage/External. A snapshot
-- without blocks and with a timestamp below 256 is one byte, and no other serializes.
use rpglot.Prelude.{
  ℕ, ◌+◌, ◌%◌, ◌^◌, ◌≤◌, String, List, [], ◌∷◌, ◌≡◌, arith, ltb, leb, length, if◌then◌else◌,
}
use rpglot.Prelude.Int.{ℤ, pos, negsuc}
use rpglot.Prelude.Bytes.{Bytes}
use rpglot.Prelude.Result.{Result, ok, err}
use rpglot.Model.Snapshot.{Snapshot, DataBlock}
use rpglot.Storage.External.{Postcard, Crc32, Zstd}
use rpglot.Storage.Interner.{StringInterner}
use rpglot.Storage.Wal.{WalEntry}

abbrev sum : Bytes → ℕ
sum [] = 0
sum (b ∷ bs) = b + sum bs

abbrev pub sum_crc : Crc32
sum_crc = record { hash = λ b. sum b % 2 ^ 32; hash_u32 = λ b. omega arith }

abbrev pub snapshot_of : ℕ → Snapshot
snapshot_of n = record { timestamp = pos n; blocks = [] }

abbrev pub entry_of : ℕ → WalEntry
entry_of n = record { snapshot = snapshot_of n; interner = record { strings = [] } }

abbrev pub one_byte : ℤ → List DataBlock → List (ℕ × String) → Result String Bytes
one_byte (pos n) [] [] = if ltb n 256 then ok (n ∷ []) else err "timestamp"
one_byte _ _ _ = err "not empty"

abbrev pub entry_from : Bytes → Result String WalEntry
entry_from (n ∷ []) = ok (entry_of n)
entry_from _ = err "bytes"

pub entry_law :
    (time : ℤ) (blocks : List DataBlock) (strings : List (ℕ × String)) (b : Bytes)
    → one_byte time blocks strings ≡ ok b
    → entry_from b
      ≡ ok (record {
        snapshot = record { timestamp = time; blocks = blocks };
        interner = record { strings = strings };
      })
entry_law (pos n) [] [] b h = ground arith
entry_law (pos n) [] (s ∷ ss) b h = cc
entry_law (pos n) (d ∷ ds) ss b h = cc
entry_law (negsuc n) ds ss b h = cc

abbrev pub entry_postcard : Postcard WalEntry
entry_postcard = record {
  to_allocvec = λ e. one_byte e.snapshot.timestamp e.snapshot.blocks e.interner.strings;
  from_bytes = entry_from;
  from_bytes-to_allocvec =
      λ e b h. entry_law e.snapshot.timestamp e.snapshot.blocks e.interner.strings b h;
}

abbrev pub snapshot_from : Bytes → Result String Snapshot
snapshot_from (n ∷ []) = ok (snapshot_of n)
snapshot_from _ = err "bytes"

pub snapshot_law :
    (time : ℤ) (blocks : List DataBlock) (b : Bytes)
    → one_byte time blocks [] ≡ ok b
    → snapshot_from b ≡ ok (record { timestamp = time; blocks = blocks })
snapshot_law (pos n) [] b h = ground arith
snapshot_law (pos n) (d ∷ ds) b h = cc
snapshot_law (negsuc n) ds b h = cc

-- A snapshot serializes to at most one byte.
pub one_byte-length :
    (time : ℤ) (blocks : List DataBlock) (strings : List (ℕ × String)) (b : Bytes)
    → one_byte time blocks strings ≡ ok b
    → length b ≤ 1
one_byte-length (pos n) [] [] b h = ground arith
one_byte-length (pos n) [] (s ∷ ss) b h = cc
one_byte-length (pos n) (d ∷ ds) ss b h = cc
one_byte-length (negsuc n) ds ss b h = cc

abbrev pub snapshot_postcard : Postcard Snapshot
snapshot_postcard = record {
  to_allocvec = λ s. one_byte s.timestamp s.blocks [];
  from_bytes = snapshot_from;
  from_bytes-to_allocvec = λ s b h. snapshot_law s.timestamp s.blocks b h;
}

abbrev pub no_strings : List (ℕ × String) → Result String Bytes
no_strings [] = ok []
no_strings _ = err "not empty"

abbrev pub interner_from : Bytes → Result String StringInterner
interner_from [] = ok (record { strings = [] })
interner_from _ = err "bytes"

pub interner_law :
    (strings : List (ℕ × String)) (b : Bytes)
    → no_strings strings ≡ ok b
    → interner_from b ≡ ok (record { strings = strings })
interner_law [] b h = ground arith
interner_law (s ∷ ss) b h = cc

abbrev pub interner_postcard : Postcard StringInterner
interner_postcard = record {
  to_allocvec = λ i. no_strings i.strings;
  from_bytes = interner_from;
  from_bytes-to_allocvec = λ i b h. interner_law i.strings b h;
}

abbrev pub stored : Bytes → Result String Bytes
stored raw = ok raw

pub stored_law :
    (raw packed : Bytes) (capacity : ℕ)
    → stored raw ≡ ok packed
    → length raw ≤ capacity
    → (if leb (length packed) capacity then stored packed else err "capacity") ≡ ok raw
stored_law raw packed capacity h fits = ground arith

pub same_law : (raw packed : Bytes) → stored raw ≡ ok packed → stored packed ≡ ok raw
same_law raw packed h = cc

-- A compressor that stores.
abbrev pub stored_zstd : Zstd
stored_zstd = record {
  from_samples = λ samples size. ok [];
  compress = λ dictionary raw. ok raw;
  decompress = λ dictionary packed capacity.
      if leb (length packed) capacity then ok packed else err "capacity";
  encode_all = λ raw. ok raw;
  decode_all = λ packed. ok packed;
  decompress-compress =
      λ dictionary raw packed capacity h fits. stored_law raw packed capacity h fits;
  decode-encode_all = λ raw packed h. same_law raw packed h;
}
