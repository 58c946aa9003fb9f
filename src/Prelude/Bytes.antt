-- ===== src/Prelude/Bytes.antt =====
-- Byte strings, and little-endian numbers (`to_le_bytes`, `from_le_bytes`).
use Prim.Native.Nat.{ℕ, zero, suc, ◌+◌, ◌*◌, ◌/◌, ◌%◌, ◌^◌, ◌≤◌, ◌<◌}
use mathlib.Core.Path.{◌≡◌, refl, sym, ap, ◌∙◌}
use mathlib.Core.List.{List, [], ◌∷◌, ◌++◌}
use native.Mathlib.Omega.{arith}
use native.Mathlib.Nat.{pow-suc}
use rpglot.Prelude.Lists.{
  length, take, drop, drop_left, take_left, drop_inside, take_inside, drop-drop, length-drop,
  length-take, take-append-drop,
}

abbrev pub Bytes : Type 0
Bytes = List ℕ

-- `n.to_le_bytes()` of a type that is `width` bytes wide.
unfoldable pub to_le_bytes : ℕ → ℕ → Bytes
to_le_bytes zero n = []
to_le_bytes (suc width) n = (n % 256) ∷ to_le_bytes width (n / 256)

unfoldable pub from_le_bytes : Bytes → ℕ
from_le_bytes [] = 0
from_le_bytes (b ∷ bs) = b + 256 * from_le_bytes bs

pub length-to_le_bytes : (width n : ℕ) → length (to_le_bytes width n) ≡ width
unfolding to_le_bytes
length-to_le_bytes zero n = refl
length-to_le_bytes (suc width) n = ap suc (length-to_le_bytes width (n / 256))

-- A number that fits into the width is read back.
pub from-to_le_bytes : (width n : ℕ) → n < 256 ^ width → from_le_bytes (to_le_bytes width n) ≡ n
unfolding to_le_bytes from_le_bytes
from-to_le_bytes zero n h = omega arith
from-to_le_bytes (suc width) n h =
    omega (arith, from-to_le_bytes width (n / 256) (omega (arith, pow-suc 256 width)))

-- `&data[from..from + size]`, where the caller has tested that its end is within the data.
unfoldable pub slice : Bytes → ℕ → ℕ → Bytes
slice bytes from size = take size (drop from bytes)

pub length-slice :
    (bytes : Bytes) (from size : ℕ)
    → from + size ≤ length bytes
    → length (slice bytes from size) ≡ size
unfolding slice
length-slice bytes from size h =
    length-take size (drop from bytes) (omega (arith, length-drop from bytes))

-- What stands before the data moves a slice.
pub slice_behind :
    (pre rest : Bytes) (from k size : ℕ)
    → from ≡ length pre + k
    → slice (pre ++ rest) from size ≡ slice rest k size
unfolding slice
slice_behind pre rest from k size h = ap (take size) (
    ap (λ n. drop n (pre ++ rest)) h
    ∙ sym (drop-drop k (length pre) (pre ++ rest))
    ∙ ap (drop k) (drop_left (length pre) pre rest refl))

-- What stands behind a slice does not change it.
pub slice_before :
    (bytes more : Bytes) (from size : ℕ)
    → from + size ≤ length bytes
    → slice (bytes ++ more) from size ≡ slice bytes from size
unfolding slice
slice_before bytes more from size h =
    ap (take size) (drop_inside from bytes more (omega arith))
    ∙ take_inside size (drop from bytes) more (omega (arith, length-drop from bytes))

pub slice_whole :
    (bytes more : Bytes) (size : ℕ) → size ≡ length bytes → slice (bytes ++ more) 0 size ≡ bytes
unfolding slice
slice_whole bytes more size h = take_left size bytes more h

pub slice-take :
    (bytes : Bytes) (end from size : ℕ)
    → from + size ≤ end
    → end ≤ length bytes
    → slice (take end bytes) from size ≡ slice bytes from size
slice-take bytes end from size h fits =
    sym (
      slice_before (take end bytes) (drop end bytes) from size
        (omega (arith, length-take end bytes fits)))
    ∙ ap (λ b. slice b from size) (take-append-drop end bytes)

-- The middle part of three is the slice that its offset and its length name.
pub slice_at :
    (pre mid post : Bytes) (from size : ℕ)
    → from ≡ length pre
    → size ≡ length mid
    → slice (pre ++ (mid ++ post)) from size ≡ mid
slice_at pre mid post from size h k =
    slice_behind pre (mid ++ post) from 0 size (omega arith) ∙ slice_whole mid post size k

slice_start : (bytes : Bytes) (end : ℕ) → slice bytes 0 end ≡ take end bytes
unfolding slice
slice_start bytes end = refl

-- A slice of the first `end` bytes is a slice of all.
pub slice_of_slice :
    (bytes : Bytes) (end from size : ℕ)
    → from + size ≤ end
    → end ≤ length bytes
    → slice (slice bytes 0 end) from size ≡ slice bytes from size
slice_of_slice bytes end from size h fits =
    ap (λ b. slice b from size) (slice_start bytes end) ∙ slice-take bytes end from size h fits
