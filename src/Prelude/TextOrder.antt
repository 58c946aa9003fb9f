-- ===== src/Prelude/TextOrder.antt =====
-- The order of texts is total.
use Prim.Native.Nat.{ℕ, Ordering, compare as compare_ℕ}
use Prim.Native.Char.{code}
use Prim.Native.String.compare
use Prim.Native.String.{String, compare, then}
use mathlib.Core.Path.{◌≡◌, refl}
use mathlib.Core.Bool.{true, false}
use mathlib.Core.Logic.{◌⊎◌, inl, inr}
use native.Mathlib.Omega.{arith}
use rpglot.Prelude.Text.{same_text, text_le}

abbrev Flipped : Ordering → Ordering → Type 0
Flipped o p =
    ((o ≡ Ordering.lt) × (p ≡ Ordering.gt))
    ⊎ (((o ≡ Ordering.eq) × (p ≡ Ordering.eq)) ⊎ ((o ≡ Ordering.gt) × (p ≡ Ordering.lt)))

compare-Flipped : (a b : ℕ) → Flipped (compare_ℕ a b) (compare_ℕ b a)
compare-Flipped a b = ground arith

then-Flipped : (o p q r : Ordering) → Flipped o p → Flipped q r → Flipped (then o q) (then p r)
then-Flipped o p q r (inl (h, k)) g = rw (h, k) (inl (refl, refl))
then-Flipped o p q r (inr (inl (h, k))) g = rw (h, k) g
then-Flipped o p q r (inr (inr (h, k))) g = rw (h, k) (inr (inr (refl, refl)))

text-Flipped : (s t : String) → Flipped (compare s t) (compare t s)
text-Flipped String.[] String.[] = inr (inl (compare.nil-nil, compare.nil-nil))
text-Flipped String.[] (String.◌∷◌ d t) = inl (compare.nil-cons d t, compare.cons-nil d t)
text-Flipped (String.◌∷◌ c s) String.[] = inr (inr (compare.cons-nil c s, compare.nil-cons c s))
text-Flipped (String.◌∷◌ c s) (String.◌∷◌ d t) =
    rw (compare.cons-cons c d s t, compare.cons-cons d c t s)
      (then-Flipped (compare_ℕ (code c) (code d)) (compare_ℕ (code d) (code c)) (compare s t)
        (compare t s) (compare-Flipped (code c) (code d)) (text-Flipped s t))

pub text_le-total : (s t : String) → text_le s t ≡ false → text_le t s ≡ true
text_le-total s t h = elim (text-Flipped s t) [
  | inl (o, p) ↦ ground (arith, o, p)
  | inr (inl (o, p)) ↦ ground (arith, o, p)
  | inr (inr (o, p)) ↦ ground (arith, o, p)
]

pub same_text_flip : (s t : String) → same_text s t ≡ same_text t s
same_text_flip s t = elim (text-Flipped s t) [
  | inl (o, p) ↦ ground (arith, o, p)
  | inr (inl (o, p)) ↦ ground (arith, o, p)
  | inr (inr (o, p)) ↦ ground (arith, o, p)
]
