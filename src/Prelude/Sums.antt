-- ===== src/Prelude/Sums.antt =====
-- A sum over a list does not go by its order.
use mathlib.Core.Path.{◌≡◌, refl, ap, ◌∙◌}
use mathlib.Core.List.{List, [], ◌∷◌, Perm, Permᴰ}
use Prim.Native.Nat.{ℕ, zero, suc, ◌≤◌}
use native.Mathlib.Omega.{arith}
use native.Mathlib.Nat.{ℕ_set}
use mathlib.Core.Logic.{∥∥₁_elim}
use rpglot.Prelude.Lists.{length, take}
use rpglot.Prelude.Sort.{sum_of}

Permᴰ-sum_of {ℓ} :
    {A : Type ℓ} (f : A → ℕ) {xs ys : List A} → Permᴰ xs ys → sum_of f xs ≡ sum_of f ys
unfolding sum_of
Permᴰ-sum_of f Permᴰ.nil = refl
Permᴰ-sum_of f (Permᴰ.cons same p) = omega (arith, ap f same, Permᴰ-sum_of f p)
Permᴰ-sum_of f (Permᴰ.swap first second) = omega (arith, ap f first, ap f second)
Permᴰ-sum_of f (Permᴰ.trans p q) = Permᴰ-sum_of f p ∙ Permᴰ-sum_of f q

pub sum_of-Perm {ℓ} :
    {A : Type ℓ} (f : A → ℕ) {xs ys : List A} → Perm xs ys → sum_of f xs ≡ sum_of f ys
sum_of-Perm f p = ∥∥₁_elim p (ℕ_set _ _) (Permᴰ-sum_of f)

-- A length is a sum of ones.
pub sum_of_ones {ℓ} : {A : Type ℓ} (xs : List A) → sum_of (λ x. 1) xs ≡ length xs
unfolding sum_of
sum_of_ones [] = refl
sum_of_ones (x ∷ xs) = omega (arith, sum_of_ones xs)

pub take_whole {ℓ} : {A : Type ℓ} (n : ℕ) (xs : List A) → length xs ≤ n → take n xs ≡ xs
take_whole zero [] h = refl
take_whole zero (x ∷ xs) h = absurd (omega arith)
take_whole (suc n) [] h = refl
take_whole (suc n) (x ∷ xs) h = ap (◌∷◌ x) (take_whole n xs (omega arith))

pub length-take_le {ℓ} : {A : Type ℓ} (n : ℕ) (xs : List A) → length (take n xs) ≤ n
length-take_le zero xs = omega arith
length-take_le (suc n) [] = omega arith
length-take_le (suc n) (x ∷ xs) = omega (arith, length-take_le n xs)
