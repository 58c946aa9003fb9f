-- ===== src/Prelude/Sort.antt =====
-- A stable sort, `sort_by`, by a test for "not behind". Tests of a list's elements.
use mathlib.Core.Bool.{Bool, true, false}
use mathlib.Core.Path.{◌≡◌, refl, ap, subst, sym, ◌∙◌}
use mathlib.Core.Logic.{◌⊎◌, inl, inr}
use mathlib.Core.List.{List, [], ◌∷◌, ◌++◌, Perm, perm_middle, perm_append_comm, append_assoc}
use mathlib.Core.List.Perm
use Prim.Native.Nat.{ℕ, ◌+◌}
use native.Mathlib.Omega.{arith}
use rpglot.Prelude.Tests.{if◌then◌else◌, Bool-cases}

-- The elements that pass a test, in their order.
unfoldable pub keep_if {ℓ} : {A : Type ℓ} → (A → Bool) → List A → List A
keep_if test [] = []
keep_if test (x ∷ xs) = let rest = keep_if test xs in if test x then x ∷ rest else rest

unfoldable pub insert_by {ℓ} : {A : Type ℓ} → (A → A → Bool) → A → List A → List A
insert_by le x [] = x ∷ []
insert_by le x (y ∷ ys) = let rest = insert_by le x ys in if le x y then x ∷ y ∷ ys else y ∷ rest

unfoldable pub sort_by {ℓ} : {A : Type ℓ} → (A → A → Bool) → List A → List A
sort_by le [] = []
sort_by le (x ∷ xs) = insert_by le x (sort_by le xs)

insert_by-Perm {ℓ} :
    {A : Type ℓ} (le : A → A → Bool) (x : A) (xs : List A) → Perm (insert_by le x xs) (x ∷ xs)
unfolding insert_by
insert_by-Perm le x [] = Perm.rfl
insert_by-Perm le x (y ∷ ys) = elim (Bool-cases (le x y)) [
  | inl before ↦ rw before Perm.rfl
  | inr behind ↦ rw behind (Perm.trans (Perm.cons y (insert_by-Perm le x ys)) (Perm.swap x y ys))
]

pub sort_by-Perm {ℓ} : {A : Type ℓ} (le : A → A → Bool) (xs : List A) → Perm (sort_by le xs) xs
unfolding sort_by
sort_by-Perm le [] = Perm.rfl
sort_by-Perm le (x ∷ xs) =
    Perm.trans (insert_by-Perm le x (sort_by le xs)) (Perm.cons x (sort_by-Perm le xs))

-- What passes a test and what fails it make up the list.
pub keep_if-Perm {ℓ} :
    {A : Type ℓ} (test fails : A → Bool) (xs : List A)
    → ((x : A) → ((test x ≡ true) × (fails x ≡ false)) ⊎ ((test x ≡ false) × (fails x ≡ true)))
    → Perm (keep_if test xs ++ keep_if fails xs) xs
unfolding keep_if
keep_if-Perm test fails [] split = Perm.rfl
keep_if-Perm test fails (x ∷ xs) split = elim (split x) [
  | inl (passed, kept) ↦ rw (passed, kept) (Perm.cons x (keep_if-Perm test fails xs split))
  | inr (failed, left) ↦
      rw (failed, left)
        (Perm.trans (perm_middle (keep_if test xs) (keep_if fails xs))
          (Perm.cons x (keep_if-Perm test fails xs split)))
]

unfoldable pub sum_of {ℓ} : {A : Type ℓ} → (A → ℕ) → List A → ℕ
sum_of f [] = 0
sum_of f (x ∷ xs) = f x + sum_of f xs

sum_of-insert_by {ℓ} :
    {A : Type ℓ} (le : A → A → Bool) (f : A → ℕ) (x : A) (xs : List A)
    → sum_of f (insert_by le x xs) ≡ f x + sum_of f xs
unfolding insert_by sum_of
sum_of-insert_by le f x [] = refl
sum_of-insert_by le f x (y ∷ ys) = ground (arith, sum_of-insert_by le f x ys)

pub sum_of-sort_by {ℓ} :
    {A : Type ℓ} (le : A → A → Bool) (f : A → ℕ) (xs : List A)
    → sum_of f (sort_by le xs) ≡ sum_of f xs
unfolding sort_by sum_of
sum_of-sort_by le f [] = refl
sum_of-sort_by le f (x ∷ xs) =
    omega (arith, sum_of-insert_by le f x (sort_by le xs), sum_of-sort_by le f xs)

unfoldable pub concat_of {ℓ ℓ'} : {A : Type ℓ} {B : Type ℓ'} → (A → List B) → List A → List B
concat_of f [] = []
concat_of f (x ∷ xs) = f x ++ concat_of f xs

pub concat_of-append {ℓ ℓ'} :
    {A : Type ℓ} {B : Type ℓ'} (f : A → List B) (xs ys : List A)
    → concat_of f (xs ++ ys) ≡ concat_of f xs ++ concat_of f ys
unfolding concat_of
concat_of-append f [] ys = refl
concat_of-append f (x ∷ xs) ys =
    ap (λ l. f x ++ l) (concat_of-append f xs ys)
    ∙ sym (append_assoc (f x) (concat_of f xs) (concat_of f ys))

-- Two lists in front of a third may change places.
pub swap_front {ℓ} : {A : Type ℓ} (xs ys zs : List A) → Perm (xs ++ (ys ++ zs)) (ys ++ (xs ++ zs))
swap_front xs ys zs =
    subst (λ l. Perm l (ys ++ (xs ++ zs))) (append_assoc xs ys zs)
      (subst (Perm ((xs ++ ys) ++ zs)) (append_assoc ys xs zs)
        (Perm.append_right zs (perm_append_comm xs ys)))

concat_of-insert_by {ℓ ℓ'} :
    {A : Type ℓ} {B : Type ℓ'} (le : A → A → Bool) (f : A → List B) (x : A) (xs : List A)
    → Perm (concat_of f (insert_by le x xs)) (f x ++ concat_of f xs)
unfolding insert_by concat_of
concat_of-insert_by le f x [] = Perm.rfl
concat_of-insert_by le f x (y ∷ ys) = elim (Bool-cases (le x y)) [
  | inl before ↦ rw before Perm.rfl
  | inr behind ↦ rw behind (
      Perm.trans (Perm.append_left (f y) (concat_of-insert_by le f x ys))
        (swap_front (f y) (f x) (concat_of f ys)))
]

pub concat_of-sort_by {ℓ ℓ'} :
    {A : Type ℓ} {B : Type ℓ'} (le : A → A → Bool) (f : A → List B) (xs : List A)
    → Perm (concat_of f (sort_by le xs)) (concat_of f xs)
unfolding sort_by concat_of
concat_of-sort_by le f [] = Perm.rfl
concat_of-sort_by le f (x ∷ xs) =
    Perm.trans (concat_of-insert_by le f x (sort_by le xs))
      (Perm.append_left (f x) (concat_of-sort_by le f xs))

-- Neighbours are in order.
abbrev pub IsChain {ℓ} : {A : Type ℓ} → (A → A → Bool) → List A → Type 0
IsChain le [] = Unit
IsChain le (x ∷ []) = Unit
IsChain le (x ∷ y ∷ ys) = (le x y ≡ true) × IsChain le (y ∷ ys)

IsChain-cons {ℓ} :
    {A : Type ℓ} (le : A → A → Bool) (y x : A) (ys : List A)
    → le y x ≡ true
    → IsChain le (y ∷ ys)
    → IsChain le (insert_by le x ys)
    → IsChain le (y ∷ insert_by le x ys)
unfolding insert_by
IsChain-cons le y x [] h chain more = (h, tt)
IsChain-cons le y x (z ∷ zs) h (first, chain) more = elim (Bool-cases (le x z)) [
  | inl before ↦ rw before (h, (before, chain))
  | inr behind ↦ rw behind (first, rw behind at more)
]

IsChain-tail {ℓ} :
    {A : Type ℓ} (le : A → A → Bool) (x : A) (xs : List A) → IsChain le (x ∷ xs) → IsChain le xs
IsChain-tail le x [] chain = tt
IsChain-tail le x (y ∷ ys) (first, chain) = chain

insert_by-IsChain {ℓ} :
    {A : Type ℓ} (le : A → A → Bool) (x : A) (xs : List A)
    → ((a b : A) → le a b ≡ false → le b a ≡ true)
    → IsChain le xs
    → IsChain le (insert_by le x xs)
unfolding insert_by
insert_by-IsChain le x [] total chain = tt
insert_by-IsChain le x (y ∷ ys) total chain = elim (Bool-cases (le x y)) [
  | inl before ↦ rw before (before, chain)
  | inr behind ↦ rw behind (
      IsChain-cons le y x ys (total x y behind) chain
        (insert_by-IsChain le x ys total (IsChain-tail le y ys chain)))
]

pub sort_by-IsChain {ℓ} :
    {A : Type ℓ} (le : A → A → Bool) (xs : List A)
    → ((a b : A) → le a b ≡ false → le b a ≡ true)
    → IsChain le (sort_by le xs)
unfolding sort_by
sort_by-IsChain le [] total = tt
sort_by-IsChain le (x ∷ xs) total =
    insert_by-IsChain le x (sort_by le xs) total (sort_by-IsChain le xs total)
