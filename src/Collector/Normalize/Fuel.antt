-- ===== src/Collector/Normalize/Fuel.antt =====
-- collector/log_collector/normalize.rs: the loop of replace_wal_address ends.
use rpglot.Prelude.{
  ℕ, zero, suc, ◌≤◌, Bool, Option, List, [], ◌∷◌, ◌++◌, ◌≡◌, refl, ap, arith, length, inl, inr,
  Bool-cases,
}
use rpglot.Collector.Texts.{Chars, take_while}
use rpglot.Collector.Normalize.{skip_while}
use rpglot.Collector.Normalize.Patterns.{
  first_run, second_run, wal_round, wal_loop, is_ascii_hexdigit,
}

length-skip_while : (test : ℕ → Bool) (s : Chars) → length (skip_while test s) ≤ length s
unfolding skip_while
length-skip_while test [] = omega arith
length-skip_while test (c ∷ s) = ground (arith, length-skip_while test s)

first_run_le :
    (before : Option ℕ) (first bytes : List ℕ)
    → length (first_run before first bytes).2 ≤ length bytes
unfolding first_run second_run
first_run_le before first [] = omega arith
first_run_le before first (b ∷ bytes) = ground (arith, length-skip_while is_ascii_hexdigit bytes)

-- A round takes a byte at least.
wal_round_le :
    (before : Option ℕ) (b : ℕ) (bytes : List ℕ)
    → length (wal_round before b bytes).2 ≤ length bytes
unfolding wal_round
wal_round_le before b bytes = elim (Bool-cases (is_ascii_hexdigit b)) [
  | inl hex ↦ rw hex (
      omega (
        arith,
        length-skip_while is_ascii_hexdigit bytes,
        first_run_le before (b ∷ take_while is_ascii_hexdigit bytes)
            (skip_while is_ascii_hexdigit bytes),
      ))
  | inr other ↦ rw other (omega arith)
]

-- As many rounds as there are bytes are enough: with more the loop gives the same.
pub wal_loop_ends :
    (fuel more : ℕ) (before : Option ℕ) (bytes : List ℕ)
    → length bytes ≤ fuel
    → length bytes ≤ more
    → wal_loop fuel before bytes ≡ wal_loop more before bytes
unfolding wal_loop
wal_loop_ends zero zero before [] h k = refl
wal_loop_ends zero (suc more) before [] h k = refl
wal_loop_ends (suc fuel) zero before [] h k = refl
wal_loop_ends (suc fuel) (suc more) before [] h k = refl
wal_loop_ends zero more before (b ∷ bytes) h k = absurd (omega arith)
wal_loop_ends (suc fuel) zero before (b ∷ bytes) h k = absurd (omega arith)
wal_loop_ends (suc fuel) (suc more) before (b ∷ bytes) h k =
    let round = wal_round before b bytes in
    let shorter = wal_round_le before b bytes in
    ap (λ s. round.0 ++ s) (wal_loop_ends fuel more round.1 round.2 (omega arith) (omega arith))
