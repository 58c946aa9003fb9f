-- ===== src/Tests/Floats.antt =====
-- Whole numbers in the place of `f64`s: what is below 0 is 0, and a division rounds down.
use rpglot.Prelude.{ℕ, ◌+◌, ◌-◌, ◌*◌, ◌/◌, ◌≤◌, ◌<◌, ◌^◌, arith, ltb, leb, if◌then◌else◌}
use rpglot.Prelude.Int.{ℤ, pos, IsI64, pos_part}
use rpglot.Prelude.Float.{FloatOps}

abbrev pub bounded : ℕ → ℕ → ℕ
bounded bound n = if ltb bound n then bound else n

abbrev pub between : ℕ → ℕ → ℕ → ℕ
between n low high = if ltb n low then low else bounded high n

abbrev pub to_signed : ℕ → ℕ → ℤ
to_signed bound n = pos (bounded bound n)

pub between_le : (x n : ℕ) → bounded 255 (between x 0 n) ≤ n
between_le x n = ground arith

pub bounded_lt : (x : ℕ) → bounded 65535 x < 2 ^ 16
bounded_lt x = ground arith

pub to_signed-IsI64 : (x : ℕ) → IsI64 (to_signed (2 ^ 63 - 1) x)
to_signed-IsI64 x = ground arith

abbrev pub whole_numbers : FloatOps
whole_numbers = record {
  of_int = λ a. pos_part a;
  add = λ x y. x + y;
  sub = λ x y. x - y;
  mul = λ x y. x * y;
  div = λ x y. x / y;
  lt = ltb;
  le = leb;
  max = λ x y. if ltb x y then y else x;
  clamp = λ x low high. between x low high;
  round = λ x. x;
  to_u8 = bounded 255;
  to_u16 = bounded 65535;
  to_usize = bounded (2 ^ 64 - 1);
  to_i32 = λ x. to_signed (2 ^ 31 - 1) x;
  to_i64 = λ x. to_signed (2 ^ 63 - 1) x;
  to_u8-clamp = λ x n. between_le x n;
  to_u16_lt = λ x. bounded_lt x;
  to_i64-IsI64 = λ x. to_signed-IsI64 x;
}
