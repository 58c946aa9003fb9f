-- ===== src/Prelude/Float.antt =====
-- `f64`: a value is its bit pattern, a number below 2 ^ 64. Its arithmetic is not code of the
-- repository, and comes as a parameter.
use Prim.Native.Nat.{ℕ, ◌≤◌, ◌<◌, ◌^◌}
use mathlib.Core.Bool.{Bool}
use rpglot.Prelude.Int.{ℤ, pos, IsI64}

abbrev pub F64 : Type 0
F64 = ℕ

-- `f32`, below 2 ^ 32
abbrev pub F32 : Type 0
F32 = ℕ

-- The operations of the processor that the code calls. A cast with `as` ends within its type, and what
-- `clamp` has between 0 and `n` is cast to `n` at most.
pub record FloatOps : Type 0 where
  pub of_int : ℤ → F64
  pub add : F64 → F64 → F64
  pub sub : F64 → F64 → F64
  pub mul : F64 → F64 → F64
  pub div : F64 → F64 → F64
  pub lt : F64 → F64 → Bool
  pub le : F64 → F64 → Bool
  pub max : F64 → F64 → F64
  pub clamp : F64 → F64 → F64 → F64
  pub round : F64 → F64
  pub to_u8 : F64 → ℕ
  pub to_u16 : F64 → ℕ
  pub to_usize : F64 → ℕ
  pub to_i32 : F64 → ℤ
  pub to_i64 : F64 → ℤ
  pub to_u8-clamp : (x : F64) (n : ℕ) → to_u8 (clamp x (of_int (pos 0)) (of_int (pos n))) ≤ n
  pub to_u16_lt : (x : F64) → to_u16 x < 2 ^ 16
  pub to_i64-IsI64 : (x : F64) → IsI64 (to_i64 x)

-- `n as f64` of an unsigned number, and a literal
abbrev pub of_nat : FloatOps → ℕ → F64
of_nat ops n = ops.of_int (pos n)
