-- ===== src/Rates.antt =====
-- crates/rpglot-core/src/rates.rs: the deltas of counters and the state that the rates are computed from.
-- The four state structs differ only in the types of their rows and rates.
pub mod Rows
pub mod Update
pub mod Merged
pub mod Replaced
pub mod Replay
pub mod Stale
use rpglot.Prelude.{ℕ, Bool, Option, none, some, List, [], ◌∷◌, if◌then◌else◌}
use rpglot.Prelude.Int.{ℤ, ◌-ℤ◌, wrap_i64, leb_ℤ}
use rpglot.Prelude.Float.{F64, FloatOps}
use rpglot.Prelude.Maps.{Map}

abbrev pub max_rate_dt_secs : ℕ
max_rate_dt_secs = 605

abbrev pub max_pgp_rate_dt_secs : ℕ
max_pgp_rate_dt_secs = 905

abbrev pub max_pgs_stale_secs : ℕ
max_pgs_stale_secs = 300

abbrev pub max_pgp_stale_secs : ℕ
max_pgp_stale_secs = 900

unfoldable pub di64 : ℤ → ℤ → Option ℤ
unfolding ◌-ℤ◌ wrap_i64
di64 curr prev = if leb_ℤ prev curr then some (wrap_i64 (curr -ℤ prev)) else none

unfoldable pub df64 : FloatOps → F64 → F64 → Option F64
df64 ops curr prev = if ops.le prev curr then some (ops.sub curr prev) else none

-- `.map(|d| d as f64 / dt)`
abbrev pub int_per : FloatOps → F64 → Option ℤ → Option F64
int_per ops dt none = none
int_per ops dt (some d) = some (ops.div (ops.of_int d) dt)

-- `.map(|d| d / dt)`
abbrev pub float_per : FloatOps → F64 → Option F64 → Option F64
float_per ops dt none = none
float_per ops dt (some d) = some (ops.div d dt)

-- A key of `i64` stands in a map as its 64 bits.
pub record RateState (Row Rates : Type 0) : Type 0 where
  pub rates : Map Rates
  pub prev_sample : Map Row
  pub prev_ts : Option ℤ

-- `RateState::default()`
abbrev pub initial : {Row Rates : Type 0} → RateState Row Rates
initial = record { rates = []; prev_sample = []; prev_ts = none }

unfoldable pub reset : {Row Rates : Type 0} → RateState Row Rates → RateState Row Rates
reset state = record state { rates = []; prev_sample = []; prev_ts = none }
