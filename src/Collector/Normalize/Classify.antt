-- ===== src/Collector/Normalize/Classify.antt =====
-- collector/log_collector/normalize.rs: classify_error. Its tests stand in the order of the source, and
-- the first that holds gives the category.
use rpglot.Prelude.{String, Bool, true, false, ◌&&◌, ◌||◌, List, [], ◌∷◌}
use rpglot.Prelude.Text.{codes, is_prefix}
use rpglot.Model.Log.{
  PgLogSeverity, error, fatal, panic, ErrorCategory, lock, constraint, serialization, timeout,
  connection, auth, syntax, resource, data_corruption, system, other,
}
use rpglot.Collector.Texts.{Chars, contains}

-- A test of the pattern.
pub data Condition : Type 0 where
  has begins : String → Condition
  both either : Condition → Condition → Condition

unfoldable pub holds : Chars → Condition → Bool
unfolding contains
holds pattern (has text) = contains (codes text) pattern
holds pattern (begins text) = is_prefix (codes text) pattern
holds pattern (both a b) = holds pattern a && holds pattern b
holds pattern (either a b) = holds pattern a || holds pattern b

unfoldable pub any_holds : Chars → List Condition → Bool
unfolding holds
any_holds pattern [] = false
any_holds pattern (condition ∷ conditions) = holds pattern condition || any_holds pattern conditions

abbrev pub lock_conditions : List Condition
lock_conditions =
    begins "deadlock detected"
    ∷ has "could not obtain lock"
    ∷ either (has "lock timeout") (begins "canceling statement due to lock timeout")
    ∷ both (has "still waiting for") (has "Lock")
    ∷ []

abbrev pub constraint_conditions : List Condition
constraint_conditions =
    has "duplicate key"
    ∷ has "violates foreign key"
    ∷ has "violates not-null"
    ∷ has "violates check constraint"
    ∷ has "violates exclusion constraint"
    ∷ begins "null value in column"
    ∷ []

abbrev pub serialization_conditions : List Condition
serialization_conditions = has "could not serialize access" ∷ []

abbrev pub timeout_conditions : List Condition
timeout_conditions =
    has "statement timeout"
    ∷ has "idle-in-transaction session timeout"
    ∷ has "transaction timeout"
    ∷ begins "canceling statement due to user request"
    ∷ has "idle session timeout"
    ∷ []

abbrev pub resource_conditions : List Condition
resource_conditions =
    either (has "out of memory") (has "out of shared memory")
    ∷ has "too many connections"
    ∷ has "disk full"
    ∷ has "could not extend"
    ∷ has "could not resize shared memory"
    ∷ has "remaining connection slots"
    ∷ []

abbrev pub data_corruption_conditions : List Condition
data_corruption_conditions =
    has "invalid page"
    ∷ has "could not read block"
    ∷ either (has "data corrupted") (has "index corrupted")
    ∷ has "unexpected zero page"
    ∷ has "could not access status of transaction"
    ∷ has "invalid checkpoint record"
    ∷ has "invalid memory alloc"
    ∷ []

abbrev pub system_conditions : List Condition
system_conditions =
    has "could not open file"
    ∷ both (has "could not write") (has "file")
    ∷ has "I/O error"
    ∷ has "crash shutdown"
    ∷ both (has "server process") (has "terminated")
    ∷ has "shutting down"
    ∷ has "not accepting commands"
    ∷ []

abbrev pub connection_conditions : List Condition
connection_conditions =
    has "connection reset by peer"
    ∷ has "unexpected EOF"
    ∷ has "broken pipe"
    ∷ has "could not receive data from client"
    ∷ has "could not send data to client"
    ∷ has "terminating connection"
    ∷ has "connection lost"
    ∷ []

abbrev pub auth_conditions : List Condition
auth_conditions =
    has "password authentication failed"
    ∷ has "no pg_hba.conf entry"
    ∷ both (begins "role") (has "does not exist")
    ∷ begins "permission denied"
    ∷ has "SSL connection is required"
    ∷ []

abbrev pub syntax_conditions : List Condition
syntax_conditions =
    begins "syntax error"
    ∷ has "does not exist"
    ∷ has "invalid input syntax"
    ∷ has "division by zero"
    ∷ has "value too long"
    ∷ has "numeric value out of range"
    ∷ has "cannot coerce"
    ∷ []

-- The groups of tests, in the order in which they are tried.
abbrev pub groups : List (List Condition × ErrorCategory)
groups =
    (lock_conditions, lock)
    ∷ (constraint_conditions, constraint)
    ∷ (serialization_conditions, serialization)
    ∷ (timeout_conditions, timeout)
    ∷ (resource_conditions, resource)
    ∷ (data_corruption_conditions, data_corruption)
    ∷ (system_conditions, system)
    ∷ (connection_conditions, connection)
    ∷ (auth_conditions, auth)
    ∷ (syntax_conditions, syntax)
    ∷ []

unfoldable pub first_group :
    Chars → List (List Condition × ErrorCategory) → ErrorCategory → ErrorCategory
unfolding any_holds
first_group pattern [] otherwise = otherwise
first_group pattern ((conditions, category) ∷ more) otherwise =
    let rest = first_group pattern more otherwise in
    elim (any_holds pattern conditions) [ true ↦ category | false ↦ rest ]

unfoldable pub classify_error : Chars → PgLogSeverity → ErrorCategory
unfolding first_group
classify_error pattern panic = data_corruption
classify_error pattern fatal = first_group pattern groups system
classify_error pattern error = first_group pattern groups other
