-- ===== src/Storage/Rotate.antt =====
-- manager.rs, rotate: old files and, from the oldest on, files above the size limit are removed. The
-- files are what read_dir and parse_date_from_filename give; a date is a number of days. Sizes are
-- `u64`s, and their sums wrap. A file that cannot be removed ends the rotation with its path.
pub mod Bounds
use rpglot.Prelude.{
  ℕ, ◌+◌, ◌-◌, ◌%◌, ◌^◌, Bool, true, false, Option, none, some, List, [], ◌∷◌, ◌++◌, String, length,
  ltb, leb, if◌then◌else◌,
}
use rpglot.Prelude.Result.{Result, ok, err, ◌>>=◌}

pub record FileInfo : Type 0 where
  pub path : String
  pub size : ℕ
  pub date : Option ℕ

pub record RotationConfig : Type 0 where
  pub max_total_size : ℕ
  pub max_retention_days : ℕ

pub record RotationResult : Type 0 where
  pub files_removed_by_age : ℕ
  pub files_removed_by_size : ℕ
  pub bytes_freed : ℕ
  pub total_size_after : ℕ
  pub files_remaining : ℕ

abbrev pub default_result : RotationResult
default_result = record {
  files_removed_by_age = 0;
  files_removed_by_size = 0;
  bytes_freed = 0;
  total_size_after = 0;
  files_remaining = 0;
}

-- `None` is before every date.
unfoldable pub date_le : Option ℕ → Option ℕ → Bool
date_le none d = true
date_le (some a) none = false
date_le (some a) (some b) = leb a b

unfoldable pub insert_by_date : FileInfo → List FileInfo → List FileInfo
unfolding date_le
insert_by_date f [] = f ∷ []
insert_by_date f (g ∷ files) =
    let rest = insert_by_date f files in if date_le f.date g.date then f ∷ g ∷ files else g ∷ rest

-- Stable, as `sort_by_key` is.
unfoldable pub sort_by_date : List FileInfo → List FileInfo
sort_by_date [] = []
sort_by_date (f ∷ files) = insert_by_date f (sort_by_date files)

-- `file_date < now - days`
unfoldable pub is_old : ℕ → ℕ → Option ℕ → Bool
is_old now days none = false
is_old now days (some date) = ltb (date + days) now

unfoldable pub sum_sizes : List FileInfo → ℕ
sum_sizes [] = 0
sum_sizes (f ∷ files) = f.size + sum_sizes files

module _ (can_remove : String → Bool) (config : RotationConfig) where
  unfoldable pub remove_old :
      ℕ
      → List FileInfo
      → RotationResult
      → List FileInfo
      → Result String (RotationResult × List FileInfo)
  remove_old now [] result remaining = ok (result, remaining)
  remove_old now (f ∷ files) result remaining =
      let behind =
        remove_old now files
          (record result {
            files_removed_by_age = result.files_removed_by_age + 1;
            bytes_freed = (result.bytes_freed + f.size) % 2 ^ 64;
          })
          remaining in
      let kept = remove_old now files result (remaining ++ f ∷ []) in
      if is_old now config.max_retention_days f.date
      then (if can_remove f.path then behind else err f.path)
      else kept

  unfoldable pub remove_excess : List FileInfo → ℕ → RotationResult → Result String RotationResult
  remove_excess [] total_size result =
      ok (record result { total_size_after = total_size; files_remaining = 0 })
  remove_excess (f ∷ files) total_size result =
      let rest = remove_excess files ((total_size + 2 ^ 64 - f.size) % 2 ^ 64) (record result {
        files_removed_by_size = result.files_removed_by_size + 1;
        bytes_freed = (result.bytes_freed + f.size) % 2 ^ 64;
      }) in
      if ltb config.max_total_size total_size
      then (if can_remove f.path then rest else err f.path)
      else ok
          (record result { total_size_after = total_size; files_remaining = length (f ∷ files) })

  unfoldable pub rotate : ℕ → List FileInfo → Result String RotationResult
  rotate now files = remove_old now (sort_by_date files) default_result [] >>= λ kept.
      remove_excess kept.1 (sum_sizes kept.1 % 2 ^ 64) kept.0
