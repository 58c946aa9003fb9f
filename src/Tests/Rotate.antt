-- ===== src/Tests/Rotate.antt =====
-- A rotation that removes one file for its age and one for the size limit.
use rpglot.Prelude.{Bool, true, some, List, [], ◌∷◌, ◌≡◌, refl, String}
use rpglot.Prelude.Result.{ok}
use rpglot.Storage.Rotate.{
  FileInfo, RotationConfig, RotationResult, insert_by_date, sort_by_date, is_old, sum_sizes,
  remove_old, remove_excess, rotate,
}

abbrev three_files : List FileInfo
three_files =
    record { path = "rpglot_10"; size = 60; date = some 10 }
    ∷ record { path = "rpglot_01"; size = 10; date = some 1 }
    ∷ record { path = "rpglot_09"; size = 50; date = some 9 }
    ∷ []

abbrev config : RotationConfig
config = record { max_total_size = 100; max_retention_days = 5 }

abbrev rotated : RotationResult
rotated = record {
  files_removed_by_age = 1;
  files_removed_by_size = 1;
  bytes_freed = 60;
  total_size_after = 60;
  files_remaining = 1;
}

abbrev all_removable : String → Bool
all_removable path = true

three_rotated : rotate all_removable config 10 three_files ≡ ok rotated
unfolding rotate sort_by_date insert_by_date is_old sum_sizes remove_old remove_excess
three_rotated = refl
