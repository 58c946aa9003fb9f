-- ===== src/Storage/Rotate/Bounds.antt =====
-- What a rotation leaves.
use rpglot.Prelude.{
  ℕ, ◌+◌, ◌%◌, ◌≤◌, ◌<◌, ◌^◌, Bool, suc, List, [], ◌∷◌, ◌++◌, String, ◌≡◌, ◌⊎◌, arith, length,
  length-append,
}
use rpglot.Prelude.Result.{ok, >>=-eq-ok}
use rpglot.Storage.Rotate.{
  FileInfo, RotationConfig, RotationResult, default_result, insert_by_date, sort_by_date, sum_sizes,
  remove_old, remove_excess, rotate,
}

insert-sum :
    (f : FileInfo) (files : List FileInfo)
    → (sum_sizes (insert_by_date f files) ≡ f.size + sum_sizes files)
      × (length (insert_by_date f files) ≡ suc (length files))
unfolding insert_by_date sum_sizes
insert-sum f [] = ground arith
insert-sum f (g ∷ files) = ground (arith, insert-sum f files)

sort-sum :
    (files : List FileInfo)
    → (sum_sizes (sort_by_date files) ≡ sum_sizes files)
      × (length (sort_by_date files) ≡ length files)
unfolding sort_by_date sum_sizes
sort-sum [] = ground arith
sort-sum (f ∷ files) = ground (arith, insert-sum f (sort_by_date files), sort-sum files)

sum-append :
    (files more : List FileInfo) → sum_sizes (files ++ more) ≡ sum_sizes files + sum_sizes more
unfolding sum_sizes
sum-append [] more = ground arith
sum-append (f ∷ files) more = ground (arith, sum-append files more)

module _ (can_remove : String → Bool) (config : RotationConfig) where
  -- Files and bytes are counted once: as removed, or as remaining.
  remove_old-sum :
      (now : ℕ) (files : List FileInfo) (result : RotationResult) (remaining : List FileInfo)
      (after : RotationResult) (kept : List FileInfo)
      → result.bytes_freed + (sum_sizes files + sum_sizes remaining) < 2 ^ 64
      → remove_old can_remove config now files result remaining ≡ ok (after, kept)
      → (after.bytes_freed + sum_sizes kept
          ≡ result.bytes_freed + (sum_sizes files + sum_sizes remaining))
        × (after.files_removed_by_age + length kept
            ≡ result.files_removed_by_age + (length files + length remaining))
        × (after.files_removed_by_size ≡ result.files_removed_by_size)
  unfolding remove_old sum_sizes
  remove_old-sum now [] result remaining after kept small h = ground arith
  remove_old-sum now (f ∷ files) result remaining after kept small h = ground (
    arith,
    remove_old-sum now files
        (record result {
          files_removed_by_age = result.files_removed_by_age + 1;
          bytes_freed = (result.bytes_freed + f.size) % 2 ^ 64;
        })
        remaining after kept,
    remove_old-sum now files result (remaining ++ f ∷ []) after kept,
    sum-append remaining (f ∷ []),
    length-append remaining (f ∷ []),
  )

  remove_excess-sum :
      (files : List FileInfo) (result after : RotationResult)
      → result.bytes_freed + sum_sizes files < 2 ^ 64
      → remove_excess can_remove config files (sum_sizes files) result ≡ ok after
      → (after.bytes_freed + after.total_size_after ≡ result.bytes_freed + sum_sizes files)
        × (after.files_removed_by_size + after.files_remaining
            ≡ result.files_removed_by_size + length files)
        × (after.files_removed_by_age ≡ result.files_removed_by_age)
        × ((after.total_size_after ≤ config.max_total_size) ⊎ (after.files_remaining ≡ 0))
  unfolding remove_excess sum_sizes
  remove_excess-sum [] result after small h = ground arith
  remove_excess-sum (f ∷ files) result after small h = ground (
    arith,
    remove_excess-sum files
        (record result {
          files_removed_by_size = result.files_removed_by_size + 1;
          bytes_freed = (result.bytes_freed + f.size) % 2 ^ 64;
        })
        after,
  )

  -- A rotation that ends without an error leaves the total size within the limit, or no file; every
  -- file is counted once, as removed by age, removed by size or remaining, and so is every byte. The
  -- sizes of the files sum up to less than 2 ^ 64.
  pub rotate_accounts :
      (now : ℕ) (files : List FileInfo) (result : RotationResult)
      → sum_sizes files < 2 ^ 64
      → rotate can_remove config now files ≡ ok result
      → ((result.total_size_after ≤ config.max_total_size) ⊎ (result.files_remaining ≡ 0))
        × (result.bytes_freed + result.total_size_after ≡ sum_sizes files)
        × (result.files_removed_by_age + result.files_removed_by_size + result.files_remaining
            ≡ length files)
  unfolding rotate sum_sizes
  rotate_accounts now files result small h =
      let ((after, kept), removed, behind) =
        >>=-eq-ok (remove_old can_remove config now (sort_by_date files) default_result []) _ h in
      let sorted = sort-sum files in
      let first =
        remove_old-sum now (sort_by_date files) default_result [] after kept
          (ground (arith, sorted)) removed in
      let second =
        remove_excess-sum kept after result (ground (arith, sorted, first))
          (ground (arith, sorted, first, behind)) in
      ground (arith, sorted, first, second)
