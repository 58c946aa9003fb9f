-- ===== src/Util/ProcessIo.antt =====
-- util/process_io.rs: the I/O counters that parents inherit from children that died. A set of process
-- ids is the list of processes that have them; sums are `u64`s and wrap.
use rpglot.Prelude.{
  ℕ, ◌+◌, ◌%◌, ◌^◌, Bool, false, not, ◌||◌, ◌&&◌, Option, none, some, List, [], ◌∷◌, map, ◌==◌, ◌≡◌,
  refl, ap, ◌∙◌, Bool-cases, inl, inr, arith, if◌then◌else◌,
}
use rpglot.Prelude.Maps.{Map, map_get, map_insert, get-insert}
use rpglot.Prelude.Sort.{keep_if, sum_of}
use rpglot.Model.Process.{ProcessInfo}

pub record DiedChildrenIo : Type 0 where
  pub rsz : ℕ
  pub wsz : ℕ
  pub rio : ℕ
  pub wio : ℕ
  pub rchar : ℕ
  pub wchar : ℕ

abbrev pub no_io : DiedChildrenIo
no_io = record { rsz = 0; wsz = 0; rio = 0; wio = 0; rchar = 0; wchar = 0 }

abbrev pub or_default : Option DiedChildrenIo → DiedChildrenIo
or_default none = no_io
or_default (some io) = io

-- `current_pids.contains(&pid)`
unfoldable pub has_pid : ℕ → List ProcessInfo → Bool
has_pid pid [] = false
has_pid pid (p ∷ processes) = p.pid == pid || has_pid pid processes

unfoldable pub add_io : ProcessInfo → DiedChildrenIo → DiedChildrenIo
add_io p entry = record {
  rsz = (entry.rsz + p.dsk.rsz) % 2 ^ 64;
  wsz = (entry.wsz + p.dsk.wsz) % 2 ^ 64;
  rio = (entry.rio + p.dsk.rio) % 2 ^ 64;
  wio = (entry.wio + p.dsk.wio) % 2 ^ 64;
  rchar = (entry.rchar + p.dsk.rchar) % 2 ^ 64;
  wchar = (entry.wchar + p.dsk.wchar) % 2 ^ 64;
}

-- The loop over the processes of the previous snapshot.
unfoldable pub died_loop :
    List ProcessInfo → Map DiedChildrenIo → List ProcessInfo → Map DiedChildrenIo
died_loop current result [] = result
died_loop current result (p ∷ prev) =
    let died =
      died_loop current (map_insert p.ppid (add_io p (or_default (map_get p.ppid result))) result)
        prev in
    let alive = died_loop current result prev in if not (has_pid p.pid current) then died else alive

unfoldable pub compute_died_children_io : List ProcessInfo → List ProcessInfo → Map DiedChildrenIo
compute_died_children_io current prev = died_loop current [] prev

-- The set is the list of what was put into it.
unfoldable pub find_parent_pids : List ProcessInfo → List ℕ
find_parent_pids processes =
    map (λ (p : ProcessInfo). p.ppid) (keep_if (λ p. has_pid p.ppid processes) processes)

-- The children of a process that died, and the sum of their counters: none where there is no child.
abbrev pub is_died_child : ℕ → List ProcessInfo → ProcessInfo → Bool
is_died_child ppid current p = not (has_pid p.pid current) && p.ppid == ppid

abbrev sum_io : Option DiedChildrenIo → List ProcessInfo → Option DiedChildrenIo
sum_io io [] = io
sum_io io (p ∷ processes) = sum_io (some (add_io p (or_default io))) processes

get-died_loop :
    (current : List ProcessInfo) (result : Map DiedChildrenIo) (prev : List ProcessInfo) (ppid : ℕ)
    → map_get ppid (died_loop current result prev)
      ≡ sum_io (map_get ppid result) (keep_if (is_died_child ppid current) prev)
unfolding died_loop keep_if
get-died_loop current result [] ppid = refl
get-died_loop current result (p ∷ prev) ppid =
    let after = map_insert p.ppid (add_io p (or_default (map_get p.ppid result))) result in
    let here = get-insert p.ppid ppid (add_io p (or_default (map_get p.ppid result))) result in
    elim (Bool-cases (has_pid p.pid current)) [
      | inl alive ↦ rw alive (get-died_loop current result prev ppid)
      | inr died ↦ elim (Bool-cases (p.ppid == ppid)) [
        | inl child ↦
            let same : p.ppid ≡ ppid = ground (arith, child) in
            let found : map_get ppid after ≡ some (add_io p (or_default (map_get ppid result))) =
              here ∙ rw (child, same) refl in
            rw (died, child)
              (get-died_loop current after prev ppid
                ∙ ap (λ o. sum_io o (keep_if (is_died_child ppid current) prev)) found)
        | inr other ↦
            let passed : map_get ppid after ≡ map_get ppid result = here ∙ rw other refl in
            rw (died, other)
              (get-died_loop current after prev ppid
                ∙ ap (λ o. sum_io o (keep_if (is_died_child ppid current) prev)) passed)
      ]
    ]

-- The six totals, each of its own counter, modulo 2^64.
abbrev pub totals : DiedChildrenIo → List ProcessInfo → DiedChildrenIo
totals before children = record {
  rsz = (before.rsz + sum_of (λ (p : ProcessInfo). p.dsk.rsz) children) % 2 ^ 64;
  wsz = (before.wsz + sum_of (λ (p : ProcessInfo). p.dsk.wsz) children) % 2 ^ 64;
  rio = (before.rio + sum_of (λ (p : ProcessInfo). p.dsk.rio) children) % 2 ^ 64;
  wio = (before.wio + sum_of (λ (p : ProcessInfo). p.dsk.wio) children) % 2 ^ 64;
  rchar = (before.rchar + sum_of (λ (p : ProcessInfo). p.dsk.rchar) children) % 2 ^ 64;
  wchar = (before.wchar + sum_of (λ (p : ProcessInfo). p.dsk.wchar) children) % 2 ^ 64;
}

abbrev pub total_io : List ProcessInfo → Option DiedChildrenIo
total_io [] = none
total_io (child ∷ children) = some (totals no_io (child ∷ children))

add_wrapped : (a b c : ℕ) → ((a + b) % 2 ^ 64 + c) % 2 ^ 64 ≡ (a + (b + c)) % 2 ^ 64
add_wrapped a b c = omega arith

add_nothing : (a b : ℕ) → (a + b) % 2 ^ 64 ≡ (a + (b + 0)) % 2 ^ 64
add_nothing a b = omega arith

totals-add_io :
    (before : DiedChildrenIo) (child : ProcessInfo) (children : List ProcessInfo)
    → totals (add_io child before) children ≡ totals before (child ∷ children)
unfolding add_io sum_of
totals-add_io before child children =
    rw
      (
        add_wrapped before.rsz child.dsk.rsz (sum_of (λ (p : ProcessInfo). p.dsk.rsz) children),
        add_wrapped before.wsz child.dsk.wsz (sum_of (λ (p : ProcessInfo). p.dsk.wsz) children),
        add_wrapped before.rio child.dsk.rio (sum_of (λ (p : ProcessInfo). p.dsk.rio) children),
        add_wrapped before.wio child.dsk.wio (sum_of (λ (p : ProcessInfo). p.dsk.wio) children),
        add_wrapped before.rchar child.dsk.rchar
            (sum_of (λ (p : ProcessInfo). p.dsk.rchar) children),
        add_wrapped before.wchar child.dsk.wchar
            (sum_of (λ (p : ProcessInfo). p.dsk.wchar) children),
      )
      refl

sum_io-totals :
    (before : DiedChildrenIo) (child : ProcessInfo) (children : List ProcessInfo)
    → sum_io (some before) (child ∷ children) ≡ some (totals before (child ∷ children))
unfolding add_io sum_of
sum_io-totals before child [] = ap some (
    rw
      (
        add_nothing before.rsz child.dsk.rsz,
        add_nothing before.wsz child.dsk.wsz,
        add_nothing before.rio child.dsk.rio,
        add_nothing before.wio child.dsk.wio,
        add_nothing before.rchar child.dsk.rchar,
        add_nothing before.wchar child.dsk.wchar,
      )
      refl)
sum_io-totals before child (next ∷ children) =
    sum_io-totals (add_io child before) next children
    ∙ ap some (totals-add_io before child (next ∷ children))

sum_io-total_io : (children : List ProcessInfo) → sum_io none children ≡ total_io children
sum_io-total_io [] = refl
sum_io-total_io (child ∷ children) = sum_io-totals no_io child children

-- The map has for each process the totals of its children that died, each counter summed for itself
-- modulo 2^64, and no entry where none died.
pub get-compute_died :
    (current prev : List ProcessInfo) (ppid : ℕ)
    → map_get ppid (compute_died_children_io current prev)
      ≡ total_io (keep_if (is_died_child ppid current) prev)
unfolding compute_died_children_io map_get
get-compute_died current prev ppid =
    get-died_loop current [] prev ppid ∙ sum_io-total_io (keep_if (is_died_child ppid current) prev)
