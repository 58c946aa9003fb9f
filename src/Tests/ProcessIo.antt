-- ===== src/Tests/ProcessIo.antt =====
-- A child that died, and one that lives.
use rpglot.Prelude.{ℕ, List, [], ◌∷◌, ◌≡◌}
use rpglot.Prelude.Int.{pos}
use rpglot.Prelude.Maps.{map_get}
use rpglot.Prelude.Sort.{keep_if}
use rpglot.Model.Process.{ProcessInfo}
use rpglot.Util.ProcessIo.{is_died_child, total_io, compute_died_children_io, get-compute_died}

abbrev process : ℕ → ℕ → ℕ → ProcessInfo
process pid ppid bytes = record {
  pid = pid;
  ppid = ppid;
  uid = 0;
  euid = 0;
  gid = 0;
  egid = 0;
  tty = 0;
  state = "S";
  num_threads = 1;
  exit_signal = pos 17;
  btime = 0;
  name_hash = 0;
  cmdline_hash = 0;
  mem = record {
    minflt = 0;
    majflt = 0;
    vexec = 0;
    vmem = 0;
    rmem = 0;
    pmem = 0;
    vdata = 0;
    vstack = 0;
    vlibs = 0;
    vswap = 0;
    vlock = 0;
  };
  cpu = record {
    utime = 0;
    stime = 0;
    nice = pos 0;
    prio = pos 0;
    rtprio = pos 0;
    policy = pos 0;
    curcpu = pos 0;
    wchan_hash = 0;
    rundelay = 0;
    blkdelay = 0;
    nvcsw = 0;
    nivcsw = 0;
  };
  dsk = record { rio = 0; rsz = bytes; rchar = 0; wio = 0; wchar = 0; wsz = 0; cwsz = 0 };
}

abbrev two_left : List ProcessInfo
two_left = process 1 0 10 ∷ process 3 1 30 ∷ []

abbrev four_before : List ProcessInfo
four_before = process 1 0 5 ∷ process 2 1 20 ∷ process 3 1 30 ∷ process 4 1 40 ∷ []

get-compute_died_example :
    map_get 1 (compute_died_children_io two_left four_before)
    ≡ total_io (keep_if (is_died_child 1 two_left) four_before)
get-compute_died_example = get-compute_died two_left four_before 1
