-- ===== src/Model/System.antt =====
-- crates/rpglot-core/src/storage/model/system.rs: system-wide counters.
use rpglot.Prelude.{ℕ, String}
use rpglot.Prelude.Int.{ℤ}
use rpglot.Prelude.Float.{F32}

pub record SystemCpuInfo : Type 0 where
  pub cpu_id : ℤ
  pub user : ℕ
  pub nice : ℕ
  pub system : ℕ
  pub idle : ℕ
  pub iowait : ℕ
  pub irq : ℕ
  pub softirq : ℕ
  pub steal : ℕ
  pub guest : ℕ
  pub guest_nice : ℕ

pub record SystemLoadInfo : Type 0 where
  pub lavg1 : F32
  pub lavg5 : F32
  pub lavg15 : F32
  pub nr_running : ℕ
  pub nr_threads : ℕ

pub record SystemMemInfo : Type 0 where
  pub total : ℕ
  pub free : ℕ
  pub available : ℕ
  pub buffers : ℕ
  pub cached : ℕ
  pub slab : ℕ
  pub sreclaimable : ℕ
  pub sunreclaim : ℕ
  pub swap_total : ℕ
  pub swap_free : ℕ
  pub dirty : ℕ
  pub writeback : ℕ

pub record SystemNetInfo : Type 0 where
  pub name : String
  pub name_hash : ℕ
  pub rx_bytes : ℕ
  pub rx_packets : ℕ
  pub rx_errs : ℕ
  pub rx_drop : ℕ
  pub tx_bytes : ℕ
  pub tx_packets : ℕ
  pub tx_errs : ℕ
  pub tx_drop : ℕ

pub record SystemDiskInfo : Type 0 where
  pub device_name : String
  pub device_hash : ℕ
  pub major : ℕ
  pub minor : ℕ
  pub rio : ℕ
  pub r_merged : ℕ
  pub rsz : ℕ
  pub read_time : ℕ
  pub wio : ℕ
  pub w_merged : ℕ
  pub wsz : ℕ
  pub write_time : ℕ
  pub io_in_progress : ℕ
  pub io_ms : ℕ
  pub qusz : ℕ

pub record SystemPsiInfo : Type 0 where
  pub resource : ℕ
  pub some_avg10 : F32
  pub some_avg60 : F32
  pub some_avg300 : F32
  pub some_total : ℕ
  pub full_avg10 : F32
  pub full_avg60 : F32
  pub full_avg300 : F32
  pub full_total : ℕ

pub record SystemVmstatInfo : Type 0 where
  pub pgfault : ℕ
  pub pgmajfault : ℕ
  pub pgpgin : ℕ
  pub pgpgout : ℕ
  pub pswpin : ℕ
  pub pswpout : ℕ
  pub pgsteal_kswapd : ℕ
  pub pgsteal_direct : ℕ
  pub pgscan_kswapd : ℕ
  pub pgscan_direct : ℕ
  pub oom_kill : ℕ

pub record SystemFileInfo : Type 0 where
  pub nr_file : ℕ
  pub nr_free_file : ℕ
  pub max_file : ℕ
  pub nr_inode : ℕ
  pub nr_free_inode : ℕ

pub record SystemInterruptInfo : Type 0 where
  pub irq_hash : ℕ
  pub count : ℕ

pub record SystemSoftirqInfo : Type 0 where
  pub name_hash : ℕ
  pub count : ℕ

pub record SystemStatInfo : Type 0 where
  pub ctxt : ℕ
  pub processes : ℕ
  pub procs_running : ℕ
  pub procs_blocked : ℕ
  pub btime : ℕ

pub record SystemNetSnmpInfo : Type 0 where
  pub tcp_active_opens : ℕ
  pub tcp_passive_opens : ℕ
  pub tcp_attempt_fails : ℕ
  pub tcp_estab_resets : ℕ
  pub tcp_curr_estab : ℕ
  pub tcp_in_segs : ℕ
  pub tcp_out_segs : ℕ
  pub tcp_retrans_segs : ℕ
  pub tcp_in_errs : ℕ
  pub tcp_out_rsts : ℕ
  pub udp_in_datagrams : ℕ
  pub udp_out_datagrams : ℕ
  pub udp_in_errors : ℕ
  pub udp_no_ports : ℕ
  pub listen_overflows : ℕ
  pub listen_drops : ℕ
  pub tcp_timeouts : ℕ
  pub tcp_fast_retrans : ℕ
  pub tcp_slow_start_retrans : ℕ
  pub tcp_ofo_queue : ℕ
  pub tcp_syn_retrans : ℕ
