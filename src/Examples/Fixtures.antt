-- ===== src/Examples/Fixtures.antt =====
-- The numbers, the processes and the snapshot that the examples use.
use mtop.Base.{
  ℕ, ◌+◌, ◌-◌, ◌*◌, ◌/◌, ◌==◌, ◌^◌, refl, true, false, ltb, leb, [], ◌∷◌, Bytes, str, decimal,
}
use mtop.Base.Double.{Double, Ordered}
use mtop.Base.Int.{pos}
use mtop.Base.Orders.{nat_order}
use mtop.Config.{read_digits, skip_space}
use mtop.Snapshot.{ProcessSnapshot, SystemSnapshot, MetricStatus, MemoryPressureLevel, unavailable}

-- Whole numbers, with a number past all others for the infinity.
instance abbrev pub whole_double : Double ℕ
whole_double = record {
  lt = ltb;
  le = leb;
  eq = ◌==◌;
  is_nan = λ x. false;
  is_finite = λ x. ltb x (10 ^ 30);
  infinity = 10 ^ 30;
  negative_infinity = 0;
  add = ◌+◌;
  sub = ◌-◌;
  mul = ◌*◌;
  div = ◌/◌;
  of_nat = λ n. n;
  abs = λ n. n;
  round_int = pos;
  fixed = λ places x. decimal x;
  strtod = λ s. read_digits 0 (skip_space s);
}

instance abbrev pub whole_ordered : Ordered ℕ
whole_ordered = record {
  order = record {
    irrefl = λ a _. nat_order.irrefl a tt;
    trans = λ a b c _ _ _. nat_order.trans a b c tt tt tt;
    cotrans = λ a b c _ _ _. nat_order.cotrans a b c tt tt tt;
    eq_of_not_lt = λ a b _ _. nat_order.eq_of_not_lt a b tt tt;
    not_lt_of_eq = λ a b _ _. nat_order.not_lt_of_eq a b tt tt;
  };
  finite_not_nan = λ x _. refl;
  infinity_not_nan = refl;
  negative_infinity_not_nan = refl;
}

abbrev pub process : ℕ → ℕ → Bytes → Bytes → ℕ → ℕ → ProcessSnapshot ℕ
process pid parent name command cpu resident = record {
  pid = pos pid;
  parent_pid = pos parent;
  name = name;
  command = command;
  user = str "ann";
  cpu_percent = cpu;
  memory_percent = 1;
  gpu_percent = 0;
  resident_bytes = resident;
  virtual_bytes = resident;
  total_cpu_time_ns = cpu * 1000;
  priority = pos 31;
  nice_value = pos 0;
  state = b'R';
  gpu_active = false;
  core_mix = str "-";
  io = str "-";
  power = str "-";
}

abbrev pub ollama_process : ProcessSnapshot ℕ
ollama_process = process 10 1 (str "ollama") (str "ollama serve") 5 4096

abbrev pub mlx_process : ProcessSnapshot ℕ
mlx_process = process 20 1 (str "mlx_lm") (str "mlx_lm.server --model phi") 7 8192

abbrev pub shell_process : ProcessSnapshot ℕ
shell_process = process 30 1 (str "Zsh") (str "-Zsh") 9 512

abbrev pub unknown_status : MetricStatus
unknown_status = record { availability = unavailable; reason = []; age_ms = 0 }

abbrev pub machine : SystemSnapshot ℕ
machine = record {
  timestamp_unix_ms = 1000;
  sample_interval_ms = 500;
  macos_version = str "15.1";
  soc_name = str "Apple M3";
  cpu_core_count = pos 8;
  gpu_core_count = pos 10;
  perf_levels = [];
  load_1 = 1;
  load_5 = 2;
  load_15 = 3;
  memory_used_bytes = 60000;
  memory_total_bytes = 100000;
  memory_wired_bytes = 10000;
  memory_speculative_bytes = 1000;
  memory_active_bytes = 30000;
  memory_purgeable_bytes = 1000;
  memory_compressed_bytes = 20000;
  memory_inactive_bytes = 5000;
  memory_pressure = MemoryPressureLevel.normal;
  memory_pressure_status = unknown_status;
  swap_used_bytes = 100;
  swap_total_bytes = 200;
  swapins_bytes_per_sec = 0;
  swapouts_bytes_per_sec = 0;
  swap_history_bytes = [];
  uptime_seconds = 3600;
  battery = record { available = false; on_ac_power = true; percent = 0; description = [] };
  capabilities = record {
    gpu_total_available = false;
    gpu_per_process_available = false;
    thermal_available = false;
    ane_available = false;
    root_mode = false;
    gpu_total_status = unknown_status;
    gpu_per_process_status = unknown_status;
    thermal_status = unknown_status;
    ane_status = unknown_status;
    root_process_status = unknown_status;
  };
  thermal = str "n/a";
  ane = str "n/a";
  gpu_summary = str "idle";
  gpu_utilization_percent = 0;
  gpu_power_watts = 0;
  system_power_watts = 0;
  gpu_frequency_mhz = pos 0;
  gpu_memory_used_bytes = 0;
  gpu_memory_total_bytes = 0;
  gpu_active_pids = [];
  disk_io = record {
    available = false;
    read_bytes_per_sec = 0;
    write_bytes_per_sec = 0;
    status = unknown_status;
  };
  paging_io = record {
    available = false;
    pageins_bytes_per_sec = 0;
    pageouts_bytes_per_sec = 0;
    swapins_bytes_per_sec = 0;
    swapouts_bytes_per_sec = 0;
    status = unknown_status;
  };
  network_io = record {
    available = false;
    rx_bytes_per_sec = 0;
    tx_bytes_per_sec = 0;
    status = unknown_status;
  };
  cpu_cores = [];
  cpu_clusters = [];
  processes = ollama_process ∷ mlx_process ∷ shell_process ∷ [];
}
