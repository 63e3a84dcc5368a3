-- ===== src/Snapshot.antt =====
-- include/monitor/snapshot.hpp: what a sampler hands to the models, the views and the writers.
-- A std::uint64_t is a number that the code's own arithmetic reduces modulo 2 ^ 64.
use mtop.Base.{ℕ, ◌+◌, ◌%◌, ◌^◌, Bool, List, Bytes}
use mtop.Base.Int.{ℤ}

pub data MemoryPressureLevel : Type 0 where
  unknown normal warn critical : MemoryPressureLevel

pub data MetricAvailability : Type 0 where
  available requires_root unsupported_hardware unsupported_os : MetricAvailability
  permission_denied waiting stale parse_failed unavailable : MetricAvailability

pub record MetricStatus : Type 0 where
  pub availability : MetricAvailability
  pub reason : Bytes
  pub age_ms : ℕ

pub record BatterySnapshot (F : Type 0) : Type 0 where
  pub available : Bool
  pub on_ac_power : Bool
  pub percent : F
  pub description : Bytes

pub record CpuClusterSnapshot (F : Type 0) : Type 0 where
  pub name : Bytes
  pub label : ℕ
  pub core_count : ℤ
  pub utilization_percent : F
  pub frequency_mhz : ℤ
  pub power_watts : F
  pub frequency_available : Bool
  pub power_available : Bool

pub record DiskIoSnapshot : Type 0 where
  pub available : Bool
  pub read_bytes_per_sec : ℕ
  pub write_bytes_per_sec : ℕ
  pub status : MetricStatus

pub record PagingIoSnapshot : Type 0 where
  pub available : Bool
  pub pageins_bytes_per_sec : ℕ
  pub pageouts_bytes_per_sec : ℕ
  pub swapins_bytes_per_sec : ℕ
  pub swapouts_bytes_per_sec : ℕ
  pub status : MetricStatus

pub record NetworkIoSnapshot : Type 0 where
  pub available : Bool
  pub rx_bytes_per_sec : ℕ
  pub tx_bytes_per_sec : ℕ
  pub status : MetricStatus

pub record CpuCoreSnapshot (F : Type 0) : Type 0 where
  pub cpu_id : ℤ
  pub cluster_type : Bytes
  pub label : Bytes
  pub utilization_percent : F

pub record ProcessSnapshot (F : Type 0) : Type 0 where
  pub pid : ℤ
  pub parent_pid : ℤ
  pub name : Bytes
  pub command : Bytes
  pub user : Bytes
  pub cpu_percent : F
  pub memory_percent : F
  pub gpu_percent : F
  pub resident_bytes : ℕ
  pub virtual_bytes : ℕ
  pub total_cpu_time_ns : ℕ
  pub priority : ℤ
  pub nice_value : ℤ
  pub state : ℕ
  pub gpu_active : Bool
  pub core_mix : Bytes
  pub io : Bytes
  pub power : Bytes

pub record CapabilitySnapshot : Type 0 where
  pub gpu_total_available : Bool
  pub gpu_per_process_available : Bool
  pub thermal_available : Bool
  pub ane_available : Bool
  pub root_mode : Bool
  pub gpu_total_status : MetricStatus
  pub gpu_per_process_status : MetricStatus
  pub thermal_status : MetricStatus
  pub ane_status : MetricStatus
  pub root_process_status : MetricStatus

pub record SystemSnapshot (F : Type 0) : Type 0 where
  pub timestamp_unix_ms : ℕ
  pub sample_interval_ms : ℕ
  pub macos_version : Bytes
  pub soc_name : Bytes
  pub cpu_core_count : ℤ
  pub gpu_core_count : ℤ
  pub perf_levels : List Bytes
  pub load_1 : F
  pub load_5 : F
  pub load_15 : F
  pub memory_used_bytes : ℕ
  pub memory_total_bytes : ℕ
  pub memory_wired_bytes : ℕ
  pub memory_speculative_bytes : ℕ
  pub memory_active_bytes : ℕ
  pub memory_purgeable_bytes : ℕ
  pub memory_compressed_bytes : ℕ
  pub memory_inactive_bytes : ℕ
  pub memory_pressure : MemoryPressureLevel
  pub memory_pressure_status : MetricStatus
  pub swap_used_bytes : ℕ
  pub swap_total_bytes : ℕ
  pub swapins_bytes_per_sec : ℕ
  pub swapouts_bytes_per_sec : ℕ
  pub swap_history_bytes : List ℕ
  pub uptime_seconds : ℕ
  pub battery : BatterySnapshot F
  pub capabilities : CapabilitySnapshot
  pub thermal : Bytes
  pub ane : Bytes
  pub gpu_summary : Bytes
  pub gpu_utilization_percent : F
  pub gpu_power_watts : F
  pub system_power_watts : F
  pub gpu_frequency_mhz : ℤ
  pub gpu_memory_used_bytes : ℕ
  pub gpu_memory_total_bytes : ℕ
  pub gpu_active_pids : List ℤ
  pub disk_io : DiskIoSnapshot
  pub paging_io : PagingIoSnapshot
  pub network_io : NetworkIoSnapshot
  pub cpu_cores : List (CpuCoreSnapshot F)
  pub cpu_clusters : List (CpuClusterSnapshot F)
  pub processes : List (ProcessSnapshot F)

-- Addition of two std::uint64_t.
unfoldable pub add_u64 : ℕ → ℕ → ℕ
add_u64 a b = (a + b) % 2 ^ 64
