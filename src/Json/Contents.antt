-- ===== src/Json/Contents.antt =====
-- The document that a snapshot stands for, field by field.
use mtop.Base.{if◌then◌else◌, [], ◌∷◌, str, decimal}
use mtop.Base.Double.{Double}
use mtop.Base.Int.{int_text, pos}
use mtop.Json.Document.{Json, text, atom, arr, obj, Fields, end}
use mtop.Json.Snapshot.{SnapshotJsonOptions}
use mtop.Json.Writer.{bool_text, double_text}
use mtop.Memory.{memory_pressure_label}
use mtop.Snapshot.{SystemSnapshot}
use mtop.View.{view_profile_name}
use mtop.Json.Parts.{
  members, object, items, status_json, pid_json, risk_json, core_json, cluster_json, workload_json,
  process_json,
}

module _ {F : Type 0} ⦃d : Double F⦄ where
  unfoldable pub cpu_json : SystemSnapshot F → Json
  cpu_json s = object (
      (str "per_core_utilization", arr (items core_json s.cpu_cores))
      ∷ (str "cluster_summary", arr (items cluster_json s.cpu_clusters))
      ∷ [])

  unfoldable pub gpu_json : SystemSnapshot F → Json
  gpu_json s = object (
      (str "utilization_percent", atom (double_text s.gpu_utilization_percent))
      ∷ (str "memory_used_bytes", atom (decimal s.gpu_memory_used_bytes))
      ∷ (str "memory_total_bytes", atom (decimal s.gpu_memory_total_bytes))
      ∷ (str "power_watts", atom (double_text s.gpu_power_watts))
      ∷ (str "frequency_mhz", atom (int_text s.gpu_frequency_mhz))
      ∷ (str "active_pids", arr (items pid_json s.gpu_active_pids))
      ∷ (str "status", status_json s.capabilities.gpu_total_status)
      ∷ [])

module _ {F : Type 0} where
  unfoldable pub memory_json : SystemSnapshot F → Json
  memory_json s = object (
      (str "total_bytes", atom (decimal s.memory_total_bytes))
      ∷ (str "used_bytes", atom (decimal s.memory_used_bytes))
      ∷ (str "wired_bytes", atom (decimal s.memory_wired_bytes))
      ∷ (str "active_bytes", atom (decimal s.memory_active_bytes))
      ∷ (str "inactive_bytes", atom (decimal s.memory_inactive_bytes))
      ∷ (str "compressed_bytes", atom (decimal s.memory_compressed_bytes))
      ∷ (str "purgeable_bytes", atom (decimal s.memory_purgeable_bytes))
      ∷ (str "speculative_bytes", atom (decimal s.memory_speculative_bytes))
      ∷ (str "swap_total_bytes", atom (decimal s.swap_total_bytes))
      ∷ (str "swap_used_bytes", atom (decimal s.swap_used_bytes))
      ∷ (str "swapins_bytes_per_sec", atom (decimal s.swapins_bytes_per_sec))
      ∷ (str "swapouts_bytes_per_sec", atom (decimal s.swapouts_bytes_per_sec))
      ∷ (str "pressure_level", text (memory_pressure_label s.memory_pressure))
      ∷ (str "pressure_status", status_json s.memory_pressure_status)
      ∷ [])

  unfoldable pub io_json : SystemSnapshot F → Json
  io_json s = object (
      (
        str "disk",
        object (
            (str "read_bytes_per_sec", atom (decimal s.disk_io.read_bytes_per_sec))
            ∷ (str "write_bytes_per_sec", atom (decimal s.disk_io.write_bytes_per_sec))
            ∷ (str "status", status_json s.disk_io.status)
            ∷ []),
      )
      ∷ (
        str "paging",
        object (
            (str "pageins_bytes_per_sec", atom (decimal s.paging_io.pageins_bytes_per_sec))
            ∷ (str "pageouts_bytes_per_sec", atom (decimal s.paging_io.pageouts_bytes_per_sec))
            ∷ (str "swapins_bytes_per_sec", atom (decimal s.paging_io.swapins_bytes_per_sec))
            ∷ (str "swapouts_bytes_per_sec", atom (decimal s.paging_io.swapouts_bytes_per_sec))
            ∷ (str "status", status_json s.paging_io.status)
            ∷ []),
      )
      ∷ (
        str "network",
        object (
            (str "rx_bytes_per_sec", atom (decimal s.network_io.rx_bytes_per_sec))
            ∷ (str "tx_bytes_per_sec", atom (decimal s.network_io.tx_bytes_per_sec))
            ∷ (str "status", status_json s.network_io.status)
            ∷ []),
      )
      ∷ [])

module _ {F : Type 0} ⦃d : Double F⦄ where
  -- the members of a snapshot, in front of those of `rest`
  unfoldable pub base_fields : SystemSnapshot F → Fields → Fields
  base_fields s = members (
      (str "timestamp_unix_ms", atom (decimal s.timestamp_unix_ms))
      ∷ (str "sample_interval_ms", atom (decimal s.sample_interval_ms))
      ∷ (
        str "host",
        object (
            (str "macos_version", text s.macos_version)
            ∷ (str "soc_name", text s.soc_name)
            ∷ (str "cpu_core_count", atom (int_text s.cpu_core_count))
            ∷ (str "gpu_core_count", atom (int_text s.gpu_core_count))
            ∷ (str "memory_total_bytes", atom (decimal s.memory_total_bytes))
            ∷ []),
      )
      ∷ (
        str "capabilities",
        object (
            (str "root_mode", atom (bool_text s.capabilities.root_mode))
            ∷ (str "gpu_total_status", status_json s.capabilities.gpu_total_status)
            ∷ (str "gpu_process_status", status_json s.capabilities.gpu_per_process_status)
            ∷ (str "thermal_status", status_json s.capabilities.thermal_status)
            ∷ (str "ane_status", status_json s.capabilities.ane_status)
            ∷ (str "root_process_status", status_json s.capabilities.root_process_status)
            ∷ []),
      )
      ∷ (str "cpu", cpu_json s)
      ∷ (str "memory", memory_json s)
      ∷ (str "gpu", gpu_json s)
      ∷ (
        str "ane",
        object (
            (str "summary", text s.ane)
            ∷ (str "status", status_json s.capabilities.ane_status)
            ∷ []),
      )
      ∷ (str "io", io_json s)
      ∷ (str "processes", arr (items process_json s.processes))
      ∷ [])

  unfoldable pub snapshot_json : SystemSnapshot F → SnapshotJsonOptions F → Json
  snapshot_json s options =
      if options.include_v2_models
      then obj (
          members
            ((str "schema_version", atom (int_text (pos 2)))
              ∷ (str "view_profile", text (view_profile_name options.view_profile))
              ∷ [])
            (base_fields s (
              members
                ((str "workloads", arr (items workload_json options.workloads))
                  ∷ (str "memory_risk", risk_json options.memory_risk)
                  ∷ [])
                end)))
      else obj (members ((str "schema_version", atom (int_text (pos 1))) ∷ []) (base_fields s end))
