-- ===== src/Json/Sections.antt =====
-- src/snapshot_json.cpp: the sections of a snapshot. `w ▷ f ▷ g` is the sequence of calls f; g on the writer.
use mtop.Base.{List, [], ◌∷◌, str}
use mtop.Base.Double.{Double}
use mtop.Base.Int.{ℤ}
use mtop.Json.Writer.{
  JsonWriter, ◌▷◌, begin_object, end_object, begin_array, end_array, key, string_value, bool_value,
  uint_value, int_value, double_value,
}
use mtop.Memory.{memory_pressure_label}
use mtop.Snapshot.{MetricStatus, CpuCoreSnapshot, CpuClusterSnapshot, SystemSnapshot}
use mtop.View.{metric_availability_label}

unfoldable pub write_status : MetricStatus → JsonWriter → JsonWriter
write_status status w =
    w
    ▷ begin_object
    ▷ key (str "availability")
    ▷ string_value (metric_availability_label status.availability)
    ▷ key (str "reason")
    ▷ string_value status.reason
    ▷ key (str "age_ms")
    ▷ uint_value status.age_ms
    ▷ end_object

unfoldable pub write_pids : List ℤ → JsonWriter → JsonWriter
write_pids [] w = w
write_pids (pid ∷ pids) w = write_pids pids (int_value pid w)

module _ {F : Type 0} ⦃d : Double F⦄ where
  unfoldable pub write_core : CpuCoreSnapshot F → JsonWriter → JsonWriter
  write_core core w =
      w
      ▷ begin_object
      ▷ key (str "cpu_id")
      ▷ int_value core.cpu_id
      ▷ key (str "cluster_type")
      ▷ string_value core.cluster_type
      ▷ key (str "label")
      ▷ string_value core.label
      ▷ key (str "utilization_percent")
      ▷ double_value core.utilization_percent
      ▷ end_object

  unfoldable pub write_cores : List (CpuCoreSnapshot F) → JsonWriter → JsonWriter
  write_cores [] w = w
  write_cores (x ∷ xs) w = write_cores xs (write_core x w)

  unfoldable pub write_cluster : CpuClusterSnapshot F → JsonWriter → JsonWriter
  write_cluster cluster w =
      w
      ▷ begin_object
      ▷ key (str "name")
      ▷ string_value cluster.name
      ▷ key (str "label")
      ▷ string_value (cluster.label ∷ [])
      ▷ key (str "core_count")
      ▷ int_value cluster.core_count
      ▷ key (str "utilization_percent")
      ▷ double_value cluster.utilization_percent
      ▷ key (str "frequency_mhz")
      ▷ int_value cluster.frequency_mhz
      ▷ key (str "frequency_available")
      ▷ bool_value cluster.frequency_available
      ▷ key (str "power_watts")
      ▷ double_value cluster.power_watts
      ▷ key (str "power_available")
      ▷ bool_value cluster.power_available
      ▷ end_object

  unfoldable pub write_clusters : List (CpuClusterSnapshot F) → JsonWriter → JsonWriter
  write_clusters [] w = w
  write_clusters (x ∷ xs) w = write_clusters xs (write_cluster x w)

  unfoldable pub write_cpu : SystemSnapshot F → JsonWriter → JsonWriter
  write_cpu s w =
      w
      ▷ key (str "cpu")
      ▷ begin_object
      ▷ key (str "per_core_utilization")
      ▷ begin_array
      ▷ write_cores s.cpu_cores
      ▷ end_array
      ▷ key (str "cluster_summary")
      ▷ begin_array
      ▷ write_clusters s.cpu_clusters
      ▷ end_array
      ▷ end_object

  unfoldable pub write_gpu : SystemSnapshot F → JsonWriter → JsonWriter
  write_gpu s w =
      w
      ▷ key (str "gpu")
      ▷ begin_object
      ▷ key (str "utilization_percent")
      ▷ double_value s.gpu_utilization_percent
      ▷ key (str "memory_used_bytes")
      ▷ uint_value s.gpu_memory_used_bytes
      ▷ key (str "memory_total_bytes")
      ▷ uint_value s.gpu_memory_total_bytes
      ▷ key (str "power_watts")
      ▷ double_value s.gpu_power_watts
      ▷ key (str "frequency_mhz")
      ▷ int_value s.gpu_frequency_mhz
      ▷ key (str "active_pids")
      ▷ begin_array
      ▷ write_pids s.gpu_active_pids
      ▷ end_array
      ▷ key (str "status")
      ▷ write_status s.capabilities.gpu_total_status
      ▷ end_object

module _ {F : Type 0} where
  unfoldable pub write_memory : SystemSnapshot F → JsonWriter → JsonWriter
  write_memory s w =
      w
      ▷ key (str "memory")
      ▷ begin_object
      ▷ key (str "total_bytes")
      ▷ uint_value s.memory_total_bytes
      ▷ key (str "used_bytes")
      ▷ uint_value s.memory_used_bytes
      ▷ key (str "wired_bytes")
      ▷ uint_value s.memory_wired_bytes
      ▷ key (str "active_bytes")
      ▷ uint_value s.memory_active_bytes
      ▷ key (str "inactive_bytes")
      ▷ uint_value s.memory_inactive_bytes
      ▷ key (str "compressed_bytes")
      ▷ uint_value s.memory_compressed_bytes
      ▷ key (str "purgeable_bytes")
      ▷ uint_value s.memory_purgeable_bytes
      ▷ key (str "speculative_bytes")
      ▷ uint_value s.memory_speculative_bytes
      ▷ key (str "swap_total_bytes")
      ▷ uint_value s.swap_total_bytes
      ▷ key (str "swap_used_bytes")
      ▷ uint_value s.swap_used_bytes
      ▷ key (str "swapins_bytes_per_sec")
      ▷ uint_value s.swapins_bytes_per_sec
      ▷ key (str "swapouts_bytes_per_sec")
      ▷ uint_value s.swapouts_bytes_per_sec
      ▷ key (str "pressure_level")
      ▷ string_value (memory_pressure_label s.memory_pressure)
      ▷ key (str "pressure_status")
      ▷ write_status s.memory_pressure_status
      ▷ end_object

  unfoldable pub write_io : SystemSnapshot F → JsonWriter → JsonWriter
  write_io s w =
      w
      ▷ key (str "io")
      ▷ begin_object
      ▷ key (str "disk")
      ▷ begin_object
      ▷ key (str "read_bytes_per_sec")
      ▷ uint_value s.disk_io.read_bytes_per_sec
      ▷ key (str "write_bytes_per_sec")
      ▷ uint_value s.disk_io.write_bytes_per_sec
      ▷ key (str "status")
      ▷ write_status s.disk_io.status
      ▷ end_object
      ▷ key (str "paging")
      ▷ begin_object
      ▷ key (str "pageins_bytes_per_sec")
      ▷ uint_value s.paging_io.pageins_bytes_per_sec
      ▷ key (str "pageouts_bytes_per_sec")
      ▷ uint_value s.paging_io.pageouts_bytes_per_sec
      ▷ key (str "swapins_bytes_per_sec")
      ▷ uint_value s.paging_io.swapins_bytes_per_sec
      ▷ key (str "swapouts_bytes_per_sec")
      ▷ uint_value s.paging_io.swapouts_bytes_per_sec
      ▷ key (str "status")
      ▷ write_status s.paging_io.status
      ▷ end_object
      ▷ key (str "network")
      ▷ begin_object
      ▷ key (str "rx_bytes_per_sec")
      ▷ uint_value s.network_io.rx_bytes_per_sec
      ▷ key (str "tx_bytes_per_sec")
      ▷ uint_value s.network_io.tx_bytes_per_sec
      ▷ key (str "status")
      ▷ write_status s.network_io.status
      ▷ end_object
      ▷ end_object
