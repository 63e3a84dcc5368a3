-- ===== src/Json/Snapshot.antt =====
-- src/snapshot_json.cpp: the models of schema version 2, and the whole snapshot. `w ▷ f ▷ g` is the sequence of calls f; g on the writer.
use mtop.Base.{Bool, if◌then◌else◌, List, [], ◌∷◌, str, Bytes}
use mtop.Base.Double.{Double, literal}
use mtop.Base.Int.{pos}
use mtop.Json.Writer.{
  JsonWriter, new_writer, ◌▷◌, begin_object, end_object, begin_array, end_array, key, string_value,
  bool_value, uint_value, int_value, double_value,
}
use mtop.Json.Sections.{write_status, write_cpu, write_memory, write_gpu, write_io}
use mtop.Memory.{memory_risk_name, MemoryRiskSnapshot}
use mtop.Snapshot.{ProcessSnapshot, SystemSnapshot}
use mtop.View.{ViewProfile, view_profile_name}
use mtop.Workload.{
  WorkloadSnapshot, WorkloadProcessRef, workload_kind_name, workload_kind_label, workload_role_name,
}

unfoldable pub write_memory_risk : MemoryRiskSnapshot → JsonWriter → JsonWriter
write_memory_risk risk w =
    w
    ▷ key (str "memory_risk")
    ▷ begin_object
    ▷ key (str "level")
    ▷ string_value (memory_risk_name risk.level)
    ▷ key (str "reason")
    ▷ string_value risk.reason
    ▷ key (str "estimated_headroom_bytes")
    ▷ uint_value risk.estimated_headroom_bytes
    ▷ key (str "reclaimable_bytes")
    ▷ uint_value risk.reclaimable_bytes
    ▷ key (str "compressed_bytes")
    ▷ uint_value risk.compressed_bytes
    ▷ key (str "swap_used_bytes")
    ▷ uint_value risk.swap_used_bytes
    ▷ key (str "swap_rate_bytes_per_sec")
    ▷ uint_value risk.swap_rate_bytes_per_sec
    ▷ end_object

module _ (F : Type 0) ⦃d : Double F⦄ where
  unfoldable pub write_ref : WorkloadProcessRef → JsonWriter → JsonWriter
  write_ref process w =
      w
      ▷ begin_object
      ▷ key (str "pid")
      ▷ int_value process.pid
      ▷ key (str "ppid")
      ▷ int_value process.parent_pid
      ▷ key (str "role")
      ▷ string_value (workload_role_name process.role)
      ▷ key (str "detection_confidence")
      ▷ double_value {F = F} (literal process.detection_confidence 100)
      ▷ key (str "command")
      ▷ string_value process.command
      ▷ end_object

  unfoldable pub write_refs : List WorkloadProcessRef → JsonWriter → JsonWriter
  write_refs [] w = w
  write_refs (x ∷ xs) w = write_refs xs (write_ref x w)

module _ {F : Type 0} ⦃d : Double F⦄ where
  unfoldable pub write_workload : WorkloadSnapshot F → JsonWriter → JsonWriter
  write_workload workload w =
      w
      ▷ begin_object
      ▷ key (str "id")
      ▷ string_value workload.id
      ▷ key (str "name")
      ▷ string_value workload.name
      ▷ key (str "kind")
      ▷ string_value (workload_kind_name workload.kind)
      ▷ key (str "kind_label")
      ▷ string_value (workload_kind_label workload.kind)
      ▷ key (str "model_hint")
      ▷ string_value workload.model_hint
      ▷ key (str "cpu_percent")
      ▷ double_value workload.cpu_percent
      ▷ key (str "memory_percent")
      ▷ double_value workload.memory_percent
      ▷ key (str "resident_bytes")
      ▷ uint_value workload.resident_bytes
      ▷ key (str "virtual_bytes")
      ▷ uint_value workload.virtual_bytes
      ▷ key (str "gpu_active")
      ▷ bool_value workload.gpu_active
      ▷ key (str "core_mix")
      ▷ string_value workload.core_mix
      ▷ key (str "io")
      ▷ string_value workload.io
      ▷ key (str "power")
      ▷ string_value workload.power
      ▷ key (str "detection_status")
      ▷ write_status workload.detection_status
      ▷ key (str "processes")
      ▷ begin_array
      ▷ write_refs F workload.processes
      ▷ end_array
      ▷ end_object

  unfoldable pub write_workload_list : List (WorkloadSnapshot F) → JsonWriter → JsonWriter
  write_workload_list [] w = w
  write_workload_list (x ∷ xs) w = write_workload_list xs (write_workload x w)

  unfoldable pub write_workloads : List (WorkloadSnapshot F) → JsonWriter → JsonWriter
  write_workloads workloads w =
      w ▷ key (str "workloads") ▷ begin_array ▷ write_workload_list workloads ▷ end_array

  unfoldable pub write_process : ProcessSnapshot F → JsonWriter → JsonWriter
  write_process process w =
      w
      ▷ begin_object
      ▷ key (str "pid")
      ▷ int_value process.pid
      ▷ key (str "ppid")
      ▷ int_value process.parent_pid
      ▷ key (str "name")
      ▷ string_value process.name
      ▷ key (str "command")
      ▷ string_value process.command
      ▷ key (str "user")
      ▷ string_value process.user
      ▷ key (str "state")
      ▷ string_value (process.state ∷ [])
      ▷ key (str "cpu_percent")
      ▷ double_value process.cpu_percent
      ▷ key (str "memory_percent")
      ▷ double_value process.memory_percent
      ▷ key (str "resident_bytes")
      ▷ uint_value process.resident_bytes
      ▷ key (str "virtual_bytes")
      ▷ uint_value process.virtual_bytes
      ▷ key (str "gpu_active")
      ▷ bool_value process.gpu_active
      ▷ key (str "core_mix")
      ▷ string_value process.core_mix
      ▷ key (str "io")
      ▷ string_value process.io
      ▷ key (str "power")
      ▷ string_value process.power
      ▷ end_object

  unfoldable pub write_processes : List (ProcessSnapshot F) → JsonWriter → JsonWriter
  write_processes [] w = w
  write_processes (x ∷ xs) w = write_processes xs (write_process x w)

pub record SnapshotJsonOptions (F : Type 0) : Type 0 where
  pub view_profile : ViewProfile
  pub include_v2_models : Bool
  pub workloads : List (WorkloadSnapshot F)
  pub memory_risk : MemoryRiskSnapshot

module _ {F : Type 0} ⦃d : Double F⦄ where
  -- the members in front of the version 2 models
  unfoldable pub write_base : SystemSnapshot F → JsonWriter → JsonWriter
  write_base s w =
      w
      ▷ key (str "timestamp_unix_ms")
      ▷ uint_value s.timestamp_unix_ms
      ▷ key (str "sample_interval_ms")
      ▷ uint_value s.sample_interval_ms
      ▷ key (str "host")
      ▷ begin_object
      ▷ key (str "macos_version")
      ▷ string_value s.macos_version
      ▷ key (str "soc_name")
      ▷ string_value s.soc_name
      ▷ key (str "cpu_core_count")
      ▷ int_value s.cpu_core_count
      ▷ key (str "gpu_core_count")
      ▷ int_value s.gpu_core_count
      ▷ key (str "memory_total_bytes")
      ▷ uint_value s.memory_total_bytes
      ▷ end_object
      ▷ key (str "capabilities")
      ▷ begin_object
      ▷ key (str "root_mode")
      ▷ bool_value s.capabilities.root_mode
      ▷ key (str "gpu_total_status")
      ▷ write_status s.capabilities.gpu_total_status
      ▷ key (str "gpu_process_status")
      ▷ write_status s.capabilities.gpu_per_process_status
      ▷ key (str "thermal_status")
      ▷ write_status s.capabilities.thermal_status
      ▷ key (str "ane_status")
      ▷ write_status s.capabilities.ane_status
      ▷ key (str "root_process_status")
      ▷ write_status s.capabilities.root_process_status
      ▷ end_object
      ▷ write_cpu s
      ▷ write_memory s
      ▷ write_gpu s
      ▷ key (str "ane")
      ▷ begin_object
      ▷ key (str "summary")
      ▷ string_value s.ane
      ▷ key (str "status")
      ▷ write_status s.capabilities.ane_status
      ▷ end_object
      ▷ write_io s
      ▷ key (str "processes")
      ▷ begin_array
      ▷ write_processes s.processes
      ▷ end_array

  unfoldable pub snapshot_to_json : SystemSnapshot F → SnapshotJsonOptions F → Bytes
  snapshot_to_json s options =
      let opened = new_writer ▷ begin_object ▷ key (str "schema_version") in
      let body =
        if options.include_v2_models
        then opened
          ▷ int_value (pos 2)
          ▷ key (str "view_profile")
          ▷ string_value (view_profile_name options.view_profile)
          ▷ write_base s
          ▷ write_workloads options.workloads
          ▷ write_memory_risk options.memory_risk
        else opened ▷ int_value (pos 1) ▷ write_base s in
      (body ▷ end_object).out
