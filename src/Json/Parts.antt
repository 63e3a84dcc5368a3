-- ===== src/Json/Parts.antt =====
-- The documents of a snapshot's parts: statuses, cores, clusters, processes, workloads.
use mtop.Base.{List, [], ◌∷◌, str, Bytes, decimal}
use mtop.Base.Double.{Double, literal}
use mtop.Base.Int.{int_text, ℤ}
use mtop.Json.Document.{Json, text, atom, arr, obj, Items, nil, cons, Fields, end, field}
use mtop.Json.Writer.{bool_text, double_text}
use mtop.Memory.{memory_risk_name, MemoryRiskSnapshot}
use mtop.Snapshot.{MetricStatus, CpuCoreSnapshot, CpuClusterSnapshot, ProcessSnapshot}
use mtop.View.{metric_availability_label}
use mtop.Workload.{
  WorkloadSnapshot, WorkloadProcessRef, workload_kind_name, workload_kind_label, workload_role_name,
}

-- members in front of others
abbrev pub members : List (Bytes × Json) → Fields → Fields
members [] rest = rest
members ((k, v) ∷ kvs) rest = field k v (members kvs rest)

abbrev pub object : List (Bytes × Json) → Json
object kvs = obj (members kvs end)

unfoldable pub items : {A : Type 0} → (A → Json) → List A → Items
items f [] = nil
items f (x ∷ xs) = cons (f x) (items f xs)

unfoldable pub status_json : MetricStatus → Json
status_json status = object (
    (str "availability", text (metric_availability_label status.availability))
    ∷ (str "reason", text status.reason)
    ∷ (str "age_ms", atom (decimal status.age_ms))
    ∷ [])

unfoldable pub pid_json : ℤ → Json
pid_json pid = atom (int_text pid)

unfoldable pub risk_json : MemoryRiskSnapshot → Json
risk_json risk = object (
    (str "level", text (memory_risk_name risk.level))
    ∷ (str "reason", text risk.reason)
    ∷ (str "estimated_headroom_bytes", atom (decimal risk.estimated_headroom_bytes))
    ∷ (str "reclaimable_bytes", atom (decimal risk.reclaimable_bytes))
    ∷ (str "compressed_bytes", atom (decimal risk.compressed_bytes))
    ∷ (str "swap_used_bytes", atom (decimal risk.swap_used_bytes))
    ∷ (str "swap_rate_bytes_per_sec", atom (decimal risk.swap_rate_bytes_per_sec))
    ∷ [])

module _ (F : Type 0) ⦃d : Double F⦄ where
  unfoldable pub ref_json : WorkloadProcessRef → Json
  ref_json process = object (
      (str "pid", atom (int_text process.pid))
      ∷ (str "ppid", atom (int_text process.parent_pid))
      ∷ (str "role", text (workload_role_name process.role))
      ∷ (
        str "detection_confidence",
        atom (double_text {F = F} (literal process.detection_confidence 100)),
      )
      ∷ (str "command", text process.command)
      ∷ [])

module _ {F : Type 0} ⦃d : Double F⦄ where
  unfoldable pub core_json : CpuCoreSnapshot F → Json
  core_json core = object (
      (str "cpu_id", atom (int_text core.cpu_id))
      ∷ (str "cluster_type", text core.cluster_type)
      ∷ (str "label", text core.label)
      ∷ (str "utilization_percent", atom (double_text core.utilization_percent))
      ∷ [])

  unfoldable pub cluster_json : CpuClusterSnapshot F → Json
  cluster_json cluster = object (
      (str "name", text cluster.name)
      ∷ (str "label", text (cluster.label ∷ []))
      ∷ (str "core_count", atom (int_text cluster.core_count))
      ∷ (str "utilization_percent", atom (double_text cluster.utilization_percent))
      ∷ (str "frequency_mhz", atom (int_text cluster.frequency_mhz))
      ∷ (str "frequency_available", atom (bool_text cluster.frequency_available))
      ∷ (str "power_watts", atom (double_text cluster.power_watts))
      ∷ (str "power_available", atom (bool_text cluster.power_available))
      ∷ [])

  unfoldable pub workload_json : WorkloadSnapshot F → Json
  workload_json workload = object (
      (str "id", text workload.id)
      ∷ (str "name", text workload.name)
      ∷ (str "kind", text (workload_kind_name workload.kind))
      ∷ (str "kind_label", text (workload_kind_label workload.kind))
      ∷ (str "model_hint", text workload.model_hint)
      ∷ (str "cpu_percent", atom (double_text workload.cpu_percent))
      ∷ (str "memory_percent", atom (double_text workload.memory_percent))
      ∷ (str "resident_bytes", atom (decimal workload.resident_bytes))
      ∷ (str "virtual_bytes", atom (decimal workload.virtual_bytes))
      ∷ (str "gpu_active", atom (bool_text workload.gpu_active))
      ∷ (str "core_mix", text workload.core_mix)
      ∷ (str "io", text workload.io)
      ∷ (str "power", text workload.power)
      ∷ (str "detection_status", status_json workload.detection_status)
      ∷ (str "processes", arr (items (ref_json F) workload.processes))
      ∷ [])

  unfoldable pub process_json : ProcessSnapshot F → Json
  process_json process = object (
      (str "pid", atom (int_text process.pid))
      ∷ (str "ppid", atom (int_text process.parent_pid))
      ∷ (str "name", text process.name)
      ∷ (str "command", text process.command)
      ∷ (str "user", text process.user)
      ∷ (str "state", text (process.state ∷ []))
      ∷ (str "cpu_percent", atom (double_text process.cpu_percent))
      ∷ (str "memory_percent", atom (double_text process.memory_percent))
      ∷ (str "resident_bytes", atom (decimal process.resident_bytes))
      ∷ (str "virtual_bytes", atom (decimal process.virtual_bytes))
      ∷ (str "gpu_active", atom (bool_text process.gpu_active))
      ∷ (str "core_mix", text process.core_mix)
      ∷ (str "io", text process.io)
      ∷ (str "power", text process.power)
      ∷ [])
