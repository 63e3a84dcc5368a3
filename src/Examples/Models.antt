-- ===== src/Examples/Models.antt =====
-- The theorems on workloads and on memory at the sample machine.
use mathlib.Core.List.{Perm}
use mtop.Base.{◌≡◌, ◌≤◌, ◌*◌, ◌/◌, ◌^◌, ◌↔◌, ◌⊎◌, ◌<◌, ◌≢◌, arith, true, false, map, lowercase}
use mtop.Examples.Fixtures.{whole_double, whole_ordered, machine, mlx_process, shell_process}
use mtop.Memory.{derive_memory_pressure, severe_compression, moderate_compression}
use mtop.Memory.Pressure.{derive_memory_pressure_levels}
use mtop.Memory.Risk.{Fits}
use mtop.Snapshot.{MemoryPressureLevel}
use mtop.Workload.AiOrder.{ai_pid, build_ai_process_rows-workloads}
use mtop.Workload.AiRows.{build_ai_process_rows}
use mtop.Workload.Build.{ref_of, build_workloads}
use mtop.Workload.Case.{Agrees, detect_workload_process-lowercase}
use mtop.Workload.Conservation.{collect, build_workloads-perm}
use mtop.Workload.Detector.{detect_workload_process}
use mtop.Workload.Grouping.{detect_all}
use mtop.Workload.Rules.{IsVerdict, detect_workload_process-IsVerdict}
use mtop.Workload.Totals.{total, build_workloads-total}

build_workloads-perm_example :
    Perm
      (collect (λ w. w.processes) (build_workloads machine))
      (map ref_of (detect_all machine.processes))
build_workloads-perm_example = build_workloads-perm machine

build_ai_process_rows-workloads_example :
    Perm
      (collect ai_pid (build_ai_process_rows machine))
      (map (λ r. r.pid) (collect (λ w. w.processes) (build_workloads machine)))
build_ai_process_rows-workloads_example = build_ai_process_rows-workloads machine

build_workloads-total_example :
    total (λ w. w.resident_bytes) (build_workloads machine)
    ≡ total (λ item. item.process.resident_bytes) (detect_all machine.processes)
build_workloads-total_example = build_workloads-total machine

detect_workload_process-IsVerdict_example : IsVerdict (detect_workload_process mlx_process)
detect_workload_process-IsVerdict_example = detect_workload_process-IsVerdict mlx_process

detect_workload_process-lowercase_example :
    Agrees
      (detect_workload_process (record shell_process {
        name = lowercase shell_process.name;
        command = lowercase shell_process.command;
      }))
      (detect_workload_process shell_process)
detect_workload_process-lowercase_example = detect_workload_process-lowercase shell_process

machine-Fits : Fits machine
machine-Fits = record {
  total_fits = omega arith;
  used_fits = omega arith;
  reclaimable_fits = omega arith;
}

derive_memory_pressure_levels_example :
    ((derive_memory_pressure machine ≡ MemoryPressureLevel.unknown)
      ↔ (machine.memory_total_bytes ≡ 0))
    × ((derive_memory_pressure machine ≡ MemoryPressureLevel.critical) ↔ (
        (machine.memory_total_bytes ≢ 0)
        × (((2 * 2 ^ 30 ≤ machine.swap_used_bytes)
              × (machine.memory_total_bytes / 20 ≤ machine.swap_used_bytes))
            ⊎ (severe_compression machine ≡ true))))
    × ((derive_memory_pressure machine ≡ MemoryPressureLevel.normal) ↔ (
        (machine.memory_total_bytes ≢ 0)
        × ((machine.swap_used_bytes < 512 * 2 ^ 20)
            ⊎ (machine.swap_used_bytes < machine.memory_total_bytes / 100))
        × (severe_compression machine ≡ false)
        × (moderate_compression machine ≡ false)))
derive_memory_pressure_levels_example = derive_memory_pressure_levels machine
