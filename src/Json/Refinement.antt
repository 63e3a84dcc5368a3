-- ===== src/Json/Refinement.antt =====
-- src/snapshot_json.cpp: the calls that write a snapshot are those that write its document, so the
-- text of a snapshot is the text of the document.
use mtop.Base.{◌≡◌, refl, ap, ◌∙◌, List, [], ◌∷◌, str, Bool-cases, inl, inr}
use mtop.Base.Double.{Double}
use mtop.Base.Int.{ℤ}
use mtop.Json.Contents.{base_fields, snapshot_json, cpu_json, gpu_json, memory_json, io_json}
use mtop.Json.Parts.{
  items, status_json, pid_json, risk_json, ref_json, core_json, cluster_json, workload_json,
  process_json,
}
use mtop.Json.Document.{Fields, render, drive, drive_items, drive_fields, drive-render}
use mtop.Json.Sections.{
  write_status, write_pids, write_core, write_cores, write_cluster, write_clusters, write_cpu,
  write_gpu, write_memory, write_io,
}
use mtop.Json.Snapshot.{
  write_memory_risk, write_ref, write_refs, write_workload, write_workload_list, write_workloads,
  write_process, write_processes, write_base, SnapshotJsonOptions, snapshot_to_json,
}
use mtop.Json.Writer.{
  JsonWriter, new_writer, key, end_object, string_value, bool_value, uint_value, int_value,
  double_value,
}
use mtop.Snapshot.{CpuCoreSnapshot, CpuClusterSnapshot, ProcessSnapshot, SystemSnapshot}
use mtop.Workload.{WorkloadSnapshot, WorkloadProcessRef}

write_pids-drive :
    (pids : List ℤ) (w : JsonWriter) → write_pids pids w ≡ drive_items (items pid_json pids) w
unfolding write_pids drive items pid_json int_value
write_pids-drive [] w = refl
write_pids-drive (p ∷ pids) w = write_pids-drive pids (int_value p w)

module _ (F : Type 0) ⦃d : Double F⦄ where
  write_refs-drive :
      (refs : List WorkloadProcessRef) (w : JsonWriter)
      → write_refs F refs w ≡ drive_items (items (ref_json F) refs) w
  unfolding write_refs write_ref drive items ref_json int_value string_value double_value
  write_refs-drive [] w = refl
  write_refs-drive (r ∷ refs) w = write_refs-drive refs (write_ref F r w)

module _ {F : Type 0} ⦃d : Double F⦄ where
  write_cores-drive :
      (cores : List (CpuCoreSnapshot F)) (w : JsonWriter)
      → write_cores cores w ≡ drive_items (items core_json cores) w
  unfolding write_cores write_core drive items core_json int_value string_value double_value
  write_cores-drive [] w = refl
  write_cores-drive (c ∷ cores) w = write_cores-drive cores (write_core c w)

  write_clusters-drive :
      (clusters : List (CpuClusterSnapshot F)) (w : JsonWriter)
      → write_clusters clusters w ≡ drive_items (items cluster_json clusters) w
  unfolding write_clusters write_cluster drive items cluster_json int_value string_value
      double_value bool_value
  write_clusters-drive [] w = refl
  write_clusters-drive (c ∷ clusters) w = write_clusters-drive clusters (write_cluster c w)

  write_workload_list-drive :
      (ws : List (WorkloadSnapshot F)) (w : JsonWriter)
      → write_workload_list ws w ≡ drive_items (items workload_json ws) w
  unfolding write_workload_list write_workload drive items workload_json status_json write_status
      string_value uint_value double_value bool_value
  write_workload_list-drive [] w = refl
  write_workload_list-drive (x ∷ ws) w =
      rw (write_refs-drive F x.processes) (write_workload_list-drive ws _)

  write_processes-drive :
      (ps : List (ProcessSnapshot F)) (w : JsonWriter)
      → write_processes ps w ≡ drive_items (items process_json ps) w
  unfolding write_processes write_process drive items process_json string_value int_value uint_value
      double_value bool_value
  write_processes-drive [] w = refl
  write_processes-drive (p ∷ ps) w = write_processes-drive ps (write_process p w)

  write_cpu-drive :
      (s : SystemSnapshot F) (w : JsonWriter)
      → write_cpu s w ≡ drive (cpu_json s) (key (str "cpu") w)
  unfolding write_cpu drive cpu_json
  write_cpu-drive s w = rw (write_cores-drive, write_clusters-drive)

  write_gpu-drive :
      (s : SystemSnapshot F) (w : JsonWriter)
      → write_gpu s w ≡ drive (gpu_json s) (key (str "gpu") w)
  unfolding write_gpu drive gpu_json int_value uint_value double_value status_json write_status
      string_value
  write_gpu-drive s w = rw write_pids-drive

  write_memory-drive :
      (s : SystemSnapshot F) (w : JsonWriter)
      → write_memory s w ≡ drive (memory_json s) (key (str "memory") w)
  unfolding write_memory drive memory_json uint_value status_json write_status string_value
  write_memory-drive s w = refl

  write_io-drive :
      (s : SystemSnapshot F) (w : JsonWriter) → write_io s w ≡ drive (io_json s) (key (str "io") w)
  unfolding write_io drive io_json uint_value status_json write_status string_value
  write_io-drive s w = refl

  write_base-drive :
      (s : SystemSnapshot F) (rest : Fields) (w : JsonWriter)
      → drive_fields (base_fields s rest) w ≡ drive_fields rest (write_base s w)
  unfolding write_base base_fields drive string_value int_value uint_value bool_value status_json
      write_status
  write_base-drive s rest w =
      rw (
        write_cpu-drive, write_memory-drive, write_gpu-drive, write_io-drive, write_processes-drive,
      )

  snapshot_to_json-drive :
      (s : SystemSnapshot F) (options : SnapshotJsonOptions F)
      → snapshot_to_json s options ≡ (drive (snapshot_json s options) new_writer).out
  unfolding snapshot_to_json snapshot_json drive int_value string_value uint_value risk_json
      write_memory_risk write_workloads end_object
  snapshot_to_json-drive s options = elim (Bool-cases options.include_v2_models) [
    | inl e ↦ rw (e, write_base-drive, write_workload_list-drive)
    | inr e ↦ rw (e, write_base-drive)
  ]

  -- The text of a snapshot is the text of its document: every value is printed from its own field, in
  -- the schema's order, and commas, colons and brackets stand where JSON wants them. In version 1 the
  -- models are left out.
  pub snapshot_to_json-render :
      (s : SystemSnapshot F) (options : SnapshotJsonOptions F)
      → snapshot_to_json s options ≡ render (snapshot_json s options)
  snapshot_to_json-render s options =
      snapshot_to_json-drive s options ∙ ap (λ w. w.out) (drive-render (snapshot_json s options))
