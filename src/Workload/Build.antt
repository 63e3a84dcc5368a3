-- ===== src/Workload/Build.antt =====
-- src/workload_model.cpp: the detected processes, grouped into workloads.
-- `grouped` and `representative` have the same keys: they are one map here, to a pair.
use mtop.Base.{
  Bool, false, not, ◌||◌, ◌==◌, ltb, if◌then◌else◌, List, [], ◌∷◌, ◌++◌, map, Option, none, some,
  is_nil, Bytes, str, beq, contains, string_less,
}
use mtop.Base.Double.{Double}
use mtop.Base.Int.{ℤ, ltb_ℤ, int_text}
use mtop.Base.OrderedMap.{upsert}
use mtop.Base.Sort.{sort_by}
use mtop.Snapshot.{SystemSnapshot, available, unavailable, add_u64}
use mtop.Workload.Grouping.{
  DetectedProcess, detect_all, index_by_pid, grouping_key, better_representative,
}
use mtop.Workload.{WorkloadKind, WorkloadProcessRef, WorkloadSnapshot, workload_kind_name}

unfoldable pub first_available_signal : Bytes → Bytes → Bytes
first_available_signal current next =
    if is_nil current
      || beq current (str "-")
      || beq current (str "n/a")
      || beq current (str "root")
      || beq current (str "wait")
      || beq current (str "stale")
      || beq current (str "parse")
      || beq current (str "denied")
    then if is_nil next then current else next
    else current

module _ {F : Type 0} where
  unfoldable pub make_id : WorkloadSnapshot F → Bytes
  make_id workload =
      let kind = workload_kind_name workload.kind ++ str ":" in
      if not (is_nil workload.model_hint)
      then kind ++ workload.model_hint
      else elim workload.processes [
        | [] ↦ kind ++ str "unknown"
        | front ∷ _ ↦ kind ++ int_text front.pid
      ]

-- A value of `grouped`, with that of `representative`.
pub record Group (F : Type 0) : Type 0 where
  pub workload : WorkloadSnapshot F
  pub representative : Option (DetectedProcess F)

abbrev pub ref_of : {F : Type 0} → DetectedProcess F → WorkloadProcessRef
ref_of item = record {
  pid = item.process.pid;
  parent_pid = item.process.parent_pid;
  role = item.detection.role;
  detection_confidence = item.detection.confidence;
  command = item.process.command;
}

abbrev pub label_of : {F : Type 0} → DetectedProcess F → Bytes
label_of item = if is_nil item.detection.label then item.process.name else item.detection.label

module _ {F : Type 0} ⦃d : Double F⦄ where
  abbrev pub new_group : Group F
  new_group = record {
    workload = record {
      id = [];
      name = [];
      kind = WorkloadKind.unknown;
      model_hint = [];
      processes = [];
      cpu_percent = d.of_nat 0;
      memory_percent = d.of_nat 0;
      resident_bytes = 0;
      virtual_bytes = 0;
      gpu_active = false;
      core_mix = str "-";
      io = str "-";
      power = str "-";
      detection_status = record { availability = unavailable; reason = []; age_ms = 0 };
    };
    representative = none;
  }

  -- `if (workload.processes.empty()) … else …`
  unfoldable pub describe :
      DetectedProcess F → List WorkloadProcessRef → WorkloadSnapshot F → WorkloadSnapshot F
  describe item [] workload = record workload {
    kind = item.detection.kind;
    model_hint = item.detection.model_hint;
    name = label_of item;
    core_mix = item.process.core_mix;
    io = item.process.io;
    power = item.process.power;
    detection_status = record workload.detection_status {
      availability = available;
      reason = item.detection.reason;
    };
  }
  describe item (_ ∷ _) workload = record workload {
    model_hint =
        if is_nil workload.model_hint then item.detection.model_hint else workload.model_hint;
    io = first_available_signal workload.io item.process.io;
    power = first_available_signal workload.power item.process.power;
    core_mix =
        if is_nil workload.core_mix || beq workload.core_mix (str "-")
        then item.process.core_mix
        else workload.core_mix;
    detection_status = record workload.detection_status {
      reason =
          if contains workload.detection_status.reason item.detection.reason
          then workload.detection_status.reason
          else workload.detection_status.reason ++ (str "; " ++ item.detection.reason);
    };
  }

  -- the `push_back` and the sums
  unfoldable pub accumulate : DetectedProcess F → WorkloadSnapshot F → WorkloadSnapshot F
  accumulate item workload = record workload {
    processes = workload.processes ++ (ref_of item ∷ []);
    cpu_percent = d.add workload.cpu_percent item.process.cpu_percent;
    memory_percent = d.add workload.memory_percent item.process.memory_percent;
    resident_bytes = add_u64 workload.resident_bytes item.process.resident_bytes;
    virtual_bytes = add_u64 workload.virtual_bytes item.process.virtual_bytes;
    gpu_active = workload.gpu_active || item.process.gpu_active;
  }

  unfoldable pub represent : DetectedProcess F → WorkloadSnapshot F → WorkloadSnapshot F
  represent item workload = record workload {
    name = label_of item;
    model_hint =
        if is_nil item.detection.model_hint then workload.model_hint else item.detection.model_hint;
    detection_status = record workload.detection_status { reason = item.detection.reason };
  }

  -- the body of the loop, on the values at the item's key
  unfoldable pub add_item : DetectedProcess F → Group F → Group F
  unfolding describe accumulate represent
  add_item item group =
      let described = describe item group.workload.processes group.workload in
      let workload = accumulate item described in
      if better_representative item group.representative
      then record { workload = represent item workload; representative = some item }
      else record { workload = workload; representative = group.representative }

  unfoldable pub group_items :
      List (ℤ × DetectedProcess F)
      → List (DetectedProcess F)
      → List (Bytes × Group F)
      → List (Bytes × Group F)
  group_items by_pid [] groups = groups
  group_items by_pid (item ∷ items) groups =
      group_items by_pid items
        (upsert beq string_less (grouping_key item by_pid) new_group (add_item item) groups)

unfoldable pub ref_less : WorkloadProcessRef → WorkloadProcessRef → Bool
ref_less lhs rhs = ltb_ℤ lhs.pid rhs.pid

module _ {F : Type 0} where
  unfoldable pub workload_less : WorkloadSnapshot F → WorkloadSnapshot F → Bool
  workload_less lhs rhs =
      if not (lhs.resident_bytes == rhs.resident_bytes)
      then ltb rhs.resident_bytes lhs.resident_bytes
      else string_less lhs.name rhs.name

  -- sort the processes, then name the workload
  unfoldable pub finish : Group F → WorkloadSnapshot F
  finish group =
      let sorted = record group.workload {
        processes = sort_by ref_less group.workload.processes;
      } in
      record sorted { id = make_id sorted }

module _ {F : Type 0} ⦃d : Double F⦄ where
  unfoldable pub build_workloads : SystemSnapshot F → List (WorkloadSnapshot F)
  build_workloads snapshot =
      let detected = detect_all snapshot.processes in
      let groups = group_items (index_by_pid detected) detected [] in
      sort_by workload_less (map (λ kg. finish kg.1) groups)
