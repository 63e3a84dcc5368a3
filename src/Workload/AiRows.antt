-- ===== src/Workload/AiRows.antt =====
-- src/workload_model.cpp: the rows of the AI view.
use mtop.Base.{Bool, true, false, ◌&&◌, not, ◌==◌, ltb, leb, if◌then◌else◌, List, [], map, str}
use mtop.Base.Double.{Double}
use mtop.Base.Int.{ltb_ℤ}
use mtop.Base.Sort.{sort_by}
use mtop.Snapshot.{ProcessSnapshot, SystemSnapshot}
use mtop.Workload.Detector.{detect_workload_process}
use mtop.Workload.{WorkloadKind, WorkloadRole, AiProcessRow}

-- operator== on bool
abbrev pub same_bool : Bool → Bool → Bool
same_bool true b = b
same_bool false b = not b

module _ {F : Type 0} where
  -- the body of the loop
  unfoldable pub ai_row : ProcessSnapshot F → AiProcessRow F
  ai_row process =
      let detection = detect_workload_process process in
      let is_ai = leb 60 detection.confidence in
      record {
        process = process;
        detection = if is_ai then detection else record {
          kind = WorkloadKind.unknown;
          role = WorkloadRole.unknown;
          label = process.name;
          model_hint = [];
          reason = str "no AI workload signal";
          confidence = 0;
        };
        is_ai = is_ai;
      }

module _ {F : Type 0} ⦃d : Double F⦄ where
  unfoldable pub ai_less : AiProcessRow F → AiProcessRow F → Bool
  ai_less lhs rhs =
      if not (same_bool lhs.is_ai rhs.is_ai)
      then lhs.is_ai && not rhs.is_ai
      else if lhs.is_ai
          && rhs.is_ai
          && not (lhs.process.resident_bytes == rhs.process.resident_bytes)
      then ltb rhs.process.resident_bytes lhs.process.resident_bytes
      else if not (d.eq lhs.process.cpu_percent rhs.process.cpu_percent)
      then d.lt rhs.process.cpu_percent lhs.process.cpu_percent
      else ltb_ℤ lhs.process.pid rhs.process.pid

  unfoldable pub build_ai_process_rows : SystemSnapshot F → List (AiProcessRow F)
  build_ai_process_rows snapshot = sort_by ai_less (map ai_row snapshot.processes)
