-- ===== src/Workload/Grouping.antt =====
-- src/workload_model.cpp: the detected processes, and the keys by which they are grouped. Pointers to
-- processes are the processes.
use mtop.Base.{
  Bool, true, false, not, ◌&&◌, ◌||◌, ltb, if◌then◌else◌, List, [], ◌∷◌, ◌++◌, Option, none, some,
  is_nil, Bytes, str, beq,
}
use mtop.Base.Int.{ℤ, ltb_ℤ, eqb_ℤ, int_text}
use mtop.Base.OrderedMap.{find_key, put}
use mtop.Snapshot.{ProcessSnapshot}
use mtop.Workload.Detector.{detect_workload_process}
use mtop.Workload.{
  WorkloadKind, WorkloadRole, WorkloadDetection, ollama, manager, server, workload_kind_name,
}

pub record DetectedProcess (F : Type 0) : Type 0 where
  pub process : ProcessSnapshot F
  pub detection : WorkloadDetection

abbrev pub is_manager : WorkloadRole → Bool
is_manager manager = true
is_manager _ = false

abbrev pub is_server : WorkloadRole → Bool
is_server server = true
is_server _ = false

abbrev pub is_ollama : WorkloadKind → Bool
is_ollama ollama = true
is_ollama _ = false

-- a key's text: kind, mark and id
abbrev pub key_text : WorkloadKind → Bytes → Bytes → Bytes
key_text kind mark id = workload_kind_name kind ++ (mark ++ id)

-- operator== on kinds, by their names, which differ
abbrev pub same_kind : WorkloadKind → WorkloadKind → Bool
same_kind k l = beq (workload_kind_name k) (workload_kind_name l)

module _ {F : Type 0} where
  -- the loop over `detected_by_pid`: the manager that is the process or its parent
  unfoldable pub find_manager :
      ProcessSnapshot F → List (ℤ × DetectedProcess F) → Option (DetectedProcess F)
  find_manager process [] = none
  find_manager process ((_, parent) ∷ m) =
      if is_ollama parent.detection.kind
        && is_manager parent.detection.role
        && (eqb_ℤ process.parent_pid parent.process.pid || eqb_ℤ process.pid parent.process.pid)
      then some parent
      else find_manager process m

  own_key : DetectedProcess F → Bytes
  own_key item =
      if not (is_nil item.detection.model_hint)
      then key_text item.detection.kind (str ":model:") item.detection.model_hint
      else key_text item.detection.kind (str ":pid:") (int_text item.process.pid)

  family_key : DetectedProcess F → List (ℤ × DetectedProcess F) → Bytes
  unfolding own_key find_key
  family_key item by_pid = elim (find_key eqb_ℤ item.process.parent_pid by_pid) [
    | none ↦ own_key item
    | some parent ↦
        if same_kind parent.detection.kind item.detection.kind
        then key_text item.detection.kind (str ":parent:") (int_text parent.process.pid)
        else own_key item
  ]

  unfoldable pub grouping_key : DetectedProcess F → List (ℤ × DetectedProcess F) → Bytes
  unfolding family_key find_manager
  grouping_key item by_pid =
      if is_ollama item.detection.kind
      then elim (find_manager item.process by_pid) [
        | none ↦ family_key item by_pid
        | some parent ↦ key_text item.detection.kind (str ":manager:") (int_text parent.process.pid)
      ]
      else family_key item by_pid

  unfoldable pub better_representative : DetectedProcess F → Option (DetectedProcess F) → Bool
  better_representative candidate none = true
  better_representative candidate (some current) =
      if is_manager candidate.detection.role && not (is_manager current.detection.role)
      then true
      else if is_server candidate.detection.role
          && not (is_manager current.detection.role)
          && not (is_server current.detection.role)
      then true
      else ltb current.detection.confidence candidate.detection.confidence

module _ {F : Type 0} where
  -- the loop that skips what has a confidence below 0.60
  unfoldable pub detect_all : List (ProcessSnapshot F) → List (DetectedProcess F)
  detect_all [] = []
  detect_all (process ∷ processes) =
      let item : DetectedProcess F = record {
        process = process;
        detection = detect_workload_process process;
      } in
      if ltb (detect_workload_process process).confidence 60
      then detect_all processes
      else item ∷ detect_all processes

  index_from :
      List (ℤ × DetectedProcess F) → List (DetectedProcess F) → List (ℤ × DetectedProcess F)
  unfolding put
  index_from m [] = m
  index_from m (item ∷ items) = index_from (put eqb_ℤ ltb_ℤ item.process.pid item m) items

  -- `detected_by_pid`
  unfoldable pub index_by_pid : List (DetectedProcess F) → List (ℤ × DetectedProcess F)
  unfolding index_from
  index_by_pid = index_from []
