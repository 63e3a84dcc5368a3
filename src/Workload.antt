-- ===== src/Workload.antt =====
-- include/monitor/model/workload_detector.hpp and workload_model.hpp: what is known of the processes
-- that belong to AI workloads. A detection's confidence is a literal of two decimals in the source;
-- it is counted in hundredths here.
pub mod Detector
pub mod Words
pub mod Rules
pub mod Case
pub mod Grouping
pub mod Build
pub mod Conservation
pub mod Totals
pub mod AiRows
pub mod AiOrder
use mtop.Base.{ℕ, Bool, List, Bytes, str}
use mtop.Base.Int.{ℤ}
use mtop.Snapshot.{MetricStatus, ProcessSnapshot}

pub data WorkloadKind : Type 0 where
  ollama llama_cpp mlx python_inference lm_studio comfy_ui generic_model unknown : WorkloadKind

pub data WorkloadRole : Type 0 where
  manager server runner worker frontend unknown : WorkloadRole

pub record WorkloadDetection : Type 0 where
  pub kind : WorkloadKind
  pub role : WorkloadRole
  pub label : Bytes
  pub model_hint : Bytes
  pub reason : Bytes
  pub confidence : ℕ

pub record WorkloadProcessRef : Type 0 where
  pub pid : ℤ
  pub parent_pid : ℤ
  pub role : WorkloadRole
  pub detection_confidence : ℕ
  pub command : Bytes

pub record WorkloadSnapshot (F : Type 0) : Type 0 where
  pub id : Bytes
  pub name : Bytes
  pub kind : WorkloadKind
  pub model_hint : Bytes
  pub processes : List WorkloadProcessRef
  pub cpu_percent : F
  pub memory_percent : F
  pub resident_bytes : ℕ
  pub virtual_bytes : ℕ
  pub gpu_active : Bool
  pub core_mix : Bytes
  pub io : Bytes
  pub power : Bytes
  pub detection_status : MetricStatus

pub record AiProcessRow (F : Type 0) : Type 0 where
  pub process : ProcessSnapshot F
  pub detection : WorkloadDetection
  pub is_ai : Bool

unfoldable pub workload_kind_name : WorkloadKind → Bytes
workload_kind_name ollama = str "ollama"
workload_kind_name llama_cpp = str "llama_cpp"
workload_kind_name mlx = str "mlx"
workload_kind_name python_inference = str "python_inference"
workload_kind_name lm_studio = str "lm_studio"
workload_kind_name comfy_ui = str "comfyui"
workload_kind_name generic_model = str "generic_model"
workload_kind_name WorkloadKind.unknown = str "unknown"

unfoldable pub workload_kind_label : WorkloadKind → Bytes
workload_kind_label ollama = str "Ollama"
workload_kind_label llama_cpp = str "llama.cpp"
workload_kind_label mlx = str "MLX"
workload_kind_label python_inference = str "Python"
workload_kind_label lm_studio = str "LM Studio"
workload_kind_label comfy_ui = str "ComfyUI"
workload_kind_label generic_model = str "Model"
workload_kind_label WorkloadKind.unknown = str "Unknown"

unfoldable pub workload_role_name : WorkloadRole → Bytes
workload_role_name manager = str "manager"
workload_role_name server = str "server"
workload_role_name runner = str "runner"
workload_role_name worker = str "worker"
workload_role_name frontend = str "frontend"
workload_role_name WorkloadRole.unknown = str "unknown"
