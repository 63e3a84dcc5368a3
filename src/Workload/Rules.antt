-- ===== src/Workload/Rules.antt =====
-- src/workload_detector.cpp: what every detection satisfies.
use mtop.Base.{
  ◌≤◌, ◌≡◌, ◌≢◌, ◌⊎◌, inl, inr, refl, arith, true, not, ◌||◌, [], ◌∷◌, Bytes, str, beq, lowercase,
  is_nil, if_rule,
}
use mtop.Snapshot.{ProcessSnapshot}
use mtop.Workload.Detector.{
  name_or, detect_generic, detect_python, detect_apps, detect_mlx, detect_llama, detect_ollama,
  detect_workload_process, generic_model_hint,
}
use mtop.Workload.{WorkloadKind, WorkloadRole, WorkloadDetection}

-- No workload: nothing is claimed.
abbrev IsBlank : WorkloadDetection → Type 0
IsBlank d =
    (d.kind ≡ WorkloadKind.unknown)
    × (d.role ≡ WorkloadRole.unknown)
    × (d.label ≡ [])
    × (d.model_hint ≡ [])
    × (d.confidence ≡ 0)

-- A workload: it has a name to show, and a confidence between 0.62 and 0.96.
abbrev IsNamed : WorkloadDetection → Type 0
IsNamed d =
    (d.kind ≢ WorkloadKind.unknown) × (d.label ≢ []) × (62 ≤ d.confidence) × (d.confidence ≤ 96)

abbrev pub IsVerdict : WorkloadDetection → Type 0
IsVerdict d = IsBlank d ⊎ IsNamed d

name_or-ne-nil : (name fallback : Bytes) → fallback ≢ [] → name_or name fallback ≢ []
name_or-ne-nil [] fallback h = h
name_or-ne-nil (c ∷ name) fallback h = λ e. cc

detect_generic-IsVerdict : (raw line : Bytes) → IsVerdict (detect_generic raw line)
unfolding detect_generic str
detect_generic-IsVerdict raw line =
    if_rule IsVerdict (not (is_nil (generic_model_hint line)))
      (λ _. inr (λ e. cc, name_or-ne-nil raw _ (λ e. cc), omega arith, omega arith))
      (λ _. inl (refl, refl, refl, refl, refl))

detect_python-IsVerdict :
    (name command raw line : Bytes) → IsVerdict (detect_python name command raw line)
unfolding detect_python str
detect_python-IsVerdict name command raw line = ground (
  arith,
  detect_generic-IsVerdict raw line,
  name_or-ne-nil raw (str "python server") (λ e. cc),
  name_or-ne-nil raw (str "python inference") (λ e. cc),
)

detect_apps-IsVerdict :
    (name command text raw line : Bytes) → IsVerdict (detect_apps name command text raw line)
unfolding detect_apps str
detect_apps-IsVerdict name command text raw line =
    ground (arith, detect_python-IsVerdict name command raw line)

detect_mlx-IsVerdict :
    (name command text raw line : Bytes) → IsVerdict (detect_mlx name command text raw line)
unfolding detect_mlx str
detect_mlx-IsVerdict name command text raw line = ground (
  arith,
  detect_apps-IsVerdict name command text raw line,
  name_or-ne-nil raw (str "mlx") (λ e. cc),
)

-- A process that is called after a llama.cpp executable has a name.
llama_named :
    (raw name : Bytes)
    → name ≡ lowercase raw
    → (beq name (str "llama-server") || beq name (str "llama-cli") || beq name (str "llama-bench"))
      ≡ true
    → raw ≢ []
unfolding lowercase beq str
llama_named [] name e t = ground arith
llama_named (c ∷ raw) name e t = λ h. cc

detect_llama-IsVerdict :
    (name command text raw line : Bytes)
    → name ≡ lowercase raw
    → IsVerdict (detect_llama name command text raw line)
unfolding detect_llama str
detect_llama-IsVerdict name command text raw line e = ground (
  arith,
  detect_mlx-IsVerdict name command text raw line,
  name_or-ne-nil raw (str "llama.cpp") (λ e. cc),
  llama_named raw name e,
)

detect_ollama-IsVerdict :
    (name command text raw line : Bytes)
    → name ≡ lowercase raw
    → IsVerdict (detect_ollama name command text raw line)
unfolding detect_ollama str
detect_ollama-IsVerdict name command text raw line e =
    ground (arith, detect_llama-IsVerdict name command text raw line e)

-- Every process gets a verdict: either no workload, with nothing claimed and confidence 0, or a
-- workload with a label to show and a confidence of at least 0.62 and at most 0.96.
pub detect_workload_process-IsVerdict :
    {F : Type 0} (process : ProcessSnapshot F) → IsVerdict (detect_workload_process process)
unfolding detect_workload_process
detect_workload_process-IsVerdict process =
    detect_ollama-IsVerdict (lowercase process.name) (lowercase process.command) _ process.name
      process.command refl
