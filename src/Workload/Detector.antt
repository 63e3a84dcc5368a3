-- ===== src/Workload/Detector.antt =====
-- src/workload_detector.cpp: which AI workload a process belongs to, by its name and command line.
use mtop.Base.{
  ℕ, Bool, not, ◌&&◌, ◌||◌, ◌==◌, if◌then◌else◌, List, [], ◌∷◌, ◌++◌, Option, none, some, is_nil,
  any, Bytes, str, beq, contains, lowercase, is_space,
}
use mtop.Snapshot.{ProcessSnapshot}
use mtop.Workload.{
  WorkloadKind, WorkloadRole, WorkloadDetection, ollama, llama_cpp, mlx, python_inference,
  lm_studio, comfy_ui, generic_model, manager, server, runner, worker,
}

-- the word that follows the first occurrence of the flag, if one does
unfoldable pub value_after_flag : List Bytes → Bytes → Option Bytes
value_after_flag [] flag = none
value_after_flag (token ∷ []) flag = none
value_after_flag (token ∷ next ∷ tokens) flag =
    let rest = value_after_flag (next ∷ tokens) flag in if beq token flag then some next else rest

-- `words.push_back(current)` if there is a current word
abbrev pub flush : Bytes → List Bytes → List Bytes
flush current words = if is_nil current then words else words ++ (current ∷ [])

-- the loop over the characters, with the words so far and the current one
unfoldable pub split_words_from : List Bytes → Bytes → Bytes → List Bytes
split_words_from words current [] = flush current words
split_words_from words current (ch ∷ text) =
    split_words_from (if is_space ch then flush current words else words)
      (if is_space ch then [] else current ++ (ch ∷ [])) text

unfoldable pub split_words : Bytes → List Bytes
unfolding split_words_from
split_words = split_words_from [] []

abbrev pub is_slash : ℕ → Bool
is_slash c = c == b'/' || c == b'\\'

-- what stands behind the last slash, or all of it
unfoldable pub basename_like : Bytes → Bytes
basename_like [] = []
basename_like (c ∷ path) =
    if any is_slash (c ∷ path)
    then if any is_slash path then basename_like path else path
    else c ∷ path

abbrev extensions : List Bytes
extensions = str ".gguf" ∷ str ".safetensors" ∷ str ".onnx" ∷ str ".mlmodelc" ∷ []

unfoldable pub has_extension : Bytes → Bool
has_extension word = any (λ e. contains (lowercase word) e) extensions

-- the loop over the words
unfoldable pub first_model_file : List Bytes → Bytes
first_model_file [] = []
first_model_file (word ∷ words) =
    if has_extension word then basename_like word else first_model_file words

unfoldable pub generic_model_hint : Bytes → Bytes
generic_model_hint command = first_model_file (split_words command)

unfoldable pub model_flag_hint : Bytes → Bytes
model_flag_hint command =
    let words = split_words command in
    elim (value_after_flag words (str "--model")) [
      | some value ↦ basename_like value
      | none ↦ elim (value_after_flag words (str "-m")) [
        | some value ↦ basename_like value
        | none ↦ generic_model_hint command
      ]
    ]

-- The confidence in hundredths.
abbrev pub make_detection :
    WorkloadKind → WorkloadRole → Bytes → Bytes → Bytes → ℕ → WorkloadDetection
make_detection kind role label model_hint reason confidence = record {
  kind = kind;
  role = role;
  label = label;
  model_hint = model_hint;
  reason = reason;
  confidence = confidence;
}

-- `process.name.empty() ? fallback : process.name`
abbrev pub name_or : Bytes → Bytes → Bytes
name_or name fallback = if is_nil name then fallback else name

-- The rules, in the order of the code. `name` and `command` are in lower case, `raw` and `line` are
-- the process's own name and command.
unfoldable pub detect_generic : Bytes → Bytes → WorkloadDetection
detect_generic raw line =
    if not (is_nil (generic_model_hint line))
    then make_detection generic_model WorkloadRole.unknown (name_or raw (str "model process"))
        (generic_model_hint line) (str "model file extension") 62
    else make_detection WorkloadKind.unknown WorkloadRole.unknown [] []
        (str "no AI workload signal") 0

unfoldable pub detect_python : Bytes → Bytes → Bytes → Bytes → WorkloadDetection
detect_python name command raw line =
    if contains name (str "uvicorn")
      || contains command (str "uvicorn")
      || contains command (str "fastapi")
      || contains command (str "gradio")
      || contains command (str "vllm")
      || contains command (str "torchserve")
    then make_detection python_inference server (name_or raw (str "python server"))
        (model_flag_hint line) (str "Python inference server") 84
    else if contains command (str "transformers")
        || contains command (str "diffusers")
        || contains command (str "sentence_transformers")
    then make_detection python_inference worker (name_or raw (str "python inference"))
        (model_flag_hint line) (str "Python model library hint") 66
    else detect_generic raw line

unfoldable pub detect_apps : Bytes → Bytes → Bytes → Bytes → Bytes → WorkloadDetection
detect_apps name command text raw line =
    if contains command (str "lm studio.app")
      || contains command (str "lmstudio")
      || contains name (str "lm studio")
    then make_detection lm_studio server (str "LM Studio") (model_flag_hint line)
        (str "LM Studio app or server path") 92
    else if contains text (str "comfyui") || contains command (str "custom_nodes")
    then make_detection comfy_ui server (str "ComfyUI") (generic_model_hint line)
        (str "ComfyUI path or custom nodes") 92
    else if contains command (str "safetensors")
        && (contains command (str "diffusion") || contains command (str "main.py"))
    then make_detection comfy_ui worker (str "ComfyUI") (generic_model_hint line)
        (str "diffusion model path") 72
    else detect_python name command raw line

unfoldable pub detect_mlx : Bytes → Bytes → Bytes → Bytes → Bytes → WorkloadDetection
detect_mlx name command text raw line =
    if contains name (str "mlx-lm")
      || contains name (str "mlx_lm")
      || contains command (str "python -m mlx_lm")
      || contains command (str "mlx_lm.server")
    then make_detection mlx server (name_or raw (str "mlx")) (model_flag_hint line)
        (str "MLX LM process") 93
    else if contains text (str "mlx-vlm")
        || contains text (str "mlx_lm")
        || contains text (str " mlx ")
    then make_detection mlx worker (name_or raw (str "mlx")) (model_flag_hint line)
        (str "MLX command hint") 68
    else detect_apps name command text raw line

unfoldable pub detect_llama : Bytes → Bytes → Bytes → Bytes → Bytes → WorkloadDetection
detect_llama name command text raw line =
    if beq name (str "llama-server") || beq name (str "llama-cli") || beq name (str "llama-bench")
    then make_detection llama_cpp server raw (model_flag_hint line)
        (str "llama.cpp executable name") 94
    else if contains command (str ".gguf")
        || contains command (str "ggml")
        || (contains command (str "--model") && contains text (str "llama"))
    then make_detection llama_cpp runner (name_or raw (str "llama.cpp")) (model_flag_hint line)
        (str "model path or llama.cpp flag") 70
    else detect_mlx name command text raw line

unfoldable pub detect_ollama : Bytes → Bytes → Bytes → Bytes → Bytes → WorkloadDetection
detect_ollama name command text raw line =
    if beq name (str "ollama") || contains command (str "ollama serve")
    then make_detection ollama manager (str "ollama") [] (str "ollama manager process") 96
    else if contains name (str "ollama") && contains command (str "runner")
    then make_detection ollama runner (str "ollama runner") (model_flag_hint line)
        (str "ollama runner process") 95
    else if contains command (str ".ollama") || contains command (str "ollama run")
    then make_detection ollama runner (str "ollama") (model_flag_hint line)
        (str "ollama command or model path") 72
    else detect_llama name command text raw line

unfoldable pub detect_workload_process : {F : Type 0} → ProcessSnapshot F → WorkloadDetection
detect_workload_process process =
    let name = lowercase process.name in
    let command = lowercase process.command in
    detect_ollama name command (name ++ (str " " ++ command)) process.name process.command
