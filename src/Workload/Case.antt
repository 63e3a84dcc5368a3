-- ===== src/Workload/Case.antt =====
-- src/workload_detector.cpp: capitals in a process's name or command line do not change its verdict.
use mtop.Base.{
  ℕ, ◌≡◌, refl, ap, ◌∙◌, sym, arith, true, false, List, [], ◌∷◌, ◌++◌, map, Bytes, any, lowercase,
  lowercase_idem, tolower, is_space, is_nil, Bool-cases, inl, inr,
}
use mtop.Snapshot.{ProcessSnapshot}
use mtop.Workload.Detector.{
  is_slash, flush, split_words_from, split_words, basename_like, has_extension, first_model_file,
  generic_model_hint, detect_generic, detect_python, detect_apps, detect_mlx, detect_llama,
  detect_ollama, detect_workload_process,
}
use mtop.Workload.{WorkloadDetection}

is_space-tolower : (c : ℕ) → is_space (tolower c) ≡ is_space c
unfolding is_space tolower
is_space-tolower c = ground arith

is_slash-tolower : (c : ℕ) → is_slash (tolower c) ≡ is_slash c
unfolding tolower
is_slash-tolower c = ground arith

map-append : {A B : Type 0} (f : A → B) (xs ys : List A) → map f (xs ++ ys) ≡ map f xs ++ map f ys
map-append f [] ys = refl
map-append f (x ∷ xs) ys = ap (◌∷◌ (f x)) (map-append f xs ys)

flush-lowercase :
    (current : Bytes) (words : List Bytes)
    → flush (map tolower current) (map lowercase words) ≡ map lowercase (flush current words)
unfolding lowercase
flush-lowercase [] words = refl
flush-lowercase (c ∷ current) words = sym (map-append (map tolower) words ((c ∷ current) ∷ []))

split_at_space :
    (words : List Bytes) (current : Bytes) (ch : ℕ) (text : Bytes)
    → is_space ch ≡ true
    → split_words_from words current (ch ∷ text) ≡ split_words_from (flush current words) [] text
unfolding split_words_from
split_at_space words current ch text e = rw e

split_at_other :
    (words : List Bytes) (current : Bytes) (ch : ℕ) (text : Bytes)
    → is_space ch ≡ false
    → split_words_from words current (ch ∷ text)
      ≡ split_words_from words (current ++ (ch ∷ [])) text
unfolding split_words_from
split_at_other words current ch text e = rw e

split_words_from-lowercase :
    (text current : Bytes) (words : List Bytes)
    → split_words_from (map lowercase words) (map tolower current) (map tolower text)
      ≡ map lowercase (split_words_from words current text)
split_words_from-lowercase [] current words =
    unfold split_words_from lowercase in flush-lowercase current words
split_words_from-lowercase (ch ∷ text) current words = elim (Bool-cases (is_space ch)) [
  | inl e ↦
      split_at_space (map lowercase words) (map tolower current) (tolower ch) (map tolower text)
        (is_space-tolower ch ∙ e)
      ∙ ap (λ ws. split_words_from ws [] (map tolower text)) (flush-lowercase current words)
      ∙ split_words_from-lowercase text [] (flush current words)
      ∙ ap (map lowercase) (sym (split_at_space words current ch text e))
  | inr e ↦
      split_at_other (map lowercase words) (map tolower current) (tolower ch) (map tolower text)
        (is_space-tolower ch ∙ e)
      ∙ ap (λ s. split_words_from (map lowercase words) s (map tolower text))
          (sym (map-append tolower current (ch ∷ [])))
      ∙ split_words_from-lowercase text (current ++ (ch ∷ [])) words
      ∙ ap (map lowercase) (sym (split_at_other words current ch text e))
]

any-is_slash-lowercase : (path : Bytes) → any is_slash (lowercase path) ≡ any is_slash path
unfolding lowercase
any-is_slash-lowercase [] = refl
any-is_slash-lowercase (c ∷ path) = rw (is_slash-tolower c, any-is_slash-lowercase path)

basename_like-lowercase :
    (path : Bytes) → basename_like (lowercase path) ≡ lowercase (basename_like path)
unfolding basename_like lowercase
basename_like-lowercase [] = refl
basename_like-lowercase (c ∷ path) =
    rw (is_slash-tolower c, any-is_slash-lowercase path)
      (ground (arith, basename_like-lowercase path))

has_extension-lowercase : (w : Bytes) → has_extension (lowercase w) ≡ has_extension w
unfolding has_extension
has_extension-lowercase w = rw (lowercase_idem w)

first_model_file-lowercase :
    (words : List Bytes)
    → first_model_file (map lowercase words) ≡ lowercase (first_model_file words)
unfolding first_model_file
first_model_file-lowercase [] = unfold lowercase in refl
first_model_file-lowercase (w ∷ words) =
    rw (has_extension-lowercase w)
      (ground (arith, basename_like-lowercase w, first_model_file-lowercase words))

generic_model_hint-lowercase :
    (command : Bytes)
    → generic_model_hint (lowercase command) ≡ lowercase (generic_model_hint command)
unfolding generic_model_hint split_words lowercase
generic_model_hint-lowercase command =
    ap first_model_file (split_words_from-lowercase command [] [])
    ∙ first_model_file-lowercase (split_words command)

is_nil-lowercase : (s : Bytes) → is_nil (lowercase s) ≡ is_nil s
unfolding lowercase
is_nil-lowercase [] = refl
is_nil-lowercase (c ∷ s) = refl

-- The same workload, role and confidence.
abbrev pub Agrees : WorkloadDetection → WorkloadDetection → Type 0
Agrees d e = (d.kind ≡ e.kind) × (d.role ≡ e.role) × (d.confidence ≡ e.confidence)

module _ (raw line : Bytes) where
  detect_generic-Agrees :
      Agrees (detect_generic (lowercase raw) (lowercase line)) (detect_generic raw line)
  unfolding detect_generic
  detect_generic-Agrees =
      rw (generic_model_hint-lowercase line, is_nil-lowercase (generic_model_hint line))
        (ground arith)

  detect_python-Agrees :
      (name command : Bytes)
      → Agrees
          (detect_python name command (lowercase raw) (lowercase line))
          (detect_python name command raw line)
  unfolding detect_python
  detect_python-Agrees name command = ground (arith, detect_generic-Agrees)

  detect_apps-Agrees :
      (name command text : Bytes)
      → Agrees
          (detect_apps name command text (lowercase raw) (lowercase line))
          (detect_apps name command text raw line)
  unfolding detect_apps
  detect_apps-Agrees name command text = ground (arith, detect_python-Agrees name command)

  detect_mlx-Agrees :
      (name command text : Bytes)
      → Agrees
          (detect_mlx name command text (lowercase raw) (lowercase line))
          (detect_mlx name command text raw line)
  unfolding detect_mlx
  detect_mlx-Agrees name command text = ground (arith, detect_apps-Agrees name command text)

  detect_llama-Agrees :
      (name command text : Bytes)
      → Agrees
          (detect_llama name command text (lowercase raw) (lowercase line))
          (detect_llama name command text raw line)
  unfolding detect_llama
  detect_llama-Agrees name command text = ground (arith, detect_mlx-Agrees name command text)

  detect_ollama-Agrees :
      (name command text : Bytes)
      → Agrees
          (detect_ollama name command text (lowercase raw) (lowercase line))
          (detect_ollama name command text raw line)
  unfolding detect_ollama
  detect_ollama-Agrees name command text = ground (arith, detect_llama-Agrees name command text)

-- Capitals do not matter: a process whose name and command line are put in lower case is taken for
-- the same workload, in the same role, with the same confidence.
pub detect_workload_process-lowercase :
    {F : Type 0} (process : ProcessSnapshot F)
    → Agrees
        (detect_workload_process
          (record process { name = lowercase process.name; command = lowercase process.command }))
        (detect_workload_process process)
unfolding detect_workload_process
detect_workload_process-lowercase process =
    rw (lowercase_idem process.name, lowercase_idem process.command)
      (detect_ollama-Agrees process.name process.command (lowercase process.name)
        (lowercase process.command) _)
