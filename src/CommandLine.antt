-- ===== src/CommandLine.antt =====
-- src/main.cpp: the arguments of the program, and how `main` starts.
pub mod Ranges
use mtop.Base.{
  ℕ, Bool, true, false, not, ◌&&◌, ◌||◌, if◌then◌else◌, List, [], ◌∷◌, ◌++◌, Option, none, some,
  is_nil, Bytes, str, beq,
}
use mtop.Base.Int.{ℤ, pos, clamp_ℤ}
use mtop.Config.{AppConfig, parse_int}
use mtop.Config.Files.{written, Disk, Writing, Persisted, failed, load_config, persist_view_profile}
use mtop.View.{ViewProfile, parse_view_profile}

pub record RuntimeOptions : Type 0 where
  pub demo : Bool
  pub help : Bool
  pub version : Bool
  pub debug_input : Bool
  pub snapshot_loop : Bool
  pub session : Bool
  pub config_path : Bytes
  pub debug_log_path : Bytes
  pub output_path : Bytes
  pub session_label : Bytes
  pub snapshot_format : Bytes
  pub view_profile : Option ViewProfile
  pub invalid_view_profile : Option Bytes
  pub refresh_ms : Option ℤ
  pub snapshot_interval_ms : Option ℤ
  pub count : Option ℤ
  pub theme : Option Bytes
  pub process_limit : Option ℤ

abbrev pub no_options : RuntimeOptions
no_options = record {
  demo = false;
  help = false;
  version = false;
  debug_input = false;
  snapshot_loop = false;
  session = false;
  config_path = [];
  debug_log_path = [];
  output_path = [];
  session_label = [];
  snapshot_format = [];
  view_profile = none;
  invalid_view_profile = none;
  refresh_ms = none;
  snapshot_interval_ms = none;
  count = none;
  theme = none;
  process_limit = none;
}

-- The function of config.cpp for a setting, but that the value is never null: an argument is there.
unfoldable pub parse_int_arg : Bytes → Option ℤ
unfolding parse_int
parse_int_arg value = parse_int value

abbrev is_view : Bytes → Bool
is_view arg = beq arg (str "-view") || beq arg (str "--view")

-- `arg == "a" || arg == "b" || ...`
abbrev is_any : Bytes → List Bytes → Bool
is_any arg [] = false
is_any arg (name ∷ names) = beq arg name || is_any arg names

-- The arguments that take the next one, if there is one.
unfoldable pub takes_value : Bytes → Bool
takes_value arg =
    is_view arg
    || is_any arg (
        str "--debug-log"
        ∷ str "--output"
        ∷ str "--label"
        ∷ str "--config"
        ∷ str "--snapshot"
        ∷ str "--refresh-ms"
        ∷ str "--interval-ms"
        ∷ str "--count"
        ∷ str "--process-limit"
        ∷ str "--theme"
        ∷ [])

-- an argument that stands alone; one that is not known is passed over
unfoldable pub set_flag : Bytes → RuntimeOptions → RuntimeOptions
set_flag arg options =
    if beq arg (str "--demo")
    then record options { demo = true }
    else if beq arg (str "--help") || beq arg (str "-h")
    then record options { help = true }
    else if beq arg (str "--version") || beq arg (str "-v")
    then record options { version = true }
    else if beq arg (str "--debug-input")
    then record options { debug_input = true }
    else if beq arg (str "--loop")
    then record options { snapshot_loop = true }
    else if beq arg (str "--session")
    then record options { session = true }
    else if is_view arg
    then record options { invalid_view_profile = some [] }
    else options

set_view : Bytes → RuntimeOptions → RuntimeOptions
unfolding parse_view_profile
set_view value options = elim (parse_view_profile value) [
  | none ↦ record options { invalid_view_profile = some value }
  | some profile ↦ record options { view_profile = some profile; invalid_view_profile = none }
]

unfoldable pub set_value : Bytes → Bytes → RuntimeOptions → RuntimeOptions
unfolding set_view parse_int_arg
set_value arg value options =
    if beq arg (str "--debug-log")
    then record options { debug_log_path = value }
    else if beq arg (str "--output")
    then record options { output_path = value }
    else if beq arg (str "--label")
    then record options { session_label = value }
    else if beq arg (str "--config")
    then record options { config_path = value }
    else if is_view arg
    then set_view value options
    else if beq arg (str "--snapshot")
    then record options { snapshot_format = value }
    else if beq arg (str "--refresh-ms")
    then record options { refresh_ms = parse_int_arg value }
    else if beq arg (str "--interval-ms")
    then record options { snapshot_interval_ms = parse_int_arg value }
    else if beq arg (str "--count")
    then record options { count = parse_int_arg value }
    else if beq arg (str "--process-limit")
    then record options { process_limit = parse_int_arg value }
    else record options { theme = some value }

-- the loop over the arguments behind the program's name
unfoldable pub parse_from : List Bytes → RuntimeOptions → RuntimeOptions
unfolding takes_value set_flag set_value
parse_from [] options = options
parse_from (arg ∷ []) options = set_flag arg options
parse_from (arg ∷ value ∷ rest) options = elim (takes_value arg) [
  | true ↦ parse_from rest (set_value arg value options)
  | false ↦ parse_from (value ∷ rest) (set_flag arg options)
]

unfoldable pub parse_args : List Bytes → RuntimeOptions
unfolding parse_from
parse_args arguments = parse_from arguments no_options

unfoldable pub clamp_option : Option ℤ → ℤ → ℕ → ℕ → ℤ
unfolding clamp_ℤ
clamp_option none current lo hi = current
clamp_option (some n) current lo hi = clamp_ℤ n (pos lo) (pos hi)

abbrev pub or_else : {A : Type 0} → Option A → A → A
or_else none fallback = fallback
or_else (some a) fallback = a

-- the options over the settings of the file
unfoldable pub override : RuntimeOptions → AppConfig → AppConfig
unfolding clamp_option
override options config = record config {
  view_profile = or_else options.view_profile config.view_profile;
  refresh_ms = clamp_option options.refresh_ms config.refresh_ms 100 60000;
  snapshot_interval_ms =
      clamp_option options.snapshot_interval_ms config.snapshot_interval_ms 100 60000;
  process_limit = clamp_option options.process_limit config.process_limit 4 1000;
  theme = or_else options.theme config.theme;
  demo_mode = options.demo || config.demo_mode;
}

-- How `main` goes on: what it prints and exits with, or the mode that it runs in.
pub data Start : Type 0 where
  prints_help prints_version : Start
  exits : ℕ → Bytes → Start
  runs_snapshots runs_screen : RuntimeOptions → AppConfig → Start

abbrev pub view_message : Bytes → Bytes
view_message value =
    if is_nil value
    then str "missing view profile after -view/--view (expected alpha or beta)\n"
    else str "invalid view profile: " ++ (value ++ str " (expected alpha or beta)\n")

-- `makes` tells for which settings a sampler can be created.
unfoldable pub run_with : (AppConfig → Bool) → RuntimeOptions → AppConfig → Start
run_with makes options config =
    if not (makes config)
    then exits 1 (str "failed to create sampler\n")
    else if not (is_nil options.snapshot_format)
    then runs_snapshots options config
    else runs_screen options config

unfoldable pub after_persist : Persisted → Start → Start
after_persist (failed message) rest =
    exits 1 (str "failed to persist view profile: " ++ (message ++ str "\n"))
after_persist (written text) rest = rest

module _ (disk : Disk) (w : Writing) (makes : AppConfig → Bool) (options : RuntimeOptions) where
  -- the mode for the settings as they were before the program wrote the file
  unfoldable pub run_mode : Start
  unfolding load_config override run_with
  run_mode = run_with makes options (override options (load_config disk options.config_path))

  -- A profile that is given is written to the file first.
  unfoldable pub persist_first : Option ViewProfile → Start
  unfolding persist_view_profile after_persist run_mode
  persist_first none = run_mode
  persist_first (some profile) =
      after_persist (persist_view_profile disk w options.config_path profile) run_mode

  -- after the tests for the help and the version
  unfoldable pub check_view : Option Bytes → Start
  unfolding persist_first
  check_view (some value) = exits 2 (view_message value)
  check_view none = persist_first options.view_profile

  unfoldable pub start_with : Start
  unfolding check_view
  start_with =
      if options.help
      then prints_help
      else if options.version
      then prints_version
      else check_view options.invalid_view_profile

unfoldable pub start : Disk → Writing → (AppConfig → Bool) → List Bytes → Start
unfolding start_with parse_args
start disk w makes arguments = start_with disk w makes (parse_args arguments)
