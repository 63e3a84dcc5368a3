-- ===== src/CommandLine/Ranges.antt =====
-- src/main.cpp: whatever the arguments say, the numbers stay in the ranges that the program relies on.
use mtop.Base.{
  ℕ, ◌≤◌, Bool, not, ◌≡◌, subst, arith, if_rule, is_nil, List, Option, none, some, Bytes,
}
use mtop.Base.Int.{ℤ, pos, ◌≤ℤ◌, clamp_ℤ_bounds}
use mtop.CommandLine.{
  RuntimeOptions, Start, prints_help, prints_version, exits, runs_snapshots, runs_screen,
  clamp_option, override, run_with, after_persist, run_mode, persist_first, check_view, start_with,
  start, parse_args,
}
use mtop.Config.{AppConfig}
use mtop.Config.Bounds.{InRange, load_config-InRange}
use mtop.Config.Files.{Disk, Writing, Persisted, failed, written, load_config, persist_view_profile}
use mtop.Sorting.Clicks.{IsDirection}
use mtop.View.{ViewProfile}

-- The ranges of the file's settings, but for the theme, which an argument may leave empty.
pub record AreInRange (c : AppConfig) : Type 0 where
  pub refresh : (pos 100 ≤ℤ c.refresh_ms) × (c.refresh_ms ≤ℤ pos 60000)
  pub limit : (pos 4 ≤ℤ c.process_limit) × (c.process_limit ≤ℤ pos 1000)
  pub root : (pos 250 ≤ℤ c.root_sample_ms) × (c.root_sample_ms ≤ℤ pos 60000)
  pub interval : (pos 100 ≤ℤ c.snapshot_interval_ms) × (c.snapshot_interval_ms ≤ℤ pos 60000)
  pub direction : IsDirection c.sort_direction

clamp_option_bounds :
    (n : Option ℤ) (current : ℤ) (lo hi : ℕ)
    → lo ≤ hi
    → (pos lo ≤ℤ current) × (current ≤ℤ pos hi)
    → (pos lo ≤ℤ clamp_option n current lo hi) × (clamp_option n current lo hi ≤ℤ pos hi)
unfolding clamp_option
clamp_option_bounds none current lo hi l h = h
clamp_option_bounds (some n) current lo hi l h = clamp_ℤ_bounds n (pos lo) (pos hi) (omega arith)

override-AreInRange :
    (options : RuntimeOptions) (c : AppConfig) → InRange c → AreInRange (override options c)
unfolding override
override-AreInRange options c r = record {
  refresh = clamp_option_bounds options.refresh_ms c.refresh_ms 100 60000 (omega arith) r.refresh;
  limit = clamp_option_bounds options.process_limit c.process_limit 4 1000 (omega arith) r.limit;
  root = r.root;
  interval =
      clamp_option_bounds options.snapshot_interval_ms c.snapshot_interval_ms 100 60000
        (omega arith) r.interval;
  direction = r.direction;
}

-- What a start promises to the mode that it runs.
data Promises : Start → Type 0 where
  help_only : Promises prints_help
  version_only : Promises prints_version
  no_run : {code : ℕ} {message : Bytes} → Promises (exits code message)
  snapshots : {o : RuntimeOptions} {c : AppConfig} → AreInRange c → Promises (runs_snapshots o c)
  screen : {o : RuntimeOptions} {c : AppConfig} → AreInRange c → Promises (runs_screen o c)

module _ (disk : Disk) (w : Writing) (makes : AppConfig → Bool) (options : RuntimeOptions) where
  run_mode-Promises : Promises (run_mode disk w makes options)
  unfolding run_mode run_with
  run_mode-Promises =
      let config = override options (load_config disk options.config_path) in
      let ranges =
        override-AreInRange options (load_config disk options.config_path)
          (load_config-InRange disk options.config_path) in
      if_rule Promises (not (makes config)) (λ _. no_run)
        (λ _.
          if_rule Promises (not (is_nil options.snapshot_format)) (λ _. snapshots ranges)
            (λ _. screen ranges))

  after_persist-Promises :
      (p : Persisted) → Promises (after_persist p (run_mode disk w makes options))
  unfolding after_persist
  after_persist-Promises (failed message) = no_run
  after_persist-Promises (written text) = run_mode-Promises

  persist_first-Promises :
      (profile : Option ViewProfile) → Promises (persist_first disk w makes options profile)
  unfolding persist_first
  persist_first-Promises none = run_mode-Promises
  persist_first-Promises (some profile) =
      after_persist-Promises (persist_view_profile disk w options.config_path profile)

  check_view-Promises : (value : Option Bytes) → Promises (check_view disk w makes options value)
  unfolding check_view
  check_view-Promises (some value) = no_run
  check_view-Promises none = persist_first-Promises options.view_profile

  start_with-Promises : Promises (start_with disk w makes options)
  unfolding start_with
  start_with-Promises =
      if_rule Promises options.help (λ _. help_only)
        (λ _.
          if_rule Promises options.version (λ _. version_only)
            (λ _. check_view-Promises options.invalid_view_profile))

-- The settings that a mode runs with.
abbrev pub RunsWith : AppConfig → Start → Type 0
RunsWith c (runs_snapshots o config) = config ≡ c
RunsWith c (runs_screen o config) = config ≡ c
RunsWith c _ = ⊥

promised : (c : AppConfig) (s : Start) → Promises s → RunsWith c s → AreInRange c
promised c prints_help _ e = elim e [ ]
promised c prints_version _ e = elim e [ ]
promised c (exits _ _) _ e = elim e [ ]
promised c (runs_snapshots o config) (snapshots r) e = subst AreInRange e r
promised c (runs_screen o config) (screen r) e = subst AreInRange e r

-- With whatever arguments and whatever file the program starts, in the mode that it runs in the intervals and
-- the number of processes lie between their limits, and the sort direction is 1 or -1.
pub start-AreInRange :
    (disk : Disk) (w : Writing) (makes : AppConfig → Bool) (arguments : List Bytes) (c : AppConfig)
    → RunsWith c (start disk w makes arguments)
    → AreInRange c
unfolding start
start-AreInRange disk w makes arguments c h =
    promised c (start disk w makes arguments)
      (start_with-Promises disk w makes (parse_args arguments)) h
