-- ===== src/Config/Bounds.antt =====
-- src/config.cpp: whatever the file says, the numbers stay in the ranges that the program relies on.
use mtop.Base.{
  ℕ, ◌≤◌, Bool, not, ◌&&◌, if_rule, is_nil, beq, str, ◌≢◌, arith, List, [], ◌∷◌, Bytes, none, some,
  trim,
}
use mtop.Base.Int.{ℤ, pos, ◌≤ℤ◌, clamp_ℤ_bounds}
use mtop.Sorting.{SortMode, default_sort_direction}
use mtop.Sorting.Clicks.{IsDirection}
use mtop.Config.Files.{
  load_lines, load_file, load_config, config_path, Disk, File, missing, unreadable, readable,
  split_lines,
}
use mtop.Config.{
  AppConfig, is_skipped, default_config, parse_int, parse_sort_mode, parse_sort_direction, value_or,
  setting, apply_setting, parse_line, split_eq,
}

pub record InRange (c : AppConfig) : Type 0 where
  pub refresh : (pos 100 ≤ℤ c.refresh_ms) × (c.refresh_ms ≤ℤ pos 60000)
  pub limit : (pos 4 ≤ℤ c.process_limit) × (c.process_limit ≤ℤ pos 1000)
  pub root : (pos 250 ≤ℤ c.root_sample_ms) × (c.root_sample_ms ≤ℤ pos 60000)
  pub interval : (pos 100 ≤ℤ c.snapshot_interval_ms) × (c.snapshot_interval_ms ≤ℤ pos 60000)
  pub direction : IsDirection c.sort_direction
  pub named : c.theme ≢ []

default_sort_direction-IsDirection : (m : SortMode) → IsDirection (default_sort_direction m)
unfolding default_sort_direction
default_sort_direction-IsDirection m = ground arith

parse_sort_direction-IsDirection :
    (value : Bytes) (d : ℤ) → IsDirection d → IsDirection (parse_sort_direction value d)
unfolding parse_sort_direction
parse_sort_direction-IsDirection value d h = ground arith

-- The five fields that are bounded, by their values.
abbrev Bounds : ℤ → ℤ → ℤ → ℤ → ℤ → Bytes → Type 0
Bounds refresh limit root interval direction theme =
    ((pos 100 ≤ℤ refresh) × (refresh ≤ℤ pos 60000))
    × ((pos 4 ≤ℤ limit) × (limit ≤ℤ pos 1000))
    × ((pos 250 ≤ℤ root) × (root ≤ℤ pos 60000))
    × ((pos 100 ≤ℤ interval) × (interval ≤ℤ pos 60000))
    × IsDirection direction
    × (theme ≢ [])

abbrev IsBounded : AppConfig → Type 0
IsBounded c =
    Bounds c.refresh_ms c.process_limit c.root_sample_ms c.snapshot_interval_ms c.sort_direction
      c.theme

module _ (key value : Bytes) (c : AppConfig) (h : IsBounded c) where
  abbrev given : Bool
  given = not (is_nil value)

  setting_bounds :
      (current : ℤ) (lo hi : ℕ)
      → lo ≤ hi
      → (pos lo ≤ℤ setting value current lo hi) × (setting value current lo hi ≤ℤ pos hi)
  setting_bounds current lo hi le =
      clamp_ℤ_bounds (value_or (parse_int value) current) (pos lo) (pos hi) (omega arith)

  apply_setting-IsBounded : IsBounded (apply_setting key value c)
  unfolding apply_setting
  apply_setting-IsBounded =
      if_rule IsBounded (beq key (str "theme") && given)
        (λ e. (h.0, h.1, h.2, h.3, h.4, ground arith))
        λ _.
          if_rule IsBounded (beq key (str "refresh_ms") && given)
            (λ _. (setting_bounds c.refresh_ms 100 60000 (omega arith), h.1, h.2, h.3, h.4, h.5))
            λ _.
              if_rule IsBounded (beq key (str "process_limit") && given)
                (λ _.
                  (h.0, setting_bounds c.process_limit 4 1000 (omega arith), h.2, h.3, h.4, h.5))
                λ _.
                  if_rule IsBounded (beq key (str "demo_mode")) (λ _. h)
                    λ _.
                      if_rule IsBounded (beq key (str "root_sample_ms") && given)
                        (λ _. (
                          h.0,
                          h.1,
                          setting_bounds c.root_sample_ms 250 60000 (omega arith),
                          h.3,
                          h.4,
                          h.5,
                        ))
                        λ _.
                          if_rule IsBounded (beq key (str "snapshot_interval_ms") && given)
                            (λ _. (
                              h.0,
                              h.1,
                              h.2,
                              setting_bounds c.snapshot_interval_ms 100 60000 (omega arith),
                              h.4,
                              h.5,
                            ))
                            λ _.
                              if_rule IsBounded (beq key (str "show_cached_memory")) (λ _. h)
                                λ _.
                                  if_rule IsBounded (beq key (str "default_view") && given) (λ _. h)
                                    λ _.
                                      if_rule IsBounded (beq key (str "sort") && given)
                                        (λ _. (
                                          h.0,
                                          h.1,
                                          h.2,
                                          h.3,
                                          default_sort_direction-IsDirection
                                              (parse_sort_mode value c.sort),
                                          h.5,
                                        ))
                                        λ _.
                                          if_rule IsBounded
                                            (beq key (str "sort_direction") && given)
                                            (λ _. (
                                              h.0,
                                              h.1,
                                              h.2,
                                              h.3,
                                              parse_sort_direction-IsDirection value
                                                  c.sort_direction h.4,
                                              h.5,
                                            ))
                                            λ _.
                                              if_rule IsBounded
                                                (beq key (str "view_profile") && given) (λ _. h)
                                                (λ _. h)

parse_line-IsBounded : (line : Bytes) (c : AppConfig) → IsBounded c → IsBounded (parse_line line c)
unfolding parse_line
parse_line-IsBounded line c h =
    if_rule IsBounded (is_skipped line) (λ _. h)
      λ _.
        elim (split_eq line)
          as (λ o. IsBounded (elim o as (λ _. AppConfig) [
            | none ↦ c
            | some (key, value) ↦ apply_setting (trim key) (trim value) c
          ])) [ none ↦ h | some (key, value) ↦ apply_setting-IsBounded (trim key) (trim value) c h ]

load_lines-IsBounded : (ls : List Bytes) (c : AppConfig) → IsBounded c → IsBounded (load_lines ls c)
unfolding load_lines
load_lines-IsBounded [] c h = h
load_lines-IsBounded (l ∷ ls) c h =
    load_lines-IsBounded ls (parse_line (trim l) c) (parse_line-IsBounded (trim l) c h)

default_config-IsBounded : IsBounded default_config
unfolding str
default_config-IsBounded = ground arith

load_file-IsBounded : (f : File) → IsBounded (load_file f)
unfolding load_file
load_file-IsBounded missing = default_config-IsBounded
load_file-IsBounded unreadable = default_config-IsBounded
load_file-IsBounded (readable content) =
    load_lines-IsBounded (split_lines content) default_config default_config-IsBounded

-- Every configuration that is loaded, from any file or from none, is in range: the intervals and the
-- number of processes lie between their limits, the sort direction is 1 or -1, and the theme's name
-- is not empty.
pub load_config-InRange :
    (disk : Disk) (explicit_path : Bytes) → InRange (load_config disk explicit_path)
unfolding load_config
load_config-InRange disk explicit_path =
    let path = config_path disk explicit_path in
    let b =
      if_rule IsBounded (is_nil path) (λ _. default_config-IsBounded)
        (λ _. load_file-IsBounded (disk.file path)) in
    record { refresh = b.0; limit = b.1; root = b.2; interval = b.3; direction = b.4; named = b.5 }
