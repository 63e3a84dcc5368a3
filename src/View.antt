-- ===== src/View.antt =====
-- include/monitor/ui/view_profile.hpp, include/monitor/ui_support.hpp, src/view_profile.cpp and
-- src/ui_support.cpp: the profiles, the views, and the labels that the screens and the JSON share.
pub mod Cycle
use mtop.Base.{
  ℕ, zero, suc, ◌+◌, ◌-◌, ◌%◌, Bool, true, false, ◌&&◌, ◌==◌, ltb, if◌then◌else◌, List, [], ◌∷◌,
  ◌++◌, Option, none, some, get_elem?, is_nil, Bytes, str, beq, trim, lowercase, decimal,
}
use mtop.Base.Double.{Double, literal}
use mtop.Base.Int.{ℤ, pos, negsuc, ◌+ℤ◌}
use mtop.Snapshot.{
  MetricAvailability, available, requires_root, unsupported_hardware, unsupported_os,
  permission_denied, waiting, stale, parse_failed, unavailable, MetricStatus,
}

pub data ViewProfile : Type 0 where
  alpha beta : ViewProfile

unfoldable pub view_profile_name : ViewProfile → Bytes
view_profile_name alpha = str "alpha"
view_profile_name beta = str "beta"

unfoldable pub view_profile_label : ViewProfile → Bytes
view_profile_label alpha = str "Alpha"
view_profile_label beta = str "Beta"

unfoldable pub trim_lower : Bytes → Bytes
trim_lower value = lowercase (trim value)

unfoldable pub parse_view_profile : Bytes → Option ViewProfile
parse_view_profile value =
    let lowered = trim_lower value in
    if beq lowered (str "alpha")
    then some alpha
    else if beq lowered (str "beta")
    then some beta
    else none

pub data ViewMode : Type 0 where
  overview system_io gpu_active : ViewMode

unfoldable pub view_mode_label : ViewMode → Bytes
view_mode_label overview = str "Overview"
view_mode_label system_io = str "System I/O"
view_mode_label gpu_active = str "GPU Active"

-- the position of a mode in `kModes`, and the mode at a position
abbrev pub mode_index : ViewMode → ℕ
mode_index overview = 0
mode_index system_io = 1
mode_index gpu_active = 2

abbrev pub mode_at : ℕ → ViewMode
mode_at zero = overview
mode_at (suc zero) = system_io
mode_at (suc (suc n)) = gpu_active

-- % on int takes the sign of its left side; a negative remainder is brought up by `size`.
abbrev pub wrap_index : ℤ → ℕ
wrap_index (pos n) = n % 3
wrap_index (negsuc n) = (3 - (n + 1) % 3) % 3

unfoldable pub cycle_view_mode : ViewMode → ℤ → ViewMode
unfolding ◌+ℤ◌
cycle_view_mode mode delta = mode_at (wrap_index (pos (mode_index mode) +ℤ delta))

unfoldable pub metric_availability_label : MetricAvailability → Bytes
metric_availability_label available = str "ok"
metric_availability_label requires_root = str "root"
metric_availability_label unsupported_hardware = str "hw"
metric_availability_label unsupported_os = str "os"
metric_availability_label permission_denied = str "denied"
metric_availability_label waiting = str "wait"
metric_availability_label stale = str "stale"
metric_availability_label parse_failed = str "parse"
metric_availability_label unavailable = str "n/a"

unfoldable pub metric_status_label : MetricStatus → Bytes
metric_status_label status =
    let label = metric_availability_label status.availability in
    if is_nil status.reason then label else label ++ (str ": " ++ status.reason)

abbrev unit_at : ℕ → Bytes
unit_at n =
    elim (get_elem? (str "B/s" ∷ str "Ki/s" ∷ str "Mi/s" ∷ str "Gi/s" ∷ str "Ti/s" ∷ []) n) [
      | none ↦ []
      | some u ↦ u
    ]

module _ {F : Type 0} ⦃d : Double F⦄ where
  -- `while (current >= 1024.0 && unit + 1 < 5)`: four rounds at most.
  unfoldable pub scale_down : ℕ → F → ℕ → F × ℕ
  scale_down zero current unit = (current, unit)
  scale_down (suc rounds) current unit =
      let next = scale_down rounds (d.div current (d.of_nat 1024)) (suc unit) in
      if d.le (d.of_nat 1024) current then next else (current, unit)

module _ (F : Type 0) ⦃d : Double F⦄ where
  unfoldable pub compact_rate : ℕ → Bytes
  unfolding scale_down
  compact_rate value =
      let (current, unit) = scale_down {F = F} 4 (d.of_nat value) 0 in
      if unit == 0
      then decimal value ++ unit_at unit
      else if d.le (d.of_nat 10) current
      then d.fixed 0 current ++ unit_at unit
      else d.fixed 1 current ++ unit_at unit

  unfoldable pub format_throughput_rate : Bool → ℕ → Bytes
  unfolding compact_rate
  format_throughput_rate is_available bytes_per_sec =
      if is_available then compact_rate bytes_per_sec else str "n/a"

  unfoldable pub format_throughput_pair : Bool → ℕ → ℕ → Bytes
  unfolding format_throughput_rate
  format_throughput_pair is_available first second =
      if is_available
      then format_throughput_rate true first ++ (str " / " ++ format_throughput_rate true second)
      else str "n/a"

  unfoldable pub format_labeled_throughput_summary :
      Bytes → Bytes → ℕ → Bytes → ℕ → Bool → Bool → Bytes
  unfolding format_throughput_rate
  format_labeled_throughput_summary prefix first_label first second_label second is_available
        compact =
      let gap = if compact then str " " else str "  " in
      if is_available
      then prefix
        ++ (gap
            ++ (first_label
                ++ (str " "
                    ++ (format_throughput_rate true first
                        ++ (gap
                            ++ (second_label
                                ++ (str " " ++ format_throughput_rate true second)))))))
      else prefix ++ (if compact then str " n/a" else str " unavailable")
