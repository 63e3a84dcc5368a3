-- ===== src/Memory.antt =====
-- src/memory_risk_model.cpp and src/metrics.cpp: how much trouble the machine's memory is in.
-- A std::uint64_t wraps at 2 ^ 64; a shift or a product of literals is written as its value.
pub mod Risk
pub mod Pressure
use mtop.Base.{
  ℕ, ◌+◌, ◌-◌, ◌*◌, ◌/◌, ◌%◌, ◌^◌, min, max, Bool, true, false, ◌&&◌, ◌||◌, ◌==◌, ltb, leb,
  if◌then◌else◌, List, [], ◌∷◌, Bytes, str,
}
use mtop.Base.Double.{Double, literal}
use mtop.Snapshot.{SystemSnapshot, MemoryPressureLevel, add_u64}
use mtop.Workload.{WorkloadSnapshot}

pub data MemoryRiskLevel : Type 0 where
  unknown ok watch warn critical : MemoryRiskLevel

pub record MemoryRiskSnapshot : Type 0 where
  pub level : MemoryRiskLevel
  pub reason : Bytes
  pub estimated_headroom_bytes : ℕ
  pub reclaimable_bytes : ℕ
  pub compressed_bytes : ℕ
  pub swap_used_bytes : ℕ
  pub swap_rate_bytes_per_sec : ℕ

unfoldable pub memory_risk_name : MemoryRiskLevel → Bytes
memory_risk_name MemoryRiskLevel.unknown = str "unknown"
memory_risk_name MemoryRiskLevel.ok = str "ok"
memory_risk_name MemoryRiskLevel.watch = str "watch"
memory_risk_name MemoryRiskLevel.warn = str "warn"
memory_risk_name MemoryRiskLevel.critical = str "critical"

unfoldable pub memory_risk_label : MemoryRiskLevel → Bytes
memory_risk_label MemoryRiskLevel.unknown = str "UNKNOWN"
memory_risk_label MemoryRiskLevel.ok = str "OK"
memory_risk_label MemoryRiskLevel.watch = str "WATCH"
memory_risk_label MemoryRiskLevel.warn = str "WARN"
memory_risk_label MemoryRiskLevel.critical = str "CRITICAL"

unfoldable pub percent_of : ℕ → ℕ → ℕ
percent_of value percent = value / 100 * percent % 2 ^ 64

-- the loop, with `total` as it stands
unfoldable pub rss_onto : {F : Type 0} → ℕ → List (WorkloadSnapshot F) → ℕ
rss_onto total [] = total
rss_onto total (w ∷ ws) = rss_onto (add_u64 total w.resident_bytes) ws

unfoldable pub workload_rss_total : {F : Type 0} → List (WorkloadSnapshot F) → ℕ
workload_rss_total = rss_onto 0

abbrev pub pressure_index : MemoryPressureLevel → ℕ
pressure_index MemoryPressureLevel.unknown = 0
pressure_index MemoryPressureLevel.normal = 1
pressure_index MemoryPressureLevel.warn = 2
pressure_index MemoryPressureLevel.critical = 3

module _ {F : Type 0} where
  -- `recent_history.front()` is the oldest sample.
  unfoldable pub compressed_rising : SystemSnapshot F → List (SystemSnapshot F) → Bool
  compressed_rising s [] = ltb 0 s.memory_compressed_bytes
  compressed_rising s (oldest ∷ _) = ltb oldest.memory_compressed_bytes s.memory_compressed_bytes

  unfoldable pub swap_used_increasing : SystemSnapshot F → List (SystemSnapshot F) → Bool
  swap_used_increasing s [] = ltb 0 s.swap_used_bytes
  swap_used_increasing s (oldest ∷ _) = ltb oldest.swap_used_bytes s.swap_used_bytes

  unfoldable pub totals_unavailable : SystemSnapshot F → Bool
  totals_unavailable s =
      s.memory_total_bytes == 0
      || (s.memory_wired_bytes == 0 && s.memory_active_bytes == 0 && s.memory_used_bytes == 0)

  unfoldable pub reclaimable : SystemSnapshot F → ℕ
  reclaimable s =
      add_u64 (add_u64 s.memory_inactive_bytes s.memory_speculative_bytes) s.memory_purgeable_bytes

  unfoldable pub estimated_headroom : SystemSnapshot F → ℕ
  estimated_headroom s =
      let reclaim_credit = min (reclaimable s) (percent_of s.memory_total_bytes 20) in
      let strict_used =
        add_u64 (add_u64 s.memory_wired_bytes s.memory_active_bytes) s.memory_compressed_bytes in
      if ltb strict_used s.memory_total_bytes
      then add_u64 (s.memory_total_bytes - strict_used) reclaim_credit
      else reclaim_credit

  -- The snapshot before a level is chosen.
  abbrev pub measured : SystemSnapshot F → ℕ → MemoryRiskLevel → Bytes → MemoryRiskSnapshot
  measured s headroom level reason = record {
    level = level;
    reason = reason;
    estimated_headroom_bytes = headroom;
    reclaimable_bytes = reclaimable s;
    compressed_bytes = s.memory_compressed_bytes;
    swap_used_bytes = s.swap_used_bytes;
    swap_rate_bytes_per_sec = add_u64 s.swapins_bytes_per_sec s.swapouts_bytes_per_sec;
  }

  -- The ladder behind the early return; 16 MiB is `16ULL << 20`.
  unfoldable pub risk_ladder :
      SystemSnapshot F → List (SystemSnapshot F) → List (WorkloadSnapshot F) → MemoryRiskSnapshot
  risk_ladder s recent_history workloads =
      let headroom = estimated_headroom s in
      let risk = measured s headroom in
      let total = s.memory_total_bytes in
      let any_swap_rate = ltb 0 (add_u64 s.swapins_bytes_per_sec s.swapouts_bytes_per_sec) in
      if pressure_index s.memory_pressure == 3
      then risk MemoryRiskLevel.critical (str "memory pressure critical")
      else if leb (16 * 2 ^ 20) s.swapouts_bytes_per_sec
      then risk MemoryRiskLevel.critical (str "swapout rate rising")
      else if ltb headroom (percent_of total 5) && compressed_rising s recent_history
      then risk MemoryRiskLevel.critical (str "estimated headroom below 5% with compression rising")
      else if pressure_index s.memory_pressure == 2
      then risk MemoryRiskLevel.warn (str "memory pressure warn")
      else if swap_used_increasing s recent_history && any_swap_rate
      then risk MemoryRiskLevel.warn (str "swap used increasing with active paging")
      else if ltb headroom (percent_of total 10)
      then risk MemoryRiskLevel.warn (str "estimated headroom below 10%")
      else if ltb (percent_of total 10) s.memory_compressed_bytes
      then risk MemoryRiskLevel.watch (str "compressed memory above 10%")
      else if ltb (total / 2) (workload_rss_total workloads)
      then risk MemoryRiskLevel.watch (str "workload RSS above 50% of memory")
      else if ltb headroom (percent_of total 20)
      then risk MemoryRiskLevel.watch (str "estimated headroom below 20%")
      else risk MemoryRiskLevel.ok (str "memory headroom healthy")

  unfoldable pub derive_memory_risk :
      SystemSnapshot F → List (SystemSnapshot F) → List (WorkloadSnapshot F) → MemoryRiskSnapshot
  derive_memory_risk s recent_history workloads =
      if totals_unavailable s
      then measured s 0 MemoryRiskLevel.unknown (str "memory totals unavailable")
      else risk_ladder s recent_history workloads

module _ {F : Type 0} where
  unfoldable pub severe_swap : SystemSnapshot F → Bool
  severe_swap s = leb (max (2 * 2 ^ 30) (s.memory_total_bytes / 20)) s.swap_used_bytes

  unfoldable pub moderate_swap : SystemSnapshot F → Bool
  moderate_swap s = leb (max (512 * 2 ^ 20) (s.memory_total_bytes / 100)) s.swap_used_bytes

module _ {F : Type 0} ⦃d : Double F⦄ where
  unfoldable pub fraction_of_total : ℕ → ℕ → F
  fraction_of_total bytes total =
      if total == 0 then d.of_nat 0 else d.div (d.of_nat bytes) (d.of_nat total)

  -- `x >= y` is `y <= x`.
  unfoldable pub severe_compression : SystemSnapshot F → Bool
  severe_compression s =
      let total = s.memory_total_bytes in
      d.le (literal 20 100) (fraction_of_total s.memory_compressed_bytes total)
      && d.le (fraction_of_total (reclaimable s) total) (literal 8 100)
      && d.le (literal 50 100)
          (fraction_of_total (add_u64 s.memory_active_bytes s.memory_wired_bytes) total)

  unfoldable pub moderate_compression : SystemSnapshot F → Bool
  moderate_compression s =
      let total = s.memory_total_bytes in
      d.le (literal 10 100) (fraction_of_total s.memory_compressed_bytes total)
      && d.le (fraction_of_total (reclaimable s) total) (literal 16 100)
      && d.le (literal 45 100)
          (fraction_of_total (add_u64 s.memory_active_bytes s.memory_wired_bytes) total)

  unfoldable pub derive_memory_pressure : SystemSnapshot F → MemoryPressureLevel
  derive_memory_pressure s =
      if s.memory_total_bytes == 0
      then MemoryPressureLevel.unknown
      else if severe_swap s || severe_compression s
      then MemoryPressureLevel.critical
      else if moderate_swap s || moderate_compression s
      then MemoryPressureLevel.warn
      else MemoryPressureLevel.normal

unfoldable pub memory_pressure_label : MemoryPressureLevel → Bytes
memory_pressure_label MemoryPressureLevel.unknown = str "Unknown"
memory_pressure_label MemoryPressureLevel.normal = str "Normal"
memory_pressure_label MemoryPressureLevel.warn = str "Warn"
memory_pressure_label MemoryPressureLevel.critical = str "Critical"
