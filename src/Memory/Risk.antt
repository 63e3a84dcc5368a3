-- ===== src/Memory/Risk.antt =====
-- src/memory_risk_model.cpp: the headroom estimate and the ladder of levels.
use mtop.Base.{
  ℕ, ◌+◌, ◌-◌, ◌*◌, ◌/◌, ◌^◌, ◌≤◌, ◌<◌, min, true, false, ◌≡◌, ◌⊎◌, arith, refl, List, [], ◌∷◌,
}
use mtop.Snapshot.{SystemSnapshot, MemoryPressureLevel, add_u64}
use mtop.Workload.{WorkloadSnapshot}
use mtop.Memory.{
  MemoryRiskLevel, percent_of, workload_rss_total, pressure_index, compressed_rising,
  swap_used_increasing, totals_unavailable, reclaimable, estimated_headroom, risk_ladder,
  derive_memory_risk,
}

module _ {F : Type 0} where
  -- Sizes whose sums fit a std::uint64_t, on a machine with less than 2 ^ 63 bytes.
  pub record Fits (s : SystemSnapshot F) : Type 0 where
    pub total_fits : s.memory_total_bytes < 2 ^ 63
    pub used_fits :
        s.memory_wired_bytes + s.memory_active_bytes + s.memory_compressed_bytes < 2 ^ 64
    pub reclaimable_fits :
        s.memory_inactive_bytes + s.memory_speculative_bytes + s.memory_purgeable_bytes < 2 ^ 64

  -- Where nothing overflows, the headroom is the memory that is not in use, or nothing if more is in
  -- use than there is, and on top what can be reclaimed, up to 20 hundredths of the total.
  estimated_headroom_lem :
      (s : SystemSnapshot F)
      → Fits s
      → estimated_headroom s
        ≡ s.memory_total_bytes
          - (s.memory_wired_bytes + s.memory_active_bytes + s.memory_compressed_bytes)
          + min
              (s.memory_inactive_bytes + s.memory_speculative_bytes + s.memory_purgeable_bytes)
              (s.memory_total_bytes / 100 * 20)
  unfolding estimated_headroom reclaimable percent_of add_u64
  estimated_headroom_lem s h = ground arith

abbrev pub severity : MemoryRiskLevel → ℕ
severity MemoryRiskLevel.unknown = 0
severity MemoryRiskLevel.ok = 1
severity MemoryRiskLevel.watch = 2
severity MemoryRiskLevel.warn = 3
severity MemoryRiskLevel.critical = 4

module _ {F : Type 0} where
  -- The signs for each level, in words of the measurements.
  abbrev pub CriticalSign : SystemSnapshot F → List (SystemSnapshot F) → Type 0
  CriticalSign s recent_history =
      (s.memory_pressure ≡ MemoryPressureLevel.critical)
      ⊎ (16 * 2 ^ 20 ≤ s.swapouts_bytes_per_sec)
      ⊎ ((estimated_headroom s < percent_of s.memory_total_bytes 5)
          × (compressed_rising s recent_history ≡ true))

  abbrev pub WarnSign : SystemSnapshot F → List (SystemSnapshot F) → Type 0
  WarnSign s recent_history =
      (s.memory_pressure ≡ MemoryPressureLevel.warn)
      ⊎ ((swap_used_increasing s recent_history ≡ true)
          × (0 < add_u64 s.swapins_bytes_per_sec s.swapouts_bytes_per_sec))
      ⊎ (estimated_headroom s < percent_of s.memory_total_bytes 10)

  abbrev pub WatchSign : SystemSnapshot F → List (WorkloadSnapshot F) → Type 0
  WatchSign s workloads =
      (percent_of s.memory_total_bytes 10 < s.memory_compressed_bytes)
      ⊎ (s.memory_total_bytes / 2 < workload_rss_total workloads)
      ⊎ (estimated_headroom s < percent_of s.memory_total_bytes 20)

  -- The snapshot's level is the worst one that a sign speaks for, and `ok` if none does.
  pub data Justified (s : SystemSnapshot F) (h : List (SystemSnapshot F))
      (ws : List (WorkloadSnapshot F)) : MemoryRiskLevel → Type 0 where
    is_unknown : totals_unavailable s ≡ true → Justified s h ws MemoryRiskLevel.unknown
    is_critical :
        totals_unavailable s ≡ false → CriticalSign s h → Justified s h ws MemoryRiskLevel.critical
    is_warn :
        totals_unavailable s ≡ false
        → ¬ CriticalSign s h
        → WarnSign s h
        → Justified s h ws MemoryRiskLevel.warn
    is_watch :
        totals_unavailable s ≡ false
        → ¬ CriticalSign s h
        → ¬ WarnSign s h
        → WatchSign s ws
        → Justified s h ws MemoryRiskLevel.watch
    is_ok :
        totals_unavailable s ≡ false
        → ¬ CriticalSign s h
        → ¬ WarnSign s h
        → ¬ WatchSign s ws
        → Justified s h ws MemoryRiskLevel.ok

abbrev pub worsen : {F : Type 0} → SystemSnapshot F → ℕ → ℕ → MemoryPressureLevel → SystemSnapshot F
worsen s rate used pressure = record s {
  swapouts_bytes_per_sec = rate;
  swap_used_bytes = used;
  memory_pressure = pressure;
}

module _ {F : Type 0} (s : SystemSnapshot F) (rate used : ℕ) (pressure : MemoryPressureLevel) where
  estimated_headroom-worsen :
      estimated_headroom (worsen s rate used pressure) ≡ estimated_headroom s
  unfolding estimated_headroom reclaimable
  estimated_headroom-worsen = refl

  compressed_rising-worsen :
      (h : List (SystemSnapshot F))
      → compressed_rising (worsen s rate used pressure) h ≡ compressed_rising s h
  unfolding compressed_rising
  compressed_rising-worsen [] = refl
  compressed_rising-worsen (o ∷ h) = refl

  totals_unavailable-worsen :
      totals_unavailable (worsen s rate used pressure) ≡ totals_unavailable s
  unfolding totals_unavailable
  totals_unavailable-worsen = refl

  swap_used_increasing-worsen :
      (h : List (SystemSnapshot F))
      → s.swap_used_bytes ≤ used
      → swap_used_increasing s h ≡ true
      → swap_used_increasing (worsen s rate used pressure) h ≡ true
  unfolding swap_used_increasing
  swap_used_increasing-worsen [] k e = ground arith
  swap_used_increasing-worsen (o ∷ h) k e = ground arith

  -- Heavier swapping or a worse pressure level never lowers the risk level, if the two swap rates
  -- fit a std::uint64_t together.
  derive_memory_risk_mono :
      (h : List (SystemSnapshot F)) (ws : List (WorkloadSnapshot F))
      → s.swapouts_bytes_per_sec ≤ rate
      → s.swapins_bytes_per_sec + rate < 2 ^ 64
      → s.swap_used_bytes ≤ used
      → pressure_index s.memory_pressure ≤ pressure_index pressure
      → severity (derive_memory_risk s h ws).level
        ≤ severity (derive_memory_risk (worsen s rate used pressure) h ws).level
  unfolding derive_memory_risk risk_ladder add_u64
  derive_memory_risk_mono h ws a b c p = ground (
    arith,
    estimated_headroom-worsen,
    compressed_rising-worsen h,
    totals_unavailable-worsen,
    swap_used_increasing-worsen h c,
  )
