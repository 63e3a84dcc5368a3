-- ===== src/Memory/Pressure.antt =====
-- src/metrics.cpp: the pressure level, from the swap in use and the compressor.
use mtop.Base.{ℕ, ◌*◌, ◌/◌, ◌^◌, ◌≤◌, ◌<◌, true, false, ◌≡◌, ◌≢◌, ◌↔◌, ◌⊎◌, arith}
use mtop.Base.Double.{Double}
use mtop.Snapshot.{SystemSnapshot, MemoryPressureLevel}
use mtop.Memory.{
  pressure_index, reclaimable, severe_swap, moderate_swap, severe_compression, moderate_compression,
  derive_memory_pressure,
}

module _ {F : Type 0} ⦃d : Double F⦄ (s : SystemSnapshot F) where
  -- The levels: `unknown` exactly without a total; with one, `critical` exactly if 2 GiB and a twentieth of the
  -- memory are in swap, or the compressor's severe test holds; `normal` exactly if less than 512 MiB
  -- or less than a hundredth is in swap and neither test of the compressor holds.
  pub derive_memory_pressure_levels :
      ((derive_memory_pressure s ≡ MemoryPressureLevel.unknown) ↔ (s.memory_total_bytes ≡ 0))
      × ((derive_memory_pressure s ≡ MemoryPressureLevel.critical) ↔ (
          (s.memory_total_bytes ≢ 0)
          × (((2 * 2 ^ 30 ≤ s.swap_used_bytes) × (s.memory_total_bytes / 20 ≤ s.swap_used_bytes))
              ⊎ (severe_compression s ≡ true))))
      × ((derive_memory_pressure s ≡ MemoryPressureLevel.normal) ↔ (
          (s.memory_total_bytes ≢ 0)
          × ((s.swap_used_bytes < 512 * 2 ^ 20) ⊎ (s.swap_used_bytes < s.memory_total_bytes / 100))
          × (severe_compression s ≡ false)
          × (moderate_compression s ≡ false)))
  unfolding derive_memory_pressure severe_swap moderate_swap
  derive_memory_pressure_levels = ground arith

  -- More swap in use never lowers the level.
  derive_memory_pressure_mono :
      (used : ℕ)
      → s.swap_used_bytes ≤ used
      → pressure_index (derive_memory_pressure s)
        ≤ pressure_index (derive_memory_pressure (record s { swap_used_bytes = used }))
  unfolding derive_memory_pressure severe_swap moderate_swap severe_compression moderate_compression
      reclaimable
  derive_memory_pressure_mono used h = ground arith
