-- ===== src/Plot/Populate.antt =====
-- src/main.cpp: the two histories of a plot as the columns that draw it, `populate_nvtop_plot_data`.
use mtop.Base.{
  ℕ, zero, suc, ◌+◌, ◌-◌, ◌*◌, ◌/◌, ◌==◌, if◌then◌else◌, max, min, List, [], ◌∷◌, length, replicate,
  Option, none, some,
}
use mtop.Base.Double.{Double}
use mtop.Base.Int.{ℤ, pos, pos_part, leb_ℤ}
use mtop.Plot.{resample_history}

pub record PlotData (F : Type 0) : Type 0 where
  pub plot_data : List F
  pub visible_seconds : ℕ
  pub plot_cols_used : ℕ

abbrev behind : {F : Type 0} → F → Option (List F) → Option (List F)
behind sample none = none
behind sample (some samples) = some (sample ∷ samples)

-- `data[index] = value`; nothing is a write behind the end, which is not defined
unfoldable pub write_at : {F : Type 0} → List F → ℕ → F → Option (List F)
write_at [] index value = none
write_at (sample ∷ samples) zero value = some (value ∷ samples)
write_at (sample ∷ samples) (suc index) value = behind sample (write_at samples index value)

-- the last loop, from the offset on
unfoldable pub write_pairs : {F : Type 0} → List F → ℕ → List F → List F → Option (List F)
unfolding write_at
write_pairs plot offset (util ∷ utils) (secondary ∷ secondaries) =
    elim (write_at plot offset util) [
      | none ↦ none
      | some first ↦ elim (write_at first (offset + 1) secondary) [
        | none ↦ none
        | some second ↦ write_pairs second (offset + 2) utils secondaries
      ]
    ]
write_pairs plot offset _ _ = some plot

abbrev pub sample_points : ℕ → ℕ
sample_points cols = max 1 (cols / 2)

abbrev pub raw_samples_available : ℕ → ℕ → ℕ → ℕ
raw_samples_available gpu_size secondary_size refresh_ms =
    min (min gpu_size secondary_size) (max 1 (60000 / max 100 refresh_ms))

abbrev pub visible_seconds : ℕ → ℕ → ℕ
visible_seconds cols refresh_ms = min 60 (max 1 (sample_points cols * refresh_ms / 1000))

module _ {F : Type 0} ⦃d : Double F⦄ where
  -- the columns of the plot, of which there is at least one
  unfoldable pub fill_columns : List F → List F → ℕ → ℕ → Option (List F)
  unfolding write_pairs resample_history
  fill_columns gpu_history secondary_history raw cols =
      let buckets = min (sample_points cols) raw in
      if raw == 0
      then some (replicate cols (d.of_nat 0))
      else write_pairs (replicate cols (d.of_nat 0)) ((sample_points cols - buckets) * 2)
          (resample_history gpu_history buckets raw)
          (resample_history secondary_history buckets raw)

  abbrev pub plot_of : ℕ → ℕ → Option (List F) → Option (PlotData F)
  plot_of seconds cols none = none
  plot_of seconds cols (some plot) =
      some (record { plot_data = plot; visible_seconds = seconds; plot_cols_used = cols })

  unfoldable pub populate_nvtop_plot_data : List F → List F → ℕ → ℤ → Option (PlotData F)
  unfolding fill_columns
  populate_nvtop_plot_data gpu_history secondary_history refresh_ms max_plot_cols =
      let cols = pos_part max_plot_cols in
      let raw = raw_samples_available (length gpu_history) (length secondary_history) refresh_ms in
      if leb_ℤ max_plot_cols (pos 0)
      then plot_of 0 cols (some [])
      else plot_of (visible_seconds cols refresh_ms) cols
          (fill_columns gpu_history secondary_history raw cols)
