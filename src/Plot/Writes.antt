-- ===== src/Plot/Writes.antt =====
-- src/main.cpp: no sample of a plot is written behind the end of the data.
use mtop.Base.{
  ◌||◌, is_nil, true, false, subst, length-replicate, ℕ, zero, suc, ◌+◌, ◌-◌, ◌*◌, ◌≤◌, ◌<◌, ◌==◌,
  ◌≡◌, ◌≢◌, refl, arith, min, if_rule, List, [], ◌∷◌, length, replicate, Option, some,
}
use mtop.Base.Double.{Double}
use mtop.Base.Int.{ℤ, pos, pos_part, leb_ℤ}
use mtop.Plot.{means, resample_history}
use mtop.Plot.Populate.{
  plot_of, visible_seconds, PlotData, write_at, write_pairs, sample_points, raw_samples_available,
  fill_columns, populate_nvtop_plot_data,
}

not_wide : (n : ℤ) → leb_ℤ n (pos 0) ≡ true → 0 ≡ pos_part n
not_wide n h = ground arith

wide_enough : (n : ℤ) → n ≢ pos 1 → leb_ℤ n (pos 0) ≡ false → 2 ≤ pos_part n
wide_enough n h k = ground arith

-- The writes stay within the data, and its size.
abbrev pub Fits : {F : Type 0} → ℕ → Option (List F) → Type 0
Fits {F} size result = (filled : List F) × (result ≡ some filled) × (length filled ≡ size)

module _ {F : Type 0} where
  write_at-Fits :
      (filled : List F) (index : ℕ) (value : F)
      → index < length filled
      → Fits (length filled) (write_at filled index value)
  unfolding write_at
  write_at-Fits [] index value h = absurd (omega (arith, h))
  write_at-Fits (sample ∷ samples) zero value h = (value ∷ samples, refl, refl)
  write_at-Fits (sample ∷ samples) (suc index) value h =
      let (filled, e, l) = write_at-Fits samples index value (omega (arith, h)) in
      rw (e) (sample ∷ filled, refl, omega (arith, l))

  write_pairs-Fits :
      (filled : List F) (offset : ℕ) (utils secondaries : List F)
      → offset + length utils * 2 ≤ length filled
      → Fits (length filled) (write_pairs filled offset utils secondaries)
  unfolding write_pairs
  write_pairs-Fits filled offset [] secondaries h = (filled, refl, refl)
  write_pairs-Fits filled offset (util ∷ utils) [] h = (filled, refl, refl)
  write_pairs-Fits filled offset (util ∷ utils) (secondary ∷ secondaries) h =
      let (first, e, l) = write_at-Fits filled offset util (omega (arith, h)) in
      let (second, f, m) = write_at-Fits first (offset + 1) secondary (omega (arith, h, l)) in
      let (rest, g, n) =
        write_pairs-Fits second (offset + 2) utils secondaries (omega (arith, h, l, m)) in
      rw (write_pairs, e, f) (rest, g, omega (arith, l, m, n))

module _ {F : Type 0} ⦃d : Double F⦄ where
  length-means :
      (history : List F) (start visible sample_count left bucket : ℕ)
      → length (means history start visible sample_count left bucket) ≡ left
  unfolding means
  length-means history start visible sample_count zero bucket = refl
  length-means history start visible sample_count (suc left) bucket =
      omega (arith, length-means history start visible sample_count left (suc bucket))

  length-resample_history :
      (history : List F) (sample_count max_visible : ℕ)
      → length (resample_history history sample_count max_visible) ≡ sample_count
  unfolding resample_history
  length-resample_history history sample_count max_visible =
      let visible = min max_visible (length history) in
      if_rule (λ (xs : List F). length xs ≡ sample_count)
        (sample_count == 0 || (max_visible == 0 || is_nil history))
        (λ _. length-replicate sample_count (d.of_nat 0))
        (λ _. length-means history (length history - visible) visible sample_count sample_count 0)

  fill_columns-Fits :
      (gpu_history secondary_history : List F) (raw cols : ℕ)
      → 2 ≤ cols
      → Fits cols (fill_columns gpu_history secondary_history raw cols)
  unfolding fill_columns
  fill_columns-Fits gpu_history secondary_history raw cols h =
      let zeros = replicate cols (d.of_nat 0) in
      let buckets = min (sample_points cols) raw in
      let l = length-replicate cols (d.of_nat 0) in
      let filled =
        write_pairs zeros ((sample_points cols - buckets) * 2)
          (resample_history gpu_history buckets raw)
          (resample_history secondary_history buckets raw) in
      if_rule (Fits cols) (raw == 0) (λ _. (zeros, refl, l))
        (λ _.
          subst (λ n. Fits {F = F} n filled) l
            (write_pairs-Fits zeros ((sample_points cols - buckets) * 2)
              (resample_history gpu_history buckets raw)
              (resample_history secondary_history buckets raw)
              (omega (arith, h, l, length-resample_history gpu_history buckets raw))))

  -- What a plot is filled to: a result, as long as the plot is wide.
  abbrev pub IsFilled : ℕ → Option (PlotData F) → Type 0
  IsFilled cols result =
      (plot : PlotData F) × (result ≡ some plot)
      × (length plot.plot_data ≡ cols)
      × (plot.plot_cols_used ≡ cols)

  plot_of-IsFilled :
      (seconds cols : ℕ) (result : Option (List F))
      → Fits cols result
      → IsFilled cols (plot_of seconds cols result)
  plot_of-IsFilled seconds cols result (filled, e, l) = rw (e) (
    record { plot_data = filled; visible_seconds = seconds; plot_cols_used = cols },
    refl,
    l,
    refl,
  )

  -- But for a plot of one column, every write stays within the data of the plot, whatever the histories and
  -- the interval; the data is as long as the plot is wide.
  pub populate_nvtop_plot_data-IsFilled :
      (gpu_history secondary_history : List F) (refresh_ms : ℕ) (max_plot_cols : ℤ)
      → max_plot_cols ≢ pos 1
      → IsFilled
          (pos_part max_plot_cols)
          (populate_nvtop_plot_data gpu_history secondary_history refresh_ms max_plot_cols)
  unfolding populate_nvtop_plot_data
  populate_nvtop_plot_data-IsFilled gpu_history secondary_history refresh_ms max_plot_cols h =
      let cols = pos_part max_plot_cols in
      let raw = raw_samples_available (length gpu_history) (length secondary_history) refresh_ms in
      if_rule (IsFilled cols) (leb_ℤ max_plot_cols (pos 0))
        (λ none_wide.
          plot_of-IsFilled 0 cols (some []) ([], refl, (not_wide max_plot_cols none_wide)))
        (λ wide. plot_of-IsFilled (visible_seconds cols refresh_ms) cols _ (
          fill_columns-Fits gpu_history secondary_history raw cols
            (wide_enough max_plot_cols h wide)))
