-- ===== src/Plot.antt =====
-- src/main.cpp: the histories that the plots show, and how many samples of them stand for one column. Sizes are
-- numbers without a sign: all the calls give such.
pub mod Slices
pub mod Groups
pub mod Populate
pub mod Writes
use mtop.Base.{
  ℕ, zero, suc, ◌+◌, ◌-◌, ◌*◌, ◌/◌, ◌==◌, ◌||◌, if◌then◌else◌, max, min, List, [], ◌∷◌, ◌++◌,
  length, take, drop, replicate, is_nil, Bool, true, false,
}
use mtop.Base.Double.{Double}
use mtop.Screen.Actions.{trim_history}
use mtop.Snapshot.{SystemSnapshot}

pub record IoHistory (F : Type 0) : Type 0 where
  pub disk_read : List F
  pub disk_write : List F
  pub paging_in : List F
  pub paging_out : List F
  pub net_rx : List F
  pub net_tx : List F

module _ {F : Type 0} ⦃d : Double F⦄ where
  -- a push_back, and the trimming that follows it
  unfoldable pub push_sample : List F → F → ℕ → List F
  unfolding trim_history
  push_sample history sample limit = trim_history (history ++ (sample ∷ [])) limit

  unfoldable pub append_io_history : IoHistory F → SystemSnapshot F → ℕ → IoHistory F
  unfolding push_sample
  append_io_history history snapshot limit = record {
    disk_read = push_sample history.disk_read (d.of_nat snapshot.disk_io.read_bytes_per_sec) limit;
    disk_write =
        push_sample history.disk_write (d.of_nat snapshot.disk_io.write_bytes_per_sec) limit;
    paging_in =
        push_sample history.paging_in (d.of_nat snapshot.paging_io.pageins_bytes_per_sec) limit;
    paging_out =
        push_sample history.paging_out (d.of_nat snapshot.paging_io.pageouts_bytes_per_sec) limit;
    net_rx = push_sample history.net_rx (d.of_nat snapshot.network_io.rx_bytes_per_sec) limit;
    net_tx = push_sample history.net_tx (d.of_nat snapshot.network_io.tx_bytes_per_sec) limit;
  }

-- `max_history` of the main loop
abbrev pub max_history : ℕ → ℕ
max_history refresh_ms = max 60 (60000 / max 100 refresh_ms)

unfoldable pub slice_start : ℕ → ℕ → ℕ → ℕ → ℕ
slice_start start visible sample_count bucket = start + bucket * visible / sample_count

-- The samples that the inner loop goes through.
unfoldable pub slice : {F : Type 0} → List F → ℕ → ℕ → ℕ → ℕ → List F
unfolding slice_start
slice history start visible sample_count bucket =
    let from = slice_start start visible sample_count bucket in
    let end = max (from + 1) (slice_start start visible sample_count (suc bucket)) in
    take (end - from) (drop from history)

module _ {F : Type 0} ⦃d : Double F⦄ where
  -- the sum of the inner loop
  unfoldable pub sum_from : F → List F → F
  sum_from sum [] = sum
  sum_from sum (sample ∷ samples) = sum_from (d.add sum sample) samples

  unfoldable pub mean : List F → F
  unfolding sum_from
  mean samples =
      if is_nil samples
      then d.of_nat 0
      else d.div (sum_from (d.of_nat 0) samples) (d.of_nat (length samples))

  -- the loop over the buckets; `left` counts those that are left
  unfoldable pub means : List F → ℕ → ℕ → ℕ → ℕ → ℕ → List F
  unfolding slice mean
  means history start visible sample_count zero bucket = []
  means history start visible sample_count (suc left) bucket =
      mean (slice history start visible sample_count bucket)
      ∷ means history start visible sample_count left (suc bucket)

  unfoldable pub resample_history : List F → ℕ → ℕ → List F
  unfolding means
  resample_history history sample_count max_visible_raw_samples =
      let visible = min max_visible_raw_samples (length history) in
      if sample_count == 0 || (max_visible_raw_samples == 0 || is_nil history)
      then replicate sample_count (d.of_nat 0)
      else means history (length history - visible) visible sample_count sample_count 0
