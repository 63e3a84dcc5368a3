-- ===== src/Examples/Drawn.antt =====
-- The theorems on the windows and the plots at concrete sizes.
use mtop.Base.{map, All, ◌/◌, ◌≢◌, ℕ, ◌-◌, ◌≡◌, arith, List, [], ◌∷◌, length, drop}
use mtop.Layout.{create_windows}
use mtop.Layout.Tiles.{Tiles, create_windows-Tiles}
use mtop.Plot.{resample_history}
use mtop.Base.Int.{pos}
use mtop.Examples.Fixtures.{whole_double}
use mtop.Plot.Populate.{populate_nvtop_plot_data}
use mtop.Plot.Writes.{IsFilled, populate_nvtop_plot_data-IsFilled}
use mtop.Plot.Groups.{average, IsEven, resample_history-groups}
use mathlib.Core.List.{flatten}

create_windows-Tiles_example : Tiles 24 61 (create_windows 24 61)
create_windows-Tiles_example = create_windows-Tiles 24 61 (omega arith) (omega arith)

abbrev history : List ℕ
history = 9 ∷ 4 ∷ 7 ∷ 1 ∷ 8 ∷ 2 ∷ []

-- Five of six samples on three columns.
resample_history-groups_example :
    (gs : List (List ℕ)) × (resample_history history 3 5 ≡ map average gs)
    × (length gs ≡ 3)
    × (flatten gs ≡ drop (6 - 5) history)
    × All (IsEven (5 / 3)) gs
resample_history-groups_example = resample_history-groups history 3 5 (omega arith) (omega arith)

wide_plot : pos 9 ≢ pos 1
wide_plot = ground arith

populate_nvtop_plot_data-IsFilled_example :
    IsFilled 9 (populate_nvtop_plot_data history (5 ∷ 5 ∷ 6 ∷ []) 500 (pos 9))
populate_nvtop_plot_data-IsFilled_example =
    populate_nvtop_plot_data-IsFilled history (5 ∷ 5 ∷ 6 ∷ []) 500 (pos 9) wide_plot
