-- ===== src/Sorting/Clicks.antt =====
-- src/input_logic.cpp: cycling through the columns, and clicks on a header.
use mtop.Base.{
  if◌then◌else◌, ◌==◌, ℕ, zero, suc, ◌+◌, ◌-◌, ◌%◌, ◌≡◌, refl, ◌⊎◌, arith, List, [], ◌∷◌, ◌++◌,
}
use mtop.Base.Int.{ℤ, pos, negsuc}
use mtop.Sorting.{
  SortMode, pid, cpu, mem, time, name, gpu_active, io, power, SortState, cycle_sort, negate,
  default_sort_direction, mode_index, apply_header_sort_click,
}

abbrev pub cycles : ℕ → SortMode → SortMode
cycles zero m = m
cycles (suc n) m = cycles n (cycle_sort m)

-- The key steps through all eight columns in their order: from any column it reaches any other,
-- after as many presses as the other stands behind it, counted round the end.
cycle_sort_reaches : (m n : SortMode) → cycles ((8 + mode_index n - mode_index m) % 8) m ≡ n
unfolding cycle_sort
cycle_sort_reaches pid pid = refl
cycle_sort_reaches cpu cpu = refl
cycle_sort_reaches mem mem = refl
cycle_sort_reaches time time = refl
cycle_sort_reaches name name = refl
cycle_sort_reaches gpu_active gpu_active = refl
cycle_sort_reaches io io = refl
cycle_sort_reaches power power = refl
cycle_sort_reaches _ _ = refl

-- A direction is 1 or -1.
abbrev pub IsDirection : ℤ → Type 0
IsDirection d = (d ≡ pos 1) ⊎ (d ≡ negsuc 0)

abbrev pub clicks : SortState → List SortMode → SortState
clicks s [] = s
clicks s (m ∷ ms) = clicks (apply_header_sort_click s m) ms

mode_index-injective : (m n : SortMode) → mode_index m ≡ mode_index n → m ≡ n
mode_index-injective m n h = ground arith

apply_header_sort_click-IsDirection :
    (s : SortState) (m : SortMode)
    → IsDirection s.direction
    → IsDirection (apply_header_sort_click s m).direction
unfolding apply_header_sort_click
apply_header_sort_click-IsDirection s m h = ground arith

apply_header_sort_click-mode :
    (s : SortState) (m : SortMode) → (apply_header_sort_click s m).mode ≡ m
unfolding apply_header_sort_click
apply_header_sort_click-mode s m = ground (arith, mode_index-injective s.mode m)

-- From a state in one of the two directions, whatever headers are clicked, the table is sorted by the
-- last one, in one of the two directions.
clicks_lem :
    (s : SortState) (ms : List SortMode) (m : SortMode)
    → IsDirection s.direction
    → ((clicks s (ms ++ m ∷ [])).mode ≡ m) × IsDirection (clicks s (ms ++ m ∷ [])).direction
clicks_lem s [] m h = (apply_header_sort_click-mode s m, apply_header_sort_click-IsDirection s m h)
clicks_lem s (n ∷ ms) m h =
    clicks_lem (apply_header_sort_click s n) ms m (apply_header_sort_click-IsDirection s n h)

-- In a state in one of the two directions: from another column, a first click sorts by the column's own
-- direction and a second click by the opposite one; on the column in use, two clicks change nothing.
double_click :
    (s : SortState) (m : SortMode)
    → IsDirection s.direction
    → clicks s (m ∷ m ∷ []) ≡ (
        if mode_index s.mode == mode_index m
        then s
        else record { mode = m; direction = negate (default_sort_direction m) })
unfolding apply_header_sort_click
double_click s m h = ground (arith, mode_index-injective s.mode m)
