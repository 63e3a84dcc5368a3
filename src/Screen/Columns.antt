-- ===== src/Screen/Columns.antt =====
-- src/main.cpp: the columns of the process table, and which of them a click on the header hits.
use mtop.Base.{
  ℕ, zero, suc, ◌+◌, ◌-◌, Bool, true, false, ◌&&◌, if◌then◌else◌, List, [], ◌∷◌, Option, none, some,
  Bytes, str,
}
use mtop.Base.Int.{ℤ, pos, leb_ℤ}
use mtop.Sorting.{SortMode, pid, cpu, mem, name, gpu_active, io, power}

pub record ProcessColumn : Type 0 where
  pub title : Bytes
  pub width : ℕ
  pub sort_mode : SortMode
  pub sortable : Bool

abbrev column : Bytes → ℕ → SortMode → Bool → ProcessColumn
column title width sort_mode sortable = record {
  title = title;
  width = width;
  sort_mode = sort_mode;
  sortable = sortable;
}

-- kProcessColumns
abbrev pub process_columns : List ProcessColumn
process_columns =
    column (str "PID") 5 pid true
    ∷ column (str "USER") 10 name false
    ∷ column (str "S") 1 pid false
    ∷ column (str "CPU%") 5 cpu true
    ∷ column (str "MIX") 12 pid false
    ∷ column (str "MEM%") 10 mem true
    ∷ column (str "GPU") 3 gpu_active true
    ∷ column (str "IO") 11 io true
    ∷ column (str "PWR") 5 power true
    ∷ []

-- the loop from x on, over the first `column_index` of the columns
unfoldable pub offset_from : ℕ → List ProcessColumn → ℕ → ℕ
offset_from x [] column_index = x
offset_from x (c ∷ columns) zero = x
offset_from x (c ∷ columns) (suc column_index) =
    offset_from (x + (c.width + 1)) columns column_index

unfoldable pub process_column_offset : ℕ → ℕ
unfolding offset_from
process_column_offset column_index = offset_from 1 process_columns column_index

-- local_x >= x0 && local_x <= x1, for a column at x0
abbrev pub is_inside : ℤ → ℕ → ProcessColumn → Bool
is_inside local_x x0 c = leb_ℤ (pos x0) local_x && leb_ℤ local_x (pos (x0 + c.width - 1))

-- The loops over `column`, from a column on and with its offset. Each column starts one place behind
-- the end of the one before it, which is where process_column_offset puts it.
unfoldable pub sort_from : ℤ → ℕ → List ProcessColumn → Option SortMode
sort_from local_x x0 [] = none
sort_from local_x x0 (c ∷ columns) =
    let rest = sort_from local_x (x0 + (c.width + 1)) columns in
    if is_inside local_x x0 c && c.sortable then some c.sort_mode else rest

unfoldable pub process_sort_from_header_x : ℤ → Option SortMode
unfolding sort_from
process_sort_from_header_x local_x = sort_from local_x 1 process_columns

unfoldable pub column_from : ℤ → ℕ → ℕ → List ProcessColumn → Option ℕ
column_from local_x x0 i [] = none
column_from local_x x0 i (c ∷ columns) =
    let rest = column_from local_x (x0 + (c.width + 1)) (suc i) columns in
    if is_inside local_x x0 c then some i else rest

unfoldable pub process_column_index_from_header_x : ℤ → Option ℕ
unfolding column_from
process_column_index_from_header_x local_x = column_from local_x 1 0 process_columns
