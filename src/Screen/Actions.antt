-- ===== src/Screen/Actions.antt =====
-- src/main.cpp: the operations on the screen's state: selection, paging, the tree's nodes.
use mtop.Base.{
  ℕ, suc, ◌+◌, ◌-◌, ◌*◌, ◌/◌, max, Bool, false, not, ◌&&◌, ◌||◌, ltb, leb, if◌then◌else◌, List, [],
  ◌∷◌, Option, none, some, is_nil, length, drop, get_elem?,
}
use mtop.Base.Int.{ℤ, pos, negsuc, ◌+ℤ◌, ◌-ℤ◌, leb_ℤ, eqb_ℤ, max_ℤ, clamp_ℤ}
use mtop.Screen.{UiState, ProcessRow, has, keep, each}
use mtop.Sorting.{SortMode, default_sort_direction}
use mtop.View.{ViewMode}

pub record ProcessViewMetrics : Type 0 where
  pub page_rows : ℕ
  pub row_count : ℕ
  pub page_count : ℕ
  pub selected_index : ℤ

-- a number that is not negative, as an index
abbrev pub to_ℕ : ℤ → ℕ
to_ℕ (pos n) = n
to_ℕ (negsuc n) = 0

abbrev pub next : Option ℕ → Option ℕ
next none = none
next (some i) = some (suc i)

abbrev pub index_of : Option ℕ → ℤ
index_of none = negsuc 0
index_of (some i) = pos i

-- the page that shows the row `index`, if it is not on `page`
abbrev pub page_with : ℕ → ℕ → Option ℕ → ℕ
page_with page_rows page none = page
page_with page_rows page (some index) =
    if ltb index (page * page_rows) || leb (suc page * page_rows) index
    then index / page_rows
    else page

-- where the selection goes from a row, or from nowhere
unfoldable pub moved_index : Option ℕ → ℤ → ℕ → ℕ
unfolding clamp_ℤ ◌+ℤ◌
moved_index none delta last = if leb_ℤ (pos 0) delta then 0 else last
moved_index (some index) delta last = to_ℕ (clamp_ℤ (pos index +ℤ delta) (pos 0) (pos last))

module _ {F : Type 0} where
  unfoldable pub find_row : List (ProcessRow F) → ℤ → Option ℕ
  find_row [] pid = none
  find_row (row ∷ rows) pid =
      let rest = find_row rows pid in if eqb_ℤ row.process.pid pid then some 0 else next rest

  unfoldable pub find_selected : List (ProcessRow F) → UiState → Option ℕ
  unfolding find_row
  find_selected rows state = elim state.selected_pid [ none ↦ none | some pid ↦ find_row rows pid ]

  unfoldable pub selected_process_index : List (ProcessRow F) → UiState → ℤ
  unfolding find_selected
  selected_process_index rows state = index_of (find_selected rows state)

  -- rows[index].process->pid
  abbrev pub pid_at : List (ProcessRow F) → ℕ → Option ℤ
  pid_at rows index = elim (get_elem? rows index) [ none ↦ none | some row ↦ some row.process.pid ]

  unfoldable pub calculate_process_metrics :
      List (ProcessRow F) → UiState → ℤ → ProcessViewMetrics × UiState
  unfolding find_selected clamp_ℤ ◌-ℤ◌
  calculate_process_metrics rows state window_height =
      let page_rows = to_ℕ (max_ℤ (pos 1) (window_height -ℤ pos 3)) in
      let row_count = length rows in
      let selected = find_selected rows state in
      let page_count = max 1 ((row_count + page_rows - 1) / page_rows) in
      let page = to_ℕ (clamp_ℤ state.table_page (pos 0) (pos (page_count - 1))) in
      if is_nil rows
      then (
        record { page_rows = page_rows; row_count = 0; page_count = 1; selected_index = negsuc 0 },
        record state { table_page = pos 0; selected_pid = none },
      )
      else (
        record {
          page_rows = page_rows;
          row_count = row_count;
          page_count = page_count;
          selected_index = index_of selected;
        },
        record state { table_page = pos (page_with page_rows page selected) },
      )

  unfoldable pub move_selection : UiState → List (ProcessRow F) → ℤ → UiState
  unfolding find_selected moved_index
  move_selection state rows delta =
      let last = length rows - 1 in
      let index = moved_index (find_selected rows state) delta last in
      if is_nil rows
      then record state { selected_pid = none }
      else record state { selected_pid = pid_at rows index }

unfoldable pub set_sort_mode : UiState → SortMode → Bool → UiState
set_sort_mode state mode keep_direction = record state {
  sort = mode;
  sort_direction = if not keep_direction then default_sort_direction mode else state.sort_direction;
  table_page = pos 0;
  selected_pid = none;
}

unfoldable pub set_view_mode : UiState → ViewMode → UiState
set_view_mode state mode = record state {
  view_mode = mode;
  table_page = pos 0;
  selected_pid = none;
  show_process_detail = false;
}

-- std::set::insert and std::set::erase
unfoldable pub insert : ℤ → List ℤ → List ℤ
insert pid pids = if has pids pid then pids else pid ∷ pids

unfoldable pub erase : ℤ → List ℤ → List ℤ
erase pid pids = keep (λ p. not (eqb_ℤ p pid)) pids

unfoldable pub expand_selected : UiState → UiState
unfolding erase
expand_selected state = elim state.selected_pid [
  | none ↦ state
  | some pid ↦ record state { collapsed_pids = erase pid state.collapsed_pids }
]

module _ {F : Type 0} where
  unfoldable pub is_parent_row : List (ProcessRow F) → ℤ → Bool
  is_parent_row [] pid = false
  is_parent_row (row ∷ rows) pid =
      (eqb_ℤ row.process.pid pid && row.has_children) || is_parent_row rows pid

  unfoldable pub collapse_at : Option ℤ → UiState → List (ProcessRow F) → UiState
  unfolding insert is_parent_row
  collapse_at none state rows = state
  collapse_at (some pid) state rows =
      if is_parent_row rows pid
      then record state { collapsed_pids = insert pid state.collapsed_pids }
      else state

  unfoldable pub collapse_selected : UiState → List (ProcessRow F) → UiState
  unfolding collapse_at
  collapse_selected state rows = collapse_at state.selected_pid state rows

  unfoldable pub toggle_all_tree_nodes : UiState → List (ProcessRow F) → UiState
  unfolding insert each
  toggle_all_tree_nodes state rows = record state {
    collapsed_pids =
        if not (is_nil state.collapsed_pids)
        then []
        else each (λ row pids. if row.has_children then insert row.process.pid pids else pids) rows
            [];
  }

-- keeps the last `limit` samples
unfoldable pub trim_history : {A : Type 0} → List A → ℕ → List A
trim_history history limit =
    if ltb limit (length history) then drop (length history - limit) history else history

unfoldable pub move_workload_selection : {A : Type 0} → UiState → List A → ℤ → UiState
unfolding clamp_ℤ ◌+ℤ◌
move_workload_selection state process_rows delta =
    if is_nil process_rows then record state { workload_index = pos 0 } else record state {
      workload_index =
          clamp_ℤ (state.workload_index +ℤ delta) (pos 0) (pos (length process_rows - 1));
    }
