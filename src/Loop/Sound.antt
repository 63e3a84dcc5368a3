-- ===== src/Loop/Sound.antt =====
-- src/main.cpp: what holds of the settings and the state, and that the table's operations keep it.
use mtop.Base.{ℕ, false, ◌≡◌, arith, List, Option, none, some, Bytes}
use mtop.Base.Int.{ℤ, pos, ◌≤ℤ◌, clamp_ℤ}
use mtop.AlphaView
use mtop.AlphaView.{select_found, apply_alpha_search_request}
use mtop.Config.{AppConfig}
use mtop.Screen.{UiState, ProcessRow, PromptMode, search_prompt, filter_prompt}
use mtop.Screen.Actions.{
  set_sort_mode, set_view_mode, move_selection, calculate_process_metrics, move_workload_selection,
  expand_selected, collapse_selected, collapse_at, toggle_all_tree_nodes,
}
use mtop.Screen.Searches.{set_status, apply_search_request, apply_pid_search}
use mtop.Sorting.{SortMode, negate, default_sort_direction}
use mtop.Sorting.Clicks.{IsDirection}
use mtop.View.{ViewMode}
use mtop.Workload.{AiProcessRow}

-- While a query is typed, it is what the prompt shows.
abbrev pub IsLive : PromptMode → Bytes → Bytes → Bytes → Type 0
IsLive filter_prompt filter search buffer = filter ≡ buffer
IsLive search_prompt filter search buffer = search ≡ buffer
IsLive _ filter search buffer = Unit

pub record IsSound (config : AppConfig) (state : UiState) : Type 0 where
  pub direction : IsDirection state.sort_direction
  pub page : pos 0 ≤ℤ state.table_page
  pub workload : pos 0 ≤ℤ state.workload_index
  pub refresh : (pos 100 ≤ℤ config.refresh_ms) × (config.refresh_ms ≤ℤ pos 60000)
  pub live : IsLive state.prompt_mode state.filter state.search state.prompt_buffer

module _ (config : AppConfig) where
  pub set_status-IsSound :
      (s : UiState) (message : Bytes) (ms now : ℕ)
      → IsSound config s
      → IsSound config (set_status s message ms now)
  unfolding set_status
  set_status-IsSound s message ms now h = ground arith

  pub set_sort_mode-IsSound :
      (s : UiState) (mode : SortMode)
      → IsSound config s
      → IsSound config (set_sort_mode s mode false)
  unfolding set_sort_mode default_sort_direction
  set_sort_mode-IsSound s mode h = ground arith

  pub set_view_mode-IsSound :
      (s : UiState) (mode : ViewMode) → IsSound config s → IsSound config (set_view_mode s mode)
  unfolding set_view_mode
  set_view_mode-IsSound s mode h = ground arith

  pub turned-IsSound :
      (s : UiState)
      → IsSound config s
      → IsSound config (record s { sort_direction = negate s.sort_direction })
  turned-IsSound s h = ground arith

  pub expand_selected-IsSound :
      (s : UiState) → IsSound config s → IsSound config (expand_selected s)
  unfolding expand_selected
  expand_selected-IsSound s h = ground arith

  module _ {F : Type 0} (rows : List (ProcessRow F)) where
    pub move_selection-IsSound :
        (s : UiState) (delta : ℤ) → IsSound config s → IsSound config (move_selection s rows delta)
    unfolding move_selection
    move_selection-IsSound s delta h = ground arith

    collapse_at-IsSound :
        (chosen : Option ℤ) (s : UiState)
        → IsSound config s
        → IsSound config (collapse_at chosen s rows)
    unfolding collapse_at
    collapse_at-IsSound none s h = h
    collapse_at-IsSound (some pid) s h = ground arith

    pub collapse_selected-IsSound :
        (s : UiState) → IsSound config s → IsSound config (collapse_selected s rows)
    unfolding collapse_selected
    collapse_selected-IsSound s h = collapse_at-IsSound s.selected_pid s h

    pub toggle_all_tree_nodes-IsSound :
        (s : UiState) → IsSound config s → IsSound config (toggle_all_tree_nodes s rows)
    unfolding toggle_all_tree_nodes
    toggle_all_tree_nodes-IsSound s h = ground arith

    pub apply_pid_search-IsSound :
        (s : UiState) (ch now : ℕ)
        → IsSound config s
        → IsSound config (apply_pid_search s rows ch now)
    unfolding apply_pid_search set_status
    apply_pid_search-IsSound s ch now h = ground arith

    pub apply_search_request-IsSound :
        (s : UiState) (now : ℕ)
        → IsSound config s
        → IsSound config (apply_search_request s rows now)
    unfolding apply_search_request select_found set_status
    apply_search_request-IsSound s now h = ground arith

    pub calculate_process_metrics-IsSound :
        (s : UiState) (height : ℤ)
        → IsSound config s
        → IsSound config (calculate_process_metrics rows s height).1
    unfolding calculate_process_metrics
    calculate_process_metrics-IsSound s height h = ground arith

  module _ {A : Type 0} (rows : List A) where
    pub move_workload_selection-IsSound :
        (s : UiState) (delta : ℤ)
        → IsSound config s
        → IsSound config (move_workload_selection s rows delta)
    unfolding move_workload_selection clamp_ℤ
    move_workload_selection-IsSound s delta h = ground arith

  pub apply_alpha_search_request-IsSound :
      {F : Type 0} (s : UiState) (rows : List (AiProcessRow F)) (now : ℕ)
      → IsSound config s
      → IsSound config (apply_alpha_search_request s rows now)
  unfolding apply_alpha_search_request AlphaView.select_found set_status
  apply_alpha_search_request-IsSound s rows now h = ground arith
