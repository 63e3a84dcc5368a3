-- ===== src/Keyboard/Commands.antt =====
-- src/main.cpp: what the keys of the screen itself change: the branches of the `switch`.
use mtop.Base.{
  ℕ, ◌-◌, Bool, true, false, not, ◌&&◌, if◌then◌else◌, List, [], ◌++◌, Option, none, some, is_nil,
  length, str,
}
use mtop.Base.Int.{ℤ, pos, negsuc, ltb_ℤ}
use mtop.Input.{is_digit, to_char}
use mtop.Keyboard.{say, say_sort}
use mtop.Keyboard.Labels.{
  Command, quit, up, down, page_back, page_forward, go_home, go_end, sort_by, invert, next_view,
  previous_view, change_sort, open_prompt, toggle_tree, lower_nice, raise_nice, open_help,
  open_setup, open_detail, expand, collapse, toggle_all, clear_queries, other_key,
}
use mtop.Screen.{UiState, ProcessRow, PromptMode, search_prompt, filter_prompt, signal_prompt}
use mtop.Screen.Actions.{
  pid_at, move_selection, set_sort_mode, set_view_mode, expand_selected, collapse_selected,
  toggle_all_tree_nodes, move_workload_selection,
}
use mtop.Screen.Searches.{set_status, apply_pid_search}
use mtop.Sorting.{cycle_sort, negate}
use mtop.View.{ViewMode, alpha, beta, cycle_view_mode, view_mode_label}

abbrev pub is_overview : ViewMode → Bool
is_overview ViewMode.overview = true
is_overview _ = false

abbrev is_system_io : ViewMode → Bool
is_system_io ViewMode.system_io = true
is_system_io _ = false

abbrev pub is_alpha_profile : UiState → Bool
is_alpha_profile state = elim state.view_profile [ alpha ↦ true | beta ↦ false ]

-- `process_view_active`
unfoldable pub shows_processes : UiState → Bool
shows_processes state = not (is_alpha_profile state) && not (is_system_io state.view_mode)

-- the lambda `cycle_view`
unfoldable pub cycle_view : ℤ → ℕ → UiState → UiState
unfolding set_status cycle_view_mode set_view_mode view_mode_label
cycle_view delta now state = elim state.view_profile [
  | alpha ↦ say state (str "Alpha profile: AI Workloads") now
  | beta ↦
      let shown = set_view_mode state (cycle_view_mode state.view_mode delta) in
      say shown (str "View: " ++ view_mode_label shown.view_mode) now
]

-- A prompt starts from the query that it changes; the prompt for a signal starts from 15.
unfoldable pub open_with : PromptMode → UiState → UiState
open_with search_prompt state = record state {
  prompt_mode = search_prompt;
  prompt_buffer = state.search;
  prompt_saved = state.search;
}
open_with filter_prompt state = record state {
  prompt_mode = filter_prompt;
  prompt_buffer = state.filter;
  prompt_saved = state.filter;
}
open_with signal_prompt state = record state {
  prompt_mode = signal_prompt;
  prompt_buffer = str "15";
}
open_with mode state = record state { prompt_mode = mode }

-- `ai_rows` are the processes of the profile alpha, `rows` those of the table.
module _ {F A : Type 0} (now : ℕ) (ai_rows : List A) (rows : List (ProcessRow F))
    (page_rows : ℕ) where
  -- The selection moves in the list that the profile shows.
  unfoldable pub step_selection : ℤ → ℤ → (UiState → UiState) → UiState → UiState
  unfolding move_workload_selection move_selection shows_processes
  step_selection workload_delta delta otherwise state =
      if is_alpha_profile state
      then move_workload_selection state ai_rows workload_delta
      else if not (shows_processes state)
      then otherwise state
      else move_selection state rows delta

  unfoldable pub select_end : ℤ → Option ℤ → UiState → UiState
  unfolding shows_processes
  select_end workload_index chosen state =
      if is_alpha_profile state
      then record state { workload_index = workload_index }
      else if not (shows_processes state)
      then state
      else elim chosen [ none ↦ state | some pid ↦ record state { selected_pid = some pid } ]

  unfoldable pub last_workload : UiState → ℤ
  last_workload state = if is_nil ai_rows then state.workload_index else pos (length ai_rows - 1)

  unfoldable pub open_details : UiState → UiState
  unfolding set_status
  open_details state =
      if is_alpha_profile state
      then if not (is_nil ai_rows)
        then record state { show_workload_detail = true }
        else say state (str "No selected process") now
      else elim state.selected_pid [
        | none ↦ say state (str "No selected process") now
        | some _ ↦ record state { show_process_detail = true }
      ]

  unfoldable pub turn_workloads : UiState → UiState
  unfolding set_status
  turn_workloads state =
      let turned = record state { sort_direction = negate state.sort_direction } in
      say turned
        (str "Sort: rss "
          ++ (if ltb_ℤ (pos 0) turned.sort_direction then str "asc" else str "desc"))
        now

  unfoldable pub change_sorting : UiState → UiState
  unfolding turn_workloads set_sort_mode cycle_sort
  change_sorting state =
      if is_alpha_profile state
      then turn_workloads state
      else say_sort (set_sort_mode state (cycle_sort state.sort) false) now

  -- what changes the tree is done in the overview only
  unfoldable pub in_overview : (UiState → UiState) → UiState → UiState
  in_overview change state = if not (is_overview state.view_mode) then state else change state

  unfoldable pub toggle_tree_mode : UiState → UiState
  unfolding set_status
  toggle_tree_mode state =
      let toggled = record state { tree_mode = not state.tree_mode; table_page = pos 0 } in
      say toggled
        (str "Tree mode " ++ (if toggled.tree_mode then str "enabled" else str "disabled")) now

  unfoldable pub expand_node : UiState → UiState
  unfolding set_status expand_selected
  expand_node state =
      say (expand_selected (record state { tree_mode = true })) (str "Expanded selected tree node")
        now

  unfoldable pub collapse_node : UiState → UiState
  unfolding set_status collapse_selected
  collapse_node state =
      say (collapse_selected (record state { tree_mode = true }) rows)
        (str "Collapsed selected tree node") now

  unfoldable pub toggle_nodes : UiState → UiState
  unfolding set_status toggle_all_tree_nodes
  toggle_nodes state =
      let toggled = toggle_all_tree_nodes (record state { tree_mode = true }) rows in
      say toggled
        (if is_nil toggled.collapsed_pids
          then str "Expanded all tree nodes"
          else str "Collapsed all tree nodes")
        now

  unfoldable pub clear_all : UiState → UiState
  unfolding set_status
  clear_all state =
      say (record state { filter = []; search = []; table_page = pos 0; selected_pid = none })
        (str "Cleared filter and search") now

  -- the `default` branch: a digit of a pid
  unfoldable pub type_digit : ℤ → UiState → UiState
  unfolding shows_processes apply_pid_search is_digit to_char
  type_digit ch state =
      if shows_processes state && is_digit (to_char ch)
      then apply_pid_search state rows (to_char ch) now
      else state

  -- What the branches that make no system call do to the state.
  unfoldable pub change_state : Command → ℤ → UiState → UiState
  unfolding step_selection cycle_view select_end last_workload open_with open_details change_sorting
      in_overview toggle_tree_mode expand_node collapse_node toggle_nodes clear_all type_digit
      set_sort_mode
  change_state up ch state = step_selection (negsuc 0) (negsuc 0) (λ s. s) state
  change_state down ch state = step_selection (pos 1) (pos 1) (λ s. s) state
  change_state page_back ch state =
      step_selection (negsuc 4) (negate (pos page_rows)) (cycle_view (negsuc 0) now) state
  change_state page_forward ch state =
      step_selection (pos 5) (pos page_rows) (cycle_view (pos 1) now) state
  change_state go_home ch state = select_end (pos 0) (pid_at rows 0) state
  change_state go_end ch state =
      select_end (last_workload state) (pid_at rows (length rows - 1)) state
  change_state (sort_by mode) ch state = set_sort_mode state mode false
  change_state invert ch state =
      say_sort (record state { sort_direction = negate state.sort_direction }) now
  change_state next_view ch state = cycle_view (pos 1) now state
  change_state previous_view ch state = cycle_view (negsuc 0) now state
  change_state change_sort ch state = change_sorting state
  change_state (open_prompt mode) ch state = open_with mode state
  change_state toggle_tree ch state = in_overview toggle_tree_mode state
  change_state open_help ch state = record state { show_help = true }
  change_state open_setup ch state = record state { show_setup = true }
  change_state open_detail ch state = open_details state
  change_state expand ch state = in_overview expand_node state
  change_state collapse ch state = in_overview collapse_node state
  change_state toggle_all ch state = in_overview toggle_nodes state
  change_state clear_queries ch state = clear_all state
  change_state other_key ch state = type_digit ch state
  -- these three are no such branches
  change_state quit ch state = state
  change_state lower_nice ch state = state
  change_state raise_nice ch state = state
