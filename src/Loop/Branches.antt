-- ===== src/Loop/Branches.antt =====
-- src/main.cpp: every branch of the `switch` keeps the state sound, and so does every key.
use mtop.Screen.Actions.{pid_at}
use mtop.Base.{◌-◌, true, not, ◌≡◌, refl, arith, Option, if_rule, length}
use mtop.Base.Int.{ℤ, pos, negsuc, ◌≤ℤ◌}
use mtop.Config.{AppConfig}
use mtop.Input.{to_char, Curses}
use mtop.Keyboard.{renice_selected_process}
use mtop.Keyboard.Commands.{
  is_alpha_profile, is_overview, shows_processes, change_state, cycle_view, step_selection,
  select_end, last_workload, open_with, open_details, turn_workloads, change_sorting, in_overview,
  toggle_tree_mode, expand_node, collapse_node, toggle_nodes, clear_all, type_digit,
}
use mtop.Keyboard.Dispatch.{
  Surroundings, Layer, help, process_detail, workload_detail, setup, prompt, screen, layer_of,
  handle_layer, handle_input, run_command,
}
use mtop.Keyboard.Labels.{
  up, down, page_back, page_forward, go_home, go_end, invert, next_view, previous_view, change_sort,
  toggle_tree, open_help, open_setup, open_detail, expand, collapse, toggle_all, clear_queries,
  other_key, open_prompt, sort_by, Command, command_of, quit, lower_nice, raise_nice,
}
use mtop.Keyboard.Windows.{layer_of_lem}
use mtop.Loop.Keys.{
  Kept, handle_help-Kept, handle_process_detail-Kept, handle_workload_detail-Kept,
  handle_setup-Kept, handle_prompt-Kept, renice_for-Kept,
}
use mtop.Loop.Sound.{
  IsSound, set_status-IsSound, set_view_mode-IsSound, set_sort_mode-IsSound, turned-IsSound,
  move_selection-IsSound, move_workload_selection-IsSound, expand_selected-IsSound,
  collapse_selected-IsSound, toggle_all_tree_nodes-IsSound, apply_pid_search-IsSound,
}
use mtop.Screen.{UiState, PromptMode, no_prompt}
use mtop.Screen.Searches.{set_status}
use mtop.Sorting.{negate, cycle_sort}
use mtop.View.{cycle_view_mode}

module _ {F A : Type 0} ⦃k : Curses⦄ (w : Surroundings F A) (config : AppConfig) where
  cycle_view-Kept :
      (delta : ℤ) (s : UiState) → IsSound config s → IsSound config (cycle_view delta w.now s)
  unfolding cycle_view set_status
  cycle_view-Kept delta s h =
      ground (arith, set_view_mode-IsSound config s (cycle_view_mode s.view_mode delta) h)

  step_selection-Kept :
      (workload_delta delta : ℤ) (otherwise : UiState → UiState) (s : UiState)
      → IsSound config s
      → IsSound config (otherwise s)
      → IsSound config
          (step_selection w.now w.ai_rows w.rows w.page_rows workload_delta delta otherwise s)
  unfolding step_selection
  step_selection-Kept workload_delta delta otherwise s h o =
      if_rule (IsSound config) (is_alpha_profile s)
        (λ _. move_workload_selection-IsSound config w.ai_rows s workload_delta h)
        (λ _.
          if_rule (IsSound config) (not (shows_processes s)) (λ _. o)
            (λ _. move_selection-IsSound config w.rows s delta h))

  select_end-Kept :
      (index : ℤ) (chosen : Option ℤ) (s : UiState)
      → pos 0 ≤ℤ index
      → IsSound config s
      → IsSound config (select_end w.now w.ai_rows w.rows w.page_rows index chosen s)
  unfolding select_end
  select_end-Kept index chosen s l h = ground arith

  last_workload_le :
      (s : UiState) → IsSound config s → pos 0 ≤ℤ last_workload w.now w.ai_rows w.rows w.page_rows s
  unfolding last_workload
  last_workload_le s h = ground arith

  open_with-Kept :
      (mode : PromptMode) (s : UiState) → IsSound config s → IsSound config (open_with mode s)
  unfolding open_with
  open_with-Kept mode s h = ground arith

  open_details-Kept :
      (s : UiState)
      → IsSound config s
      → IsSound config (open_details w.now w.ai_rows w.rows w.page_rows s)
  unfolding open_details set_status
  open_details-Kept s h = ground arith

  turn_workloads-Kept :
      (s : UiState)
      → IsSound config s
      → IsSound config (turn_workloads w.now w.ai_rows w.rows w.page_rows s)
  unfolding turn_workloads
  turn_workloads-Kept s h = set_status-IsSound config _ _ 3000 w.now (turned-IsSound config s h)

  change_sorting-Kept :
      (s : UiState)
      → IsSound config s
      → IsSound config (change_sorting w.now w.ai_rows w.rows w.page_rows s)
  unfolding change_sorting
  change_sorting-Kept s h =
      if_rule (IsSound config) (is_alpha_profile s) (λ _. turn_workloads-Kept s h)
        (λ _.
          set_status-IsSound config _ _ 3000 w.now
            (set_sort_mode-IsSound config s (cycle_sort s.sort) h))

  in_overview-Kept :
      (change : UiState → UiState) (s : UiState)
      → IsSound config s
      → IsSound config (change s)
      → IsSound config (in_overview w.now w.ai_rows w.rows w.page_rows change s)
  unfolding in_overview
  in_overview-Kept change s h c =
      if_rule (IsSound config) (not (is_overview s.view_mode)) (λ _. h) (λ _. c)

  toggle_tree_mode-Kept :
      (s : UiState)
      → IsSound config s
      → IsSound config (toggle_tree_mode w.now w.ai_rows w.rows w.page_rows s)
  unfolding toggle_tree_mode set_status
  toggle_tree_mode-Kept s h = ground arith

  tree-Kept : (s : UiState) → IsSound config s → IsSound config (record s { tree_mode = true })
  tree-Kept s h = ground arith

  expand_node-Kept :
      (s : UiState)
      → IsSound config s
      → IsSound config (expand_node w.now w.ai_rows w.rows w.page_rows s)
  unfolding expand_node
  expand_node-Kept s h =
      set_status-IsSound config _ _ 3000 w.now
        (expand_selected-IsSound config (record s { tree_mode = true }) (tree-Kept s h))

  collapse_node-Kept :
      (s : UiState)
      → IsSound config s
      → IsSound config (collapse_node w.now w.ai_rows w.rows w.page_rows s)
  unfolding collapse_node
  collapse_node-Kept s h =
      set_status-IsSound config _ _ 3000 w.now
        (collapse_selected-IsSound config w.rows (record s { tree_mode = true }) (tree-Kept s h))

  toggle_nodes-Kept :
      (s : UiState)
      → IsSound config s
      → IsSound config (toggle_nodes w.now w.ai_rows w.rows w.page_rows s)
  unfolding toggle_nodes
  toggle_nodes-Kept s h =
      set_status-IsSound config _ _ 3000 w.now (
        toggle_all_tree_nodes-IsSound config w.rows (record s { tree_mode = true }) (tree-Kept s h))

  clear_all-Kept :
      (s : UiState)
      → s.prompt_mode ≡ no_prompt
      → IsSound config s
      → IsSound config (clear_all w.now w.ai_rows w.rows w.page_rows s)
  unfolding clear_all set_status
  clear_all-Kept s m h = ground arith

  type_digit-Kept :
      (ch : ℤ) (s : UiState)
      → IsSound config s
      → IsSound config (type_digit w.now w.ai_rows w.rows w.page_rows ch s)
  unfolding type_digit
  type_digit-Kept ch s h =
      if_rule (IsSound config) _
        (λ _. apply_pid_search-IsSound config w.rows s (to_char ch) w.now h) (λ _. h)

  change_state-Kept :
      (c : Command) (ch : ℤ) (s : UiState)
      → s.prompt_mode ≡ no_prompt
      → IsSound config s
      → IsSound config (change_state w.now w.ai_rows w.rows w.page_rows c ch s)
  unfolding change_state
  change_state-Kept up ch s m h = step_selection-Kept (negsuc 0) (negsuc 0) (λ t. t) s h h
  change_state-Kept down ch s m h = step_selection-Kept (pos 1) (pos 1) (λ t. t) s h h
  change_state-Kept page_back ch s m h =
      step_selection-Kept (negsuc 4) (negate (pos w.page_rows)) (cycle_view (negsuc 0) w.now) s h
        (cycle_view-Kept (negsuc 0) s h)
  change_state-Kept page_forward ch s m h =
      step_selection-Kept (pos 5) (pos w.page_rows) (cycle_view (pos 1) w.now) s h
        (cycle_view-Kept (pos 1) s h)
  change_state-Kept go_home ch s m h = select_end-Kept (pos 0) (pid_at w.rows 0) s (omega arith) h
  change_state-Kept go_end ch s m h =
      select_end-Kept (last_workload w.now w.ai_rows w.rows w.page_rows s)
        (pid_at w.rows (length w.rows - 1)) s (last_workload_le s h) h
  change_state-Kept (sort_by mode) ch s m h = set_sort_mode-IsSound config s mode h
  change_state-Kept invert ch s m h =
      set_status-IsSound config _ _ 3000 w.now (turned-IsSound config s h)
  change_state-Kept next_view ch s m h = cycle_view-Kept (pos 1) s h
  change_state-Kept previous_view ch s m h = cycle_view-Kept (negsuc 0) s h
  change_state-Kept change_sort ch s m h = change_sorting-Kept s h
  change_state-Kept (open_prompt mode) ch s m h = open_with-Kept mode s h
  change_state-Kept toggle_tree ch s m h =
      in_overview-Kept (toggle_tree_mode w.now w.ai_rows w.rows w.page_rows) s h
        (toggle_tree_mode-Kept s h)
  change_state-Kept open_help ch s m h = ground arith
  change_state-Kept open_setup ch s m h = ground arith
  change_state-Kept open_detail ch s m h = open_details-Kept s h
  change_state-Kept expand ch s m h =
      in_overview-Kept (expand_node w.now w.ai_rows w.rows w.page_rows) s h (expand_node-Kept s h)
  change_state-Kept collapse ch s m h =
      in_overview-Kept (collapse_node w.now w.ai_rows w.rows w.page_rows) s h
        (collapse_node-Kept s h)
  change_state-Kept toggle_all ch s m h =
      in_overview-Kept (toggle_nodes w.now w.ai_rows w.rows w.page_rows) s h (toggle_nodes-Kept s h)
  change_state-Kept clear_queries ch s m h = clear_all-Kept s m h
  change_state-Kept other_key ch s m h = type_digit-Kept ch s h
  change_state-Kept quit ch s m h = h
  change_state-Kept lower_nice ch s m h = h
  change_state-Kept raise_nice ch s m h = h

  run_command-Kept :
      (c : Command) (ch : ℤ) (s : UiState)
      → s.prompt_mode ≡ no_prompt
      → IsSound config s
      → Kept (run_command w c ch config s)
  unfolding run_command renice_selected_process
  run_command-Kept quit ch s m h = h
  run_command-Kept lower_nice ch s m h =
      renice_for-Kept w.os w.now config s h s.selected_pid (negsuc 0)
  run_command-Kept raise_nice ch s m h =
      renice_for-Kept w.os w.now config s h s.selected_pid (pos 1)
  run_command-Kept c ch s m h = change_state-Kept c ch s m h

  handle_layer-Kept :
      (layer : Layer) (ch : ℤ) (s : UiState)
      → (layer ≡ screen → s.prompt_mode ≡ no_prompt)
      → IsSound config s
      → Kept (handle_layer w layer ch config s)
  unfolding handle_layer
  handle_layer-Kept help ch s m h = handle_help-Kept ch config s h
  handle_layer-Kept process_detail ch s m h = handle_process_detail-Kept ch config s h
  handle_layer-Kept workload_detail ch s m h = handle_workload_detail-Kept ch config s h
  handle_layer-Kept setup ch s m h = handle_setup-Kept ch config s h
  handle_layer-Kept prompt ch s m h = handle_prompt-Kept w config ch s h
  handle_layer-Kept screen ch s m h = run_command-Kept (command_of ch) ch s (m refl) h

  pub handle_input-IsSound :
      (ch : ℤ) (s : UiState) → IsSound config s → Kept (handle_input w ch config s)
  unfolding handle_input
  handle_input-IsSound ch s h =
      handle_layer-Kept (layer_of s) ch s (λ e. ((layer_of_lem s).0 e).1) h
