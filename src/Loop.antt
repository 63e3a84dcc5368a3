-- ===== src/Loop.antt =====
-- src/main.cpp: the main loop. A frame samples the system, searches, pages and draws; between two frames
-- the loop takes the keys and the clicks. Where an event comes from is a parameter of its step.
pub mod Footer
pub mod Sound
pub mod Keys
pub mod Branches
pub mod Steps
pub mod Round
pub mod Run
pub mod Signals
use mtop.AlphaView.{AlphaModel, alpha_model, apply_alpha_search_request}
use mtop.Base.{
  replicate, ℕ, ◌-◌, leb, Bool, true, false, not, ◌&&◌, if◌then◌else◌, List, [], ◌∷◌, Option, none,
  some, is_nil, length, Bytes, str,
}
use mtop.Base.Double.{Double}
use mtop.Base.Int.{ℤ, pos, negsuc, clamp_ℤ}
use mtop.Config.{AppConfig}
use mtop.Input.{Curses, err}
use mtop.Keyboard.Commands.{is_alpha_profile}
use mtop.Loop.Footer.{draw_labels}
use mtop.Screen.{
  UiState, ProcessRow, ButtonBounds, no_prompt, theme, build_process_rows, build_gpu_active_rows,
}
use mtop.Screen.Actions.{ProcessViewMetrics, find_selected, calculate_process_metrics}
use mtop.Screen.Searches.{apply_search_request}
use mtop.Snapshot.{SystemSnapshot}
use mtop.View.{ViewMode}
use mtop.Workload.{AiProcessRow}

-- the member initialisers, and what `main` sets before the loop
unfoldable pub start_state : AppConfig → UiState
start_state config = record {
  sort = config.sort;
  view_profile = config.view_profile;
  tree_mode = false;
  table_page = pos 0;
  workload_index = pos 0;
  selected_pid = none;
  prompt_mode = no_prompt;
  view_mode = config.default_view;
  filter = [];
  search = [];
  prompt_buffer = [];
  prompt_saved = [];
  pid_search = [];
  pid_search_deadline = 0;
  status_message = [];
  status_deadline = 0;
  search_pending = false;
  sort_direction = config.sort_direction;
  show_help = false;
  show_setup = false;
  show_process_detail = false;
  show_workload_detail = false;
  show_cached_memory = config.show_cached_memory;
  setup_field = theme;
  footer_buttons = replicate 10 (record { x0 = negsuc 0; x1 = negsuc 0; event = err });
  collapsed_pids = [];
}

-- The sizes of the windows of the processes and of the footer.
pub record Sizes : Type 0 where
  pub height : ℕ
  pub width : ℕ

-- What a frame leaves for the keys that follow it.
pub record Frame (F : Type 0) : Type 0 where
  pub state : UiState
  pub ai_rows : List (AiProcessRow F)
  pub rows : List (ProcessRow F)
  pub page_rows : ℕ

abbrev is_gpu_active : ViewMode → Bool
is_gpu_active ViewMode.gpu_active = true
is_gpu_active _ = false

module _ {F : Type 0} where
  -- the selection that `draw_alpha_workloads_view` shows; a low window has no room for rows
  unfoldable pub drawn_workload : ℕ → List (AiProcessRow F) → UiState → UiState
  unfolding clamp_ℤ
  drawn_workload height ai_rows state =
      if leb height 7
      then state
      else if is_nil ai_rows
      then record state { workload_index = pos 0 }
      else record state {
        workload_index = clamp_ℤ state.workload_index (pos 0) (pos (length ai_rows - 1));
      }

  -- A window of details closes if it has nothing to show. The tests run in this order.
  unfoldable pub check_windows : List (AiProcessRow F) → List (ProcessRow F) → UiState → UiState
  unfolding clamp_ℤ find_selected
  check_windows ai_rows rows state =
      if state.show_help
      then state
      else if state.show_setup
      then state
      else if state.show_workload_detail
      then if not (is_nil ai_rows)
        then record state {
          workload_index = clamp_ℤ state.workload_index (pos 0) (pos (length ai_rows - 1));
        }
        else record state { show_workload_detail = false }
      else if state.show_process_detail
      then elim (find_selected rows state) [
        | none ↦ record state { show_process_detail = false }
        | some _ ↦ state
      ]
      else state

module _ {F : Type 0} ⦃d : Double F⦄ ⦃k : Curses⦄ (sizes : Sizes) (now : ℕ) where
  -- the rows of the profile alpha, and the state after their search
  unfoldable pub alpha_part :
      SystemSnapshot F → List (SystemSnapshot F) → UiState → List (AiProcessRow F) × UiState
  unfolding alpha_model apply_alpha_search_request
  alpha_part snapshot prior_history state =
      let model = alpha_model snapshot prior_history state in
      if is_alpha_profile state
      then (model.process_rows, apply_alpha_search_request state model.process_rows now)
      else ([], state)

  unfoldable pub table_rows : SystemSnapshot F → UiState → List (ProcessRow F)
  unfolding build_process_rows build_gpu_active_rows
  table_rows snapshot state =
      if not (is_alpha_profile state) && is_gpu_active state.view_mode
      then build_gpu_active_rows snapshot state
      else build_process_rows snapshot state

  -- The state after the windows have been drawn.
  unfoldable pub draw : List (AiProcessRow F) → List (ProcessRow F) → UiState → UiState
  unfolding drawn_workload check_windows draw_labels
  draw ai_rows rows state =
      let shown =
        if is_alpha_profile state then drawn_workload sizes.height ai_rows state else state in
      check_windows ai_rows rows
        (record shown { footer_buttons = draw_labels sizes.width 0 state.footer_buttons })

  unfoldable pub frame : SystemSnapshot F → List (SystemSnapshot F) → UiState → Frame F
  unfolding alpha_part table_rows apply_search_request calculate_process_metrics draw
  frame snapshot prior_history state =
      let (ai_rows, searched) = alpha_part snapshot prior_history state in
      let rows = table_rows snapshot searched in
      let found = apply_search_request searched rows now in
      let (metrics, paged) = calculate_process_metrics rows found (pos sizes.height) in
      record {
        state = draw ai_rows rows paged;
        ai_rows = ai_rows;
        rows = rows;
        page_rows = metrics.page_rows;
      }
