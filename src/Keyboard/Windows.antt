-- ===== src/Keyboard/Windows.antt =====
-- src/main.cpp: the keys while a window is open change nothing under it.
use mtop.Base.{◌↔◌, ◌↔◌, ◌≢◌, Bool, true, false, ◌≡◌, refl, arith, ◌||◌, List, [], Option, Bytes}
use mtop.Base.Int.{ℤ}
use mtop.Config.{AppConfig}
use mtop.Input.{Curses}
use mtop.Keyboard.{Outcome}
use mtop.Keyboard.Popups.{
  handle_help, handle_process_detail, handle_workload_detail, handle_setup, change_field,
}
use mtop.Keyboard.Dispatch.{
  Surroundings, Layer, help, process_detail, workload_detail, setup, prompt, screen, layer_of,
  handle_layer, handle_input,
}
use mtop.Screen.{
  no_prompt, no_prompt, UiState, PromptMode, SetupField, theme, cached_memory, refresh, finish,
}
use mtop.Sorting.{SortMode}
use mtop.View.{ViewMode, ViewProfile}

-- A window lies over the screen.
abbrev pub is_shielded : UiState → Bool
is_shielded state =
    state.show_help || state.show_process_detail || state.show_workload_detail || state.show_setup

-- What the tables are made of: the order, the queries, the selection and the prompt.
abbrev pub Table : Type 0
Table =
    SortMode
    × ℤ
    × ViewProfile
    × ViewMode
    × Bool
    × ℤ
    × ℤ
    × Option ℤ
    × PromptMode
    × Bytes
    × Bytes
    × Bytes
    × List ℤ

abbrev pub table_of : UiState → Table
table_of s = (
  s.sort, s.sort_direction, s.view_profile, s.view_mode, s.tree_mode, s.table_page,
  s.workload_index, s.selected_pid, s.prompt_mode, s.prompt_buffer, s.filter, s.search,
  s.collapsed_pids,
)

abbrev pub IsQuiet : UiState → Outcome → Type 0
IsQuiet state o = (o.running ≡ true) × (o.calls ≡ []) × (table_of o.state ≡ table_of state)

module _ ⦃k : Curses⦄ (ch : ℤ) (config : AppConfig) (state : UiState) where
  change_field-IsQuiet : (field : SetupField) → IsQuiet state (change_field ch config state field)
  unfolding change_field
  change_field-IsQuiet theme = (refl, refl, refl)
  change_field-IsQuiet cached_memory = (refl, refl, refl)
  change_field-IsQuiet refresh = (refl, refl, refl)
  change_field-IsQuiet finish = (refl, refl, refl)

  pub handle_help-IsQuiet : IsQuiet state (handle_help ch config state)
  unfolding handle_help
  handle_help-IsQuiet = ground arith

  pub handle_process_detail-IsQuiet : IsQuiet state (handle_process_detail ch config state)
  unfolding handle_process_detail
  handle_process_detail-IsQuiet = ground arith

  pub handle_workload_detail-IsQuiet : IsQuiet state (handle_workload_detail ch config state)
  unfolding handle_workload_detail
  handle_workload_detail-IsQuiet = ground arith

  pub handle_setup-IsQuiet : IsQuiet state (handle_setup ch config state)
  unfolding handle_setup
  handle_setup-IsQuiet = ground (arith, change_field-IsQuiet state.setup_field)

pub layer_of_lem :
    (state : UiState)
    → (layer_of state ≡ screen) ↔ ((is_shielded state ≡ false) × (state.prompt_mode ≡ no_prompt))
unfolding layer_of
layer_of_lem state = ground arith

layer_of_shielded :
    (state : UiState)
    → is_shielded state ≡ true
    → (layer_of state ≢ prompt) × (layer_of state ≢ screen)
unfolding layer_of
layer_of_shielded state h = ground arith

module _ {F A : Type 0} ⦃k : Curses⦄ (w : Surroundings F A) where
  handle_layer-IsQuiet :
      (layer : Layer) (ch : ℤ) (config : AppConfig) (state : UiState)
      → layer ≢ prompt
      → layer ≢ screen
      → IsQuiet state (handle_layer w layer ch config state)
  unfolding handle_layer
  handle_layer-IsQuiet help ch config state p s = handle_help-IsQuiet ch config state
  handle_layer-IsQuiet process_detail ch config state p s =
      handle_process_detail-IsQuiet ch config state
  handle_layer-IsQuiet workload_detail ch config state p s =
      handle_workload_detail-IsQuiet ch config state
  handle_layer-IsQuiet setup ch config state p s = handle_setup-IsQuiet ch config state
  handle_layer-IsQuiet prompt ch config state p s = absurd (p refl)
  handle_layer-IsQuiet screen ch config state p s = absurd (s refl)

  -- While a window is open, no key ends the program, makes a system call, or changes anything of the
  -- tables under it: their order, their queries and their selections, the view and the prompt.
  pub handle_input_shielded :
      (ch : ℤ) (config : AppConfig) (state : UiState)
      → is_shielded state ≡ true
      → IsQuiet state (handle_input w ch config state)
  unfolding handle_input
  handle_input_shielded ch config state h =
      let (p, s) = layer_of_shielded state h in
      handle_layer-IsQuiet (layer_of state) ch config state p s
