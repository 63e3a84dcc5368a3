-- ===== src/Keyboard/Dispatch.antt =====
-- src/main.cpp: the whole of `handle_input`, and what a sequence of keys does.
use mtop.Base.{ℕ, false, if◌then◌else◌, List, []}
use mtop.Base.Int.{pos, negsuc, ℤ}
use mtop.Config.{AppConfig}
use mtop.Input.{Curses}
use mtop.Keyboard.{Os, Outcome, stay, renice_selected_process}
use mtop.Keyboard.Popups.{handle_help, handle_process_detail, handle_workload_detail, handle_setup}
use mtop.Keyboard.Prompts.{handle_prompt}
use mtop.Keyboard.Labels.{Command, quit, lower_nice, raise_nice, command_of}
use mtop.Keyboard.Commands.{change_state}
use mtop.Screen.{UiState, ProcessRow, PromptMode, no_prompt}

-- What the handler is given besides the key: the clock, the system, and what the screen shows.
pub record Surroundings (F A : Type 0) : Type 0 where
  pub os : Os
  pub now : ℕ
  pub ai_rows : List A
  pub rows : List (ProcessRow F)
  pub page_rows : ℕ

-- What takes the key: the topmost window, the prompt, or the screen.
pub data Layer : Type 0 where
  help process_detail workload_detail setup prompt screen : Layer

abbrev pub prompt_layer : PromptMode → Layer
prompt_layer no_prompt = screen
prompt_layer _ = prompt

-- the order of the tests in `handle_input`
unfoldable pub layer_of : UiState → Layer
layer_of state =
    if state.show_help
    then help
    else if state.show_process_detail
    then process_detail
    else if state.show_workload_detail
    then workload_detail
    else if state.show_setup
    then setup
    else prompt_layer state.prompt_mode

module _ {F A : Type 0} ⦃k : Curses⦄ (w : Surroundings F A) where
  -- the `switch`
  unfoldable pub run_command : Command → ℤ → AppConfig → UiState → Outcome
  unfolding change_state renice_selected_process
  run_command quit ch config state = record {
    running = false;
    config = config;
    state = state;
    calls = [];
  }
  run_command lower_nice ch config state =
      renice_selected_process w.os w.now config state (negsuc 0)
  run_command raise_nice ch config state = renice_selected_process w.os w.now config state (pos 1)
  run_command command ch config state =
      stay config (change_state w.now w.ai_rows w.rows w.page_rows command ch state)

  unfoldable pub handle_layer : Layer → ℤ → AppConfig → UiState → Outcome
  unfolding run_command command_of handle_help handle_process_detail handle_workload_detail
      handle_setup handle_prompt
  handle_layer help ch config state = handle_help ch config state
  handle_layer process_detail ch config state = handle_process_detail ch config state
  handle_layer workload_detail ch config state = handle_workload_detail ch config state
  handle_layer setup ch config state = handle_setup ch config state
  handle_layer prompt ch config state = handle_prompt w.os w.now w.rows ch config state
  handle_layer screen ch config state = run_command (command_of ch) ch config state

  unfoldable pub handle_input : ℤ → AppConfig → UiState → Outcome
  unfolding handle_layer layer_of
  handle_input ch config state = handle_layer (layer_of state) ch config state
