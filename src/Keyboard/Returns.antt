-- ===== src/Keyboard/Returns.antt =====
-- src/main.cpp: what the return key does. `main` calls nonl(), so that curses reads it as 13, the carriage
-- return, and not as the newline that the handlers wait for.
use mtop.Base.{false, ◌≡◌, ◌≢◌, ℕ, refl, arith}
use mtop.Base.Int.{eqb_ℤ, ℤ, pos, ◌≤ℤ◌}
use mtop.Config.{AppConfig}
use mtop.Input.{Curses}
use mtop.Keyboard.{stay}
use mtop.Keyboard.Dispatch.{
  Layer, help, process_detail, workload_detail, setup, prompt, screen, handle_layer, run_command,
  Surroundings, handle_input, layer_of,
}
use mtop.Keyboard.Labels.{other_key, command_of, find_command}
use mtop.Keyboard.Popups.{handle_help, handle_process_detail, handle_workload_detail, handle_setup}
use mtop.Keyboard.Prompts.{is_sort, handle_prompt}
use mtop.Keyboard.Commands.{change_state, type_digit}
use mtop.Input.{is_digit, to_char}
use mtop.Screen.{PromptMode, UiState, sort_prompt}

-- The codes that curses gives to keys that send no character start at KEY_MIN, which is 257.
pub record HasCodes ⦃k : Curses⦄ : Type 0 where
  pub functions : (n : ℕ) → pos 257 ≤ℤ k.key_f n
  pub up : pos 257 ≤ℤ k.key_up
  pub down : pos 257 ≤ℤ k.key_down
  pub left : pos 257 ≤ℤ k.key_left
  pub right : pos 257 ≤ℤ k.key_right
  pub home : pos 257 ≤ℤ k.key_home
  pub end : pos 257 ≤ℤ k.key_end
  pub ppage : pos 257 ≤ℤ k.key_ppage
  pub npage : pos 257 ≤ℤ k.key_npage
  pub enter : pos 257 ≤ℤ k.key_enter
  pub backspace : pos 257 ≤ℤ k.key_backspace
  pub btab : pos 257 ≤ℤ k.key_btab

differs : (code : ℤ) → pos 257 ≤ℤ code → eqb_ℤ (pos 13) code ≡ false
differs code h = ground arith

module _ ⦃k : Curses⦄ (codes : HasCodes) where
  return_other : command_of (pos 13) ≡ other_key
  unfolding command_of find_command
  return_other =
      rw
        (
          differs k.key_up codes.up,
          differs k.key_down codes.down,
          differs k.key_left codes.left,
          differs k.key_right codes.right,
          differs k.key_home codes.home,
          differs k.key_end codes.end,
          differs k.key_ppage codes.ppage,
          differs k.key_npage codes.npage,
          differs k.key_btab codes.btab,
          differs (k.key_f 1) (codes.functions 1),
          differs (k.key_f 2) (codes.functions 2),
          differs (k.key_f 3) (codes.functions 3),
          differs (k.key_f 4) (codes.functions 4),
          differs (k.key_f 5) (codes.functions 5),
          differs (k.key_f 6) (codes.functions 6),
          differs (k.key_f 7) (codes.functions 7),
          differs (k.key_f 8) (codes.functions 8),
          differs (k.key_f 9) (codes.functions 9),
          differs (k.key_f 10) (codes.functions 10),
        )
        refl

module _ ⦃k : Curses⦄ (codes : HasCodes) (config : AppConfig) (state : UiState) where
  help_return : handle_help (pos 13) config state ≡ stay config state
  unfolding handle_help
  help_return = ground (arith, codes.functions 1, codes.enter)

  process_return : handle_process_detail (pos 13) config state ≡ stay config state
  unfolding handle_process_detail
  process_return = ground (arith, codes.enter)

  workload_return : handle_workload_detail (pos 13) config state ≡ stay config state
  unfolding handle_workload_detail
  workload_return = ground (arith, codes.enter)

  setup_return : handle_setup (pos 13) config state ≡ stay config state
  unfolding handle_setup
  setup_return =
      rw
        (
          differs k.key_enter codes.enter,
          differs (k.key_f 2) (codes.functions 2),
          differs k.key_up codes.up,
          differs k.key_down codes.down,
          differs k.key_left codes.left,
          differs k.key_right codes.right,
        )
        refl

-- every mode but one
not_sort : (mode : PromptMode) → mode ≢ sort_prompt → is_sort mode ≡ false
not_sort mode h = ground (arith, h)

module _ {F A : Type 0} ⦃k : Curses⦄ (w : Surroundings F A) (codes : HasCodes) (config : AppConfig)
    (state : UiState) where
  prompt_return :
      is_sort state.prompt_mode ≡ false
      → handle_prompt w.os w.now w.rows (pos 13) config state ≡ stay config state
  unfolding handle_prompt
  prompt_return h =
      rw (differs k.key_enter codes.enter, differs k.key_backspace codes.backspace, h) refl

  screen_return : run_command w (command_of (pos 13)) (pos 13) config state ≡ stay config state
  unfolding run_command change_state type_digit is_digit to_char
  screen_return = rw (return_other codes) ground arith

  layer_return :
      (layer : Layer)
      → is_sort state.prompt_mode ≡ false
      → handle_layer w layer (pos 13) config state ≡ stay config state
  unfolding handle_layer
  layer_return help h = help_return codes config state
  layer_return process_detail h = process_return codes config state
  layer_return workload_detail h = workload_return codes config state
  layer_return setup h = setup_return codes config state
  layer_return prompt h = prompt_return h
  layer_return screen h = screen_return

  -- Where no prompt for the order is open, the return key, as it is read after nonl(), does nothing: it
  -- closes no window and accepts no prompt.
  pub handle_input_return :
      state.prompt_mode ≢ sort_prompt → handle_input w (pos 13) config state ≡ stay config state
  unfolding handle_input
  handle_input_return h = layer_return (layer_of state) (not_sort state.prompt_mode h)
