-- ===== src/Keyboard/Quitting.antt =====
-- src/main.cpp: which keys end the program.
use mtop.Base.{
  drop, ◌⊎◌, ◌≢◌, Bool, any, List, ◌∷◌, if◌then◌else◌, is_nil, ℕ, true, false, ◌≡◌, refl, arith, [],
  Option, none, some, Option-cases, inl, inr, ◌↔◌,
}
use mtop.Base.Int.{max_ℤ, pos, negsuc, ℤ}
use mtop.Config.{AppConfig}
use mtop.Config.Numbers.{atoi}
use mtop.Input.{Curses}
use mtop.Keyboard.{
  is_one_of, Os, renice_for, renice_pid, signal_for, renice_selected_process,
  send_signal_to_selected_process,
}
use mtop.Keyboard.Prompts.{accept_prompt, handle_prompt}
use mtop.Keyboard.Dispatch.{
  Surroundings, Layer, help, process_detail, workload_detail, setup, prompt, screen, layer_of,
  handle_layer, handle_input, run_command,
}
use mtop.Keyboard.Labels.{labels, find_command, Command, command_of, quit, lower_nice, raise_nice}
use mtop.Keyboard.Windows.{
  layer_of_lem, is_shielded, handle_help-IsQuiet, handle_process_detail-IsQuiet,
  handle_workload_detail-IsQuiet, handle_setup-IsQuiet,
}
use mtop.Screen.{UiState, PromptMode, no_prompt, signal_prompt}

abbrev is_quit : Command → Bool
is_quit quit = true
is_quit _ = false

find_command_runs :
    (ch : ℤ) (entries : List (List ℤ × Command))
    → any (λ entry. is_quit entry.1) entries ≡ false
    → find_command ch entries ≢ quit
unfolding find_command
find_command_runs ch [] h = ground arith
find_command_runs ch ((keys, command) ∷ entries) h = ground (arith, h, find_command_runs ch entries)

one_of_three :
    (ch key : ℤ)
    → (is_one_of ch (pos b'q' ∷ pos b'Q' ∷ key ∷ []) ≡ true)
      ↔ ((ch ≡ pos b'q') ⊎ (ch ≡ pos b'Q') ⊎ (ch ≡ key))
one_of_three ch key = ground arith

find_command_quit :
    (ch : ℤ) (keys : List ℤ) (entries : List (List ℤ × Command))
    → any (λ entry. is_quit entry.1) entries ≡ false
    → (find_command ch ((keys, quit) ∷ entries) ≡ quit) ↔ (is_one_of ch keys ≡ true)
unfolding find_command
find_command_quit ch keys entries h = ground (arith, find_command_runs ch entries h)

command_of_quit :
    ⦃k : Curses⦄ (ch : ℤ)
    → (command_of ch ≡ quit) ↔ ((ch ≡ pos b'q') ⊎ (ch ≡ pos b'Q') ⊎ (ch ≡ k.key_f 10))
unfolding command_of
command_of_quit ⦃k⦄ ch =
    let (to, fro) =
      find_command_quit ch (pos b'q' ∷ pos b'Q' ∷ k.key_f 10 ∷ []) (drop 1 labels) refl in
    (λ e. (one_of_three ch (k.key_f 10)).0 (to e), λ h. fro ((one_of_three ch (k.key_f 10)).1 h))

signal_for_runs :
    (os : Os) (now : ℕ) (config : AppConfig) (state : UiState) (chosen : Option ℤ) (n : ℤ)
    → (signal_for os now config state chosen n).running ≡ true
unfolding signal_for
signal_for_runs os now config state none n = refl
signal_for_runs os now config state (some pid) n = refl

renice_for_runs :
    (os : Os) (now : ℕ) (config : AppConfig) (state : UiState) (chosen : Option ℤ) (delta : ℤ)
    → (renice_for os now config state chosen delta).running ≡ true
unfolding renice_for renice_pid
renice_for_runs os now config state none delta = refl
renice_for_runs os now config state (some pid) delta = elim (Option-cases (os.getpriority pid).1) [
  | inl e ↦ rw (renice_pid, e) refl
  | inr (reason, e) ↦ rw (renice_pid, e) refl
]

module _ {F A : Type 0} ⦃k : Curses⦄ (w : Surroundings F A) where
  accept_prompt_runs :
      (mode : PromptMode) (config : AppConfig) (state : UiState)
      → (accept_prompt w.os w.now w.rows mode config state).running ≡ true
  unfolding accept_prompt send_signal_to_selected_process
  accept_prompt_runs signal_prompt config state =
      signal_for_runs w.os w.now config
        (record state { prompt_mode = no_prompt; prompt_buffer = [] }) state.selected_pid
        (max_ℤ (pos 1)
          (if is_nil state.prompt_buffer then w.os.sigterm else atoi state.prompt_buffer))
  accept_prompt_runs _ config state = refl

  handle_prompt_runs :
      (ch : ℤ) (config : AppConfig) (state : UiState)
      → (handle_prompt w.os w.now w.rows ch config state).running ≡ true
  unfolding handle_prompt
  handle_prompt_runs ch config state =
      ground (arith, accept_prompt_runs state.prompt_mode config state)

  run_command_runs :
      (c : Command) (ch : ℤ) (config : AppConfig) (state : UiState)
      → ((run_command w c ch config state).running ≡ false) ↔ (c ≡ quit)
  unfolding run_command renice_selected_process
  run_command_runs lower_nice ch config state =
      ground (arith, renice_for_runs w.os w.now config state state.selected_pid (negsuc 0))
  run_command_runs raise_nice ch config state =
      ground (arith, renice_for_runs w.os w.now config state state.selected_pid (pos 1))
  run_command_runs _ ch config state = ground arith

  handle_layer_quits :
      (layer : Layer) (ch : ℤ) (config : AppConfig) (state : UiState)
      → ((handle_layer w layer ch config state).running ≡ false)
        ↔ ((layer ≡ screen) × (command_of ch ≡ quit))
  unfolding handle_layer
  handle_layer_quits help ch config state = ground (arith, handle_help-IsQuiet ch config state)
  handle_layer_quits process_detail ch config state =
      ground (arith, handle_process_detail-IsQuiet ch config state)
  handle_layer_quits workload_detail ch config state =
      ground (arith, handle_workload_detail-IsQuiet ch config state)
  handle_layer_quits setup ch config state = ground (arith, handle_setup-IsQuiet ch config state)
  handle_layer_quits prompt ch config state = ground (arith, handle_prompt_runs ch config state)
  handle_layer_quits screen ch config state =
      ground (arith, run_command_runs (command_of ch) ch config state)

  -- A key ends the program exactly if it is q, Q or F10 and no window and no prompt is open.
  pub handle_input_quits :
      (ch : ℤ) (config : AppConfig) (state : UiState)
      → ((handle_input w ch config state).running ≡ false) ↔ (
          (is_shielded state ≡ false)
          × (state.prompt_mode ≡ no_prompt)
          × ((ch ≡ pos b'q') ⊎ (ch ≡ pos b'Q') ⊎ (ch ≡ k.key_f 10)))
  unfolding handle_input
  handle_input_quits ch config state = ground (
    arith,
    handle_layer_quits (layer_of state) ch config state,
    layer_of_lem state,
    command_of_quit ch,
  )
