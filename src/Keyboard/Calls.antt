-- ===== src/Keyboard/Calls.antt =====
-- src/main.cpp: which processes a key can act on, and what is shielded while a window is open.
use mtop.Base.{
  if◌then◌else◌, is_nil, ap, ℕ, ◌≡◌, refl, arith, [], Option, none, some, All, Option-cases, inl,
  inr, ◌⊎◌,
}
use mtop.Base.Int.{negsuc, ℤ, pos, ◌≤ℤ◌, ◌+ℤ◌, max_ℤ}
use mtop.Config.{AppConfig}
use mtop.Input.{Curses}
use mtop.Keyboard.{
  signal_for, renice_for, renice_pid, Os, Outcome, SystemCall, renice, signal,
  send_signal_to_selected_process, renice_selected_process,
}
use mtop.Keyboard.Dispatch.{
  help, process_detail, workload_detail, setup, prompt, Layer, screen, layer_of, handle_layer,
  Surroundings, handle_input, run_command,
}
use mtop.Keyboard.Labels.{Command, command_of, lower_nice, raise_nice}
use mtop.Config.Numbers.{atoi}
use mtop.Keyboard.Popups.{handle_help, handle_process_detail, handle_workload_detail, handle_setup}
use mtop.Keyboard.Windows.{
  layer_of_lem, IsQuiet, handle_help-IsQuiet, handle_process_detail-IsQuiet,
  handle_workload_detail-IsQuiet, handle_setup-IsQuiet,
}
use mtop.Keyboard.Prompts.{accept_prompt, handle_prompt}
use mtop.Screen.{UiState, PromptMode, no_prompt, signal_prompt}

-- A call that the keys may make: the user has selected the process, and either has entered a signal of a
-- positive number, or asks for the next priority up or down.
abbrev pub IsAllowed : Os → UiState → SystemCall → Type 0
IsAllowed os state (signal pid number) =
    (state.selected_pid ≡ some pid) × (state.prompt_mode ≡ signal_prompt) × (pos 1 ≤ℤ number)
IsAllowed os state (renice pid nice) =
    (state.selected_pid ≡ some pid)
    × (state.prompt_mode ≡ no_prompt)
    × ((nice ≡ (os.getpriority pid).0 +ℤ pos 1) ⊎ (nice ≡ (os.getpriority pid).0 +ℤ negsuc 0))
    × ((os.getpriority pid).1 ≡ none)

abbrev Allowed : Os → UiState → Outcome → Type 0
Allowed os state o = All (IsAllowed os state) o.calls

max_one : (n : ℤ) → pos 1 ≤ℤ max_ℤ (pos 1) n
max_one n = ground arith

signal_for-Allowed :
    (os : Os) (now : ℕ) (config : AppConfig) (before state : UiState) (chosen : Option ℤ) (n : ℤ)
    → before.selected_pid ≡ chosen
    → before.prompt_mode ≡ signal_prompt
    → pos 1 ≤ℤ n
    → Allowed os before (signal_for os now config state chosen n)
unfolding signal_for
signal_for-Allowed os now config before state none n p m h = tt
signal_for-Allowed os now config before state (some pid) n p m h = ((p, m, h), tt)

renice_pid-Allowed :
    (os : Os) (now : ℕ) (config : AppConfig) (state : UiState) (pid delta : ℤ)
    → state.selected_pid ≡ some pid
    → state.prompt_mode ≡ no_prompt
    → (delta ≡ pos 1) ⊎ (delta ≡ negsuc 0)
    → Allowed os state (renice_pid os now config state pid delta)
unfolding renice_pid
renice_pid-Allowed os now config state pid delta e m h =
    elim (Option-cases (os.getpriority pid).1) [
      | inr (reason, f) ↦ rw (renice_pid, f) tt
      | inl f ↦ rw (renice_pid, f) ((e, m, next_nice delta h, f), tt)
    ]
  where
    next_nice :
        (delta : ℤ)
        → (delta ≡ pos 1) ⊎ (delta ≡ negsuc 0)
        → ((os.getpriority pid).0 +ℤ delta ≡ (os.getpriority pid).0 +ℤ pos 1)
          ⊎ ((os.getpriority pid).0 +ℤ delta ≡ (os.getpriority pid).0 +ℤ negsuc 0)
    next_nice delta (inl h) = inl (ap (λ d. (os.getpriority pid).0 +ℤ d) h)
    next_nice delta (inr h) = inr (ap (λ d. (os.getpriority pid).0 +ℤ d) h)

renice_for-Allowed :
    (os : Os) (now : ℕ) (config : AppConfig) (state : UiState) (chosen : Option ℤ) (delta : ℤ)
    → state.selected_pid ≡ chosen
    → state.prompt_mode ≡ no_prompt
    → (delta ≡ pos 1) ⊎ (delta ≡ negsuc 0)
    → Allowed os state (renice_for os now config state chosen delta)
unfolding renice_for
renice_for-Allowed os now config state none delta e m h = tt
renice_for-Allowed os now config state (some pid) delta e m h =
    renice_pid-Allowed os now config state pid delta e m h

quiet_Allowed : (os : Os) (state : UiState) (o : Outcome) → IsQuiet state o → Allowed os state o
quiet_Allowed os state o (_, none_made, _) = rw (none_made) tt

module _ {F A : Type 0} ⦃k : Curses⦄ (w : Surroundings F A) where
  accept_prompt-Allowed :
      (config : AppConfig) (state : UiState)
      → (mode : PromptMode) → state.prompt_mode ≡ mode
      → Allowed w.os state (accept_prompt w.os w.now w.rows mode config state)
  unfolding accept_prompt send_signal_to_selected_process
  accept_prompt-Allowed config state signal_prompt m =
      signal_for-Allowed w.os w.now config state
        (record state { prompt_mode = no_prompt; prompt_buffer = [] }) state.selected_pid _ refl m
        (max_one (if is_nil state.prompt_buffer then w.os.sigterm else atoi state.prompt_buffer))
  accept_prompt-Allowed config state _ m = tt

  handle_prompt-Allowed :
      (ch : ℤ) (config : AppConfig) (state : UiState)
      → Allowed w.os state (handle_prompt w.os w.now w.rows ch config state)
  unfolding handle_prompt
  handle_prompt-Allowed ch config state =
      ground (arith, accept_prompt-Allowed config state state.prompt_mode refl)

  run_command-Allowed :
      (command : Command) (ch : ℤ) (config : AppConfig) (state : UiState)
      → state.prompt_mode ≡ no_prompt
      → Allowed w.os state (run_command w command ch config state)
  unfolding run_command renice_selected_process
  run_command-Allowed lower_nice ch config state m =
      renice_for-Allowed w.os w.now config state state.selected_pid (negsuc 0) refl m (inr refl)
  run_command-Allowed raise_nice ch config state m =
      renice_for-Allowed w.os w.now config state state.selected_pid (pos 1) refl m (inl refl)
  run_command-Allowed _ ch config state m = tt

  handle_layer-Allowed :
      (layer : Layer) (ch : ℤ) (config : AppConfig) (state : UiState)
      → (layer ≡ screen → state.prompt_mode ≡ no_prompt)
      → Allowed w.os state (handle_layer w layer ch config state)
  unfolding handle_layer
  handle_layer-Allowed prompt ch config state m = handle_prompt-Allowed ch config state
  handle_layer-Allowed screen ch config state m =
      run_command-Allowed (command_of ch) ch config state (m refl)
  handle_layer-Allowed help ch config state m =
      quiet_Allowed w.os state (handle_help ch config state) (handle_help-IsQuiet ch config state)
  handle_layer-Allowed process_detail ch config state m =
      quiet_Allowed w.os state (handle_process_detail ch config state)
        (handle_process_detail-IsQuiet ch config state)
  handle_layer-Allowed workload_detail ch config state m =
      quiet_Allowed w.os state (handle_workload_detail ch config state)
        (handle_workload_detail-IsQuiet ch config state)
  handle_layer-Allowed setup ch config state m =
      quiet_Allowed w.os state (handle_setup ch config state) (handle_setup-IsQuiet ch config state)

  -- Whatever key is pressed in whatever state, it makes no system call on any process but the selected
  -- one: a signal only with the prompt for it open, and never one whose number is below 1; a new
  -- priority only with no prompt open, and only one step from the priority that the system reports.
  pub handle_input-IsAllowed :
      (ch : ℤ) (config : AppConfig) (state : UiState)
      → All (IsAllowed w.os state) (handle_input w ch config state).calls
  unfolding handle_input
  handle_input-IsAllowed ch config state =
      handle_layer-Allowed (layer_of state) ch config state (λ e. ((layer_of_lem state).0 e).1)
