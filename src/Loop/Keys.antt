-- ===== src/Loop/Keys.antt =====
-- src/main.cpp: every key keeps the settings and the state sound.
use mtop.Base.{
  ◌++◌, ◌&&◌, is_nil, if◌then◌else◌, ℕ, ◌≡◌, refl, arith, List, [], ◌∷◌, Option, none, some, Bytes,
  if_rule,
}
use mtop.Base.Int.{leb_ℤ, max_ℤ, eqb_ℤ, ◌+ℤ◌, clamp_ℤ_bounds, ℤ, pos, negsuc}
use mtop.Config.{AppConfig}
use mtop.Input.{to_char, escape, Curses}
use mtop.Keyboard.{
  is_one_of, Os, Outcome, renice_for, renice_pid, signal_for, send_signal_to_selected_process,
}
use mtop.Keyboard.Dispatch.{Surroundings}
use mtop.Keyboard.Popups.{
  handle_help, handle_process_detail, handle_workload_detail, handle_setup, change_field,
}
use mtop.Keyboard.Prompts.{
  is_sort, pop_back, sort_choices, choose_from, cancelled, lower_key, update_for, accept_prompt,
  handle_prompt, update_live_prompt, cancel_prompt, choose_sort,
}
use mtop.Screen.Searches.{set_status}
use mtop.Sorting.{SortMode}
use mtop.Config.Numbers.{atoi}
use mtop.Loop.Sound.{set_sort_mode-IsSound, set_status-IsSound, turned-IsSound, IsSound}
use mtop.Screen.{
  UiState, ProcessRow, PromptMode, no_prompt, search_prompt, filter_prompt, sort_prompt,
  signal_prompt, SetupField, theme, cached_memory, refresh, finish,
}

abbrev pub Kept : Outcome → Type 0
Kept o = IsSound o.config o.state

module _ ⦃k : Curses⦄ (ch : ℤ) (config : AppConfig) (state : UiState)
    (h : IsSound config state) where
  change_field-Kept : (field : SetupField) → Kept (change_field ch config state field)
  unfolding change_field
  change_field-Kept theme = ground arith
  change_field-Kept cached_memory = ground arith
  change_field-Kept refresh = ground (
    arith,
    clamp_ℤ_bounds (config.refresh_ms +ℤ (if eqb_ℤ ch k.key_right then pos 250 else negsuc 249))
        (pos 250) (pos 5000) (omega arith),
  )
  change_field-Kept finish = h

  pub handle_help-Kept : Kept (handle_help ch config state)
  unfolding handle_help
  handle_help-Kept = ground arith

  pub handle_process_detail-Kept : Kept (handle_process_detail ch config state)
  unfolding handle_process_detail
  handle_process_detail-Kept = ground arith

  pub handle_workload_detail-Kept : Kept (handle_workload_detail ch config state)
  unfolding handle_workload_detail
  handle_workload_detail-Kept = ground arith

  pub handle_setup-Kept : Kept (handle_setup ch config state)
  unfolding handle_setup
  handle_setup-Kept = ground (arith, change_field-Kept state.setup_field)

module _ (config : AppConfig) where
  closed-Kept :
      (s : UiState) → IsSound config s → IsSound config (record s { prompt_mode = no_prompt })
  closed-Kept s h = ground arith

  cancelled-Kept :
      (mode : PromptMode) (s : UiState)
      → IsSound config s
      → IsSound config (record (cancelled mode s) { prompt_mode = no_prompt; prompt_buffer = [] })
  unfolding cancelled
  cancelled-Kept mode s h = ground arith

  cancel_prompt-Kept : (s : UiState) → IsSound config s → IsSound config (cancel_prompt s)
  unfolding cancel_prompt
  cancel_prompt-Kept s h = cancelled-Kept s.prompt_mode s h

  choose_from-Kept :
      (ch : ℤ) (choices : List (ℕ × SortMode)) (s : UiState)
      → IsSound config s
      → IsSound config (choose_from ch choices s)
  unfolding choose_from
  choose_from-Kept ch [] s h = h
  choose_from-Kept ch ((letter, mode) ∷ choices) s h =
      if_rule (IsSound config) (eqb_ℤ ch (pos letter)) (λ _. set_sort_mode-IsSound config s mode h)
        (λ _. choose_from-Kept ch choices s h)

  choose_sort-Kept : (ch : ℤ) (s : UiState) → IsSound config s → IsSound config (choose_sort ch s)
  unfolding choose_sort
  choose_sort-Kept ch s h =
      if_rule (IsSound config) (eqb_ℤ (lower_key ch) (pos b'i')) (λ _. turned-IsSound config s h)
        (λ _. choose_from-Kept (lower_key ch) sort_choices s h)

  module _ {F : Type 0} (rows : List (ProcessRow F)) where
    update_for-Kept :
        (mode : PromptMode) (s : UiState) (buffer : Bytes)
        → s.prompt_mode ≡ mode
        → IsSound config s
        → IsSound config (update_for mode (record s { prompt_buffer = buffer }) rows)
    unfolding update_for
    update_for-Kept mode s buffer e h = ground arith

    update_live_prompt-Kept :
        (s : UiState) (buffer : Bytes)
        → IsSound config s
        → IsSound config (update_live_prompt (record s { prompt_buffer = buffer }) rows)
    unfolding update_live_prompt
    update_live_prompt-Kept s buffer h = update_for-Kept s.prompt_mode s buffer refl h

module _ (os : Os) (now : ℕ) (config : AppConfig) (s : UiState) (h : IsSound config s) where
  signal_for-Kept : (chosen : Option ℤ) (n : ℤ) → Kept (signal_for os now config s chosen n)
  unfolding signal_for set_status
  signal_for-Kept none n = ground arith
  signal_for-Kept (some pid) n = ground arith

  pub renice_for-Kept :
      (chosen : Option ℤ) (delta : ℤ) → Kept (renice_for os now config s chosen delta)
  unfolding renice_for renice_pid set_status
  renice_for-Kept none delta = ground arith
  renice_for-Kept (some pid) delta = ground arith

module _ {F A : Type 0} ⦃k : Curses⦄ (w : Surroundings F A) (config : AppConfig) where
  accept_prompt-Kept :
      (mode : PromptMode) (s : UiState)
      → IsSound config s
      → Kept (accept_prompt w.os w.now w.rows mode config s)
  unfolding accept_prompt send_signal_to_selected_process
  accept_prompt-Kept signal_prompt s h =
      signal_for-Kept w.os w.now config (record s { prompt_mode = no_prompt; prompt_buffer = [] })
        (ground arith) s.selected_pid
        (max_ℤ (pos 1) (if is_nil s.prompt_buffer then w.os.sigterm else atoi s.prompt_buffer))
  accept_prompt-Kept no_prompt s h = ground arith
  accept_prompt-Kept search_prompt s h = ground arith
  accept_prompt-Kept filter_prompt s h = ground arith
  accept_prompt-Kept sort_prompt s h = ground arith

  pub handle_prompt-Kept :
      (ch : ℤ) (s : UiState) → IsSound config s → Kept (handle_prompt w.os w.now w.rows ch config s)
  unfolding handle_prompt
  handle_prompt-Kept ch s h =
      if_rule Kept (eqb_ℤ ch escape) (λ _. cancel_prompt-Kept config s h)
        (λ _.
          if_rule Kept (is_one_of ch (pos b'\n' ∷ k.key_enter ∷ []))
            (λ _. accept_prompt-Kept s.prompt_mode s h)
            (λ _.
              if_rule Kept (is_one_of ch (k.key_backspace ∷ pos 127 ∷ []))
                (λ _. update_live_prompt-Kept config w.rows s (pop_back s.prompt_buffer) h)
                (λ _.
                  if_rule Kept (is_sort s.prompt_mode)
                    (λ _.
                      set_status-IsSound config _ _ 3000 w.now
                        (closed-Kept config (choose_sort ch s) (choose_sort-Kept config ch s h)))
                    (λ _.
                      if_rule Kept (leb_ℤ (pos 32) ch && leb_ℤ ch (pos 126))
                        (λ _.
                          update_live_prompt-Kept config w.rows s
                            (s.prompt_buffer ++ (to_char ch ∷ [])) h)
                        (λ _. h)))))
