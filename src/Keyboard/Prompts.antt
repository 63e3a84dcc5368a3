-- ===== src/Keyboard/Prompts.antt =====
-- src/main.cpp: the keys while a prompt is open.
use mtop.Base.{
  ℕ, Bool, true, false, ◌&&◌, if◌then◌else◌, List, [], ◌∷◌, ◌++◌, Option, none, some, is_nil, any,
  Bytes, tolower,
}
use mtop.Base.Int.{ℤ, pos, negsuc, eqb_ℤ, leb_ℤ, max_ℤ}
use mtop.Config.{AppConfig}
use mtop.Config.Numbers.{atoi}
use mtop.Input.{Curses, escape, to_char}
use mtop.Keyboard.{Os, Outcome, stay, say_sort, is_one_of, send_signal_to_selected_process}
use mtop.Screen.{
  UiState, ProcessRow, PromptMode, no_prompt, search_prompt, filter_prompt, sort_prompt,
  signal_prompt,
}
use mtop.Screen.Actions.{set_sort_mode}
use mtop.Screen.Searches.{set_status}
use mtop.Sorting.{SortMode, negate}

-- std::string::pop_back, of a string that is not empty
unfoldable pub pop_back : Bytes → Bytes
pop_back [] = []
pop_back (c ∷ []) = []
pop_back (c ∷ e ∷ s) = c ∷ pop_back (e ∷ s)

module _ {F : Type 0} where
  -- `selection_still_visible`
  abbrev pub shows : List (ProcessRow F) → ℤ → Bool
  shows rows pid = any (λ row. eqb_ℤ row.process.pid pid) rows

  -- the selection, unless no row shows it
  abbrev pub visible_selection : List (ProcessRow F) → Option ℤ → Option ℤ
  visible_selection rows none = none
  visible_selection rows (some pid) = if shows rows pid then some pid else none

  unfoldable pub update_for : PromptMode → UiState → List (ProcessRow F) → UiState
  update_for filter_prompt state rows = record state {
    filter = state.prompt_buffer;
    selected_pid = visible_selection rows state.selected_pid;
  }
  update_for search_prompt state rows = record state {
    search = state.prompt_buffer;
    search_pending = true;
  }
  update_for _ state rows = state

  unfoldable pub update_live_prompt : UiState → List (ProcessRow F) → UiState
  unfolding update_for
  update_live_prompt state rows = update_for state.prompt_mode state rows

-- the escape key
unfoldable pub cancelled : PromptMode → UiState → UiState
cancelled filter_prompt state = record state {
  filter = [];
  table_page = pos 0;
  selected_pid = none;
}
cancelled search_prompt state = record state { search = [] }
cancelled _ state = state

unfoldable pub cancel_prompt : UiState → UiState
unfolding cancelled
cancel_prompt state = record (cancelled state.prompt_mode state) {
  prompt_mode = no_prompt;
  prompt_buffer = [];
}

-- `std::tolower(ch)`: a key of curses is no letter
abbrev pub lower_key : ℤ → ℤ
lower_key (pos c) = pos (tolower c)
lower_key (negsuc c) = negsuc c

unfoldable pub choose_from : ℤ → List (ℕ × SortMode) → UiState → UiState
unfolding set_sort_mode
choose_from ch [] state = state
choose_from ch ((letter, mode) ∷ choices) state =
    let others = choose_from ch choices state in
    if eqb_ℤ ch (pos letter) then set_sort_mode state mode false else others

abbrev pub sort_choices : List (ℕ × SortMode)
sort_choices =
    (b'n', SortMode.pid)
    ∷ (b'p', SortMode.cpu)
    ∷ (b'm', SortMode.mem)
    ∷ (b't', SortMode.time)
    ∷ (b'a', SortMode.name)
    ∷ (b'g', SortMode.gpu_active)
    ∷ (b'o', SortMode.io)
    ∷ (b'w', SortMode.power)
    ∷ []

-- the `switch` of the prompt for the order
unfoldable pub choose_sort : ℤ → UiState → UiState
unfolding choose_from tolower
choose_sort ch state =
    if eqb_ℤ (lower_key ch) (pos b'i')
    then record state { sort_direction = negate state.sort_direction }
    else choose_from (lower_key ch) sort_choices state

abbrev pub is_sort : PromptMode → Bool
is_sort sort_prompt = true
is_sort _ = false

module _ {F : Type 0} ⦃k : Curses⦄ (os : Os) (now : ℕ) (rows : List (ProcessRow F)) where
  -- the key to enter
  unfoldable pub accept_prompt : PromptMode → AppConfig → UiState → Outcome
  unfolding atoi send_signal_to_selected_process
  accept_prompt search_prompt config state = stay config (record state {
    search = state.prompt_buffer;
    search_pending = true;
    prompt_mode = no_prompt;
  })
  accept_prompt filter_prompt config state = stay config (record state {
    filter = state.prompt_buffer;
    table_page = pos 0;
    selected_pid = none;
    prompt_mode = no_prompt;
  })
  accept_prompt signal_prompt config state =
      let number = if is_nil state.prompt_buffer then os.sigterm else atoi state.prompt_buffer in
      send_signal_to_selected_process os now config
        (record state { prompt_mode = no_prompt; prompt_buffer = [] }) (max_ℤ (pos 1) number)
  accept_prompt _ config state = stay config (record state { prompt_mode = no_prompt })

  unfoldable pub handle_prompt : ℤ → AppConfig → UiState → Outcome
  unfolding accept_prompt cancel_prompt update_live_prompt choose_sort set_status pop_back
  handle_prompt ch config state =
      if eqb_ℤ ch escape
      then stay config (cancel_prompt state)
      else if is_one_of ch (pos b'\n' ∷ k.key_enter ∷ [])
      then accept_prompt state.prompt_mode config state
      else if is_one_of ch (k.key_backspace ∷ pos 127 ∷ [])
      then stay config
          (update_live_prompt (record state { prompt_buffer = pop_back state.prompt_buffer }) rows)
      else if is_sort state.prompt_mode
      then stay config (say_sort (record (choose_sort ch state) { prompt_mode = no_prompt }) now)
      else if leb_ℤ (pos 32) ch && leb_ℤ ch (pos 126)
      then stay config (
          update_live_prompt
            (record state { prompt_buffer = state.prompt_buffer ++ (to_char ch ∷ []) }) rows)
      else stay config state
