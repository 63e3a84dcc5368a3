-- ===== src/Examples/Keys.antt =====
-- The theorems on the keys and the clicks at the sample machine.
use mtop.Base.{
  ◌⊎◌, ◌≢◌, lowercase, find_sub, tolower, map, is_nil, tolower, find_sub, lowercase, is_nil, map,
  arith, ℕ, ◌≡◌, refl, true, false, List, [], ◌∷◌, none, some, str, All, ◌↔◌,
}
use mtop.Base.Int.{pos, ◌+ℤ◌}
use mtop.Config.{default_config}
use mtop.Keyboard.{Os, stay}
use mtop.Keyboard.Returns.{HasCodes, handle_input_return}
use mtop.Keyboard.Calls.{IsAllowed, handle_input-IsAllowed}
use mtop.Keyboard.Dispatch.{Surroundings, handle_input}
use mtop.Keyboard.Quitting.{handle_input_quits}
use mtop.Keyboard.Windows.{IsQuiet, is_shielded, handle_input_shielded}
use mtop.Mouse.{Corners, synthesize_mouse_event}
use mtop.Mouse.Rows.{overview_row, gpu_active_row, overview_click, gpu_active_click}
use mtop.Screen.{
  filter_prompt, sort_prompt, process_matches_query, process_matches_query, UiState, no_prompt,
  signal_prompt,
}
use mtop.Input.{MouseEvent, err}
use mtop.Examples.Fixtures.{ollama_process, mlx_process, shell_process}
use mtop.Workload.{AiProcessRow}
use mtop.Workload.Detector.{detect_workload_process}
use mtop.AlphaView.{ai_process_matches_query, apply_alpha_search_request}
use mtop.AlphaView.Found.{Shows, apply_alpha_search_request-finds}
use mtop.Examples.Screens.{ncurses}
use mtop.Examples.Table.{screen, rows}

-- A system in which the process 10 may not be touched.
abbrev os : Os
os = record {
  getpriority = λ pid. (pos 3, none);
  setpriority = λ pid nice. some (str "Permission denied");
  kill = λ pid number. none;
  sigterm = pos 15;
}

abbrev pub surroundings : Surroundings ℕ ℕ
surroundings = record { os = os; now = 7; ai_rows = []; rows = rows; page_rows = 4 }

abbrev helped : UiState
helped = record screen { show_help = true; show_setup = true }

handle_input_shielded_example :
    IsQuiet helped (handle_input surroundings (pos b'q') default_config helped)
handle_input_shielded_example =
    handle_input_shielded surroundings (pos b'q') default_config helped refl

-- The user has asked for the signal -9.
abbrev signalling : UiState
signalling = record screen { prompt_mode = signal_prompt; prompt_buffer = str "-9" }

handle_input-IsAllowed_example :
    All
      (IsAllowed os signalling)
      (handle_input surroundings (pos 10) default_config signalling).calls
handle_input-IsAllowed_example =
    handle_input-IsAllowed surroundings (pos 10) default_config signalling

handle_input_quits_example :
    ((handle_input surroundings (pos b'q') default_config screen).running ≡ false) ↔ (
      (is_shielded screen ≡ false)
      × (screen.prompt_mode ≡ no_prompt)
      × ((pos b'q' ≡ pos b'q') ⊎ (pos b'q' ≡ pos b'Q') ⊎ (pos b'q' ≡ ncurses.key_f 10)))
handle_input_quits_example = handle_input_quits surroundings (pos b'q') default_config screen

abbrev corners : Corners
corners = record { process_y = pos 5; process_x = pos 0; footer_y = pos 20; footer_x = pos 0 }

abbrev first_page : UiState
first_page = record screen { table_page = pos 0 }

abbrev on_second : MouseEvent
on_second = record { x = pos 9; y = pos 8; bstate = 4 }

overview_click_example :
    synthesize_mouse_event 7 corners rows 4 on_second first_page
    ≡ (err, record first_page { selected_pid = some (pos 11) })
unfolding ◌+ℤ◌ overview_row
overview_click_example =
    overview_click corners rows 7 0 4 1 _ on_second first_page (omega arith) refl refl refl

-- The second row of the GPU's processes is drawn at the line 9; the click selects the third.
abbrev on_drawn : MouseEvent
on_drawn = record { x = pos 9; y = pos 9; bstate = 4 }

gpu_active_click_example :
    synthesize_mouse_event 7 corners rows 4 on_drawn first_page
    ≡ (err, record first_page { selected_pid = some (pos 12) })
unfolding ◌+ℤ◌ gpu_active_row
gpu_active_click_example =
    gpu_active_click corners rows 7 0 4 1 _ on_drawn first_page (omega arith) refl refl refl

abbrev ai_rows : List (AiProcessRow ℕ)
ai_rows =
    map (λ p. record { process = p; detection = detect_workload_process p; is_ai = true })
      (ollama_process ∷ mlx_process ∷ shell_process ∷ [])

-- The search starts at the last row, and goes round.
abbrev searching : UiState
searching = record screen { search = str "phi"; workload_index = pos 2 }

phi_matches :
    ai_process_matches_query
      (record {
        process = mlx_process;
        detection = detect_workload_process mlx_process;
        is_ai = true;
      })
      (str "phi")
    ≡ true
unfolding ai_process_matches_query process_matches_query lowercase str find_sub tolower
phi_matches = refl

phi_asked : is_nil (str "phi") ≡ false
unfolding str
phi_asked = refl

apply_alpha_search_request-finds_example :
    (index : ℕ) × ((apply_alpha_search_request searching ai_rows 7).workload_index ≡ pos index)
    × Shows ai_rows (str "phi") index
apply_alpha_search_request-finds_example =
    apply_alpha_search_request-finds searching ai_rows 7 1 _ refl phi_asked refl phi_matches

abbrev codes : HasCodes
codes = record {
  functions = λ n. omega arith;
  up = omega arith;
  down = omega arith;
  left = omega arith;
  right = omega arith;
  home = omega arith;
  end = omega arith;
  ppage = omega arith;
  npage = omega arith;
  enter = omega arith;
  backspace = omega arith;
  btab = omega arith;
}

-- The user has typed a filter, and presses the return key.
abbrev filtering : UiState
filtering = record screen {
  prompt_mode = filter_prompt;
  prompt_buffer = str "mlx";
  filter = str "mlx";
}

no_order : filtering.prompt_mode ≢ sort_prompt
no_order = ground arith

handle_input_return_example :
    handle_input surroundings (pos 13) default_config filtering ≡ stay default_config filtering
handle_input_return_example =
    handle_input_return surroundings codes default_config filtering no_order
