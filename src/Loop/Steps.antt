-- ===== src/Loop/Steps.antt =====
-- src/main.cpp: the steps of the main loop as a relation, and what holds in every state they reach.
use mtop.Base.{
  sym, subst, Bytes, ℕ, Bool, ◌&&◌, ◌≡◌, refl, arith, List, Option, none, some, if_rule,
  if◌then◌else◌,
}
use mtop.Base.Double.{Double}
use mtop.Base.Int.{◌-ℤ◌, ℤ, pos, clamp_ℤ}
use mtop.Config.{AppConfig}
use mtop.CommandLine.{RuntimeOptions, runs_screen}
use mtop.CommandLine
use mtop.CommandLine.Ranges.{RunsWith, AreInRange, start-AreInRange}
use mtop.Config.Files.{Disk, Writing}
use mtop.Input.{Curses, MouseEvent}
use mtop.Keyboard.Commands.{is_overview, is_alpha_profile}
use mtop.Keyboard.Dispatch.{Surroundings, handle_input}
use mtop.Loop.{
  alpha_model, Sizes, frame, draw, alpha_part, table_rows, drawn_workload, check_windows,
  start_state,
}
use mtop.Loop.Branches.{handle_input-IsSound}
use mtop.Loop.Sound.{
  IsSound, set_status-IsSound, set_sort_mode-IsSound, turned-IsSound, apply_search_request-IsSound,
  apply_alpha_search_request-IsSound, calculate_process_metrics-IsSound,
}
use mtop.Mouse.{
  is_header, unsortable_title, hit_header, clicked_row, Corners, synthesize_mouse_event,
  click_below, after_row, click_header, sort_by_click,
}
use mtop.Screen.{UiState, ProcessRow, ButtonBounds}
use mtop.Screen.Columns.{process_sort_from_header_x}
use mtop.Screen.Searches.{apply_search_request}
use mtop.Snapshot.{SystemSnapshot}
use mtop.Sorting.{SortMode}
use mtop.Workload.{AiProcessRow}

module _ (F : Type 0) (config : AppConfig) where
  drawn_workload-IsSound :
      (height : ℕ) (ai_rows : List (AiProcessRow F)) (s : UiState)
      → IsSound config s
      → IsSound config (drawn_workload height ai_rows s)
  unfolding drawn_workload clamp_ℤ
  drawn_workload-IsSound height ai_rows s h = ground arith

  check_windows-IsSound :
      (ai_rows : List (AiProcessRow F)) (rows : List (ProcessRow F)) (s : UiState)
      → IsSound config s
      → IsSound config (check_windows ai_rows rows s)
  unfolding check_windows clamp_ℤ
  check_windows-IsSound ai_rows rows s h = ground arith

  footer-IsSound :
      (s : UiState) (buttons : List ButtonBounds)
      → IsSound config s
      → IsSound config (record s { footer_buttons = buttons })
  footer-IsSound s buttons h = ground arith

  sort_by_click-IsSound :
      (s : UiState) (sort : SortMode) → IsSound config s → IsSound config (sort_by_click s sort)
  unfolding sort_by_click
  sort_by_click-IsSound s sort h =
      if_rule (IsSound config) _ (λ _. turned-IsSound config s h)
        (λ _. set_sort_mode-IsSound config s sort h)

  hit_header-IsSound :
      (now : ℕ) (x : ℤ) (s : UiState) (title : Option Bytes) (sort : Option SortMode)
      → IsSound config s
      → IsSound config (hit_header now x s title sort).1
  unfolding hit_header
  hit_header-IsSound now x s (some title) sort h = set_status-IsSound config s _ 1500 now h
  hit_header-IsSound now x s none (some sort) h =
      set_status-IsSound config _ _ 3000 now (sort_by_click-IsSound s sort h)
  hit_header-IsSound now x s none none h = set_status-IsSound config s _ 1200 now h

  click_header-IsSound :
      (now : ℕ) (x : ℤ) (s : UiState) → IsSound config s → IsSound config (click_header now x s).1
  unfolding click_header
  click_header-IsSound now x s h =
      hit_header-IsSound now x s (unsortable_title x) (process_sort_from_header_x x) h

  module _ (now : ℕ) (corners : Corners) (rows : List (ProcessRow F)) (page_rows : ℕ)
      (event : MouseEvent) where
    after_row-IsSound :
        (s : UiState) (chosen : Option ℤ)
        → IsSound config s
        → IsSound config (after_row now corners rows page_rows event s chosen).1
    unfolding after_row
    after_row-IsSound s none h = h
    after_row-IsSound s (some pid) h = ground arith

    click_below-IsSound :
        (s : UiState)
        → IsSound config s
        → IsSound config (click_below now corners rows page_rows event s).1
    unfolding click_below
    click_below-IsSound s h =
        after_row-IsSound s (clicked_row corners rows page_rows s.table_page event.y) h

    synthesize_mouse_event-IsSound :
        (s : UiState)
        → IsSound config s
        → IsSound config (synthesize_mouse_event now corners rows page_rows event s).1
    unfolding synthesize_mouse_event
    synthesize_mouse_event-IsSound s h =
        let (returns, clicked) = click_header now (event.x -ℤ corners.process_x) s in
        let header = click_header-IsSound now (event.x -ℤ corners.process_x) s h in
        let P : ℤ × UiState → Type 0 = λ r. IsSound config r.1 in
        if_rule P (is_overview s.view_mode && is_header corners event.y)
          (λ _. if_rule P returns (λ _. header) (λ _. click_below-IsSound clicked header))
          (λ _. click_below-IsSound s h)

module _ {F : Type 0} ⦃d : Double F⦄ ⦃k : Curses⦄ (config : AppConfig) (sizes : Sizes)
    (now : ℕ) where
  draw-IsSound :
      (ai_rows : List (AiProcessRow F)) (rows : List (ProcessRow F)) (s : UiState)
      → IsSound config s
      → IsSound config (draw sizes now ai_rows rows s)
  unfolding draw
  draw-IsSound ai_rows rows s h =
      let shown = if is_alpha_profile s then drawn_workload sizes.height ai_rows s else s in
      check_windows-IsSound F config ai_rows rows _ (
        footer-IsSound F config shown _ (
          if_rule (IsSound config) (is_alpha_profile s)
            (λ _. drawn_workload-IsSound F config sizes.height ai_rows s h) (λ _. h)))

  alpha_part-IsSound :
      (snapshot : SystemSnapshot F) (prior : List (SystemSnapshot F)) (s : UiState)
      → IsSound config s
      → IsSound config (alpha_part sizes now snapshot prior s).1
  unfolding alpha_part
  alpha_part-IsSound snapshot prior s h =
      if_rule (λ (r : List (AiProcessRow F) × UiState). IsSound config r.1) (is_alpha_profile s)
        (λ _.
          apply_alpha_search_request-IsSound config s (alpha_model snapshot prior s).process_rows
            now h)
        (λ _. h)

  frame-IsSound :
      (snapshot : SystemSnapshot F) (prior : List (SystemSnapshot F)) (s : UiState)
      → IsSound config s
      → IsSound config (frame sizes now snapshot prior s).state
  unfolding frame
  frame-IsSound snapshot prior s h =
      let (ai_rows, searched) = alpha_part sizes now snapshot prior s in
      let rows = table_rows sizes now snapshot searched in
      let found = apply_search_request searched rows now in
      draw-IsSound ai_rows rows _ (
        calculate_process_metrics-IsSound config rows found (pos sizes.height) (
          apply_search_request-IsSound config rows searched now
            (alpha_part-IsSound snapshot prior s h)))

start-IsSound : (start : AppConfig) → AreInRange start → IsSound start (start_state start)
unfolding start_state
start-IsSound start r = ground arith

module _ (F : Type 0) ⦃d : Double F⦄ ⦃k : Curses⦄ (start : AppConfig) where
  -- What the loop can come to: a frame for any sample, a key with any surroundings, a click at any place.
  pub data Reach : AppConfig → UiState → Type 1 where
    starts : Reach start (start_state start)
    frames :
        {c : AppConfig} {s : UiState} (sizes : Sizes) (now : ℕ) (snapshot : SystemSnapshot F)
        (prior : List (SystemSnapshot F))
        → Reach c s
        → Reach c (frame sizes now snapshot prior s).state
    keys :
        {c : AppConfig} {s : UiState} {A : Type 0} (w : Surroundings F A) (ch : ℤ)
        → Reach c s
        → Reach (handle_input w ch c s).config (handle_input w ch c s).state
    clicks :
        {c : AppConfig} {s : UiState} (now : ℕ) (corners : Corners) (rows : List (ProcessRow F))
        (page_rows : ℕ) (event : MouseEvent)
        → Reach c s
        → Reach c (synthesize_mouse_event now corners rows page_rows event s).1

  reached : (c : AppConfig) (s : UiState) → AreInRange start → Reach c s → IsSound c s
  reached _ _ r starts = start-IsSound start r
  reached _ _ r (frames {c} {s} sizes now snapshot prior before) =
      frame-IsSound c sizes now snapshot prior s (reached c s r before)
  reached _ _ r (keys {c} {s} w ch before) = handle_input-IsSound w c ch s (reached c s r before)
  reached _ _ r (clicks {c} {s} now corners rows page_rows event before) =
      synthesize_mouse_event-IsSound F c now corners rows page_rows event s (reached c s r before)

-- However the program is started, and whatever frames, keys and clicks follow each other then: the direction
-- of the order is 1 or -1, the page and the selected workload are not negative, the interval stays between
-- 100 and 60000 milliseconds, and a query that is being typed is the text that the prompt shows.
pub Reach-IsSound :
    (F : Type 0) ⦃d : Double F⦄ ⦃k : Curses⦄ (disk : Disk) (w : Writing) (makes : AppConfig → Bool)
    (arguments : List Bytes) (options : RuntimeOptions) (config c : AppConfig) (s : UiState)
    → CommandLine.start disk w makes arguments ≡ runs_screen options config
    → Reach F config c s
    → IsSound c s
Reach-IsSound F disk w makes arguments options config c s e h =
    reached F config c s
      (start-AreInRange disk w makes arguments config (subst (RunsWith config) (sym e) refl)) h
