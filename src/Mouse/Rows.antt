-- ===== src/Mouse/Rows.antt =====
-- src/main.cpp: the row that a click selects, and where the two tables draw their rows.
use mtop.Base.{
  if_rule, ℕ, ◌+◌, ◌*◌, ◌-◌, ◌<◌, ◌≡◌, refl, ap, ◌∙◌, arith, true, false, List, Option, some, none,
  length, get_elem?, ◌&&◌,
}
use mtop.Base.Int.{ℤ, pos, ◌+ℤ◌, ◌-ℤ◌, leb_ℤ, ltb_ℤ}
use mtop.Keyboard.Commands.{is_overview}
use mtop.Mouse.{
  is_header, after_row, err, MouseEvent, row_at, is_table_row, row_index, Corners, times,
  clicked_row, click_below, synthesize_mouse_event,
}
use mtop.Screen.{UiState, ProcessRow}
use mtop.Screen.Actions.{pid_at}
use mtop.Screen.Found.{get_elem?-lt}

-- `screen_row` in `draw_processes` and in `draw_gpu_active_view`, for the row `index` of a page
unfoldable pub overview_row : ℕ → ℕ → ℕ
overview_row start index = 2 + (index - start)

unfoldable pub gpu_active_row : ℕ → ℕ → ℕ
gpu_active_row start index = 3 + (index - start)

is_table_row_lem :
    (corners : Corners) (page_rows offset : ℕ)
    → offset < page_rows
    → is_table_row corners page_rows (corners.process_y +ℤ pos (2 + offset)) ≡ true
unfolding is_table_row ◌+ℤ◌ ◌-ℤ◌
is_table_row_lem corners page_rows offset h = ground arith

offset_lem : (y : ℤ) (offset : ℕ) → y +ℤ pos (2 + offset) -ℤ (y +ℤ pos 2) ≡ pos offset
unfolding ◌+ℤ◌ ◌-ℤ◌
offset_lem y offset = ground arith

row_index_lem :
    (corners : Corners) (page page_rows offset : ℕ)
    → row_index corners page_rows (pos page) (corners.process_y +ℤ pos (2 + offset))
      ≡ pos (page * page_rows + offset)
unfolding row_index times
row_index_lem corners page page_rows offset =
    ap (λ i. pos (page * page_rows) +ℤ i) (offset_lem corners.process_y offset) ∙ ground arith

not_header :
    (y : ℤ) (offset : ℕ)
    → leb_ℤ y (y +ℤ pos (2 + offset)) && leb_ℤ (y +ℤ pos (2 + offset)) (y +ℤ pos 1) ≡ false
unfolding ◌+ℤ◌
not_header y offset = ground arith

module _ {F : Type 0} (corners : Corners) (rows : List (ProcessRow F)) where
  pid_at_lem :
      (index : ℕ) (row : ProcessRow F)
      → get_elem? rows index ≡ some row
      → pid_at rows index ≡ some row.process.pid
  pid_at_lem index row g =
      ap (λ (o : Option (ProcessRow F)). elim o [ none ↦ none | some r ↦ some r.process.pid ]) g

  row_at_lem :
      (index : ℕ) (row : ProcessRow F)
      → get_elem? rows index ≡ some row
      → row_at rows (pos index) ≡ some row.process.pid
  row_at_lem index row g =
      if_rule (λ o. o ≡ some row.process.pid)
        (leb_ℤ (pos 0) (pos index) && ltb_ℤ (pos index) (pos (length rows)))
        (λ _. pid_at_lem index row g) (λ no. absurd (ground (arith, get_elem?-lt rows index row g)))

  -- The place of a row on the page is taken for that row.
  clicked_row_lem :
      (page page_rows offset : ℕ) (row : ProcessRow F)
      → offset < page_rows
      → get_elem? rows (page * page_rows + offset) ≡ some row
      → clicked_row corners rows page_rows (pos page) (corners.process_y +ℤ pos (2 + offset))
        ≡ some row.process.pid
  unfolding clicked_row
  clicked_row_lem page page_rows offset row h g =
      rw (is_table_row_lem corners page_rows offset h, row_index_lem corners page page_rows offset)
        (row_at_lem (page * page_rows + offset) row g)

  click_below_lem :
      (now page page_rows offset : ℕ) (row : ProcessRow F) (event : MouseEvent) (state : UiState)
      → offset < page_rows
      → get_elem? rows (page * page_rows + offset) ≡ some row
      → state.table_page ≡ pos page
      → event.y ≡ corners.process_y +ℤ pos (2 + offset)
      → click_below now corners rows page_rows event state
        ≡ (err, record state { selected_pid = some row.process.pid })
  unfolding click_below
  click_below_lem now page page_rows offset row event state h g t e =
      ap (after_row now corners rows page_rows event state) (
        ap (λ y. clicked_row corners rows page_rows state.table_page y) e
        ∙ ap (λ p. clicked_row corners rows page_rows p (corners.process_y +ℤ pos (2 + offset))) t
        ∙ clicked_row_lem page page_rows offset row h g)

  below_header :
      (now page_rows : ℕ) (event : MouseEvent) (state : UiState)
      → is_header corners event.y ≡ false
      → synthesize_mouse_event now corners rows page_rows event state
        ≡ click_below now corners rows page_rows event state
  unfolding synthesize_mouse_event
  below_header now page_rows event state h =
      if_rule (λ r. r ≡ click_below now corners rows page_rows event state)
        (is_overview state.view_mode && is_header corners event.y)
        (λ yes. absurd (ground (arith, yes, h))) (λ _. refl)

  -- In either table, a click on the place that is `offset` rows below the header.
  click_lem :
      (now page page_rows offset : ℕ) (row : ProcessRow F) (event : MouseEvent) (state : UiState)
      → offset < page_rows
      → get_elem? rows (page * page_rows + offset) ≡ some row
      → state.table_page ≡ pos page
      → event.y ≡ corners.process_y +ℤ pos (2 + offset)
      → synthesize_mouse_event now corners rows page_rows event state
        ≡ (err, record state { selected_pid = some row.process.pid })
  click_lem now page page_rows offset row event state h g t e =
      below_header now page_rows event state
        (ap (is_header corners) e ∙ not_header corners.process_y offset)
      ∙ click_below_lem now page page_rows offset row event state h g t e

  -- In the overview, a click on the place where a row of the page is drawn selects this row, and changes
  -- nothing else.
  pub overview_click :
      (now page page_rows offset : ℕ) (row : ProcessRow F) (event : MouseEvent) (state : UiState)
      → offset < page_rows
      → get_elem? rows (page * page_rows + offset) ≡ some row
      → state.table_page ≡ pos page
      → event.y
        ≡ corners.process_y +ℤ pos (overview_row (page * page_rows) (page * page_rows + offset))
      → synthesize_mouse_event now corners rows page_rows event state
        ≡ (err, record state { selected_pid = some row.process.pid })
  unfolding overview_row
  overview_click now page page_rows offset row event state h g t e =
      click_lem now page page_rows offset row event state h g t
        (e ∙ ap (λ n. corners.process_y +ℤ pos n) (omega arith))

  -- In the table of the GPU's processes, which is drawn one line lower, a click on the place of a row
  -- selects the row below it, if the page has one.
  pub gpu_active_click :
      (now page page_rows offset : ℕ) (below : ProcessRow F) (event : MouseEvent) (state : UiState)
      → offset + 1 < page_rows
      → get_elem? rows (page * page_rows + (offset + 1)) ≡ some below
      → state.table_page ≡ pos page
      → event.y
        ≡ corners.process_y +ℤ pos (gpu_active_row (page * page_rows) (page * page_rows + offset))
      → synthesize_mouse_event now corners rows page_rows event state
        ≡ (err, record state { selected_pid = some below.process.pid })
  unfolding gpu_active_row
  gpu_active_click now page page_rows offset below event state h g t e =
      click_lem now page page_rows (offset + 1) below event state h g t
        (e ∙ ap (λ n. corners.process_y +ℤ pos n) (omega arith))
