-- ===== src/Mouse.antt =====
-- src/main.cpp: clicks on the screen. Where curses has put the windows is a parameter, `Corners`.
pub mod Rows
use mtop.Base.{
  ℕ, ◌+◌, ◌*◌, ◌-◌, ◌/◌, ◌%◌, ◌==◌, Bool, true, false, not, ◌&&◌, ◌||◌, if◌then◌else◌, List, [],
  ◌∷◌, ◌++◌, Option, none, some, get_elem?, length, Bytes, str,
}
use mtop.Base.Int.{ℤ, pos, negsuc, pos_part, ◌+ℤ◌, ◌-ℤ◌, eqb_ℤ, leb_ℤ, ltb_ℤ, int_text}
use mtop.Input.{Curses, MouseEvent, err}
use mtop.Keyboard.Commands.{is_overview}
use mtop.Keyboard.{say, say_sort}
use mtop.Screen.{UiState, ProcessRow, ButtonBounds}
use mtop.Screen.Actions.{pid_at, set_sort_mode}
use mtop.Screen.Columns.{
  ProcessColumn, process_columns, process_column_index_from_header_x, process_sort_from_header_x,
}
use mtop.Screen.Searches.{set_status}
use mtop.Sorting.{SortMode, mode_index, negate}
use mtop.View.{ViewMode}

-- getbegyx of the window of the processes and of the footer
pub record Corners : Type 0 where
  pub process_y : ℤ
  pub process_x : ℤ
  pub footer_y : ℤ
  pub footer_x : ℤ

-- the title of the column that is hit, if it cannot be sorted by
unfoldable pub unsortable_title : ℤ → Option Bytes
unfolding process_column_index_from_header_x
unsortable_title local_x = elim (process_column_index_from_header_x local_x) [
  | none ↦ none
  | some index ↦ elim (get_elem? process_columns index) [
    | none ↦ none
    | some def ↦ if not def.sortable then some def.title else none
  ]
]

-- the column that is clicked becomes the order, or turns its direction
unfoldable pub sort_by_click : UiState → SortMode → UiState
unfolding set_sort_mode
sort_by_click state sort =
    if mode_index state.sort == mode_index sort
    then record state { sort_direction = negate state.sort_direction }
    else set_sort_mode state sort false

-- By the title that is hit, if it cannot be sorted by, and the column that is: whether the handler
-- returns, and the state.
unfoldable pub hit_header : ℕ → ℤ → UiState → Option Bytes → Option SortMode → Bool × UiState
unfolding sort_by_click set_status
hit_header now local_x state (some title) sort =
    (true, set_status state (str "Header hit: " ++ (title ++ str " (not sortable)")) 1500 now)
hit_header now local_x state none (some sort) = (true, say_sort (sort_by_click state sort) now)
hit_header now local_x state none none =
    (false, set_status state (str "Header miss x=" ++ int_text local_x) 1200 now)

-- a click on the header
unfoldable pub click_header : ℕ → ℤ → UiState → Bool × UiState
unfolding unsortable_title process_sort_from_header_x hit_header
click_header now local_x state =
    hit_header now local_x state (unsortable_title local_x) (process_sort_from_header_x local_x)

-- `page * rows` on int
unfoldable pub times : ℤ → ℕ → ℤ
times (pos page) rows = pos (page * rows)
times (negsuc page) rows = pos 0 -ℤ pos ((page + 1) * rows)

-- The place is the frame's or the header's.
abbrev pub is_header : Corners → ℤ → Bool
is_header corners y = leb_ℤ corners.process_y y && leb_ℤ y (corners.process_y +ℤ pos 1)

-- The place is one of the table's rows.
unfoldable pub is_table_row : Corners → ℕ → ℤ → Bool
unfolding ◌+ℤ◌ ◌-ℤ◌
is_table_row corners page_rows y =
    let row_start = corners.process_y +ℤ pos 2 in
    leb_ℤ row_start y && leb_ℤ y (row_start +ℤ pos page_rows -ℤ pos 1)

-- `index`
unfoldable pub row_index : Corners → ℕ → ℤ → ℤ → ℤ
unfolding times ◌+ℤ◌ ◌-ℤ◌
row_index corners page_rows table_page y =
    times table_page page_rows +ℤ (y -ℤ (corners.process_y +ℤ pos 2))

module _ {F : Type 0} where
  abbrev pub row_at : List (ProcessRow F) → ℤ → Option ℤ
  row_at rows index =
      if leb_ℤ (pos 0) index && ltb_ℤ index (pos (length rows))
      then pid_at rows (pos_part index)
      else none

  -- The pid of the row at a place of the screen, if there is one.
  unfoldable pub clicked_row : Corners → List (ProcessRow F) → ℕ → ℤ → ℤ → Option ℤ
  unfolding is_table_row row_index
  clicked_row corners rows page_rows table_page y =
      if is_table_row corners page_rows y
      then row_at rows (row_index corners page_rows table_page y)
      else none

-- the first button that is hit, or ERR
unfoldable pub button_at : ℤ → List ButtonBounds → ℤ
button_at local_x [] = err
button_at local_x (button ∷ buttons) =
    let others = button_at local_x buttons in
    if leb_ℤ button.x0 local_x && leb_ℤ local_x button.x1 then button.event else others

module _ {F : Type 0} (now : ℕ) (corners : Corners) (rows : List (ProcessRow F))
    (page_rows : ℕ) where
  -- the row that is clicked, and else the label of the footer
  unfoldable pub after_row : MouseEvent → UiState → Option ℤ → ℤ × UiState
  unfolding button_at ◌+ℤ◌ ◌-ℤ◌
  after_row event state (some pid) = (err, record state { selected_pid = some pid })
  after_row event state none = (
    if eqb_ℤ event.y (corners.footer_y +ℤ pos 1)
        then button_at (event.x -ℤ corners.footer_x) state.footer_buttons
        else err,
    state,
  )

  -- a click that is not on the header
  unfoldable pub click_below : MouseEvent → UiState → ℤ × UiState
  unfolding clicked_row after_row
  click_below event state =
      after_row event state (clicked_row corners rows page_rows state.table_page event.y)

  -- The key that the click stands for, or ERR.
  unfoldable pub synthesize_mouse_event : MouseEvent → UiState → ℤ × UiState
  unfolding click_header click_below ◌+ℤ◌ ◌-ℤ◌
  synthesize_mouse_event event state =
      let (returns, clicked) = click_header now (event.x -ℤ corners.process_x) state in
      if is_overview state.view_mode && is_header corners event.y
      then if returns then (err, clicked) else click_below event clicked
      else click_below event state

-- The bit of a mask; BUTTON1_RELEASED and BUTTON1_CLICKED are curses' numbers.
unfoldable pub is_primary_mouse_activation : ⦃k : Curses⦄ → ℕ → Bool
is_primary_mouse_activation ⦃k⦄ bstate =
    not (bstate / k.button1_released % 2 == 0) || not (bstate / k.button1_clicked % 2 == 0)
