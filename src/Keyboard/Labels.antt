-- ===== src/Keyboard/Labels.antt =====
-- src/main.cpp: the `switch` of the keys of the screen, as the branches and their labels.
use mtop.Base.{ℕ, if◌then◌else◌, List, [], ◌∷◌}
use mtop.Base.Int.{ℤ, pos}
use mtop.Input.{Curses}
use mtop.Keyboard.{is_one_of}
use mtop.Screen.{PromptMode, search_prompt, filter_prompt, sort_prompt, signal_prompt}
use mtop.Sorting.{SortMode}

-- A branch of the `switch`.
pub data Command : Type 0 where
  quit up down page_back page_forward go_home go_end : Command
  sort_by : SortMode → Command
  invert next_view previous_view change_sort : Command
  open_prompt : PromptMode → Command
  toggle_tree : Command
  lower_nice raise_nice : Command
  open_help open_setup open_detail : Command
  expand collapse toggle_all clear_queries other_key : Command

abbrev letter : ℕ → ℤ
letter c = pos c

unfoldable pub find_command : ℤ → List (List ℤ × Command) → Command
find_command ch [] = other_key
find_command ch ((keys, command) ∷ rest) =
    let others = find_command ch rest in if is_one_of ch keys then command else others

module _ ⦃k : Curses⦄ where
  abbrev pub labels : List (List ℤ × Command)
  labels =
      (letter b'q' ∷ letter b'Q' ∷ k.key_f 10 ∷ [], quit)
      ∷ (k.key_up ∷ [], up)
      ∷ (k.key_down ∷ [], down)
      ∷ (k.key_ppage ∷ k.key_left ∷ [], page_back)
      ∷ (k.key_npage ∷ k.key_right ∷ [], page_forward)
      ∷ (k.key_home ∷ [], go_home)
      ∷ (k.key_end ∷ [], go_end)
      ∷ (letter b'n' ∷ letter b'N' ∷ [], sort_by SortMode.pid)
      ∷ (letter b'c' ∷ letter b'p' ∷ letter b'P' ∷ [], sort_by SortMode.cpu)
      ∷ (letter b'm' ∷ letter b'M' ∷ [], sort_by SortMode.mem)
      ∷ (letter b'T' ∷ [], sort_by SortMode.time)
      ∷ (letter b'a' ∷ letter b'A' ∷ [], sort_by SortMode.name)
      ∷ (letter b'g' ∷ letter b'G' ∷ [], sort_by SortMode.gpu_active)
      ∷ (letter b'o' ∷ letter b'O' ∷ [], sort_by SortMode.io)
      ∷ (letter b'w' ∷ letter b'W' ∷ [], sort_by SortMode.power)
      ∷ (letter b'i' ∷ letter b'I' ∷ [], invert)
      ∷ (letter b'\t' ∷ k.key_f 8 ∷ letter b'}' ∷ [], next_view)
      ∷ (k.key_btab ∷ k.key_f 7 ∷ letter b'{' ∷ [], previous_view)
      ∷ (letter b's' ∷ letter b'S' ∷ [], change_sort)
      ∷ (letter b'/' ∷ k.key_f 3 ∷ [], open_prompt search_prompt)
      ∷ (letter b'\\' ∷ k.key_f 4 ∷ [], open_prompt filter_prompt)
      ∷ (k.key_f 6 ∷ letter b'>' ∷ letter b'.' ∷ [], open_prompt sort_prompt)
      ∷ (k.key_f 5 ∷ letter b't' ∷ [], toggle_tree)
      ∷ (letter b']' ∷ [], lower_nice)
      ∷ (letter b'[' ∷ [], raise_nice)
      ∷ (k.key_f 9 ∷ letter b'k' ∷ [], open_prompt signal_prompt)
      ∷ (k.key_f 1 ∷ [], open_help)
      ∷ (k.key_f 2 ∷ [], open_setup)
      ∷ (letter b'd' ∷ letter b'D' ∷ [], open_detail)
      ∷ (letter b'+' ∷ [], expand)
      ∷ (letter b'-' ∷ [], collapse)
      ∷ (letter b'*' ∷ [], toggle_all)
      ∷ (letter b'x' ∷ [], clear_queries)
      ∷ []

  unfoldable pub command_of : ℤ → Command
  unfolding find_command
  command_of ch = find_command ch labels
