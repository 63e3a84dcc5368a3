-- ===== src/Examples/Screens.antt =====
-- The theorems on the columns, the views, the detector's words and the keys at concrete inputs.
use mtop.Base.{ℕ, ◌≡◌, ◌++◌, ◌+◌, true, List, ◌∷◌, str, All}
use mtop.Base.Int.{ℤ, pos}
use mtop.Base.Sort.{IsStrictWeak}
use mtop.Examples.Fixtures.{whole_double, whole_ordered}
use mtop.Input.Consumption.{Takes, read_input_event-Takes}
use mtop.Input.Events.{read_input_event, defined_keys, key_event}
use mtop.Input.FunctionKeys.{keys_of, read_input_event-defined_keys}
use mtop.Input.{Curses}
use mtop.Snapshot.{ProcessSnapshot}
use mtop.Sorting.Order.{HasNumbers, process_sort_less-IsStrictWeak}
use mtop.Sorting.{SortMode, process_sort_less}

process_sort_less-IsStrictWeak_example :
    IsStrictWeak {A = ProcessSnapshot ℕ} HasNumbers
      (λ l r. process_sort_less l r SortMode.io (pos 1))
process_sort_less-IsStrictWeak_example = process_sort_less-IsStrictWeak ℕ SortMode.io (pos 1)

-- ncurses' numbers
instance abbrev pub ncurses : Curses
ncurses = record {
  key_f = λ n. pos (264 + n);
  key_btab = pos 353;
  key_up = pos 259;
  key_down = pos 258;
  key_left = pos 260;
  key_right = pos 261;
  key_home = pos 262;
  key_end = pos 360;
  key_ppage = pos 339;
  key_npage = pos 338;
  key_enter = pos 343;
  key_backspace = pos 263;
  key_mouse = pos 409;
  button1_released = 1;
  button1_clicked = 4;
}

abbrev mouse_report : List ℤ
mouse_report = keys_of (27 ∷ str "[<0;12;7m")

read_input_event-Takes_example : Takes 35 mouse_report (read_input_event mouse_report).1
read_input_event-Takes_example = read_input_event-Takes mouse_report

read_input_event-defined_keys_example :
    All
      (λ entry.
        read_input_event (keys_of entry.0 ++ mouse_report) ≡ (key_event true entry.1, mouse_report))
      defined_keys
read_input_event-defined_keys_example = read_input_event-defined_keys mouse_report
