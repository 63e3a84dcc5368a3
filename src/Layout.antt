-- ===== src/Layout.antt =====
-- src/main.cpp: the sizes and the places of the windows, `create_windows`.
pub mod Tiles
use mtop.Base.{ℕ, ◌+◌, ◌-◌, ◌/◌, max, min}
use mtop.Base.Int.{ℤ, pos, ◌-ℤ◌}

-- The arguments of `newwin`. Only the footer's line can be negative.
pub record Window : Type 0 where
  pub height : ℕ
  pub width : ℕ
  pub y : ℤ
  pub x : ℕ

pub record WindowLayout : Type 0 where
  pub gpu : Window
  pub cpu : Window
  pub memory : Window
  pub processes : Window
  pub footer : Window
  pub rows : ℕ
  pub cols : ℕ

abbrev info_height : ℕ
info_height = 1

abbrev footer_height : ℕ
footer_height = 2

abbrev memory_height : ℕ
memory_height = 5

-- what is left for the upper windows and the processes; of a negative difference std::max takes 16
abbrev remaining : ℕ → ℕ
remaining rows = max 16 (rows - info_height - memory_height - footer_height)

abbrev top_height : ℕ → ℕ
top_height rows = max 10 (min 18 (remaining rows - 6))

abbrev process_height : ℕ → ℕ
process_height rows = max 6 (remaining rows - top_height rows)

abbrev left_width : ℕ → ℕ
left_width cols = max 30 (cols / 2)

abbrev right_width : ℕ → ℕ
right_width cols = max 30 (cols - left_width cols)

unfoldable pub create_windows : ℕ → ℕ → WindowLayout
unfolding ◌-ℤ◌
create_windows rows cols =
    let memory_y = info_height + top_height rows in
    let process_y = memory_y + memory_height in
    record {
      gpu = record {
        height = top_height rows;
        width = right_width cols;
        y = pos info_height;
        x = left_width cols;
      };
      cpu = record {
        height = top_height rows;
        width = left_width cols;
        y = pos info_height;
        x = 0;
      };
      memory = record { height = memory_height; width = cols; y = pos memory_y; x = 0 };
      processes = record { height = process_height rows; width = cols; y = pos process_y; x = 0 };
      footer = record {
        height = footer_height;
        width = cols;
        y = pos rows -ℤ pos footer_height;
        x = 0;
      };
      rows = rows;
      cols = cols;
    }
