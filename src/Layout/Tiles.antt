-- ===== src/Layout/Tiles.antt =====
-- src/main.cpp: the windows fill a terminal that is not too small, and do not overlap.
use mtop.Base.{ℕ, ◌+◌, ◌≤◌, ◌≡◌, arith}
use mtop.Base.Int.{pos, ◌+ℤ◌, ◌-ℤ◌}
use mtop.Layout.{Window, WindowLayout, create_windows}

-- One window starts on the line that follows another's last.
abbrev pub IsAbove : Window → Window → Type 0
IsAbove upper lower = lower.y ≡ upper.y +ℤ pos upper.height

-- From the line below the info bar down to the last one, the windows follow each other without a gap; the
-- two at the top share the lines, side by side, and each of the others starts at the left and is as wide as the
-- terminal.
pub record Tiles (rows cols : ℕ) (l : WindowLayout) : Type 0 where
  pub top : (l.cpu.y ≡ pos 1) × (l.gpu.y ≡ pos 1) × (l.cpu.height ≡ l.gpu.height)
  pub memory : IsAbove l.cpu l.memory
  pub processes : IsAbove l.memory l.processes
  pub footer : IsAbove l.processes l.footer
  pub bottom : l.footer.y +ℤ pos l.footer.height ≡ pos rows
  pub beside : (l.cpu.x ≡ 0) × (l.gpu.x ≡ l.cpu.width) × (l.gpu.x + l.gpu.width ≡ cols)
  pub left : (l.memory.x ≡ 0) × (l.processes.x ≡ 0) × (l.footer.x ≡ 0)
  pub wide : (l.memory.width ≡ cols) × (l.processes.width ≡ cols) × (l.footer.width ≡ cols)

-- In a terminal of at least 24 lines and 60 columns the windows fill all the lines but the first, from the left
-- to the right, without a gap and without an overlap.
pub create_windows-Tiles :
    (rows cols : ℕ) → 24 ≤ rows → 60 ≤ cols → Tiles rows cols (create_windows rows cols)
unfolding create_windows ◌+ℤ◌ ◌-ℤ◌
create_windows-Tiles rows cols h k = record {
  top = ground arith;
  memory = ground arith;
  processes = ground arith;
  footer = ground arith;
  bottom = ground arith;
  beside = ground arith;
  left = ground arith;
  wide = ground arith;
}
