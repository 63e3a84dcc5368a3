-- ===== src/Loop/Footer.antt =====
-- src/main.cpp: the labels of the footer, and the keys that clicks on them stand for.
use mtop.Base.{ℕ, ◌+◌, leb, ltb, if◌then◌else◌, List, [], ◌∷◌, length, Bytes, str}
use mtop.Base.Int.{ℤ, pos, ◌-ℤ◌}
use mtop.Input.{Curses}
use mtop.Screen.{ButtonBounds}

pub record Label : Type 0 where
  pub key : Bytes
  pub label : Bytes
  pub event : ℤ

abbrev label_of : Bytes → Bytes → ℤ → Label
label_of key label event = record { key = key; label = label; event = event }

abbrev pub labels : ⦃k : Curses⦄ → List Label
labels ⦃k⦄ =
    label_of (str "F1") (str "Help") (k.key_f 1)
    ∷ label_of (str "F2") (str "Setup") (k.key_f 2)
    ∷ label_of (str "F3") (str "Search") (k.key_f 3)
    ∷ label_of (str "F4") (str "Filter") (k.key_f 4)
    ∷ label_of (str "F5") (str "Tree") (k.key_f 5)
    ∷ label_of (str "F6") (str "SortBy") (k.key_f 6)
    ∷ label_of (str "F7") (str "View-") (k.key_f 7)
    ∷ label_of (str "F8") (str "View+") (k.key_f 8)
    ∷ label_of (str "F9") (str "Kill") (k.key_f 9)
    ∷ label_of (str "F10") (str "Quit") (k.key_f 10)
    ∷ []

-- The column behind a label: what does not fit is left out.
unfoldable pub column_after : ℕ → ℕ → Label → ℕ
column_after width col l =
    let after_key = col + length l.key in
    let after_label = if ltb (after_key + 1) width then after_key + length l.label else after_key in
    if ltb (after_label + 1) width then after_label + 1 else after_label

-- `draw_key_label`: the column behind it, and its bounds; close to the edge nothing is drawn
unfoldable pub draw_key_label : ℕ → ℕ → Label → ButtonBounds → ℕ × ButtonBounds
unfolding column_after ◌-ℤ◌
draw_key_label width col l bounds =
    let end = column_after width col l in
    if leb width (col + 4)
    then (col, bounds)
    else (end, record { x0 = pos col; x1 = pos end -ℤ pos 1; event = l.event })

unfoldable pub draw_each : ℕ → ℕ → List Label → List ButtonBounds → List ButtonBounds
unfolding draw_key_label
draw_each width col (l ∷ ls) (b ∷ bs) =
    let (end, bounds) = draw_key_label width col l b in bounds ∷ draw_each width end ls bs
draw_each width col _ bs = bs

unfoldable pub draw_labels : ⦃k : Curses⦄ → ℕ → ℕ → List ButtonBounds → List ButtonBounds
unfolding draw_each
draw_labels width col buttons = draw_each width col labels buttons
