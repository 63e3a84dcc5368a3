-- ===== src/Screen/Header.antt =====
-- src/main.cpp: a click on the header hits the column that stands there.
use mtop.Base.{
  ◌∙◌, ap, subst, ℕ, zero, suc, ◌+◌, ◌≤◌, ◌<◌, ◌≡◌, refl, arith, true, false, if◌then◌else◌, List,
  [], ◌∷◌, Option, none, some, get_elem?,
}
use mathlib.Core.Option.{none-ne-some, some-injective}
use mtop.Base.Int.{pos}
use mtop.Screen.Columns.{
  is_inside, ProcessColumn, process_columns, offset_from, process_column_offset, sort_from,
  process_sort_from_header_x, column_from, process_column_index_from_header_x,
}
use mtop.Sorting.{SortMode}

-- What a click on a column sorts by.
abbrev pub sorts_by : ProcessColumn → Option SortMode
sorts_by c = if c.sortable then some c.sort_mode else none

offset_from-le : (columns : List ProcessColumn) (x n : ℕ) → x ≤ offset_from x columns n
unfolding offset_from
offset_from-le [] x n = omega arith
offset_from-le (c ∷ columns) x zero = omega arith
offset_from-le (c ∷ columns) x (suc n) = omega (arith, offset_from-le columns (x + (c.width + 1)) n)

inside_own : (x0 k : ℕ) (c : ProcessColumn) → k < c.width → is_inside (pos (x0 + k)) x0 c ≡ true
inside_own x0 k c h = ground arith

outside_earlier :
    (x x0 : ℕ) (c : ProcessColumn) → x0 + (c.width + 1) ≤ x → is_inside (pos x) x0 c ≡ false
outside_earlier x x0 c h = ground arith

-- a column that starts behind x is not hit
sort_from-behind :
    (columns : List ProcessColumn) (x x0 : ℕ) → x < x0 → sort_from (pos x) x0 columns ≡ none
unfolding sort_from
sort_from-behind [] x x0 h = refl
sort_from-behind (c ∷ columns) x x0 h =
    ground (arith, sort_from-behind columns x (x0 + (c.width + 1)))

hits :
    (columns : List ProcessColumn) (x0 i n k : ℕ) (c : ProcessColumn)
    → get_elem? columns n ≡ some c
    → k < c.width
    → (column_from (pos (offset_from x0 columns n + k)) x0 i columns ≡ some (i + n))
      × (sort_from (pos (offset_from x0 columns n + k)) x0 columns ≡ sorts_by c)
unfolding offset_from column_from sort_from
hits [] x0 i n k c g h = absurd (none-ne-some c g)
hits (d ∷ columns) x0 i zero k c g h =
    subst
      (λ e.
        k < e.width
        → (column_from (pos (x0 + k)) x0 i (d ∷ columns) ≡ some (i + 0))
          × (sort_from (pos (x0 + k)) x0 (d ∷ columns) ≡ sorts_by e))
      (some-injective d c g)
      (λ l.
        rw
          (
            inside_own x0 k d l,
            sort_from-behind columns (x0 + k) (x0 + (d.width + 1)) (omega arith),
          )
          (ap some (omega arith), refl))
      h
hits (d ∷ columns) x0 i (suc n) k c g h =
    let rest = hits columns (x0 + (d.width + 1)) (suc i) n k c g h in
    let le = offset_from-le columns (x0 + (d.width + 1)) n in
    rw (outside_earlier (offset_from (x0 + (d.width + 1)) columns n + k) x0 d (omega (arith, le)))
      (rest.0 ∙ ap some (omega arith), rest.1)

-- A click anywhere on a column of the header is taken for that column; it sorts by the column's key if
-- the column can be sorted by, and else by nothing.
header_hits :
    (n k : ℕ) (c : ProcessColumn)
    → get_elem? process_columns n ≡ some c
    → k < c.width
    → (process_column_index_from_header_x (pos (process_column_offset n + k)) ≡ some n)
      × (process_sort_from_header_x (pos (process_column_offset n + k)) ≡ sorts_by c)
unfolding process_column_index_from_header_x process_sort_from_header_x process_column_offset
header_hits n k c g h =
    let both = hits process_columns 1 0 n k c g h in (both.0 ∙ ap some (omega arith), both.1)
