-- ===== src/Screen/Selection.antt =====
-- src/main.cpp: the selection, and what the searches find.
use mtop.Base.{
  ◌⊎◌, subst, ℕ, zero, suc, ◌-◌, ◌≤◌, ◌<◌, ◌≡◌, refl, sym, arith, true, false, List, [], ◌∷◌,
  Option, none, some, is_nil, length, Bool-cases, inl, inr,
}
use mathlib.Core.Option.{none-ne-some, some-injective}
use mtop.Base.Int.{pos, negsuc, ◌+ℤ◌, ◌≤ℤ◌, ℤ, eqb_ℤ, clamp_ℤ, eqb_ℤ_iff}
use mtop.Screen.Actions.{find_row, find_selected, pid_at, moved_index, move_selection}
use mtop.Screen.DepthFirst.{pids, Distinct}
use mtop.Screen.{UiState, ProcessRow, has}

module _ {F : Type 0} where
  pid_at-has :
      (rows : List (ProcessRow F)) (i : ℕ) (pid : ℤ)
      → pid_at rows i ≡ some pid
      → has (pids rows) pid ≡ true
  unfolding has
  pid_at-has [] i pid h = absurd (none-ne-some pid h)
  pid_at-has (row ∷ rows) zero pid h =
      ground (arith, eqb_ℤ_iff row.process.pid pid, some-injective row.process.pid pid h)
  pid_at-has (row ∷ rows) (suc i) pid h = ground (arith, pid_at-has rows i pid h)

  -- In a table without a pid twice, the pid at a place is found at that place.
  find_row-pid_at :
      (rows : List (ProcessRow F)) (i : ℕ) (pid : ℤ)
      → Distinct (pids rows)
      → pid_at rows i ≡ some pid
      → find_row rows pid ≡ some i
  unfolding find_row
  find_row-pid_at [] i pid d h = absurd (none-ne-some pid h)
  find_row-pid_at (row ∷ rows) zero pid d h =
      rw ((eqb_ℤ_iff row.process.pid pid).1 (some-injective row.process.pid pid h)) refl
  find_row-pid_at (row ∷ rows) (suc i) pid d h = rw (other, find_row-pid_at rows i pid d.1 h) refl
    where
      other : eqb_ℤ row.process.pid pid ≡ false
      other = elim (Bool-cases (eqb_ℤ row.process.pid pid)) [
        | inl e ↦
            let same = (eqb_ℤ_iff row.process.pid pid).0 e in
            let found =
              subst (λ q. has (pids rows) q ≡ true) (sym same) (pid_at-has rows i pid h) in
            absurd cc
        | inr e ↦ e
      ]

  pid_at-some :
      (rows : List (ProcessRow F)) (i : ℕ)
      → i < length rows
      → (pid : ℤ) × (pid_at rows i ≡ some pid)
  pid_at-some [] i h = absurd (omega arith)
  pid_at-some (row ∷ rows) zero h = (row.process.pid, refl)
  pid_at-some (row ∷ rows) (suc i) h = pid_at-some rows i (omega arith)

-- Where a move by `delta` leads to, in a table whose last row is `last`: from a row, as far as the table goes;
-- from nowhere, to the first row, and upwards to the last one.
abbrev pub IsMove : Option ℕ → ℤ → ℕ → ℕ → Type 0
IsMove (some i) delta last j =
    ((pos i +ℤ delta ≤ℤ pos 0) × (j ≡ 0))
    ⊎ ((pos last ≤ℤ pos i +ℤ delta) × (j ≡ last))
    ⊎ ((pos 0 ≤ℤ pos i +ℤ delta) × (pos i +ℤ delta ≤ℤ pos last) × (pos j ≡ pos i +ℤ delta))
IsMove none delta last j = ((pos 0 ≤ℤ delta) × (j ≡ 0)) ⊎ ((delta ≤ℤ negsuc 0) × (j ≡ last))

moved_index-IsMove :
    (at : Option ℕ) (delta : ℤ) (last : ℕ)
    → (moved_index at delta last ≤ last) × IsMove at delta last (moved_index at delta last)
unfolding moved_index clamp_ℤ ◌+ℤ◌
moved_index-IsMove none delta last = ground arith
moved_index-IsMove (some i) delta last = ground arith

module _ {F : Type 0} where
  in_table :
      {at : ℕ} (rows : List (ProcessRow F))
      → is_nil rows ≡ false
      → at ≤ length rows - 1
      → at < length rows
  in_table [] h l = absurd cc
  in_table (row ∷ rows) h l = omega arith

  -- In a table without a pid twice that is not empty, a move selects a row: the one that is `delta` further
  -- than the selected one, or the first or the last where this is beyond the table; and without a
  -- selected row before, the first or, upwards, the last.
  pub move_selection-moves :
      (state : UiState) (rows : List (ProcessRow F)) (delta : ℤ)
      → Distinct (pids rows)
      → is_nil rows ≡ false
      → (j : ℕ) × (find_selected rows (move_selection state rows delta) ≡ some j)
        × IsMove (find_selected rows state) delta (length rows - 1) j
  unfolding move_selection find_selected
  move_selection-moves state rows delta d h =
      let at = moved_index (find_selected rows state) delta (length rows - 1) in
      let (in_range, is_move) =
        moved_index-IsMove (find_selected rows state) delta (length rows - 1) in
      let (pid, e) = pid_at-some rows at (in_table rows h in_range) in
      (at, rw (h, e) (find_row-pid_at rows at pid d e), is_move)
