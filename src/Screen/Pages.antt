-- ===== src/Screen/Pages.antt =====
-- src/main.cpp: the page that is shown, and the length of the histories.
use mathlib.Core.Option.{none-ne-some}
use native.Mathlib.Nat.{div-mul-le_self, lt-div-mul-add, div-lt_iff_lt-mul}
use mtop.Base.{
  sym, ltb→lt, subst, ℕ, suc, ◌+◌, ◌-◌, ◌*◌, ◌/◌, ◌≤◌, ◌<◌, ◌≡◌, refl, arith, true, ◌||◌, min, max,
  ltb, leb, List, [], ◌∷◌, ◌++◌, Option, none, some, is_nil, length, take, length-drop,
  take-append-drop, Bool-cases, Option-cases, inl, inr, if_rule,
}
use mtop.Base.Int.{ℤ, pos, negsuc, ◌-ℤ◌, max_ℤ, clamp_ℤ}
use mtop.Screen.Actions.{
  ProcessViewMetrics, find_row, find_selected, page_with, calculate_process_metrics, to_ℕ,
  trim_history,
}
use mtop.Screen.{UiState, ProcessRow}

-- The row `index` is on the page, and the page is one of `page_count`.
abbrev pub IsOn : ℕ → ℕ → ℕ → ℕ → Type 0
IsOn index page page_rows page_count =
    (page * page_rows ≤ index) × (index < suc page * page_rows) × (page < page_count)

page_with-IsOn :
    (page_rows page row_count index : ℕ)
    → 0 < page_rows
    → index < row_count
    → page < max 1 ((row_count + page_rows - 1) / page_rows)
    → IsOn index
        (page_with page_rows page (some index))
        page_rows
        (max 1 ((row_count + page_rows - 1) / page_rows))
page_with-IsOn page_rows page row_count index h l p =
    elim (Bool-cases (ltb index (page * page_rows) || leb (suc page * page_rows) index)) [
      | inl away ↦ rw away (
        div-mul-le_self index page_rows,
        omega (arith, lt-div-mul-add {a = index} h),
        omega (arith, last_page),
      )
      | inr here ↦ rw here (ground arith, ground arith, p)
    ]
  where
    last_page : index / page_rows < (row_count + page_rows - 1) / page_rows
    last_page =
        (div-lt_iff_lt-mul h).1 (omega (arith, lt-div-mul-add {a = row_count + page_rows - 1} h))

nil_length : {A : Type 0} (xs : List A) → is_nil xs ≡ true → length xs ≡ 0
nil_length [] h = refl
nil_length (x ∷ xs) h = absurd cc

positive : (window_height : ℤ) → 0 < to_ℕ (max_ℤ (pos 1) (window_height -ℤ pos 3))
unfolding ◌-ℤ◌
positive (pos n) = ground arith
positive (negsuc n) = ground arith

on_page :
    (page : ℤ) (last count : ℕ) → last < count → to_ℕ (clamp_ℤ page (pos 0) (pos last)) < count
unfolding clamp_ℤ
on_page (pos n) last count h = ground arith
on_page (negsuc n) last count h = ground arith

module _ {F : Type 0} where
  find_row-lt :
      (rows : List (ProcessRow F)) (pid : ℤ) (i : ℕ) → find_row rows pid ≡ some i → i < length rows
  unfolding find_row
  find_row-lt [] pid i h = absurd (none-ne-some i h)
  find_row-lt (row ∷ rows) pid i h = elim (Option-cases (find_row rows pid)) [
    | inl missing ↦ ground arith
    | inr (k, e) ↦ ground (arith, find_row-lt rows pid k e)
  ]

  abbrev selected_in : List (ProcessRow F) → Option ℤ → Option ℕ
  selected_in rows none = none
  selected_in rows (some pid) = find_row rows pid

  pub find_selected-lt :
      (rows : List (ProcessRow F)) (state : UiState) (i : ℕ)
      → find_selected rows state ≡ some i
      → i < length rows
  unfolding find_selected
  find_selected-lt rows state i h = elim (Option-cases state.selected_pid) [
    | inl e ↦ absurd (none-ne-some i (subst (λ o. selected_in rows o ≡ some i) e h))
    | inr (pid, e) ↦ find_row-lt rows pid i (subst (λ o. selected_in rows o ≡ some i) e h)
  ]

  -- Where a row is selected, the table's page is one that exists, and the selected row stands on it.
  pub calculate_process_metrics-IsOn :
      (rows : List (ProcessRow F)) (state : UiState) (window_height : ℤ) (index : ℕ)
      → find_selected rows state ≡ some index
      → IsOn index
          (to_ℕ (calculate_process_metrics rows state window_height).1.table_page)
          (calculate_process_metrics rows state window_height).0.page_rows
          (calculate_process_metrics rows state window_height).0.page_count
  unfolding calculate_process_metrics
  calculate_process_metrics-IsOn rows state window_height index h =
      let page_rows = to_ℕ (max_ℤ (pos 1) (window_height -ℤ pos 3)) in
      let page_count = max 1 ((length rows + page_rows - 1) / page_rows) in
      let P : ProcessViewMetrics × UiState → Type 0 =
        λ r. IsOn index (to_ℕ r.1.table_page) r.0.page_rows r.0.page_count in
      let lt = find_selected-lt rows state index h in
      if_rule P (is_nil rows) (λ e. absurd (omega (arith, nil_length rows e, lt)))
        λ _. rw h (
          page_with-IsOn page_rows (to_ℕ (clamp_ℤ state.table_page (pos 0) (pos (page_count - 1))))
            (length rows) index (positive window_height) lt
            (on_page state.table_page (page_count - 1) page_count (omega arith)))

-- A history is cut to its last `limit` samples: the oldest go, and none that is kept moves.
trim_history_lem :
    {A : Type 0} (history : List A) (limit : ℕ)
    → (length (trim_history history limit) ≡ min limit (length history))
      × (take (length history - limit) history ++ trim_history history limit ≡ history)
unfolding trim_history
trim_history_lem history limit = elim (Bool-cases (ltb limit (length history))) [
  | inl longer ↦ rw longer (
    omega
        (arith, length-drop (length history - limit) history, ltb→lt limit (length history) longer),
    take-append-drop (length history - limit) history,
  )
  | inr short ↦
      let none_over : length history - limit ≡ 0 = ground arith in
      rw short (ground arith, subst (λ k. take k history ++ history ≡ history) (sym none_over) refl)
]
