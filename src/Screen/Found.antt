-- ===== src/Screen/Found.antt =====
-- src/main.cpp: a search finds a row if there is one.
use mtop.Base.{
  ◌≢◌, leb→le, not, if_rule, ℕ, zero, suc, ◌+◌, ◌-◌, ◌%◌, ◌≤◌, ◌<◌, ◌≡◌, refl, sym, ap, ◌∙◌, subst,
  arith, true, false, ◌||◌, leb, if◌then◌else◌, List, [], ◌∷◌, Option, some, is_nil, length,
  get_elem?, Bytes, Bool-cases, Option-cases, inl, inr,
}
use mathlib.Core.Option.{none-ne-some, some-injective}
use native.Mathlib.Nat.{add-mod_right, mod-eq_of_lt}
use mtop.Base.Int.{ℤ}
use mtop.Screen.Searches.{search_rows, start_of, apply_search_request, look, select_found}
use mtop.Screen.Actions.{find_selected}
use mtop.Screen.Pages.{find_selected-lt}
use mtop.Screen.{UiState, ProcessRow, process_matches_query}

module _ {F : Type 0} where
  -- A row of the table that matches, with its pid.
  pub record Match (rows : List (ProcessRow F)) (query : Bytes) (pid : ℤ) : Type 0 where
    pub place : ℕ
    pub row : ProcessRow F
    pub in_table : get_elem? rows place ≡ some row
    pub same_pid : row.process.pid ≡ pid
    pub matches : process_matches_query row.process query ≡ true

  -- the result of a search is a match
  abbrev pub Found : List (ProcessRow F) → Bytes → Option ℤ → Type 0
  Found rows query result = (pid : ℤ) × (result ≡ some pid) × Match rows query pid

  -- the loop finds a match if one stands at a place that it comes to
  search_rows-result :
      (rows : List (ProcessRow F)) (query : Bytes) (start offsets tried t : ℕ) (row : ProcessRow F)
      → tried ≤ t
      → t < tried + offsets
      → get_elem? rows ((start + t + length rows) % length rows) ≡ some row
      → process_matches_query row.process query ≡ true
      → Found rows query (search_rows rows query start offsets tried)
  unfolding search_rows
  search_rows-result rows query start zero tried t row l u g m = absurd (omega arith)
  search_rows-result rows query start (suc offsets) tried t row l u g m =
      let at : tried ≡ t → get_elem? rows ((start + tried + length rows) % length rows) ≡ some row =
        λ same.
          subst (λ k. get_elem? rows ((start + k + length rows) % length rows) ≡ some row)
            (sym same) g in
      let later : ¬ (tried ≡ t)
          → Found rows query (search_rows rows query start offsets (suc tried)) =
        λ other.
          search_rows-result rows query start offsets (suc tried) t row (omega arith) (omega arith)
            g m in
      let rest = search_rows rows query start offsets (suc tried) in
      elim (Option-cases (get_elem? rows ((start + tried + length rows) % length rows))) [
        | inl gone ↦
            subst (λ o. Found rows query (look o query rest)) (sym gone)
              (later λ same. none-ne-some row (sym gone ∙ at same))
        | inr (r, e) ↦
            subst (λ o. Found rows query (look o query rest)) (sym e)
              (if_rule (Found rows query) (process_matches_query r.process query)
                (λ hit. (
                  r.process.pid,
                  refl,
                  record { place = _; row = r; in_table = e; same_pid = refl; matches = hit },
                ))
                λ miss. later λ same.
                  let twice = some-injective r row (sym e ∙ at same) in
                  let hit =
                    subst (λ x. process_matches_query x.process query ≡ true) (sym twice) m in
                  absurd cc)
      ]

-- Which of the loop's steps looks at the place `i`, with the table's length `n`.
unfoldable pub step_for : ℕ → ℕ → ℕ → ℕ
step_for start i n = if leb start i then i - start else i + n - start

pub step_for_lem :
    (start i n : ℕ)
    → start ≤ n
    → i < n
    → (step_for start i n < n) × ((start + step_for start i n + n) % n ≡ i)
unfolding step_for
step_for_lem start i n s h = elim (Bool-cases (leb start i)) [
  | inl below ↦
      let le = leb→le start i below in
      let same : start + (i - start) + n ≡ i + n = omega (arith, le) in
      rw below (omega (arith, le), ap (λ k. k % n) same ∙ add-mod_right i n ∙ mod-eq_of_lt h)
  | inr above ↦
      let lt : i < start = ground arith in
      let same : start + (i + n - start) + n ≡ i + n + n = omega (arith, lt) in
      rw above (
        omega (arith, lt),
        ap (λ k. k % n) same ∙ add-mod_right (i + n) n ∙ add-mod_right i n ∙ mod-eq_of_lt h,
      )
]

module _ {A : Type 0} where
  pub get_elem?-lt :
      (rows : List A) (i : ℕ) (row : A) → get_elem? rows i ≡ some row → i < length rows
  get_elem?-lt [] i row h = absurd (none-ne-some row h)
  get_elem?-lt (r ∷ rows) zero row h = omega arith
  get_elem?-lt (r ∷ rows) (suc i) row h = omega (arith, get_elem?-lt rows i row h)

  pub neither :
      (search : Bytes) (rows : List A) (i : ℕ)
      → is_nil search ≡ false
      → i < length rows
      → (is_nil search || is_nil rows) ≢ true
  neither search [] i asked l = absurd (omega arith)
  neither search (row ∷ rows) i asked l = λ no. ground arith

module _ {F : Type 0} where
  start_le :
      (rows : List (ProcessRow F)) (state : UiState)
      → start_of (find_selected rows state) ≤ length rows
  start_le rows state = elim (Option-cases (find_selected rows state)) [
    | inl e ↦ rw e (omega arith)
    | inr (i, e) ↦ rw e (find_selected-lt rows state i e)
  ]

  -- Where a row matches, a pending search for a text that is not empty selects a row that matches,
  -- wherever the selection was.
  pub apply_search_request-finds :
      (state : UiState) (rows : List (ProcessRow F)) (now i : ℕ) (row : ProcessRow F)
      → state.search_pending ≡ true
      → is_nil state.search ≡ false
      → get_elem? rows i ≡ some row
      → process_matches_query row.process state.search ≡ true
      → Found rows state.search (apply_search_request state rows now).selected_pid
  unfolding apply_search_request select_found
  apply_search_request-finds state rows now i row pending asked g m =
      let start = start_of (find_selected rows state) in
      let in_rows = get_elem?-lt rows i row g in
      let step = step_for_lem start i (length rows) (start_le rows state) in_rows in
      let (pid, e, match) =
        search_rows-result rows state.search start (length rows) 0 (step_for start i (length rows))
          row (omega arith) (omega (arith, step.0))
          (subst (λ k. get_elem? rows k ≡ some row) (sym step.1) g) m in
      let asking = record state { search_pending = false } in
      let P : UiState → Type 0 = λ s. Found rows state.search s.selected_pid in
      if_rule P (not state.search_pending) (λ no. absurd cc)
        λ _.
          if_rule P (is_nil state.search || is_nil rows)
            (λ no. absurd (neither state.search rows i asked in_rows no))
            λ _. subst (λ o. P (select_found o asking now)) (sym e) (pid, refl, match)
