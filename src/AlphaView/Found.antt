-- ===== src/AlphaView/Found.antt =====
-- src/main.cpp: what the profile alpha shows, and that its search finds a row if there is one.
use mathlib.Core.Option.{none-ne-some, some-injective}
use mtop.Base.{
  ℕ, zero, suc, ◌+◌, ◌%◌, ◌≤◌, ◌<◌, ◌≡◌, refl, sym, ◌∙◌, subst, arith, if_rule, true, false, not,
  ◌||◌, List, Option, some, is_nil, length, get_elem?, Bytes, Option-cases, inl, inr,
}
use mtop.AlphaView.{
  look, search_ai_rows, search_start, select_found, apply_alpha_search_request,
  ai_process_matches_query,
}
use mtop.Base.Int.{ℤ, pos, clamp_ℤ}
use mtop.Screen.{UiState}
use mtop.Screen.Found.{step_for, step_for_lem, get_elem?-lt, neither}
use mtop.Workload.{AiProcessRow}

module _ {F : Type 0} where
  -- The row at an index matches.
  abbrev pub Shows : List (AiProcessRow F) → Bytes → ℕ → Type 0
  Shows rows query index =
      (row : AiProcessRow F) × (get_elem? rows index ≡ some row)
      × (ai_process_matches_query row query ≡ true)

  abbrev pub Found : List (AiProcessRow F) → Bytes → Option ℕ → Type 0
  Found rows query result = (index : ℕ) × (result ≡ some index) × Shows rows query index

  search_ai_rows-Found :
      (rows : List (AiProcessRow F)) (query : Bytes) (start offsets tried t : ℕ)
      (row : AiProcessRow F)
      → tried ≤ t
      → t < tried + offsets
      → get_elem? rows ((start + t + length rows) % length rows) ≡ some row
      → ai_process_matches_query row query ≡ true
      → Found rows query (search_ai_rows rows query start offsets tried)
  unfolding search_ai_rows
  search_ai_rows-Found rows query start zero tried t row l u g m = absurd (omega arith)
  search_ai_rows-Found rows query start (suc offsets) tried t row l u g m =
      let index = (start + tried + length rows) % length rows in
      let rest = search_ai_rows rows query start offsets (suc tried) in
      let at : tried ≡ t → get_elem? rows index ≡ some row = λ same.
        subst (λ k. get_elem? rows ((start + k + length rows) % length rows) ≡ some row) (sym same)
          g in
      let later : ¬ (tried ≡ t) → Found rows query rest = λ other.
        search_ai_rows-Found rows query start offsets (suc tried) t row (omega arith) (omega arith)
          g m in
      elim (Option-cases (get_elem? rows index)) [
        | inl gone ↦
            subst (λ o. Found rows query (look o query index rest)) (sym gone)
              (later λ same. none-ne-some row (sym gone ∙ at same))
        | inr (r, e) ↦
            subst (λ o. Found rows query (look o query index rest)) (sym e)
              (if_rule (Found rows query) (ai_process_matches_query r query)
                (λ hit. (index, refl, (r, e, hit)))
                λ miss. later λ same.
                  let twice = some-injective r row (sym e ∙ at same) in
                  let hit = subst (λ x. ai_process_matches_query x query ≡ true) (sym twice) m in
                  absurd cc)
      ]

  search_start_le :
      (rows : List (AiProcessRow F)) (index : ℤ) (i : ℕ)
      → i < length rows
      → search_start rows index ≤ length rows
  unfolding search_start clamp_ℤ
  search_start_le rows index i h = ground arith

  -- Where a row matches, a pending search for a text that is not empty moves the selection to a row that
  -- matches, wherever the selection was before.
  pub apply_alpha_search_request-finds :
      (state : UiState) (rows : List (AiProcessRow F)) (now i : ℕ) (row : AiProcessRow F)
      → state.search_pending ≡ true
      → is_nil state.search ≡ false
      → get_elem? rows i ≡ some row
      → ai_process_matches_query row state.search ≡ true
      → (index : ℕ) × ((apply_alpha_search_request state rows now).workload_index ≡ pos index)
        × Shows rows state.search index
  unfolding apply_alpha_search_request select_found
  apply_alpha_search_request-finds state rows now i row pending asked g m =
      let start = search_start rows state.workload_index in
      let in_rows = get_elem?-lt rows i row g in
      let step =
        step_for_lem start i (length rows) (search_start_le rows state.workload_index i in_rows)
          in_rows in
      let (index, e, shown) =
        search_ai_rows-Found rows state.search start (length rows) 0
          (step_for start i (length rows)) row (omega arith) (omega (arith, step.0))
          (subst (λ k. get_elem? rows k ≡ some row) (sym step.1) g) m in
      let asking = record state { search_pending = false } in
      let P : UiState → Type 0 =
        λ s. (index : ℕ) × (s.workload_index ≡ pos index) × Shows rows state.search index in
      if_rule P (not state.search_pending) (λ no. absurd cc)
        λ _.
          if_rule P (is_nil state.search || is_nil rows)
            (λ no. absurd (neither state.search rows i asked in_rows no))
            λ _. subst (λ o. P (select_found o asking now)) (sym e) (index, refl, shown)
