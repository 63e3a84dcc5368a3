-- ===== src/Screen/Searches.antt =====
-- src/main.cpp: the searches for a text and for a pid.
-- `now` is the steady clock's time in milliseconds.
use mtop.Base.{
  ℕ, zero, suc, ◌+◌, ◌%◌, false, not, ◌||◌, ltb, if◌then◌else◌, List, [], ◌∷◌, ◌++◌, Option, none,
  some, is_nil, length, get_elem?, Bytes, str, is_prefix,
}
use mtop.Base.Int.{ℤ, int_text}
use mtop.Screen.{UiState, ProcessRow, process_matches_query}
use mtop.Screen.Actions.{find_selected}

abbrev pub start_of : Option ℕ → ℕ
start_of none = 0
start_of (some index) = suc index

unfoldable pub set_status : UiState → Bytes → ℕ → ℕ → UiState
set_status state message duration_ms now = record state {
  status_message = message;
  status_deadline = now + duration_ms;
}

-- what follows the loop, and its `return`
unfoldable pub select_found : Option ℤ → UiState → ℕ → UiState
unfolding set_status
select_found none state now = set_status state (str "No search match: " ++ state.search) 3000 now
select_found (some pid) state now = record state { selected_pid = some pid }

module _ {F : Type 0} where
  -- one step of the loop: the row's pid if it matches, and else what the later steps give
  abbrev pub look : Option (ProcessRow F) → Bytes → Option ℤ → Option ℤ
  look none query rest = rest
  look (some row) query rest =
      if process_matches_query row.process query then some row.process.pid else rest

  -- The loop over `offset`; `tried` counts from 0 what `offset` counts from 1, and `start` is
  -- base_index + 1, so that no number is negative.
  unfoldable pub search_rows : List (ProcessRow F) → Bytes → ℕ → ℕ → ℕ → Option ℤ
  search_rows rows query start zero tried = none
  search_rows rows query start (suc offsets) tried =
      let rest = search_rows rows query start offsets (suc tried) in
      look (get_elem? rows ((start + tried + length rows) % length rows)) query rest

  unfoldable pub apply_search_request : UiState → List (ProcessRow F) → ℕ → UiState
  unfolding search_rows find_selected select_found
  apply_search_request state rows now =
      let asked = record state { search_pending = false } in
      let found =
        search_rows rows state.search (start_of (find_selected rows state)) (length rows) 0 in
      if not state.search_pending
      then state
      else if is_nil state.search || is_nil rows
      then asked
      else select_found found asked now

  -- the first row whose pid starts with the digits
  unfoldable pub find_pid_prefix : List (ProcessRow F) → Bytes → Option ℤ
  find_pid_prefix [] digits = none
  find_pid_prefix (row ∷ rows) digits =
      if is_prefix digits (int_text row.process.pid)
      then some row.process.pid
      else find_pid_prefix rows digits

  -- `ch` is the byte that is typed
  unfoldable pub apply_pid_search : UiState → List (ProcessRow F) → ℕ → ℕ → UiState
  unfolding find_pid_prefix set_status
  apply_pid_search state rows ch now =
      let before = if ltb state.pid_search_deadline now then [] else state.pid_search in
      let typed = before ++ (ch ∷ []) in
      let waiting = record state { pid_search = typed; pid_search_deadline = now + 1500 } in
      if ltb 8 (length typed)
      then set_status (record state { pid_search = [] }) (str "Cleared stale numeric input") 1200
          now
      else elim (find_pid_prefix rows typed) [
        | none ↦ set_status waiting (str "No PID match: " ++ typed) 1200 now
        | some pid ↦ record waiting { selected_pid = some pid }
      ]
