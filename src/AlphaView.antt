-- ===== src/AlphaView.antt =====
-- src/main.cpp: the model of the profile alpha, its queries and its search.
pub mod Found
use mtop.Base.{
  ℕ, zero, suc, ◌+◌, ◌-◌, ◌%◌, ◌==◌, ltb, Bool, true, false, not, ◌&&◌, ◌||◌, if◌then◌else◌, List,
  [], ◌∷◌, ◌++◌, Option, none, some, is_nil, any, length, get_elem?, Bytes, str, lowercase,
  contains,
}
use mtop.Base.Double.{Double}
use mtop.Base.Int.{ℤ, pos, negsuc, clamp_ℤ, ltb_ℤ}
use mtop.Base.Sort.{sort_by}
use mtop.Memory.{MemoryRiskSnapshot, derive_memory_risk}
use mtop.Screen.{UiState, keep, process_matches_query}
use mtop.Screen.Searches.{set_status}
use mtop.Snapshot.{SystemSnapshot}
use mtop.Workload.{WorkloadSnapshot, AiProcessRow, workload_kind_label}
use mtop.Workload.AiRows.{build_ai_process_rows, same_bool}
use mtop.Workload.Build.{build_workloads}

-- `lowercase(text).find(needle) != std::string::npos`
abbrev pub mentions : Bytes → Bytes → Bool
mentions text query = contains (lowercase text) (lowercase query)

abbrev suc_ℤ : ℤ → ℕ
suc_ℤ (pos n) = suc n
suc_ℤ (negsuc n) = 0

-- what follows the loop, and its `return`
unfoldable pub select_found : Option ℕ → UiState → ℕ → UiState
unfolding set_status
select_found none state now =
    set_status state (str "No process search match: " ++ state.search) 3000 now
select_found (some index) state now = record state { workload_index = pos index }

module _ {F : Type 0} where
  unfoldable pub workload_matches_query : WorkloadSnapshot F → Bytes → Bool
  workload_matches_query workload query =
      is_nil query
      || (mentions workload.name query
          || mentions (workload_kind_label workload.kind) query
          || mentions workload.model_hint query)
      || any (λ process. mentions process.command query) workload.processes

  -- A row's process is never missing here.
  unfoldable pub ai_process_matches_query : AiProcessRow F → Bytes → Bool
  unfolding process_matches_query
  ai_process_matches_query row query =
      process_matches_query row.process query
      || is_nil query
      || (mentions (workload_kind_label row.detection.kind) query
          || mentions row.detection.model_hint query
          || mentions row.detection.label query)

  -- one step of the loop: its index if the row matches, and else what the later steps give
  abbrev pub look : Option (AiProcessRow F) → Bytes → ℕ → Option ℕ → Option ℕ
  look none query index rest = rest
  look (some row) query index rest = if ai_process_matches_query row query then some index else rest

  -- The loop over `offset`; `tried` counts from 0 what `offset` counts from 1, and `start` is
  -- base_index + 1, so that no number is negative.
  unfoldable pub search_ai_rows : List (AiProcessRow F) → Bytes → ℕ → ℕ → ℕ → Option ℕ
  search_ai_rows rows query start zero tried = none
  search_ai_rows rows query start (suc offsets) tried =
      let rest = search_ai_rows rows query start offsets (suc tried) in
      let index = (start + tried + length rows) % length rows in
      look (get_elem? rows index) query index rest

  -- std::clamp(state.workload_index, -1, size - 1) + 1
  unfoldable pub search_start : List (AiProcessRow F) → ℤ → ℕ
  unfolding clamp_ℤ
  search_start rows workload_index =
      suc_ℤ (clamp_ℤ workload_index (negsuc 0) (pos (length rows - 1)))

  unfoldable pub apply_alpha_search_request : UiState → List (AiProcessRow F) → ℕ → UiState
  unfolding search_ai_rows search_start select_found
  apply_alpha_search_request state rows now =
      let asked = record state { search_pending = false } in
      let found =
        search_ai_rows rows state.search (search_start rows state.workload_index) (length rows) 0 in
      if not state.search_pending
      then state
      else if is_nil state.search || is_nil rows
      then asked
      else select_found found asked now

pub record AlphaModel (F : Type 0) : Type 0 where
  pub workloads : List (WorkloadSnapshot F)
  pub process_rows : List (AiProcessRow F)
  pub risk : MemoryRiskSnapshot

module _ {F : Type 0} where
  -- the two orders for an ascending direction
  unfoldable pub ascending_workloads : WorkloadSnapshot F → WorkloadSnapshot F → Bool
  ascending_workloads lhs rhs = ltb lhs.resident_bytes rhs.resident_bytes

  unfoldable pub ascending_rows : AiProcessRow F → AiProcessRow F → Bool
  ascending_rows lhs rhs =
      if not (same_bool lhs.is_ai rhs.is_ai)
      then lhs.is_ai && not rhs.is_ai
      else if not (lhs.process.resident_bytes == rhs.process.resident_bytes)
      then ltb lhs.process.resident_bytes rhs.process.resident_bytes
      else ltb_ℤ lhs.process.pid rhs.process.pid

module _ {F : Type 0} ⦃d : Double F⦄ where
  -- The two lists before and after the queries; the lists in the end.
  unfoldable pub filtered_lists :
      SystemSnapshot F → UiState → List (WorkloadSnapshot F) × List (AiProcessRow F)
  unfolding workload_matches_query ai_process_matches_query
  filtered_lists snapshot state =
      let workloads = build_workloads snapshot in
      let process_rows = build_ai_process_rows snapshot in
      if not (is_nil state.filter)
      then (
        keep (λ workload. workload_matches_query workload state.filter) workloads,
        keep (λ row. ai_process_matches_query row state.filter) process_rows,
      )
      else (workloads, process_rows)

  unfoldable pub sorted_lists :
      SystemSnapshot F → UiState → List (WorkloadSnapshot F) × List (AiProcessRow F)
  unfolding filtered_lists ascending_workloads ascending_rows
  sorted_lists snapshot state =
      let (workloads, process_rows) = filtered_lists snapshot state in
      if ltb_ℤ (pos 0) state.sort_direction
      then (sort_by ascending_workloads workloads, sort_by ascending_rows process_rows)
      else (workloads, process_rows)

  -- the part of the main loop for the profile alpha, before its search
  unfoldable pub alpha_model : SystemSnapshot F → List (SystemSnapshot F) → UiState → AlphaModel F
  unfolding sorted_lists
  alpha_model snapshot prior_history state =
      let (workloads, process_rows) = sorted_lists snapshot state in
      record {
        workloads = workloads;
        process_rows = process_rows;
        risk = derive_memory_risk snapshot prior_history workloads;
      }
