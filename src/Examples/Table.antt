-- ===== src/Examples/Table.antt =====
-- The theorems on the process table at the sample machine, with a tree in which one node is collapsed.
use mtop.Base.{
  tolower, find_sub, lowercase, ℕ, ◌≡◌, ◌+◌, ◌-◌, refl, true, false, List, [], ◌∷◌, some, map, str,
  All, length, is_nil,
}
use mtop.Base.Int.{pos, negsuc}
use mtop.Examples.Fixtures.{whole_double, process, machine}
use mtop.Screen.Actions.{find_row, find_selected, move_selection, calculate_process_metrics, to_ℕ}
use mtop.Screen.DepthFirst.{pids, Distinct}
use mtop.Screen.Found.{Found, apply_search_request-finds}
use mtop.Screen.Fuel.{dfs-depth_bound}
use mtop.Screen.Pages.{IsOn, calculate_process_metrics-IsOn}
use mtop.Screen.Searches.{apply_search_request}
use mtop.Screen.Selection.{IsMove, move_selection-moves}
use mtop.Screen.Tree.{tree_rows-Distinct}
use mtop.Screen.Shown.{Shows, build_process_rows-Shows}
use mtop.Screen.{
  SetupField, no_prompt, UiState, ProcessRow, Walk, has, dfs, depth_bound, tree_rows,
  build_process_rows, process_matches_query, flat_row,
}
use mtop.Snapshot.{ProcessSnapshot, SystemSnapshot}
use mtop.Sorting.{SortMode}
use mtop.View.{ViewProfile, ViewMode}

abbrev family : List (ProcessSnapshot ℕ)
family =
    process 10 1 (str "sh") (str "sh -l") 5 100
    ∷ process 11 10 (str "make") (str "make all") 6 200
    ∷ process 12 11 (str "cc") (str "cc -c a.c") 7 300
    ∷ []

abbrev pub household : SystemSnapshot ℕ
household = record machine { processes = family }

abbrev pub screen : UiState
screen = record {
  sort = SortMode.cpu;
  sort_direction = negsuc 0;
  tree_mode = true;
  table_page = pos 4;
  workload_index = pos 0;
  selected_pid = some (pos 11);
  view_mode = ViewMode.overview;
  filter = [];
  search = str "ma";
  pid_search = [];
  pid_search_deadline = 0;
  status_message = [];
  status_deadline = 0;
  search_pending = true;
  show_process_detail = false;
  view_profile = ViewProfile.beta;
  prompt_mode = no_prompt;
  prompt_buffer = [];
  prompt_saved = [];
  show_help = false;
  show_setup = false;
  show_workload_detail = false;
  show_cached_memory = false;
  setup_field = SetupField.theme;
  footer_buttons = [];
  collapsed_pids = pos 10 ∷ [];
}

abbrev pub rows : List (ProcessRow ℕ)
rows = map flat_row family

build_process_rows-Shows_example :
    Shows household.processes screen (build_process_rows household screen)
build_process_rows-Shows_example = build_process_rows-Shows household screen

tree_rows-Distinct_example :
    Distinct (pids (tree_rows family screen))
    × All (λ row. row.process.user ≡ str "ann") (tree_rows family screen)
tree_rows-Distinct_example =
    tree_rows-Distinct family screen (λ p. p.user ≡ str "ann") (refl, (refl, (refl, tt)))

dfs-depth_bound_example :
    All
      (λ process.
        (depth : ℕ) (walk : Walk ℕ)
        → dfs family screen (3 + depth_bound family screen) process depth walk
          ≡ dfs family screen (depth_bound family screen) process depth walk)
      family
dfs-depth_bound_example = dfs-depth_bound family screen 3

rows-Distinct : Distinct (pids rows)
unfolding has
rows-Distinct = (refl, (refl, (refl, tt)))

move_selection-moves_example :
    (j : ℕ) × (find_selected rows (move_selection screen rows (negsuc 5)) ≡ some j)
    × IsMove (find_selected rows screen) (negsuc 5) (length rows - 1) j
move_selection-moves_example = move_selection-moves screen rows (negsuc 5) rows-Distinct refl

second_selected : find_selected rows screen ≡ some 1
unfolding find_selected find_row
second_selected = refl

calculate_process_metrics-IsOn_example :
    IsOn 1
      (to_ℕ (calculate_process_metrics rows screen (pos 5)).1.table_page)
      (calculate_process_metrics rows screen (pos 5)).0.page_rows
      (calculate_process_metrics rows screen (pos 5)).0.page_count
calculate_process_metrics-IsOn_example =
    calculate_process_metrics-IsOn rows screen (pos 5) 1 second_selected

make_matches :
    process_matches_query (process 11 10 (str "make") (str "make all") 6 200) (str "ma") ≡ true
unfolding process_matches_query lowercase str find_sub tolower
make_matches = refl

asked : is_nil (str "ma") ≡ false
unfolding str
asked = refl

apply_search_request-finds_example :
    Found rows screen.search (apply_search_request screen rows 7).selected_pid
apply_search_request-finds_example =
    apply_search_request-finds screen rows 7 1
      (flat_row (process 11 10 (str "make") (str "make all") 6 200)) refl asked refl make_matches
