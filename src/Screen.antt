-- ===== src/Screen.antt =====
-- src/main.cpp: the state of the screen, and the rows of the process table. Pointers to processes are
-- the processes; a std::set of pids is a list without repetitions, and only membership is asked of it.
pub mod DepthFirst
pub mod Tree
pub mod Shown
pub mod Fuel
pub mod Actions
pub mod Searches
pub mod Selection
pub mod Pages
pub mod Nodes
pub mod Found
pub mod Columns
pub mod Header
pub mod Format
pub mod Width
use mtop.Base.{
  ℕ, zero, suc, ◌+◌, Bool, true, false, not, ◌&&◌, ◌||◌, if◌then◌else◌, List, [], ◌∷◌, ◌++◌, map,
  Option, none, some, is_nil, length, Bytes, lowercase, contains,
}
use mtop.Base.Double.{Double}
use mtop.Base.Int.{ℤ, pos, eqb_ℤ, leb_ℤ}
use mtop.Base.Sort.{sort_by}
use mtop.Snapshot.{ProcessSnapshot, SystemSnapshot}
use mtop.View.{ViewMode, ViewProfile}
use mtop.Sorting.{SortMode, process_sort_less}

pub data PromptMode : Type 0 where
  no_prompt search_prompt filter_prompt sort_prompt signal_prompt : PromptMode

pub data SetupField : Type 0 where
  theme cached_memory refresh finish : SetupField

-- Where a label of the footer stands, and the key that a click on it stands for.
pub record ButtonBounds : Type 0 where
  pub x0 : ℤ
  pub x1 : ℤ
  pub event : ℤ

-- A deadline is a time in milliseconds.
pub record UiState : Type 0 where
  pub sort : SortMode
  pub view_profile : ViewProfile
  pub tree_mode : Bool
  pub table_page : ℤ
  pub workload_index : ℤ
  pub selected_pid : Option ℤ
  pub prompt_mode : PromptMode
  pub view_mode : ViewMode
  pub filter : Bytes
  pub search : Bytes
  pub prompt_buffer : Bytes
  pub prompt_saved : Bytes
  pub pid_search : Bytes
  pub pid_search_deadline : ℕ
  pub status_message : Bytes
  pub status_deadline : ℕ
  pub search_pending : Bool
  pub sort_direction : ℤ
  pub show_help : Bool
  pub show_setup : Bool
  pub show_process_detail : Bool
  pub show_workload_detail : Bool
  pub show_cached_memory : Bool
  pub setup_field : SetupField
  pub footer_buttons : List ButtonBounds
  pub collapsed_pids : List ℤ

pub record ProcessRow (F : Type 0) : Type 0 where
  pub process : ProcessSnapshot F
  pub depth : ℕ
  pub has_children : Bool
  pub collapsed : Bool

-- std::set::find
unfoldable pub has : List ℤ → ℤ → Bool
has [] pid = false
has (p ∷ pids) pid = eqb_ℤ p pid || has pids pid

-- the elements that pass a test, in their order
unfoldable pub keep : {A : Type 0} → (A → Bool) → List A → List A
keep test [] = []
keep test (x ∷ xs) = if test x then x ∷ keep test xs else keep test xs

-- a loop over a list that changes a state
unfoldable pub each : {A S : Type 0} → (A → S → S) → List A → S → S
each step [] s = s
each step (x ∷ xs) s = each step xs (step x s)

module _ {F : Type 0} where
  unfoldable pub process_matches_query : ProcessSnapshot F → Bytes → Bool
  process_matches_query process query =
      is_nil query
      || contains (lowercase process.user) (lowercase query)
      || contains (lowercase process.name) (lowercase query)
      || contains (lowercase process.command) (lowercase query)

  unfoldable pub filtered_processes : SystemSnapshot F → UiState → List (ProcessSnapshot F)
  filtered_processes snapshot state =
      keep (λ process. process_matches_query process state.filter) snapshot.processes

  abbrev pub flat_row : ProcessSnapshot F → ProcessRow F
  flat_row process = record {
    process = process;
    depth = 0;
    has_children = false;
    collapsed = false;
  }

-- What the depth-first walk has done: `rows` and `visited`.
pub record Walk (F : Type 0) : Type 0 where
  pub rows : List (ProcessRow F)
  pub visited : List ℤ

module _ {F : Type 0} ⦃d : Double F⦄ (filtered : List (ProcessSnapshot F)) (state : UiState) where
  abbrev pub less : ProcessSnapshot F → ProcessSnapshot F → Bool
  less lhs rhs = process_sort_less lhs rhs state.sort state.sort_direction

  -- `children[pid]`, or nothing if there is no such entry
  unfoldable pub children_of : ℤ → List (ProcessSnapshot F)
  children_of pid = sort_by less (keep (λ process. eqb_ℤ process.parent_pid pid) filtered)

  unfoldable pub roots : List (ProcessSnapshot F)
  roots = sort_by less (
      keep
        (λ process.
          leb_ℤ process.parent_pid (pos 0)
          || eqb_ℤ process.parent_pid process.pid
          || not (has (map (λ p. p.pid) filtered) process.parent_pid))
        filtered)

  unfoldable pub row_of : ProcessSnapshot F → ℕ → ProcessRow F
  unfolding children_of has
  row_of process depth =
      let has_children = not (is_nil (children_of process.pid)) in
      record {
        process = process;
        depth = depth;
        has_children = has_children;
        collapsed = has_children && has state.collapsed_pids process.pid;
      }

  abbrev pub visit : ProcessSnapshot F → ℕ → Walk F → Walk F
  visit process depth walk = record {
    rows = walk.rows ++ (row_of process depth ∷ []);
    visited = walk.visited ++ (process.pid ∷ []);
  }

  -- The recursion is bounded by `fuel`.
  unfoldable pub dfs : ℕ → ProcessSnapshot F → ℕ → Walk F → Walk F
  unfolding children_of has each row_of
  dfs zero process depth walk = walk
  dfs (suc fuel) process depth walk =
      let below =
        each (λ child. dfs fuel child (suc depth)) (children_of process.pid)
          (visit process depth walk) in
      if has walk.visited process.pid
      then walk
      else if (row_of process depth).collapsed
      then visit process depth walk
      else below

  -- A walk goes no deeper than there are processes, since each call visits another one.
  abbrev pub depth_bound : ℕ
  depth_bound = suc (length filtered)

  unfoldable pub tree_rows : List (ProcessRow F)
  unfolding dfs each roots
  tree_rows =
      let from_roots =
        each (λ root. dfs depth_bound root 0) roots (record { rows = []; visited = [] }) in
      (each (λ process. dfs depth_bound process 0) filtered from_roots).rows

module _ {F : Type 0} ⦃d : Double F⦄ where
  unfoldable pub build_process_rows : SystemSnapshot F → UiState → List (ProcessRow F)
  build_process_rows snapshot state =
      let filtered = filtered_processes snapshot state in
      if not state.tree_mode
      then map flat_row (sort_by (less filtered state) filtered)
      else tree_rows filtered state

  unfoldable pub build_gpu_active_rows : SystemSnapshot F → UiState → List (ProcessRow F)
  build_gpu_active_rows snapshot state =
      let filtered =
        keep (λ process. process.gpu_active && process_matches_query process state.filter)
          snapshot.processes in
      map flat_row (sort_by (less filtered state) filtered)
