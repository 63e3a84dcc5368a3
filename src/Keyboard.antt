-- ===== src/Keyboard.antt =====
-- src/main.cpp: what a key does. A handler returns the settings and the state that it leaves, whether
-- the program goes on, and the system calls that it makes. The operating system is a parameter, `Os`.
pub mod Popups
pub mod Prompts
pub mod Labels
pub mod Commands
pub mod Dispatch
pub mod Windows
pub mod Calls
pub mod Quitting
pub mod Returns
use mtop.Base.{
  ◌||◌, ℕ, Bool, true, false, if◌then◌else◌, List, [], ◌∷◌, ◌++◌, Option, none, some, is_nil, Bytes,
  str, ltb,
}
use mtop.Base.Int.{ℤ, pos, negsuc, ◌+ℤ◌, eqb_ℤ, ltb_ℤ, leb_ℤ, int_text}
use mtop.Config.{AppConfig}
use mtop.Input.{Curses}
use mtop.Screen.{UiState}
use mtop.Screen.Searches.{set_status}
use mtop.Sorting.{SortMode}

-- What a call of the operating system answers: a failure is the text of `strerror(errno)`.
pub record Os : Type 0 where
  pub getpriority : ℤ → ℤ × Option Bytes
  pub setpriority : ℤ → ℤ → Option Bytes
  pub kill : ℤ → ℤ → Option Bytes
  pub sigterm : ℤ

pub data SystemCall : Type 0 where
  renice : ℤ → ℤ → SystemCall
  signal : ℤ → ℤ → SystemCall

-- `running` is the handler's result.
pub record Outcome : Type 0 where
  pub running : Bool
  pub config : AppConfig
  pub state : UiState
  pub calls : List SystemCall

-- `return true`
abbrev pub stay : AppConfig → UiState → Outcome
stay config state = record { running = true; config = config; state = state; calls = [] }

-- set_status with its default duration
abbrev pub say : UiState → Bytes → ℕ → UiState
say state message now = set_status state message 3000 now

unfoldable pub sort_mode_name : SortMode → Bytes
sort_mode_name SortMode.pid = str "pid"
sort_mode_name SortMode.cpu = str "cpu"
sort_mode_name SortMode.mem = str "mem"
sort_mode_name SortMode.time = str "time"
sort_mode_name SortMode.name = str "name"
sort_mode_name SortMode.gpu_active = str "gpu"
sort_mode_name SortMode.io = str "io"
sort_mode_name SortMode.power = str "power"

-- "Sort: ", the column and the direction
abbrev pub say_sort : UiState → ℕ → UiState
say_sort state now =
    say state
      (str "Sort: "
        ++ (sort_mode_name state.sort
            ++ (if ltb_ℤ (pos 0) state.sort_direction then str " asc" else str " desc")))
      now

-- `ch == a || ch == b || ...`, and the labels of one branch of a `switch`
abbrev pub is_one_of : ℤ → List ℤ → Bool
is_one_of ch [] = false
is_one_of ch (key ∷ keys) = eqb_ℤ ch key || is_one_of ch keys

module _ (os : Os) (now : ℕ) (config : AppConfig) (state : UiState) where
  unfoldable pub renice_pid : ℤ → ℤ → Outcome
  unfolding set_status ◌+ℤ◌
  renice_pid pid delta =
      let (current_nice, failure) = os.getpriority pid in
      let nice = current_nice +ℤ delta in
      elim failure [
        | some reason ↦ stay config (say state (str "renice failed: " ++ reason) now)
        | none ↦ record {
          running = true;
          config = config;
          state = elim (os.setpriority pid nice) [
            | some reason ↦ say state (str "renice failed: " ++ reason) now
            | none ↦ say state (str "Updated nice for pid " ++ int_text pid) now
          ];
          calls = renice pid nice ∷ [];
        }
      ]

  unfoldable pub renice_for : Option ℤ → ℤ → Outcome
  unfolding renice_pid
  renice_for none delta = stay config (say state (str "No selected process") now)
  renice_for (some pid) delta = renice_pid pid delta

  unfoldable pub renice_selected_process : ℤ → Outcome
  unfolding renice_for
  renice_selected_process delta = renice_for state.selected_pid delta

  unfoldable pub signal_pid : ℤ → ℤ → Outcome
  unfolding set_status
  signal_pid pid signal_number = record {
    running = true;
    config = config;
    state = elim (os.kill pid signal_number) [
      | some reason ↦ say state (str "signal failed: " ++ reason) now
      | none ↦
          say state
            (str "Sent signal " ++ (int_text signal_number ++ (str " to pid " ++ int_text pid))) now
    ];
    calls = signal pid signal_number ∷ [];
  }

  unfoldable pub signal_for : Option ℤ → ℤ → Outcome
  unfolding signal_pid
  signal_for none signal_number = stay config (say state (str "No selected process") now)
  signal_for (some pid) signal_number = signal_pid pid signal_number

  unfoldable pub send_signal_to_selected_process : ℤ → Outcome
  unfolding signal_for
  send_signal_to_selected_process signal_number = signal_for state.selected_pid signal_number
