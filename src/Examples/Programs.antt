-- ===== src/Examples/Programs.antt =====
-- The theorems on whole runs of the program at the sample machine.
use mtop.Base.{
  inl, none, ◌+◌, All, arith, beq, ℕ, ◌≡◌, refl, true, false, List, [], ◌∷◌, some, Bytes, str,
}
use mtop.Base.Int.{pos}
use mtop.CommandLine.{
  set_value, takes_value, no_options, override, parse_args, parse_from, start, start_with,
  check_view, persist_first, run_mode, run_with, runs_screen, RuntimeOptions,
}
use mtop.CommandLine.Ranges.{AreInRange, RunsWith, start-AreInRange}
use mtop.Config.{AppConfig}
use mtop.Config.Files.{load_config}
use mtop.Examples.Fixtures.{whole_double, machine}
use mtop.Examples.Keys.{surroundings}
use mtop.Examples.Screens.{ncurses}
use mtop.Examples.Settings.{disk, writing}
use mtop.Keyboard.Dispatch.{handle_input}
use mtop.Loop.{Sizes, frame, start_state}
use mtop.Input.{Terminal}
use mtop.Loop.Round.{Surface, Session, main_loop}
use mtop.Loop.Run.{main_loop-Reach}
use mtop.Loop.Signals.{IsPositive, main_loop-IsPositive}
use mtop.Snapshot.{SystemSnapshot}
use mtop.Loop.Sound.{IsSound}
use mtop.Loop.Steps.{Reach, starts, frames, keys, Reach-IsSound}
use mtop.SnapshotMode.{World, finished, run_snapshot_mode}
use mtop.SnapshotMode.Lines.{written_for, run_snapshot_mode-lines}

abbrev settings : AppConfig
settings = override no_options (load_config disk [])

settings_run : start disk writing (λ config. true) [] ≡ runs_screen no_options settings
unfolding start parse_args parse_from start_with check_view persist_first run_mode run_with
settings_run = refl

abbrev sizes : Sizes
sizes = record { height = 12; width = 80 }

-- A frame, and then the key to turn the order.
Reach-IsSound_example :
    IsSound
      (handle_input surroundings
        (pos b'r')
        settings
        (frame sizes 5 machine [] (start_state settings)).state).config
      (handle_input surroundings
        (pos b'r')
        settings
        (frame sizes 5 machine [] (start_state settings)).state).state
Reach-IsSound_example =
    Reach-IsSound ℕ disk writing (λ config. true) [] no_options settings _ _ settings_run
      (keys surroundings (pos b'r') (frames sizes 5 machine [] starts))

abbrev arguments : List Bytes
arguments = str "--refresh-ms" ∷ str "7" ∷ []

arguments_run :
    RunsWith
      (override (parse_args arguments) (load_config disk []))
      (start disk writing (λ config. true) arguments)
unfolding start parse_args parse_from start_with check_view persist_first run_mode run_with
    takes_value str beq set_value
arguments_run = refl

start-AreInRange_example : AreInRange (override (parse_args arguments) (load_config disk []))
start-AreInRange_example =
    start-AreInRange disk writing (λ config. true) arguments
      (override (parse_args arguments) (load_config disk [])) arguments_run

abbrev world : World ℕ
world = record {
  sample = λ n. machine;
  sampled_ms = λ n. n;
  started_ms = 0;
  ended_ms = 9;
  interrupted = λ n. false;
  opens = λ path. true;
}

abbrev three : RuntimeOptions
three = record no_options { snapshot_format = str "json"; count = some (pos 3); session = true }

json_asked : beq (str "json") (str "json") ≡ true
unfolding str beq
json_asked = refl

run_snapshot_mode-lines_example :
    run_snapshot_mode world three settings 3
    ≡ finished 0 (written_for world three settings true (0 ∷ 1 ∷ 2 ∷ []))
run_snapshot_mode-lines_example =
    run_snapshot_mode-lines world three settings (λ n. refl) (inl refl) json_asked refl 3
      (omega arith)

-- A round in which the user asks for a signal, enters the number 0 and ends the line with the enter key.
abbrev surface : Surface
surface = record {
  sizes = sizes;
  corners = record { process_y = pos 20; process_x = pos 0; footer_y = pos 32; footer_x = pos 0 };
  os = surroundings.os;
  sampled = 5;
  clock = λ step. 6 + step;
  getmouse = λ step. none;
}

abbrev session : Session ℕ
session = record {
  running = true;
  config = settings;
  state = start_state settings;
  snapshot_history = [];
  keys = [];
  calls = [];
}

abbrev rounds : List (SystemSnapshot ℕ × Surface × Terminal)
rounds =
    (machine, surface, pos b'k' ∷ pos 127 ∷ pos 127 ∷ pos b'0' ∷ pos 343 ∷ [])
    ∷ (machine, surface, pos b'q' ∷ [])
    ∷ []

main_loop-Reach_example :
    Reach ℕ settings (main_loop rounds session).config (main_loop rounds session).state
main_loop-Reach_example = main_loop-Reach settings rounds session starts

main_loop-IsPositive_example : All IsPositive (main_loop rounds session).calls
main_loop-IsPositive_example = main_loop-IsPositive rounds session tt
