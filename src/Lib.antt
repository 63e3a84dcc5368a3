-- ===== src/Lib.antt =====
-- A verification library for mtop, a terminal monitor for Apple Silicon.
--
-- A sampler fills a SystemSnapshot (include/monitor/snapshot.hpp). Models derive from it what the
-- screens and the JSON output show: the memory's pressure and risk, the workloads and the rows of the
-- AI view, the rows of the process table. Keys and mouse reports change the state of the screen; a
-- configuration file gives its first state. The library has a module for each of these parts:
--
--   Snapshot          include/monitor/snapshot.hpp, every record and enumeration
--   Memory            src/metrics.cpp and src/memory_risk_model.cpp
--   Workload          src/workload_detector.cpp (Detector) and src/workload_model.cpp (Grouping, Build
--                     for build_workloads, AiRows for build_ai_process_rows)
--   Sorting           src/input_logic.cpp and src/process_sort.cpp
--   View              src/view_profile.cpp and src/ui_support.cpp
--   Json              src/snapshot_json.cpp (Writer for JsonWriter and json_escape, Sections and
--                     Snapshot for the write_ functions and snapshot_to_json) and
--                     src/snapshot_session.cpp (Session); Document is JSON by itself, and Parts and
--                     Contents say which document a snapshot stands for
--   Config            src/config.cpp: the lines (Config) and the files (Files)
--   Input             src/input_parser.cpp: keys and sequences (Input), mouse reports and
--                     read_input_event (Events)
--   RootMetrics       src/root_metrics_parser.cpp: the loop of parse_amp_data (RootMetrics), the lines
--                     cut into fields (Fields), the texts of a row (Rows)
--   Screen            src/main.cpp: build_process_rows (Screen), selection, pages and tree nodes
--                     (Actions), searches (Searches), columns and header clicks (Columns),
--                     texts cut to a width and times (Format)
--   AlphaView         src/main.cpp: the rows of the profile alpha, their queries and their search
--   Keyboard          src/main.cpp: handle_input (Dispatch) with the windows (Popups), the prompts
--                     (Prompts), the labels of the switch (Labels) and its branches (Commands);
--                     renice_selected_process and send_signal_to_selected_process (Keyboard)
--   Mouse             src/main.cpp: synthesize_mouse_event
--   Loop              src/main.cpp: the loop of main. `frame` is what one round does before it
--                     takes keys (Footer has the labels of draw_footer), and `Reach` (Steps) is the
--                     relation of the states that follow each other,
--                     and `main_loop` the loop as a function (Round)
--   Layout            src/main.cpp: create_windows
--   Plot              src/main.cpp: append_io_history, resample_history and (Populate)
--                     populate_nvtop_plot_data
--   CommandLine       src/main.cpp: parse_args, and main up to the choice of a mode
--   SnapshotMode      src/main.cpp: run_snapshot_mode
--   Base              numbers, strings, lists, std::sort and std::map, and C's double
--
-- The other modules hold proofs and are named for what they prove; Examples has the theorems at concrete
-- inputs.
--
-- Conventions. A std::string is a list of byte values. An int is a ℤ without bounds: the code's sums of
-- ints are of pids, indices and columns, far from the bounds of int; where the code checks the
-- bounds itself, as parse_int does, so does the model. A std::uint64_t is a number, and a sum of two is
-- taken modulo 2 ^ 64. A double is an element of a type F with an instance of `Double`: its
-- comparisons, sums and quotients and the library calls on it are parameters, and `Ordered` states
-- what IEEE comparisons satisfy. A confidence is in hundredths. std::sort is an insertion sort: where its
-- comparison is a strict weak order the result is a sorted order of the elements, and the order of
-- equivalent elements, which the standard leaves open, is the one in which they came. std::map is an
-- association list in the order of its keys, std::set a list. A pointer to a process is the
-- process. curses is a terminal: the list of what its reads return, and its key numbers, `Curses`.
-- The file system is a `Disk`, the files by their paths; a `Writing` says how the calls that write
-- end. The clock is an argument. The calls on processes are an `Os`: their answers are a parameter,
-- and a handler returns the calls that it makes. Where curses puts the windows is given by `Corners` and
-- `Sizes`. A text that snprintf prints into a buffer is cut to what fits. Of the footer's buttons
-- there are always ten, which the type of a list does not say.
--
-- Loops are recursion on the list that they go through, or on the number of steps that the code's own
-- counter leaves (read_sequence 8, read_payload 32, the searches the number of rows, compact_rate the
-- number of units). Only the depth-first walk of the process tree has a bound that the code has not:
-- one more than the number of processes, which Screen.Fuel shows is never reached. The lines of
-- run_snapshot_mode are bounded by `rounds`, since a user may let them go on for ever; scale_io has the
-- four units of the source, and merge_rounds as many rounds as fields are expected.
--
-- Not modelled: drawing in src/main.cpp, except for the state that it changes and the lines at which the two
-- tables stand; the lines of its plots; the log of the input; starting and ending curses. The samplers
-- (src/platform/darwin_sampler.cpp, src/platform/apple_gpu.mm, src/demo_sampler.cpp), which call the
-- operating system or make up data. The texts of the help; tools, scripts and tests.
pub mod Base
pub mod Snapshot
pub mod Sorting
pub mod Workload
pub mod Memory
pub mod Json
pub mod View
pub mod Config
pub mod Input
pub mod RootMetrics
pub mod Screen
pub mod AlphaView
pub mod Keyboard
pub mod Mouse
pub mod Loop
pub mod CommandLine
pub mod SnapshotMode
pub mod Layout
pub mod Plot
pub mod Examples
