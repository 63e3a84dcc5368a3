-- ===== src/Loop/Round.antt =====
-- src/main.cpp: the twenty steps in which a round of the main loop takes events, and the loop as a function of
-- what each round samples and of what the user types.
use mtop.Base.{ℕ, zero, suc, Bool, if◌then◌else◌, List, [], ◌∷◌, ◌++◌, Option, none, some}
use mtop.Base.Double.{Double}
use mtop.Base.Int.{ℤ, eqb_ℤ}
use mtop.Config.{AppConfig}
use mtop.Input.{Curses, InputEvent, MouseEvent, Terminal, err}
use mtop.Input.Events.{read_input_event}
use mtop.Keyboard.{Os, Outcome, SystemCall, stay}
use mtop.Keyboard.Dispatch.{Surroundings, handle_input}
use mtop.Loop.{Frame, Sizes, frame}
use mtop.Mouse.{Corners, is_primary_mouse_activation, synthesize_mouse_event}
use mtop.Screen.{UiState}
use mtop.Screen.Actions.{trim_history}
use mtop.Snapshot.{SystemSnapshot}
use mtop.Workload.{AiProcessRow}

-- the click of an event: its own, and else the one that `getmouse` has, if it has one
unfoldable pub mouse_of : InputEvent → Option MouseEvent → Option MouseEvent
mouse_of input queued = if input.has_mouse then some input.mouse else queued

module _ {F A : Type 0} ⦃k : Curses⦄ (w : Surroundings F A) (corners : Corners) where
  -- the key for a click, and the state after it
  unfoldable pub click_key : Option MouseEvent → UiState → ℤ × UiState
  unfolding is_primary_mouse_activation synthesize_mouse_event
  click_key none state = (err, state)
  click_key (some event) state =
      if is_primary_mouse_activation event.bstate
      then synthesize_mouse_event w.now corners w.rows w.page_rows event state
      else (err, state)

  unfoldable pub event_key : InputEvent → Option MouseEvent → UiState → ℤ × UiState
  unfolding mouse_of click_key
  event_key input queued state =
      if eqb_ℤ input.key k.key_mouse
      then click_key (mouse_of input queued) state
      else (input.key, state)

  unfoldable pub handle_key : ℤ → AppConfig → UiState → Outcome
  unfolding handle_input
  handle_key ch config state =
      if eqb_ℤ ch err then stay config state else handle_input w ch config state

  unfoldable pub take_event : InputEvent → Option MouseEvent → AppConfig → UiState → Outcome
  unfolding event_key handle_key
  take_event input queued config state =
      let (ch, clicked) = event_key input queued state in handle_key ch config clicked

-- What a round meets besides the sample: the windows, the system, the clock and the clicks that curses
-- has queued, by the step that asks for them.
pub record Surface : Type 0 where
  pub sizes : Sizes
  pub corners : Corners
  pub os : Os
  pub sampled : ℕ
  pub clock : ℕ → ℕ
  pub getmouse : ℕ → Option MouseEvent

-- What the steps leave, and what is still typed.
pub record Taken : Type 0 where
  pub outcome : Outcome
  pub rest : Terminal

abbrev and_then : Outcome → Outcome → Outcome
and_then first later = record later { calls = first.calls ++ later.calls }

module _ {F : Type 0} ⦃k : Curses⦄ (surface : Surface) (shown : Frame F) where
  abbrev pub surroundings_at : ℕ → Surroundings F (AiProcessRow F)
  surroundings_at step = record {
    os = surface.os;
    now = surface.clock step;
    ai_rows = shown.ai_rows;
    rows = shown.rows;
    page_rows = shown.page_rows;
  }

  -- `left` steps from the step `step` on; a key that ends the program is the last
  unfoldable pub take_events : ℕ → ℕ → Terminal → AppConfig → UiState → Taken
  unfolding read_input_event take_event
  take_events zero step keys config state = record { outcome = stay config state; rest = keys }
  take_events (suc left) step keys config state =
      let (input, rest) = read_input_event keys in
      let taken =
        take_event (surroundings_at step) surface.corners input (surface.getmouse step) config
          state in
      let later = take_events left (suc step) rest taken.config taken.state in
      if taken.running
      then record { outcome = and_then taken later.outcome; rest = later.rest }
      else record { outcome = taken; rest = rest }

-- The local variables of `main` between two rounds.
pub record Session (F : Type 0) : Type 0 where
  pub running : Bool
  pub config : AppConfig
  pub state : UiState
  pub snapshot_history : List (SystemSnapshot F)
  pub keys : Terminal
  pub calls : List SystemCall

module _ {F : Type 0} ⦃d : Double F⦄ ⦃k : Curses⦄ where
  -- A round; `typed` is what the user types before its steps.
  unfoldable pub run_round : SystemSnapshot F → Surface → Terminal → Session F → Session F
  unfolding frame take_events trim_history
  run_round snapshot surface typed s =
      let shown = frame surface.sizes surface.sampled snapshot s.snapshot_history s.state in
      let taken = take_events surface shown 20 0 (s.keys ++ typed) s.config shown.state in
      record {
        running = taken.outcome.running;
        config = taken.outcome.config;
        state = taken.outcome.state;
        snapshot_history = trim_history (s.snapshot_history ++ (snapshot ∷ [])) 8;
        keys = taken.rest;
        calls = s.calls ++ taken.outcome.calls;
      }

  -- The rounds of `while (running)`.
  unfoldable pub main_loop : List (SystemSnapshot F × Surface × Terminal) → Session F → Session F
  unfolding run_round
  main_loop [] s = s
  main_loop ((snapshot, surface, typed) ∷ rounds) s =
      let rest = main_loop rounds (run_round snapshot surface typed s) in
      if s.running then rest else s
