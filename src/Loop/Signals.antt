-- ===== src/Loop/Signals.antt =====
-- src/main.cpp: the signals that a run of the loop sends.
use mtop.Base.{ℕ, zero, suc, if_rule, List, [], ◌∷◌, ◌++◌, Option, All, All-append}
use mtop.Base.Double.{Double}
use mtop.Base.Int.{pos, ◌≤ℤ◌, eqb_ℤ}
use mtop.Config.{AppConfig}
use mtop.Input.{Curses, InputEvent, MouseEvent, Terminal, err}
use mtop.Input.Events.{read_input_event}
use mtop.Keyboard.{Os, Outcome, SystemCall, renice, signal}
use mtop.Keyboard.Calls.{IsAllowed, handle_input-IsAllowed}
use mtop.Keyboard.Dispatch.{Surroundings}
use mtop.Loop.{Frame, frame}
use mtop.Loop.Round.{
  event_key, handle_key, take_event, Surface, Taken, surroundings_at, take_events, Session,
  run_round, main_loop,
}
use mtop.Mouse.{Corners}
use mtop.Screen.{UiState}
use mtop.Snapshot.{SystemSnapshot}

-- a signal of a positive number, or no signal
abbrev pub IsPositive : SystemCall → Type 0
IsPositive (signal pid number) = pos 1 ≤ℤ number
IsPositive (renice pid nice) = Unit

allowed-IsPositive :
    (os : Os) (state : UiState) (call : SystemCall) → IsAllowed os state call → IsPositive call
allowed-IsPositive os state (signal pid number) (_, _, h) = h
allowed-IsPositive os state (renice pid nice) h = tt

All-IsPositive :
    (os : Os) (state : UiState) (calls : List SystemCall)
    → All (IsAllowed os state) calls
    → All IsPositive calls
All-IsPositive os state [] h = tt
All-IsPositive os state (call ∷ calls) (h, k) =
    (allowed-IsPositive os state call h, All-IsPositive os state calls k)

module _ {F : Type 0} ⦃k : Curses⦄ where
  take_event-IsPositive :
      {A : Type 0} (w : Surroundings F A) (corners : Corners) (input : InputEvent)
      (queued : Option MouseEvent) (c : AppConfig) (s : UiState)
      → All IsPositive (take_event w corners input queued c s).calls
  unfolding take_event handle_key
  take_event-IsPositive w corners input queued c s =
      let (ch, clicked) = event_key w corners input queued s in
      if_rule (λ (o : Outcome). All IsPositive o.calls) (eqb_ℤ ch err) (λ _. tt)
        (λ _. All-IsPositive w.os clicked _ (handle_input-IsAllowed w ch c clicked))

  take_events-IsPositive :
      (surface : Surface) (shown : Frame F) (left step : ℕ) (typed : Terminal) (c : AppConfig)
      (s : UiState)
      → All IsPositive (take_events surface shown left step typed c s).outcome.calls
  unfolding take_events
  take_events-IsPositive surface shown zero step typed c s = tt
  take_events-IsPositive surface shown (suc left) step typed c s =
      let (input, rest) = read_input_event typed in
      let taken =
        take_event (surroundings_at surface shown step) surface.corners input
          (surface.getmouse step) c s in
      let first =
        take_event-IsPositive (surroundings_at surface shown step) surface.corners input
          (surface.getmouse step) c s in
      if_rule (λ (t : Taken). All IsPositive t.outcome.calls) taken.running
        (λ _.
          All-append IsPositive taken.calls _ first
            (take_events-IsPositive surface shown left (suc step) rest taken.config taken.state))
        (λ _. first)

  -- Whatever the rounds sample, and whatever is typed and clicked, no signal that the loop sends has a number
  -- below 1, if none that it has sent before has.
  pub main_loop-IsPositive :
      ⦃d : Double F⦄ (rounds : List (SystemSnapshot F × Surface × Terminal)) (s : Session F)
      → All IsPositive s.calls
      → All IsPositive (main_loop rounds s).calls
  unfolding main_loop run_round
  main_loop-IsPositive [] s h = h
  main_loop-IsPositive ((snapshot, surface, typed) ∷ rounds) s h =
      if_rule (λ (r : Session F). All IsPositive r.calls) s.running
        (λ _. main_loop-IsPositive rounds (run_round snapshot surface typed s) (
          All-append IsPositive s.calls _ h (
            take_events-IsPositive surface
              (frame surface.sizes surface.sampled snapshot s.snapshot_history s.state) 20 0
              (s.keys ++ typed) s.config _)))
        (λ _. h)
