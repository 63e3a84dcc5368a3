-- ===== src/Loop/Run.antt =====
-- src/main.cpp: the loop that runs stays within the steps of `Reach`, and what holds of it then.
use mtop.Base.{ℕ, zero, suc, if_rule, List, [], ◌∷◌, ◌++◌, Option, none, some}
use mtop.Base.Double.{Double}
use mtop.Base.Int.{ℤ, eqb_ℤ}
use mtop.Config.{AppConfig}
use mtop.Input.{Curses, InputEvent, MouseEvent, Terminal, err}
use mtop.Input.Events.{read_input_event}
use mtop.Keyboard.{Outcome}
use mtop.Keyboard.Dispatch.{Surroundings}
use mtop.Loop.{Frame, frame}
use mtop.Loop.Round.{
  mouse_of, click_key, event_key, handle_key, take_event, Surface, Taken, surroundings_at,
  take_events, Session, run_round, main_loop,
}
use mtop.Loop.Steps.{Reach, frames, keys, clicks}
use mtop.Mouse.{Corners, is_primary_mouse_activation}
use mtop.Screen.{UiState}
use mtop.Snapshot.{SystemSnapshot}

abbrev Reached : (F : Type 0) ⦃d : Double F⦄ ⦃k : Curses⦄ → AppConfig → Outcome → Type 1
Reached F start o = Reach F start o.config o.state

module _ {F : Type 0} ⦃d : Double F⦄ ⦃k : Curses⦄ (start : AppConfig) where
  module _ {A : Type 0} (w : Surroundings F A) (corners : Corners) (c : AppConfig) where
    click_key-Reach :
        (event : Option MouseEvent) (s : UiState)
        → Reach F start c s
        → Reach F start c (click_key w corners event s).1
    unfolding click_key
    click_key-Reach none s h = h
    click_key-Reach (some event) s h =
        if_rule (λ (r : ℤ × UiState). Reach F start c r.1)
          (is_primary_mouse_activation event.bstate)
          (λ _. clicks w.now corners w.rows w.page_rows event h) (λ _. h)

    event_key-Reach :
        (input : InputEvent) (queued : Option MouseEvent) (s : UiState)
        → Reach F start c s
        → Reach F start c (event_key w corners input queued s).1
    unfolding event_key
    event_key-Reach input queued s h =
        if_rule (λ (r : ℤ × UiState). Reach F start c r.1) (eqb_ℤ input.key k.key_mouse)
          (λ _. click_key-Reach (mouse_of input queued) s h) (λ _. h)

    handle_key-Reach :
        (ch : ℤ) (s : UiState) → Reach F start c s → Reached F start (handle_key w corners ch c s)
    unfolding handle_key
    handle_key-Reach ch s h = if_rule (Reached F start) (eqb_ℤ ch err) (λ _. h) (λ _. keys w ch h)

    take_event-Reach :
        (input : InputEvent) (queued : Option MouseEvent) (s : UiState)
        → Reach F start c s
        → Reached F start (take_event w corners input queued c s)
    unfolding take_event
    take_event-Reach input queued s h =
        handle_key-Reach (event_key w corners input queued s).0 _ (event_key-Reach input queued s h)

  take_events-Reach :
      (surface : Surface) (shown : Frame F) (left step : ℕ) (typed : Terminal) (c : AppConfig)
      (s : UiState)
      → Reach F start c s
      → Reached F start (take_events surface shown left step typed c s).outcome
  unfolding take_events
  take_events-Reach surface shown zero step typed c s h = h
  take_events-Reach surface shown (suc left) step typed c s h =
      let (input, rest) = read_input_event typed in
      let taken =
        take_event (surroundings_at surface shown step) surface.corners input
          (surface.getmouse step) c s in
      let first =
        take_event-Reach (surroundings_at surface shown step) surface.corners c input
          (surface.getmouse step) s h in
      if_rule (λ (t : Taken). Reached F start t.outcome) taken.running
        (λ _. take_events-Reach surface shown left (suc step) rest taken.config taken.state first)
        (λ _. first)

  run_round-Reach :
      (snapshot : SystemSnapshot F) (surface : Surface) (typed : Terminal) (s : Session F)
      → Reach F start s.config s.state
      → Reach F start
          (run_round snapshot surface typed s).config
          (run_round snapshot surface typed s).state
  unfolding run_round
  run_round-Reach snapshot surface typed s h =
      take_events-Reach surface
        (frame surface.sizes surface.sampled snapshot s.snapshot_history s.state) 20 0
        (s.keys ++ typed) s.config _
        (frames surface.sizes surface.sampled snapshot s.snapshot_history h)

  -- The loop that runs is one of the sequences of steps: from a state that can be reached, whatever its rounds
  -- sample and whatever is typed and clicked, it comes to states that can be reached only.
  pub main_loop-Reach :
      (rounds : List (SystemSnapshot F × Surface × Terminal)) (s : Session F)
      → Reach F start s.config s.state
      → Reach F start (main_loop rounds s).config (main_loop rounds s).state
  unfolding main_loop
  main_loop-Reach [] s h = h
  main_loop-Reach ((snapshot, surface, typed) ∷ rounds) s h =
      if_rule (λ (r : Session F). Reach F start r.config r.state) s.running
        (λ _.
          main_loop-Reach rounds (run_round snapshot surface typed s)
            (run_round-Reach snapshot surface typed s h))
        (λ _. h)
