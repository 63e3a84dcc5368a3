-- ===== src/Keyboard/Popups.antt =====
-- src/main.cpp: the keys while a window lies over the screen.
use mtop.Base.{Bool, true, false, not, ◌&&◌, if◌then◌else◌, [], ◌∷◌, Bytes, str, beq}
use mtop.Base.Int.{ℤ, pos, negsuc, ◌+ℤ◌, clamp_ℤ, eqb_ℤ}
use mtop.Config.{AppConfig}
use mtop.Input.{Curses, escape}
use mtop.Keyboard.{Outcome, stay, is_one_of}
use mtop.Screen.{UiState, SetupField, theme, cached_memory, refresh, finish}

abbrev newline : ℤ
newline = pos b'\n'

-- static_cast<SetupField> of one less and of one more
unfoldable pub previous_field : SetupField → SetupField
previous_field theme = theme
previous_field cached_memory = theme
previous_field refresh = cached_memory
previous_field finish = refresh

unfoldable pub next_field : SetupField → SetupField
next_field theme = cached_memory
next_field cached_memory = refresh
next_field refresh = finish
next_field finish = finish

abbrev is_first : SetupField → Bool
is_first theme = true
is_first _ = false

abbrev is_last : SetupField → Bool
is_last finish = true
is_last _ = false

unfoldable pub next_theme : Bytes → Bytes
next_theme name =
    if beq name (str "apple")
    then str "green"
    else if beq name (str "green")
    then str "mono"
    else str "apple"

module _ ⦃k : Curses⦄ (ch : ℤ) (config : AppConfig) (state : UiState) where
  unfoldable pub handle_help : Outcome
  handle_help =
      if is_one_of ch (escape ∷ newline ∷ k.key_enter ∷ k.key_f 1 ∷ [])
      then stay config (record state { show_help = false })
      else stay config state

  -- the keys that close a window of details
  abbrev pub closes_detail : Bool
  closes_detail = is_one_of ch (escape ∷ newline ∷ k.key_enter ∷ pos b'd' ∷ pos b'D' ∷ [])

  unfoldable pub handle_process_detail : Outcome
  handle_process_detail =
      if closes_detail
      then stay config (record state { show_process_detail = false })
      else stay config state

  unfoldable pub handle_workload_detail : Outcome
  handle_workload_detail =
      if closes_detail
      then stay config (record state { show_workload_detail = false })
      else stay config state

  -- the `switch` on the field, for the keys to the left and to the right
  unfoldable pub change_field : SetupField → Outcome
  unfolding next_theme clamp_ℤ ◌+ℤ◌
  change_field theme = stay (record config { theme = next_theme config.theme }) state
  change_field cached_memory =
      stay config (record state { show_cached_memory = not state.show_cached_memory })
  change_field refresh =
      stay
        (record config {
          refresh_ms =
              clamp_ℤ (config.refresh_ms +ℤ (if eqb_ℤ ch k.key_right then pos 250 else negsuc 249))
                (pos 250) (pos 5000);
        })
        state
  change_field finish = stay config state

  unfoldable pub handle_setup : Outcome
  unfolding change_field previous_field next_field
  handle_setup =
      if is_one_of ch (escape ∷ k.key_f 2 ∷ [])
      then stay config (record state { show_setup = false })
      else if eqb_ℤ ch k.key_up && not (is_first state.setup_field)
      then stay config (record state { setup_field = previous_field state.setup_field })
      else if eqb_ℤ ch k.key_down && not (is_last state.setup_field)
      then stay config (record state { setup_field = next_field state.setup_field })
      else if is_one_of ch (newline ∷ k.key_enter ∷ [])
      then if is_last state.setup_field
        then stay config (record state { show_setup = false })
        else stay config state
      else if is_one_of ch (k.key_left ∷ k.key_right ∷ [])
      then change_field state.setup_field
      else stay config state
