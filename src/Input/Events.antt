-- ===== src/Input/Events.antt =====
-- src/input_parser.cpp: mouse reports, and an event read from the terminal.
use mtop.Base.Int.{ℤ, pos, negsuc, eqb_ℤ, max_ℤ, ◌-ℤ◌}
use mtop.Config.{read_signed, skip_space}
use mtop.Base.{
  some, ◌||◌, ◌&&◌, suc, ◌-◌, none, str, Option, false, true, [], ◌==◌, ◌%◌, ◌∷◌, not, ℕ,
  if◌then◌else◌, Bytes, Bool, List, zero, ◌>>=◌,
}
use mtop.Input.{
  Curses, err, escape, MouseEvent, InputEvent, Terminal, read_key, unread_key, to_char, is_char,
  parse_defined_escape_sequence,
}

-- the loop that collects a mouse report: the payload, and the final byte or 0
unfoldable pub read_payload : ℕ → Terminal → Bytes × (ℕ × Terminal)
unfolding to_char
read_payload zero keys = ([], (0, keys))
read_payload (suc guard) [] = ([], (0, []))
read_payload (suc guard) (next ∷ keys) =
    let more = read_payload guard keys in
    if eqb_ℤ next err
    then ([], (0, keys))
    else if is_char next b'M' || is_char next b'm'
    then ([], (to_char next, keys))
    else (to_char next ∷ more.0, more.1)

-- sscanf's %d. A number outside of int is undefined behaviour there; it is kept here.
unfoldable pub scan_int : Bytes → Option (ℤ × Bytes)
unfolding read_signed skip_space
scan_int s = read_signed (skip_space s)

unfoldable pub scan_semicolon : Bytes → Option Bytes
scan_semicolon [] = none
scan_semicolon (c ∷ s) = if c == b';' then some s else none

-- sscanf(payload, "%d;%d;%d", …) == 3
unfoldable pub scan_report : Bytes → Option (ℤ × (ℤ × ℤ))
unfolding scan_int scan_semicolon
scan_report payload = do
  (button, s) ← scan_int payload
  s ← scan_semicolon s
  (x, s) ← scan_int s
  s ← scan_semicolon s
  (y, s) ← scan_int s
  some (button, (x, y))

-- button & 0x3
unfoldable pub low_bits : ℤ → ℕ
low_bits (pos n) = n % 4
low_bits (negsuc n) = 3 - n % 4

abbrev no_mouse : MouseEvent
no_mouse = record { x = pos 0; y = pos 0; bstate = 0 }

abbrev pub key_event : Bool → ℤ → InputEvent
key_event parsed key = record {
  key = key;
  has_mouse = false;
  mouse = no_mouse;
  parsed_escape = parsed;
}

module _ ⦃c : Curses⦄ where
  unfoldable pub mouse_event : ℤ → ℤ → ℤ → ℕ → InputEvent
  unfolding low_bits
  mouse_event button x y final = record {
    key = c.key_mouse;
    has_mouse = true;
    mouse = record {
      x = max_ℤ (pos 0) (x -ℤ pos 1);
      y = max_ℤ (pos 0) (y -ℤ pos 1);
      bstate =
          if not (low_bits button == 0) then 0 else if final == b'm' then c.button1_released else 0;
    };
    parsed_escape = true;
  }

  -- the branch of `second == '[' && third == '<'`
  unfoldable pub read_mouse : Terminal → InputEvent × Terminal
  unfolding read_payload scan_report mouse_event
  read_mouse keys =
      let report = read_payload 32 keys in
      let event = if report.1.0 == 0 then key_event true err else elim (scan_report report.0) [
        | none ↦ key_event true err
        | some (button, (x, y)) ↦ mouse_event button x y report.1.0
      ] in
      (event, report.1.1)

  unfoldable pub read_input_event : Terminal → InputEvent × Terminal
  unfolding read_key unread_key read_mouse parse_defined_escape_sequence
  read_input_event keys =
      let first = read_key keys in
      let second = read_key first.1 in
      let third = read_key second.1 in
      let defined = parse_defined_escape_sequence second.0 third.0 third.1 in
      if not (eqb_ℤ first.0 escape)
      then (key_event false first.0, first.1)
      else if eqb_ℤ second.0 err
      then (key_event false first.0, second.1)
      else if eqb_ℤ third.0 err
      then (key_event false first.0, unread_key second.0 third.1)
      else if is_char second.0 b'[' && is_char third.0 b'<'
      then read_mouse third.1
      else (key_event true defined.0, defined.1)

-- configure_defined_keys: the arguments of its calls of define_key
unfoldable pub defined_keys : ⦃c : Curses⦄ → List (Bytes × ℤ)
defined_keys ⦃c⦄ =
    (27 ∷ str "OP", c.key_f 1)
    ∷ (27 ∷ str "OQ", c.key_f 2)
    ∷ (27 ∷ str "OR", c.key_f 3)
    ∷ (27 ∷ str "OS", c.key_f 4)
    ∷ (27 ∷ str "[11~", c.key_f 1)
    ∷ (27 ∷ str "[12~", c.key_f 2)
    ∷ (27 ∷ str "[13~", c.key_f 3)
    ∷ (27 ∷ str "[14~", c.key_f 4)
    ∷ (27 ∷ str "[15~", c.key_f 5)
    ∷ (27 ∷ str "[17~", c.key_f 6)
    ∷ (27 ∷ str "[18~", c.key_f 7)
    ∷ (27 ∷ str "[19~", c.key_f 8)
    ∷ (27 ∷ str "[20~", c.key_f 9)
    ∷ (27 ∷ str "[21~", c.key_f 10)
    ∷ (27 ∷ str "[Z", c.key_btab)
    ∷ []
