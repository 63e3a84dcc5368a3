-- ===== src/Input.antt =====
-- src/input_parser.cpp: keys and escape sequences, read from the terminal.
-- The terminal is what `read_key` would give next, in order: keys, and ERR where a read times out;
-- it times out for ever once the list is used up. curses' numbers are a parameter, `Curses`.
pub mod Events
pub mod Consumption
pub mod FunctionKeys
use mtop.Base.{
  ℕ, zero, suc, ◌+◌, ◌-◌, ◌%◌, ◌/◌, Bool, true, false, not, ◌&&◌, ◌||◌, ◌==◌, leb, if◌then◌else◌,
  List, [], ◌∷◌, ◌++◌, Option, none, some, Bytes, str, beq,
}
use mtop.Base.Int.{ℤ, pos, negsuc, eqb_ℤ, max_ℤ, ◌-ℤ◌}
use mtop.Config.{read_signed, skip_space}

-- The names of <curses.h> that the program uses.
pub record Curses : Type 0 where
  pub key_f : ℕ → ℤ
  pub key_btab : ℤ
  pub key_up : ℤ
  pub key_down : ℤ
  pub key_left : ℤ
  pub key_right : ℤ
  pub key_home : ℤ
  pub key_end : ℤ
  pub key_ppage : ℤ
  pub key_npage : ℤ
  pub key_enter : ℤ
  pub key_backspace : ℤ
  pub key_mouse : ℤ
  pub button1_released : ℕ
  pub button1_clicked : ℕ

-- ERR is -1 in every X/Open curses.
abbrev pub err : ℤ
err = negsuc 0

abbrev pub escape : ℤ
escape = pos 27

-- the fields of MEVENT that the file sets
pub record MouseEvent : Type 0 where
  pub x : ℤ
  pub y : ℤ
  pub bstate : ℕ

pub record InputEvent : Type 0 where
  pub key : ℤ
  pub has_mouse : Bool
  pub mouse : MouseEvent
  pub parsed_escape : Bool

abbrev pub Terminal : Type 0
Terminal = List ℤ

unfoldable pub read_key : Terminal → ℤ × Terminal
read_key [] = (err, [])
read_key (k ∷ keys) = (k, keys)

unfoldable pub unread_key : ℤ → Terminal → Terminal
unread_key key keys = key ∷ keys

-- static_cast<char>, as the number of the byte
unfoldable pub to_char : ℤ → ℕ
to_char (pos n) = n % 256
to_char (negsuc n) = 255 - n % 256

unfoldable pub is_digit : ℕ → Bool
is_digit c = leb b'0' c && leb c b'9'

unfoldable pub is_alpha : ℕ → Bool
is_alpha c = leb b'a' c && leb c b'z' || leb b'A' c && leb c b'Z'

abbrev pub is_char : ℤ → ℕ → Bool
is_char key c = eqb_ℤ key (pos c)

-- the loop that collects a numbered sequence; `guard` counts the reads that are left
unfoldable pub read_sequence : ℕ → Terminal → Bytes × Terminal
unfolding read_key to_char is_alpha
read_sequence zero keys = ([], keys)
read_sequence (suc guard) [] = ([], [])
read_sequence (suc guard) (next ∷ keys) =
    let more = read_sequence guard keys in
    if eqb_ℤ next err
    then ([], keys)
    else if is_char next b'~' || is_alpha (to_char next)
    then (to_char next ∷ [], keys)
    else (to_char next ∷ more.0, more.1)

module _ ⦃c : Curses⦄ where
  unfoldable pub numbered_key : Bytes → ℤ
  numbered_key sequence =
      if beq sequence (str "11~")
      then c.key_f 1
      else if beq sequence (str "12~")
      then c.key_f 2
      else if beq sequence (str "13~")
      then c.key_f 3
      else if beq sequence (str "14~")
      then c.key_f 4
      else if beq sequence (str "15~")
      then c.key_f 5
      else if beq sequence (str "17~")
      then c.key_f 6
      else if beq sequence (str "18~")
      then c.key_f 7
      else if beq sequence (str "19~")
      then c.key_f 8
      else if beq sequence (str "20~")
      then c.key_f 9
      else if beq sequence (str "21~")
      then c.key_f 10
      else escape

  unfoldable pub function_key : ℤ → ℤ
  function_key third =
      if is_char third b'P'
      then c.key_f 1
      else if is_char third b'Q'
      then c.key_f 2
      else if is_char third b'R'
      then c.key_f 3
      else if is_char third b'S'
      then c.key_f 4
      else escape

  unfoldable pub parse_defined_escape_sequence : ℤ → ℤ → Terminal → ℤ × Terminal
  unfolding read_sequence numbered_key is_digit to_char function_key
  parse_defined_escape_sequence second third keys =
      let collected = read_sequence 8 keys in
      if is_char second b'O'
      then (function_key third, keys)
      else if not (is_char second b'[')
      then (escape, keys)
      else if is_char third b'Z'
      then (c.key_btab, keys)
      else if not (is_digit (to_char third))
      then (escape, keys)
      else (numbered_key (to_char third ∷ collected.0), collected.1)
