-- ===== src/Input/FunctionKeys.antt =====
-- src/input_parser.cpp: the parser and the table for curses know the same sequences.
use mtop.Base.{◌≡◌, refl, ◌++◌, map, All, beq, Bytes, true, str}
use mtop.Base.Int.{pos}
use mtop.Input.{
  function_key, Curses, Terminal, read_key, unread_key, to_char, is_alpha, is_digit, read_sequence,
  parse_defined_escape_sequence, numbered_key,
}
use mtop.Input.Events.{read_input_event, defined_keys, key_event}

-- A sequence, as the terminal sends it.
abbrev pub keys_of : Bytes → Terminal
keys_of = map pos

module _ ⦃c : Curses⦄ where
  -- Every sequence that is given to define_key is read as the key that it is given with, and as a whole:
  -- what the terminal holds behind it stays there.
  pub read_input_event-defined_keys :
      (rest : Terminal)
      → All
          (λ entry. read_input_event (keys_of entry.0 ++ rest) ≡ (key_event true entry.1, rest))
          defined_keys
  unfolding read_input_event defined_keys str read_key unread_key parse_defined_escape_sequence
      read_sequence numbered_key to_char is_alpha is_digit beq function_key
  read_input_event-defined_keys rest = (
    refl,
    (
      refl,
      (
        refl,
        (
          refl,
          (
            refl,
            (refl, (refl, (refl, (refl, (refl, (refl, (refl, (refl, (refl, (refl, tt)))))))))),
          ),
        ),
      ),
    ),
  )
