-- ===== src/Json/Writer.antt =====
-- src/snapshot_json.cpp: `json_escape` and the class `JsonWriter`.
use mtop.Base.{
  ℕ, ◌+◌, ◌-◌, ◌/◌, ◌%◌, Bool, true, false, ◌==◌, ltb, if◌then◌else◌, List, [], ◌∷◌, ◌++◌, Bytes,
  str, decimal,
}
use mtop.Base.Double.{Double}
use mtop.Base.Int.{int_text, ℤ}

-- a lower-case hexadecimal digit
abbrev pub hex_digit : ℕ → ℕ
hex_digit n = if ltb n 10 then b'0' + n else b'a' + (n - 10)

-- what the switch writes for one byte; the default prints a control byte by "\\u%04x"
unfoldable pub escape_byte : ℕ → Bytes
escape_byte ch =
    if ch == b'"'
    then b'\\' ∷ b'"' ∷ []
    else if ch == b'\\'
    then b'\\' ∷ b'\\' ∷ []
    else if ch == 8
    then b'\\' ∷ b'b' ∷ []
    else if ch == 12
    then b'\\' ∷ b'f' ∷ []
    else if ch == 10
    then b'\\' ∷ b'n' ∷ []
    else if ch == 13
    then b'\\' ∷ b'r' ∷ []
    else if ch == 9
    then b'\\' ∷ b't' ∷ []
    else if ltb ch 0x20
    then b'\\' ∷ b'u' ∷ b'0' ∷ b'0' ∷ hex_digit (ch / 16) ∷ hex_digit (ch % 16) ∷ []
    else ch ∷ []

unfoldable pub json_escape : Bytes → Bytes
json_escape [] = []
json_escape (ch ∷ value) = escape_byte ch ++ json_escape value

-- The head of `first_stack` is the vector's back.
pub record JsonWriter : Type 0 where
  pub out : Bytes
  pub first_stack : List Bool
  pub expecting_value : Bool

abbrev pub new_writer : JsonWriter
new_writer = record { out = []; first_stack = []; expecting_value = false }

-- One call after another.
infixl 20 ◌▷◌
abbrev pub ◌▷◌ : {A B : Type 0} → A → (A → B) → B
a ▷ f = f a

-- `out_ << text`
abbrev pub write : Bytes → JsonWriter → JsonWriter
write text w = record w { out = w.out ++ text }

separate : List Bool → JsonWriter → JsonWriter
separate [] w = w
separate (true ∷ st) w = record w { first_stack = false ∷ st }
separate (false ∷ st) w = record w { out = w.out ++ (b',' ∷ []); first_stack = false ∷ st }

unfoldable pub member_prefix : JsonWriter → JsonWriter
unfolding separate
member_prefix w = separate w.first_stack w

unfoldable pub value_prefix : JsonWriter → JsonWriter
unfolding separate
value_prefix w =
    if w.expecting_value then record w { expecting_value = false } else separate w.first_stack w

-- `first_stack_.push_back(true)` and `pop_back()`
abbrev pub push_first : JsonWriter → JsonWriter
push_first w = record w { first_stack = true ∷ w.first_stack }

abbrev pub tail_of : List Bool → List Bool
tail_of [] = []
tail_of (_ ∷ st) = st

abbrev pub pop_first : JsonWriter → JsonWriter
pop_first w = record w { first_stack = tail_of w.first_stack }

unfoldable pub begin_object : JsonWriter → JsonWriter
unfolding value_prefix
begin_object w = push_first (write (str "{") (value_prefix w))

unfoldable pub end_object : JsonWriter → JsonWriter
end_object w = pop_first (write (str "}") w)

unfoldable pub begin_array : JsonWriter → JsonWriter
unfolding value_prefix
begin_array w = push_first (write (str "[") (value_prefix w))

unfoldable pub end_array : JsonWriter → JsonWriter
end_array w = pop_first (write (str "]") w)

abbrev pub quoted : Bytes → Bytes
quoted s = b'"' ∷ (json_escape s ++ (b'"' ∷ []))

unfoldable pub key : Bytes → JsonWriter → JsonWriter
unfolding member_prefix
key name w = record (write (quoted name ++ (b':' ∷ [])) (member_prefix w)) {
  expecting_value = true;
}

-- A value that is written as one token.
unfoldable pub token : Bytes → JsonWriter → JsonWriter
token text w = write text (value_prefix w)

unfoldable pub string_value : Bytes → JsonWriter → JsonWriter
string_value value = token (quoted value)

abbrev pub bool_text : Bool → Bytes
bool_text b = if b then str "true" else str "false"

unfoldable pub bool_value : Bool → JsonWriter → JsonWriter
bool_value value = token (bool_text value)

unfoldable pub uint_value : ℕ → JsonWriter → JsonWriter
uint_value value = token (decimal value)

unfoldable pub int_value : ℤ → JsonWriter → JsonWriter
int_value value = token (int_text value)

module _ {F : Type 0} ⦃d : Double F⦄ where
  unfoldable pub double_text : F → Bytes
  double_text value = if d.is_finite value then d.fixed 3 value else str "0.000"

  unfoldable pub double_value : F → JsonWriter → JsonWriter
  double_value value = token (double_text value)
