-- ===== src/Json/Escape.antt =====
-- src/snapshot_json.cpp: a reader of JSON strings takes back exactly what `json_escape` was given.
use mtop.Base.{
  ℕ, ◌+◌, ◌-◌, ◌*◌, ◌/◌, ◌%◌, ◌≤◌, ◌<◌, true, false, ◌&&◌, ◌==◌, ltb, leb, if◌then◌else◌, ◌≡◌, refl,
  ap, ◌⊎◌, arith, Option, none, some, [], ◌∷◌, ◌++◌, append_assoc, Bytes, All, All-append,
  Bool-cases, inl, inr,
}
use mtop.Json.Writer.{hex_digit, escape_byte, json_escape}

abbrev hex_value : ℕ → ℕ
hex_value c = if leb c b'9' then c - b'0' else c - b'a' + 10

abbrev prepend : ℕ → Option (Bytes × Bytes) → Option (Bytes × Bytes)
prepend c none = none
prepend c (some (s, rest)) = some (c ∷ s, rest)

-- The short escapes of JSON.
abbrev short_escape : ℕ → Option ℕ
short_escape c =
    if c == b'"'
    then some b'"'
    else if c == b'\\'
    then some b'\\'
    else if c == b'/'
    then some b'/'
    else if c == b'b'
    then some 8
    else if c == b'f'
    then some 12
    else if c == b'n'
    then some 10
    else if c == b'r'
    then some 13
    else if c == b't'
    then some 9
    else none

-- What follows an opening quote, up to the closing one, and what stands behind it. A control byte,
-- an unknown escape and a missing quote are errors; \u escapes are read up to 0xff.
mutual
  pub read_string : Bytes → Option (Bytes × Bytes)
  read_string [] = none
  read_string (c ∷ s) = elim (c == b'"') [
    | true ↦ some ([], s)
    | false ↦ elim (c == b'\\') [
      | true ↦ read_escape s
      | false ↦ elim (ltb c 0x20) [ true ↦ none | false ↦ prepend c (read_string s) ]
    ]
  ]

  pub read_escape : Bytes → Option (Bytes × Bytes)
  read_escape [] = none
  read_escape (c ∷ s) = elim (c == b'u') [
    | true ↦ read_unicode s
    | false ↦ elim (short_escape c) [ none ↦ none | some v ↦ prepend v (read_string s) ]
  ]

  pub read_unicode : Bytes → Option (Bytes × Bytes)
  read_unicode (a ∷ b ∷ c ∷ e ∷ s) = elim (a == b'0' && b == b'0') [
    | true ↦ prepend (hex_value c * 16 + hex_value e) (read_string s)
    | false ↦ none
  ]
  read_unicode _ = none

abbrev Reads : ℕ → Bytes → Type 0
Reads c s = read_string (escape_byte c ++ s) ≡ prepend c (read_string s)

Reads-named :
    (c : ℕ) (s : Bytes)
    → (c ≡ 34) ⊎ (c ≡ 92) ⊎ (c ≡ 8) ⊎ (c ≡ 12) ⊎ (c ≡ 10) ⊎ (c ≡ 13) ⊎ (c ≡ 9)
    → Reads c s
unfolding read_string escape_byte
Reads-named c s (inl e) = rw e
Reads-named c s (inr (inl e)) = rw e
Reads-named c s (inr (inr (inl e))) = rw e
Reads-named c s (inr (inr (inr (inl e)))) = rw e
Reads-named c s (inr (inr (inr (inr (inl e))))) = rw e
Reads-named c s (inr (inr (inr (inr (inr (inl e)))))) = rw e
Reads-named c s (inr (inr (inr (inr (inr (inr e)))))) = rw e

abbrev IsNamed : ℕ → Type 0
IsNamed c = (c ≡ 34) ⊎ (c ≡ 92) ⊎ (c ≡ 8) ⊎ (c ≡ 12) ⊎ (c ≡ 10) ⊎ (c ≡ 13) ⊎ (c ≡ 9)

hex_value-hex_digit : (n : ℕ) → n < 16 → hex_value (hex_digit n) ≡ n
hex_value-hex_digit n h = ground arith

escape_byte_control :
    (c : ℕ)
    → ¬ IsNamed c
    → c < 0x20
    → escape_byte c ≡ b'\\' ∷ b'u' ∷ b'0' ∷ b'0' ∷ hex_digit (c / 16) ∷ hex_digit (c % 16) ∷ []
unfolding escape_byte
escape_byte_control c n h = ground arith

reads_hex :
    (x y : ℕ) (s : Bytes)
    → read_string (b'\\' ∷ b'u' ∷ b'0' ∷ b'0' ∷ x ∷ y ∷ s)
      ≡ prepend (hex_value x * 16 + hex_value y) (read_string s)
unfolding read_string
reads_hex x y s = refl

Reads-control : (c : ℕ) (s : Bytes) → ¬ IsNamed c → c < 0x20 → Reads c s
Reads-control c s n h =
    rw
      (
        escape_byte_control c n h,
        reads_hex (hex_digit (c / 16)) (hex_digit (c % 16)) s,
        hex_value-hex_digit (c / 16) (omega arith),
        hex_value-hex_digit (c % 16) (omega arith),
      )
      (ap (λ v. prepend v (read_string s)) (omega arith))

escape_byte_plain : (c : ℕ) → ¬ IsNamed c → 0x20 ≤ c → escape_byte c ≡ c ∷ []
unfolding escape_byte
escape_byte_plain c n h = ground arith

read_plain :
    (c : ℕ) (s : Bytes)
    → (c == b'"') ≡ false
    → (c == b'\\') ≡ false
    → ltb c 0x20 ≡ false
    → read_string (c ∷ s) ≡ prepend c (read_string s)
unfolding read_string
read_plain c s p q r = ground arith

Reads-plain : (c : ℕ) (s : Bytes) → ¬ IsNamed c → 0x20 ≤ c → Reads c s
Reads-plain c s n h =
    rw (escape_byte_plain c n h) (read_plain c s (ground arith) (ground arith) (ground arith))

IsNamed-or_not : (c : ℕ) → IsNamed c ⊎ ¬ IsNamed c
IsNamed-or_not c = ground arith

read_string-escape_byte :
    (c : ℕ) (s : Bytes) → read_string (escape_byte c ++ s) ≡ prepend c (read_string s)
read_string-escape_byte c s = elim (IsNamed-or_not c) [
  | inl y ↦ Reads-named c s y
  | inr n ↦ elim (Bool-cases (ltb c 0x20)) [
    | inl low ↦ Reads-control c s n (ground arith)
    | inr high ↦ Reads-plain c s n (ground arith)
  ]
]

-- Reading an escaped string gives the string back, and stops at the quote that closes it. So no two
-- strings are escaped alike, and no content can end a string early.
pub read_string-json_escape :
    (s rest : Bytes) → read_string (json_escape s ++ (b'"' ∷ rest)) ≡ some (s, rest)
unfolding json_escape
read_string-json_escape [] rest = unfold read_string in refl
read_string-json_escape (c ∷ s) rest = rw (
  append_assoc (escape_byte c) (json_escape s) (b'"' ∷ rest),
  read_string-escape_byte c (json_escape s ++ (b'"' ∷ rest)),
  read_string-json_escape s rest,
)

-- An escaped string holds no control byte: a document stays on one line.
json_escape-printable : (s : Bytes) → All (λ c. 0x20 ≤ c) (json_escape s)
unfolding json_escape
json_escape-printable [] = tt
json_escape-printable (c ∷ s) =
    All-append (λ c. 0x20 ≤ c) (escape_byte c) (json_escape s) (unfold escape_byte in ground arith)
      (json_escape-printable s)
