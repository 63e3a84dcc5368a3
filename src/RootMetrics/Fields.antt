-- ===== src/RootMetrics/Fields.antt =====
-- src/root_metrics_parser.cpp: the fields of a line, fields that ran together, and the header.
use mtop.Base.{
  ℕ, zero, suc, Bool, true, false, not, ◌&&◌, ◌||◌, ◌==◌, ltb, leb, if◌then◌else◌, List, [], ◌∷◌,
  ◌++◌, map, Option, none, some, is_nil, length, drop, Bytes, str, is_prefix, trim, is_space,
}

abbrev pub trim_copy : Bytes → Bytes
trim_copy = trim

unfoldable pub flatten : List Bytes → Bytes
flatten [] = []
flatten (s ∷ ss) = s ++ flatten ss

-- What a byte does to `space_run`, to `result` and to `current`, in the loop of `split_multi_space`.
unfoldable pub next_run : ℕ → ℕ → ℕ
next_run run c = if c == b' ' then suc run else 0

unfoldable pub pushed_field : ℕ → Bytes → ℕ → List Bytes
pushed_field run current c =
    if c == b' ' && (leb 2 (suc run) && not (is_nil current)) then trim_copy current ∷ [] else []

unfoldable pub next_current : ℕ → Bytes → ℕ → Bytes
next_current run current c =
    if c == b' '
    then if leb 2 (suc run) then [] else if is_nil current then [] else current ++ (c ∷ [])
    else current ++ (c ∷ [])

unfoldable pub last_field : Bytes → List Bytes
last_field current = if is_nil current then [] else trim_copy current ∷ []

unfoldable pub split_from : ℕ → Bytes → Bytes → List Bytes
unfolding last_field next_run pushed_field next_current
split_from run current [] = last_field current
split_from run current (c ∷ s) =
    pushed_field run current c ++ split_from (next_run run c) (next_current run current c) s

-- Two spaces or more separate the fields.
unfoldable pub split_multi_space : Bytes → List Bytes
unfolding split_from
split_multi_space line = split_from 0 [] line

abbrev is_digit : ℕ → Bool
is_digit c = leb b'0' c && leb c b'9'

-- the loop of `is_numeric_field`
numeric_from : Bool → Bytes → Bool
numeric_from has_digit [] = has_digit
numeric_from has_digit (c ∷ s) =
    let rest = numeric_from (has_digit || is_digit c) s in
    if is_digit c || (c == b'.' || c == b'+' || c == b'-' || c == b'e' || c == b'E')
    then rest
    else false

unfoldable pub is_numeric_field : Bytes → Bool
unfolding numeric_from
is_numeric_field text =
    let trimmed = trim_copy text in if is_nil trimmed then false else numeric_from false trimmed

-- `stream >> part` until it fails: the words between white space
unfoldable pub words_from : Bytes → Bytes → List Bytes
words_from current [] = if is_nil current then [] else current ∷ []
words_from current (c ∷ s) =
    (if is_space c && not (is_nil current) then current ∷ [] else [])
    ++ words_from (if is_space c then [] else current ++ (c ∷ [])) s

unfoldable pub all_numeric : List Bytes → Bool
all_numeric [] = true
all_numeric (part ∷ parts) = is_numeric_field part && all_numeric parts

-- Nothing, unless the field is two numbers or more.
unfoldable pub split_numeric_subfields : Bytes → List Bytes
unfolding words_from all_numeric
split_numeric_subfields field =
    let parts = words_from [] field in
    if all_numeric parts && not (ltb (length parts) 2) then parts else []

-- The list with the parts in place of its first field, or with a later field split.
unfoldable pub replace_field :
    List Bytes → Bytes → List Bytes → Option (List Bytes) → Option (List Bytes)
replace_field [] field fields none = none
replace_field [] field fields (some rest) = some (field ∷ rest)
replace_field (part ∷ parts) field fields later = some (part ∷ (parts ++ fields))

-- One round of the `while`: the first field that can be split is replaced by its parts.
unfoldable pub split_first : List Bytes → Option (List Bytes)
unfolding replace_field
split_first [] = none
split_first (field ∷ fields) =
    replace_field (split_numeric_subfields field) field fields (split_first fields)

unfoldable pub next_round : ℕ → List Bytes → Option (List Bytes)
unfolding split_first
next_round expected_size fields =
    if ltb (length fields) expected_size then split_first fields else none

unfoldable pub merge_rounds : ℕ → ℕ → List Bytes → List Bytes
unfolding next_round
merge_rounds zero expected_size fields = fields
merge_rounds (suc rounds) expected_size fields = elim (next_round expected_size fields) [
  | none ↦ fields
  | some more ↦ merge_rounds rounds expected_size more
]

-- A round adds a field, so that `expected_size` rounds are enough.
unfoldable pub split_merged_numeric_fields : List Bytes → ℕ → List Bytes
unfolding merge_rounds
split_merged_numeric_fields fields expected_size =
    merge_rounds expected_size expected_size (map trim_copy fields)

-- `field.find(needle)`: what stands before the first occurrence, and what stands after it
split_at : Bytes → Bytes → Option (Bytes × Bytes)
split_at needle [] = none
split_at needle (c ∷ s) = elim (is_prefix needle (c ∷ s)) [
  | true ↦ some ([], drop (length needle) (c ∷ s))
  | false ↦ elim (split_at needle s) [
    | none ↦ none
    | some (before, after) ↦ some (c ∷ before, after)
  ]
]

expand_field : Bytes → List Bytes
unfolding split_at
expand_field field =
    if is_prefix (str "Deadlines (") field
    then str "Deadline<2ms" ∷ str "Deadline2-5ms" ∷ []
    else if is_prefix (str "Wakeups (") field
    then str "WakeupsIntr" ∷ str "WakeupsPkgIdle" ∷ []
    else elim (split_at (str " %") field) [
      | none ↦ field ∷ []
      | some (before, after) ↦ before ∷ (b'%' ∷ after) ∷ []
    ]

-- Some titles of powermetrics stand over two columns.
unfoldable pub expand_amp_header : List Bytes → List Bytes
unfolding expand_field
expand_amp_header [] = []
expand_amp_header (field ∷ fields) = expand_field field ++ expand_amp_header fields
