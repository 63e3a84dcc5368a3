-- ===== src/Config.antt =====
-- include/monitor/config.hpp and src/config.cpp: the settings, and how a line of the file changes them.
pub mod Numbers
pub mod Files
pub mod Bounds
pub mod Persist
pub mod RoundTrip
use mtop.Base.{
  ℕ, zero, suc, ◌+◌, ◌-◌, ◌*◌, ◌^◌, Bool, true, false, not, ◌&&◌, ◌||◌, ◌==◌, ltb, leb,
  if◌then◌else◌, List, [], ◌∷◌, ◌++◌, Option, none, some, is_nil, Bytes, str, beq, trim, lowercase,
  is_space,
}
use mtop.Base.Int.{ℤ, pos, negsuc, clamp_ℤ, ltb_ℤ}
use mtop.Sorting.{SortMode, default_sort_direction}
use mtop.View.{ViewMode, ViewProfile, alpha, parse_view_profile}

pub record AppConfig : Type 0 where
  pub theme : Bytes
  pub refresh_ms : ℤ
  pub process_limit : ℤ
  pub demo_mode : Bool
  pub root_sample_ms : ℤ
  pub snapshot_interval_ms : ℤ
  pub show_cached_memory : Bool
  pub default_view : ViewMode
  pub sort : SortMode
  pub sort_direction : ℤ
  pub view_profile : ViewProfile

-- the member initialisers
abbrev pub default_config : AppConfig
default_config = record {
  theme = str "apple";
  refresh_ms = pos 1000;
  process_limit = pos 12;
  demo_mode = false;
  root_sample_ms = pos 1000;
  snapshot_interval_ms = pos 1000;
  show_cached_memory = false;
  default_view = ViewMode.overview;
  sort = SortMode.cpu;
  sort_direction = negsuc 0;
  view_profile = alpha;
}

abbrev is_digit : ℕ → Bool
is_digit c = leb b'0' c && leb c b'9'

-- std::strtol in base 10: the digits read so far, and the rest at the first byte that is none
unfoldable pub read_digits : ℕ → Bytes → ℕ × Bytes
read_digits n [] = (n, [])
read_digits n (c ∷ s) =
    let more = read_digits (n * 10 + (c - b'0')) s in if is_digit c then more else (n, c ∷ s)

abbrev starts_digit : Bytes → Bool
starts_digit [] = false
starts_digit (c ∷ _) = is_digit c

abbrev minus : ℕ → ℤ
minus zero = pos 0
minus (suc n) = negsuc n

unfoldable pub read_signed : Bytes → Option (ℤ × Bytes)
unfolding read_digits
read_signed [] = none
read_signed (c ∷ s) =
    if c == b'-'
    then if starts_digit s then some (minus (read_digits 0 s).0, (read_digits 0 s).1) else none
    else if c == b'+'
    then if starts_digit s then some (pos (read_digits 0 s).0, (read_digits 0 s).1) else none
    else if is_digit c
    then some (pos (read_digits 0 (c ∷ s)).0, (read_digits 0 (c ∷ s)).1)
    else none

unfoldable pub skip_space : Bytes → Bytes
skip_space [] = []
skip_space (c ∷ s) = if is_space c then skip_space s else c ∷ s

-- `while (*end != '\0')`: a zero byte ends the C string
unfoldable pub only_space : Bytes → Bool
only_space [] = true
only_space (c ∷ s) = c == 0 || (is_space c && only_space s)

-- A value outside of int is refused; so is one outside of long, which strtol reports by ERANGE.
unfoldable pub parse_int : Bytes → Option ℤ
unfolding read_signed skip_space only_space
parse_int value = elim (read_signed (skip_space value)) [
  | none ↦ none
  | some (n, rest) ↦
      if ltb_ℤ n (negsuc (2 ^ 31 - 1)) || ltb_ℤ (pos (2 ^ 31 - 1)) n
      then none
      else if only_space rest
      then some n
      else none
]

unfoldable pub value_or : {A : Type 0} → Option A → A → A
value_or none fallback = fallback
value_or (some a) _ = a

-- `lowered == "a" || lowered == "b" || ...`
abbrev one_of : Bytes → List Bytes → Bool
one_of s [] = false
one_of s (t ∷ ts) = beq s t || one_of s ts

unfoldable pub parse_bool : Bytes → Bool → Bool
parse_bool value fallback =
    let lowered = lowercase (trim value) in
    if one_of lowered (str "1" ∷ str "true" ∷ str "yes" ∷ str "on" ∷ [])
    then true
    else if one_of lowered (str "0" ∷ str "false" ∷ str "no" ∷ str "off" ∷ [])
    then false
    else fallback

unfoldable pub parse_view_mode : Bytes → ViewMode → ViewMode
parse_view_mode value fallback =
    let lowered = lowercase (trim value) in
    if one_of lowered (str "overview" ∷ str "main" ∷ [])
    then ViewMode.overview
    else if one_of lowered (str "system_io" ∷ str "system-io" ∷ str "io" ∷ [])
    then ViewMode.system_io
    else if one_of lowered (str "gpu_active" ∷ str "gpu-active" ∷ str "gpu" ∷ [])
    then ViewMode.gpu_active
    else fallback

unfoldable pub parse_sort_mode : Bytes → SortMode → SortMode
parse_sort_mode value fallback =
    let lowered = lowercase (trim value) in
    if one_of lowered (str "pid" ∷ [])
    then SortMode.pid
    else if one_of lowered (str "cpu" ∷ str "pcpu" ∷ [])
    then SortMode.cpu
    else if one_of lowered (str "mem" ∷ str "memory" ∷ [])
    then SortMode.mem
    else if one_of lowered (str "time" ∷ [])
    then SortMode.time
    else if one_of lowered (str "name" ∷ str "command" ∷ [])
    then SortMode.name
    else if one_of lowered (str "gpu" ∷ str "gpu_active" ∷ str "gpu-active" ∷ [])
    then SortMode.gpu_active
    else if one_of lowered (str "io" ∷ [])
    then SortMode.io
    else if one_of lowered (str "pwr" ∷ str "power" ∷ [])
    then SortMode.power
    else fallback

unfoldable pub parse_sort_direction : Bytes → ℤ → ℤ
parse_sort_direction value fallback =
    let lowered = lowercase (trim value) in
    if one_of lowered (str "asc" ∷ str "ascending" ∷ str "1" ∷ [])
    then pos 1
    else if one_of lowered (str "desc" ∷ str "descending" ∷ str "-1" ∷ [])
    then negsuc 0
    else fallback

-- text before and after the first '='
unfoldable pub split_eq : Bytes → Option (Bytes × Bytes)
split_eq [] = none
split_eq (c ∷ cs) =
    if c == b'='
    then some ([], cs)
    else elim (split_eq cs) [ none ↦ none | some (l, r) ↦ some (c ∷ l, r) ]

-- std::clamp(parse_int(value).value_or(current), lo, hi)
abbrev pub setting : Bytes → ℤ → ℕ → ℕ → ℤ
setting value current lo hi = clamp_ℤ (value_or (parse_int value) current) (pos lo) (pos hi)

-- the ladder of keys in `parse_line`
unfoldable pub apply_setting : Bytes → Bytes → AppConfig → AppConfig
apply_setting key value config =
    let given = not (is_nil value) in
    if beq key (str "theme") && given
    then record config { theme = value }
    else if beq key (str "refresh_ms") && given
    then record config { refresh_ms = setting value config.refresh_ms 100 60000 }
    else if beq key (str "process_limit") && given
    then record config { process_limit = setting value config.process_limit 4 1000 }
    else if beq key (str "demo_mode")
    then record config { demo_mode = parse_bool value config.demo_mode }
    else if beq key (str "root_sample_ms") && given
    then record config { root_sample_ms = setting value config.root_sample_ms 250 60000 }
    else if beq key (str "snapshot_interval_ms") && given
    then record config {
      snapshot_interval_ms = setting value config.snapshot_interval_ms 100 60000;
    }
    else if beq key (str "show_cached_memory")
    then record config { show_cached_memory = parse_bool value config.show_cached_memory }
    else if beq key (str "default_view") && given
    then record config { default_view = parse_view_mode value config.default_view }
    else if beq key (str "sort") && given
    then record config {
      sort = parse_sort_mode value config.sort;
      sort_direction = default_sort_direction (parse_sort_mode value config.sort);
    }
    else if beq key (str "sort_direction") && given
    then record config { sort_direction = parse_sort_direction value config.sort_direction }
    else if beq key (str "view_profile") && given
    then record config { view_profile = value_or (parse_view_profile value) alpha }
    else config

-- `line.empty() || line[0] == '#'`
abbrev pub is_skipped : Bytes → Bool
is_skipped [] = true
is_skipped (c ∷ _) = c == b'#'

unfoldable pub parse_line : Bytes → AppConfig → AppConfig
parse_line line config = if is_skipped line then config else elim (split_eq line) [
  | none ↦ config
  | some (key, value) ↦ apply_setting (trim key) (trim value) config
]
