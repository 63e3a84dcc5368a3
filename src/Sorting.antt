-- ===== src/Sorting.antt =====
-- include/monitor/input_logic.hpp, src/input_logic.cpp and src/process_sort.cpp: the columns by
-- which processes are sorted, the state that a header click changes, and the comparison that
-- std::sort is given.
pub mod Order
pub mod Clicks
use mtop.Base.{
  ℕ, zero, suc, ◌+◌, ◌*◌, Bool, true, false, not, ◌&&◌, ◌||◌, List, [], ◌∷◌, ◌==◌, ltb, leb,
  if◌then◌else◌, is_nil, Bytes, str, beq, string_less, tolower, Option, none, some,
}
use mtop.Base.Double.{Double}
use mtop.Base.Int.{ℤ, pos, negsuc, ltb_ℤ, eqb_ℤ}
use mtop.Snapshot.{ProcessSnapshot}

pub data SortMode : Type 0 where
  pid cpu mem time name gpu_active io power : SortMode

pub record SortState : Type 0 where
  pub mode : SortMode
  pub direction : ℤ

unfoldable pub cycle_sort : SortMode → SortMode
cycle_sort pid = cpu
cycle_sort cpu = mem
cycle_sort mem = time
cycle_sort time = name
cycle_sort name = gpu_active
cycle_sort gpu_active = io
cycle_sort io = power
cycle_sort power = pid

unfoldable pub default_sort_direction : SortMode → ℤ
default_sort_direction pid = pos 1
default_sort_direction name = pos 1
default_sort_direction _ = negsuc 0

-- operator== on the enumeration, by the position of a mode
abbrev pub mode_index : SortMode → ℕ
mode_index pid = 0
mode_index cpu = 1
mode_index mem = 2
mode_index time = 3
mode_index name = 4
mode_index gpu_active = 5
mode_index io = 6
mode_index power = 7

-- `direction *= -1`
abbrev pub negate : ℤ → ℤ
negate (pos zero) = pos 0
negate (pos (suc n)) = negsuc n
negate (negsuc n) = pos (suc n)

unfoldable pub apply_header_sort_click : SortState → SortMode → SortState
unfolding default_sort_direction
apply_header_sort_click current clicked_mode =
    if mode_index current.mode == mode_index clicked_mode
    then record current { direction = negate current.direction }
    else record { mode = clicked_mode; direction = default_sort_direction clicked_mode }

unfoldable pub is_missing_value : Bytes → Bool
is_missing_value value =
    is_nil value
    || beq value (str "-")
    || beq value (str "root")
    || beq value (str "wait")
    || beq value (str "stale")
    || beq value (str "parse")
    || beq value (str "denied")
    || beq value (str "n/a")

-- The factor of a size suffix.
unfoldable pub suffix_scale : ℕ → ℕ
unfolding tolower
suffix_scale c =
    let suffix = tolower c in
    if suffix == b'k'
    then 1024
    else if suffix == b'm'
    then 1024 * 1024
    else if suffix == b'g'
    then 1024 * 1024 * 1024
    else if suffix == b't'
    then 1024 * 1024 * 1024 * 1024
    else 1

-- text before and after the first '/'
unfoldable pub split_slash : Bytes → Option (Bytes × Bytes)
split_slash [] = none
split_slash (c ∷ cs) =
    if c == b'/'
    then some ([], cs)
    else elim (split_slash cs) [ none ↦ none | some (l, r) ↦ some (c ∷ l, r) ]

-- `rest` is what strtod left: its first byte may be a size suffix.
abbrev pub scale_of : Bytes → ℕ
unfolding suffix_scale
scale_of [] = 1
scale_of (c ∷ _) = suffix_scale c

module _ {F : Type 0} ⦃d : Double F⦄ where
  unfoldable pub parse_scaled_number : Bytes → F
  parse_scaled_number text =
      if is_nil text
      then d.of_nat 0
      else d.mul (d.strtod text).0 (d.of_nat (scale_of (d.strtod text).1))

  unfoldable pub missing_sort_score : ℤ → F
  missing_sort_score direction = if ltb_ℤ (pos 0) direction then d.infinity else d.negative_infinity

  unfoldable pub finite_or_missing : F → ℤ → F
  finite_or_missing score direction =
      if d.is_finite score then score else missing_sort_score direction

  unfoldable pub io_score : Bytes → ℤ → F
  io_score value direction =
      if is_missing_value value then missing_sort_score direction else elim (split_slash value) [
        | none ↦ finite_or_missing (parse_scaled_number value) direction
        | some (read, written) ↦
            finite_or_missing (d.add (parse_scaled_number read) (parse_scaled_number written))
              direction
      ]

  unfoldable pub power_score : Bytes → ℤ → F
  power_score value direction =
      if is_missing_value value
      then missing_sort_score direction
      else finite_or_missing (parse_scaled_number value) direction

-- The template, over the type's == and <. `a > b` is `b < a`.
unfoldable pub compare_value : {A : Type 0} → (A → A → Bool) → (A → A → Bool) → A → A → ℤ → Bool
compare_value eq lt lhs rhs direction =
    if eq lhs rhs then false else if ltb_ℤ (pos 0) direction then lt lhs rhs else lt rhs lhs

-- `if (lhs != rhs) return compare_value(...); break;`, and the tie-break behind the switch.
abbrev pub by_key : {A : Type 0} → (A → A → Bool) → (A → A → Bool) → A → A → ℤ → Bool → Bool
unfolding compare_value
by_key eq lt lhs rhs direction tie =
    if not (eq lhs rhs) then compare_value eq lt lhs rhs direction else tie

-- == and < on flags, as the GPU column compares them
abbrev pub flag_eq : Bool → Bool → Bool
flag_eq true b = b
flag_eq false b = not b

unfoldable pub flag_order : Bool → Bool → ℤ → Bool
flag_order lhs rhs direction = if ltb_ℤ (pos 0) direction then not lhs && rhs else lhs && not rhs

module _ {F : Type 0} ⦃d : Double F⦄ where
  unfoldable pub process_sort_less : ProcessSnapshot F → ProcessSnapshot F → SortMode → ℤ → Bool
  unfolding flag_order compare_value
  process_sort_less lhs rhs pid dir = by_key eqb_ℤ ltb_ℤ lhs.pid rhs.pid dir (ltb_ℤ lhs.pid rhs.pid)
  process_sort_less lhs rhs cpu dir =
      by_key d.eq d.lt lhs.cpu_percent rhs.cpu_percent dir (ltb_ℤ lhs.pid rhs.pid)
  process_sort_less lhs rhs mem dir =
      by_key d.eq d.lt lhs.memory_percent rhs.memory_percent dir (ltb_ℤ lhs.pid rhs.pid)
  process_sort_less lhs rhs time dir =
      by_key ◌==◌ ltb lhs.total_cpu_time_ns rhs.total_cpu_time_ns dir (ltb_ℤ lhs.pid rhs.pid)
  process_sort_less lhs rhs name dir =
      by_key beq string_less lhs.command rhs.command dir (ltb_ℤ lhs.pid rhs.pid)
  process_sort_less lhs rhs gpu_active dir =
      if not (flag_eq lhs.gpu_active rhs.gpu_active)
      then flag_order lhs.gpu_active rhs.gpu_active dir
      else ltb_ℤ lhs.pid rhs.pid
  process_sort_less lhs rhs io dir =
      by_key d.eq d.lt (io_score lhs.io dir) (io_score rhs.io dir) dir (ltb_ℤ lhs.pid rhs.pid)
  process_sort_less lhs rhs power dir =
      by_key d.eq d.lt (power_score lhs.power dir) (power_score rhs.power dir) dir
        (ltb_ℤ lhs.pid rhs.pid)
