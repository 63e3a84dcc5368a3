-- ===== src/RootMetrics/Rows.antt =====
-- src/root_metrics_parser.cpp: what one row of the table of tasks says of its process.
use mtop.Base.{
  ℕ, zero, suc, Bool, true, false, ◌||◌, ◌==◌, if◌then◌else◌, List, [], ◌∷◌, ◌++◌, Option, none,
  some, get_elem?, take, Bytes, str, beq, contains, lowercase, string_less,
}
use mtop.Base.Int.{int_text}
use mtop.Base.Double.{Double}
use mtop.Base.OrderedMap.{find_key, put}
use mtop.RootMetrics.Fields.{trim_copy}

-- A row by the titles of its columns, in the order of the titles.
abbrev pub Row : Type 0
Row = List (Bytes × Bytes)

unfoldable pub fill_row : List Bytes → List Bytes → Row → Row
fill_row (title ∷ titles) (value ∷ values) row =
    fill_row titles values (put beq string_less (trim_copy title) (trim_copy value) row)
fill_row _ _ row = row

abbrev pub column : Row → Bytes → Option Bytes
column row title = find_key beq title row

-- `row.find("ID")`, else `row.find("PID")`
unfoldable pub row_id : Row → Option Bytes
unfolding find_key
row_id row = elim (column row (str "ID")) [ some id ↦ some id | none ↦ column row (str "PID") ]

abbrev io_unit : ℕ → Bytes
io_unit n = elim (get_elem? (str "B" ∷ str "K" ∷ str "M" ∷ str "G" ∷ str "T" ∷ []) n) [
  | none ↦ []
  | some unit ↦ unit
]

module _ {F : Type 0} ⦃d : Double F⦄ where
  atof : Bytes → F
  atof text = (d.strtod text).0

  -- `while (std::fabs(value) >= 1024.0 && unit < 4)`: four rounds at most
  unfoldable pub scale_io : ℕ → F → ℕ → F × ℕ
  scale_io zero value unit = (value, unit)
  scale_io (suc rounds) value unit =
      let next = scale_io rounds (d.div value (d.of_nat 1024)) (suc unit) in
      if d.le (d.of_nat 1024) (d.abs value) then next else (value, unit)

  -- snprintf keeps what fits in the buffer, less one byte.
  unfoldable pub compact_io_bytes : F → Bytes
  unfolding scale_io
  compact_io_bytes value =
      let (scaled, unit) = scale_io 4 value 0 in
      let places = if unit == 0 || d.le (d.of_nat 10) (d.abs scaled) then 0 else 1 in
      take 15 (d.fixed places scaled ++ io_unit unit)

  -- The share of the faster cores, by its own column or by the milliseconds.
  unfoldable pub core_share : Row → Bytes → Bytes → Option F
  unfolding atof find_key
  core_share row percent_title ms_title = elim (column row percent_title) [
    | some percent ↦ some (atof percent)
    | none ↦ elim (column row ms_title) [
      | none ↦ none
      | some ms ↦ elim (column row (str "CPU ms/s")) [
        | none ↦ none
        | some total ↦ some (
            if d.lt (d.of_nat 0) (atof total)
            then d.div (d.mul (atof ms) (d.of_nat 100)) (atof total)
            else d.of_nat 0)
      ]
    ]
  ]

  -- The labels of the two kinds of cores, by the first share that is known.
  unfoldable pub labelled : Bool → Option F → Option F → F × Bytes × Bytes
  labelled true (some share) _ = (share, str "S", str "P")
  labelled false (some share) _ = (share, str "P", str "E")
  labelled _ none (some share) = (share, str "P", str "E")
  labelled _ none none = (d.of_nat 0, str "P", str "E")

  -- `primary_percent`, `primary_label` and `secondary_label`
  unfoldable pub core_shares : Bool → Row → F × Bytes × Bytes
  unfolding core_share labelled
  core_shares has_super row =
      labelled has_super (core_share row (str "%SCPU") (str "SCPU ms/s"))
        (core_share row (str "%PCPU") (str "PCPU ms/s"))

module _ (F : Type 0) ⦃d : Double F⦄ where
  unfoldable pub core_part : Bytes → F → Bytes
  core_part label percent = label ++ (b':' ∷ (int_text (d.round_int percent) ++ str "%"))

  -- std::max(0.0, 100.0 - primary_percent)
  abbrev pub rest_share : F → F
  rest_share share =
      let left = d.sub (d.of_nat 100) share in if d.lt (d.of_nat 0) left then left else d.of_nat 0

  unfoldable pub mix_parts : F → Bytes → Bytes → Bytes
  unfolding core_part
  mix_parts share primary secondary =
      core_part primary share ++ (b' ' ∷ core_part secondary (rest_share share))

  unfoldable pub core_mix_text : Bool → Row → Bytes
  unfolding core_shares mix_parts
  core_mix_text has_super row =
      let (share, primary, secondary) = core_shares {F = F} has_super row in
      take 63 (mix_parts share primary secondary)

  -- `disk_read`, `disk_write` and `saw_io_column` after the columns of the row
  sum_io : Row → F × F × Bool → F × F × Bool
  unfolding atof
  sum_io [] sums = sums
  sum_io ((title, value) ∷ row) (disk_read, disk_write, saw) =
      let name = lowercase title in
      sum_io row (
        if contains name (str "disk") || (contains name (str "io") || contains name (str "bytes"))
        then if contains name (str "read")
          then (d.add disk_read (atof value), disk_write, true)
          else if contains name (str "write") || contains name (str "written")
          then (disk_read, d.add disk_write (atof value), true)
          else (disk_read, disk_write, true)
        else (disk_read, disk_write, saw))

  unfoldable pub io_parts : F → F → Bytes
  unfolding compact_io_bytes
  io_parts disk_read disk_write = compact_io_bytes disk_read ++ (b'/' ∷ compact_io_bytes disk_write)

  unfoldable pub io_text : Row → Option Bytes
  unfolding sum_io io_parts
  io_text row =
      let (disk_read, disk_write, saw) = sum_io row (d.of_nat 0, d.of_nat 0, false) in
      if saw then some (take 31 (io_parts disk_read disk_write)) else none

  -- the first column with the energy, in the order of the titles
  unfoldable pub power_text : Row → Option Bytes
  unfolding atof
  power_text [] = none
  power_text ((title, value) ∷ row) =
      let name = lowercase title in
      let rest = power_text row in
      if contains name (str "energy") || contains name (str "impact")
      then some (take 15 (d.fixed 0 (atof value)))
      else rest
