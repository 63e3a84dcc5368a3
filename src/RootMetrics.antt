-- ===== src/RootMetrics.antt =====
-- src/root_metrics_parser.cpp: the processes' core mix, disk traffic and energy, as read from
-- the text of powermetrics. Here is the loop over the lines.
pub mod Fields
pub mod Rows
pub mod Kept
pub mod Rounds
pub mod Keys
pub mod Section
pub mod Buffers
use mtop.Base.{
  Bool, true, false, not, ◌&&◌, if◌then◌else◌, List, [], ◌∷◌, Option, none, some, ◌==◌, is_nil,
  length, Bytes, str, contains, is_prefix,
}
use mtop.Base.Int.{ℤ, pos, eqb_ℤ, ltb_ℤ, leb_ℤ}
use mtop.Base.Double.{Double}
use mtop.Base.OrderedMap.{put}
use mtop.Config.Numbers.{atoi}
use mtop.Config.Files.{split_lines}
use mtop.RootMetrics.Fields.{
  trim_copy, split_multi_space, split_merged_numeric_fields, expand_amp_header,
}
use mtop.RootMetrics.Rows.{Row, fill_row, row_id, core_mix_text, io_text, power_text}

-- std::map<int, std::string>
abbrev pub Texts : Type 0
Texts = List (ℤ × Bytes)

pub record AmpData : Type 0 where
  pub core_mix : Texts
  pub io : Texts
  pub power : Texts

unfoldable pub put_text : ℤ → Bytes → Texts → Texts
unfolding put
put_text pid text texts = put eqb_ℤ ltb_ℤ pid text texts

-- `texts[pid] = text`, if there is a text
abbrev pub put_some : ℤ → Option Bytes → Texts → Texts
put_some pid none texts = texts
put_some pid (some text) texts = put_text pid text texts

-- The local variables of `parse_amp_data` between two lines.
pub record Scan : Type 0 where
  pub in_tasks : Bool
  pub header : List Bytes
  pub result : AmpData

abbrev pub is_tasks_title : Bytes → Bool
is_tasks_title trimmed = contains trimmed (str "*** Running tasks ***")

abbrev pub is_next_title : Bytes → Bool
is_next_title trimmed = is_prefix (str "****") trimmed

abbrev pub is_header : Bytes → Bool
is_header trimmed = is_prefix (str "Name") trimmed && contains trimmed (str "CPU ms/s")

-- The fields of a row that are matched with the header.
unfoldable pub row_values : List Bytes → Bytes → List Bytes
unfolding split_multi_space split_merged_numeric_fields
row_values header trimmed = split_merged_numeric_fields (split_multi_space trimmed) (length header)

abbrev pub initial_scan : Scan
initial_scan = record {
  in_tasks = false;
  header = [];
  result = record { core_mix = []; io = []; power = [] };
}

module _ (F : Type 0) ⦃d : Double F⦄ (has_super : Bool) where
  add_row : ℤ → Row → AmpData → AmpData
  unfolding put_text core_mix_text io_text power_text
  add_row pid row amp = record {
    core_mix = put_text pid (core_mix_text F has_super row) amp.core_mix;
    io = put_some pid (io_text F row) amp.io;
    power = put_some pid (power_text F row) amp.power;
  }

  -- A row without a positive identifier is passed over.
  add_values : List Bytes → List Bytes → AmpData → AmpData
  unfolding fill_row row_id atoi add_row
  add_values header values amp =
      let row = fill_row header values [] in
      elim (row_id row) [
        | none ↦ amp
        | some id ↦ if leb_ℤ (atoi id) (pos 0) then amp else add_row (atoi id) row amp
      ]

  -- The body of the loop; nothing is its `break`.
  unfoldable pub scan_line : Bytes → Scan → Option Scan
  unfolding expand_amp_header row_values add_values
  scan_line line s =
      let trimmed = trim_copy line in
      if is_tasks_title trimmed
      then some (record s { in_tasks = true })
      else if not s.in_tasks
      then some s
      else if is_next_title trimmed
      then none
      else if is_nil trimmed
      then some s
      else if is_header trimmed
      then some (record s { header = expand_amp_header (split_multi_space trimmed) })
      else if is_nil s.header
      then some s
      else if length (row_values s.header trimmed) == length s.header
      then some (record s { result = add_values s.header (row_values s.header trimmed) s.result })
      else some s

  unfoldable pub scan_lines : List Bytes → Scan → AmpData
  scan_lines [] s = s.result
  scan_lines (line ∷ lines) s = elim (scan_line line s) [
    | none ↦ s.result
    | some t ↦ scan_lines lines t
  ]

  unfoldable pub parse_amp_data : Bytes → AmpData
  unfolding scan_lines
  parse_amp_data text = scan_lines (split_lines text) initial_scan
