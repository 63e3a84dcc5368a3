-- ===== src/Examples/Metrics.antt =====
-- The text of powermetrics with two processes, and what the program reads of it.
use mtop.Base.{
  decimal, tolower, lowercase, string_less, beq, find_sub, trim, ℕ, List, [], ◌∷◌, Bytes, str, ◌≡◌,
  refl, true, false, visible, codes, is_space,
}
use mtop.Base.Int.{int_text, pos}
use mtop.RootMetrics.{scan_line, parse_amp_data, row_values, scan_lines, initial_scan}
use mtop.RootMetrics.Fields.{
  is_numeric_field, split_numeric_subfields, split_multi_space, expand_amp_header,
  split_merged_numeric_fields, flatten,
}
use mtop.RootMetrics.Kept.{visible-row_values}
use mtop.RootMetrics.Keys.{IsValid, parse_amp_data-IsValid}
use mtop.RootMetrics.Section.{parse_amp_data-section}
use mtop.RootMetrics.Rows.{Row}
use mtop.Config.Files.{split_lines, join_lines}
use mtop.Examples.Fixtures.{whole_double}

abbrev titles_line : Bytes
titles_line =
    codes
      "Name  ID  CPU ms/s  PCPU ms/s  Deadlines (<2 ms, 2-5 ms)  Bytes Read  Bytes Written  Energy"

abbrev row_line : Bytes
row_line = codes "cc1 x  12  200  50  0 1  2048  7  33"

abbrev text : Bytes
text = join_lines (
    codes "*** CPU ***"
    ∷ row_line
    ∷ codes "*** Running tasks ***"
    ∷ titles_line
    ∷ row_line
    ∷ codes "idle  0  1  1  0 0  0  0  1"
    ∷ codes "**** Battery ****"
    ∷ codes "late  77  1  1  0 0  0  0  1"
    ∷ [])

abbrev fields : List Bytes
fields = row_values (expand_amp_header (split_multi_space titles_line)) row_line

fields_test :
    fields
    ≡ codes "cc1 x"
      ∷ codes "12"
      ∷ codes "200"
      ∷ codes "50"
      ∷ codes "0"
      ∷ codes "1"
      ∷ codes "2048"
      ∷ codes "7"
      ∷ codes "33"
      ∷ []
unfolding row_values split_merged_numeric_fields split_multi_space expand_amp_header str trim
    split_numeric_subfields is_space is_numeric_field
fields_test = refl

table_test : parse_amp_data ℕ false text ≡ record {
  core_mix = (pos 12, codes "P:25% E:75%") ∷ [];
  io = (pos 12, codes "2K/7B") ∷ [];
  power = (pos 12, codes "33") ∷ [];
}
unfolding parse_amp_data split_lines join_lines scan_line find_sub trim str split_numeric_subfields
    is_space is_numeric_field beq string_less lowercase tolower int_text decimal
table_test = refl

visible-row_values_example : visible (flatten fields) ≡ visible row_line
visible-row_values_example =
    visible-row_values (expand_amp_header (split_multi_space titles_line)) row_line

parse_amp_data-IsValid_example : IsValid (parse_amp_data ℕ false text)
parse_amp_data-IsValid_example = parse_amp_data-IsValid ℕ false text

parse_amp_data-section_example :
    parse_amp_data ℕ false text
    ≡ scan_lines ℕ false
        (titles_line ∷ row_line ∷ codes "idle  0  1  1  0 0  0  0  1" ∷ [])
        (record initial_scan { in_tasks = true })
unfolding split_lines join_lines trim find_sub str
parse_amp_data-section_example =
    parse_amp_data-section ℕ false text (codes "*** CPU ***" ∷ row_line ∷ [])
      (titles_line ∷ row_line ∷ codes "idle  0  1  1  0 0  0  0  1" ∷ [])
      (codes "late  77  1  1  0 0  0  0  1" ∷ []) (codes "*** Running tasks ***")
      (codes "**** Battery ****") refl (refl, (refl, tt)) refl refl refl

abbrev row : Row
row = (codes "%PCPU", codes "25") ∷ (codes "ID", codes "12") ∷ []
