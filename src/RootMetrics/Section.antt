-- ===== src/RootMetrics/Section.antt =====
-- src/root_metrics_parser.cpp: only the section of the tasks is read.
use mtop.Base.{
  ap, sym, ◌∙◌, Bool, true, false, List, [], ◌∷◌, ◌++◌, none, some, Bytes, ◌≡◌, refl, arith, inl,
  inr, Option-cases, All,
}
use mtop.Base.Double.{Double}
use mtop.RootMetrics.{
  split_lines, parse_amp_data, Scan, scan_line, scan_lines, initial_scan, is_tasks_title,
  is_next_title,
}
use mtop.RootMetrics.Fields.{trim_copy}

abbrev pub IsTitle : Bytes → Type 0
IsTitle line = is_tasks_title (trim_copy line) ≡ true

abbrev pub IsOther : Bytes → Type 0
IsOther line = is_tasks_title (trim_copy line) ≡ false

abbrev pub IsEnd : Bytes → Type 0
IsEnd line = is_next_title (trim_copy line) ≡ true

module _ (F : Type 0) ⦃d : Double F⦄ (has_super : Bool) where
  scan_line_before :
      (line : Bytes) (s : Scan)
      → s.in_tasks ≡ false
      → IsOther line
      → scan_line F has_super line s ≡ some s
  unfolding scan_line
  scan_line_before line s h o = rw (o, h) refl

  scan_line_end :
      (line : Bytes) (s : Scan)
      → s.in_tasks ≡ true
      → IsOther line
      → IsEnd line
      → scan_line F has_super line s ≡ none
  unfolding scan_line
  scan_line_end line s h o e = rw (o, h, e) refl

  scan_line_title :
      (line : Bytes) (s : Scan)
      → IsTitle line
      → scan_line F has_super line s ≡ some (record s { in_tasks = true })
  unfolding scan_line
  scan_line_title line s t = rw (t) refl

  scan_line-in_tasks :
      (line : Bytes) (s t : Scan)
      → s.in_tasks ≡ true
      → scan_line F has_super line s ≡ some t
      → t.in_tasks ≡ true
  unfolding scan_line
  scan_line-in_tasks line s t h e = ground arith

  scan_lines-nil : (s : Scan) → scan_lines F has_super [] s ≡ s.result
  unfolding scan_lines
  scan_lines-nil s = refl

  scan_lines-next :
      (line : Bytes) (lines : List Bytes) (s t : Scan)
      → scan_line F has_super line s ≡ some t
      → scan_lines F has_super (line ∷ lines) s ≡ scan_lines F has_super lines t
  unfolding scan_lines
  scan_lines-next line lines s t e = rw (scan_lines, e) refl

  scan_lines-stop :
      (line : Bytes) (lines : List Bytes) (s : Scan)
      → scan_line F has_super line s ≡ none
      → scan_lines F has_super (line ∷ lines) s ≡ s.result
  unfolding scan_lines
  scan_lines-stop line lines s e = rw (scan_lines, e) refl

  skip_before :
      (before rest : List Bytes) (s : Scan)
      → s.in_tasks ≡ false
      → All IsOther before
      → scan_lines F has_super (before ++ rest) s ≡ scan_lines F has_super rest s
  skip_before [] rest s h o = refl
  skip_before (line ∷ before) rest s h o =
      scan_lines-next line (before ++ rest) s s (scan_line_before line s h o.0)
      ∙ skip_before before rest s h o.1

  skip_after :
      (table after : List Bytes) (end : Bytes) (s : Scan)
      → s.in_tasks ≡ true
      → IsOther end
      → IsEnd end
      → scan_lines F has_super (table ++ (end ∷ after)) s ≡ scan_lines F has_super table s
  skip_after [] after end s h o e =
      scan_lines-stop end after s (scan_line_end end s h o e) ∙ sym (scan_lines-nil s)
  skip_after (line ∷ table) after end s h o e = elim (Option-cases (scan_line F has_super line s)) [
    | inl n ↦
        scan_lines-stop line (table ++ (end ∷ after)) s n ∙ sym (scan_lines-stop line table s n)
    | inr (t, k) ↦
        scan_lines-next line (table ++ (end ∷ after)) s t k
        ∙ skip_after table after end t (scan_line-in_tasks line s t h k) o e
        ∙ sym (scan_lines-next line table s t k)
  ]

  -- Of the lines of a text, only those between the title of the tasks and the next title are read:
  -- what stands before the first title of the tasks, and what stands behind the title that ends
  -- the section, changes nothing.
  pub parse_amp_data-section :
      (text : Bytes) (before table after : List Bytes) (title end : Bytes)
      → split_lines text ≡ before ++ (title ∷ (table ++ (end ∷ after)))
      → All IsOther before
      → IsTitle title
      → IsOther end
      → IsEnd end
      → parse_amp_data F has_super text
        ≡ scan_lines F has_super table (record initial_scan { in_tasks = true })
  unfolding parse_amp_data
  parse_amp_data-section text before table after title end l b t o e =
      let started = record initial_scan { in_tasks = true } in
      ap (λ (lines : List Bytes). scan_lines F has_super lines initial_scan) l
      ∙ skip_before before (title ∷ (table ++ (end ∷ after))) initial_scan refl b
      ∙ scan_lines-next title (table ++ (end ∷ after)) initial_scan started
          (scan_line_title title initial_scan t)
      ∙ skip_after table after end started refl o e
