-- ===== src/RootMetrics/Keys.antt =====
-- src/root_metrics_parser.cpp: the processes of the result.
use mtop.Base.{
  ◌==◌, length, is_nil, Bool, true, false, List, [], ◌∷◌, Option, none, some, Bytes, ◌≡◌, ◌≢◌, refl,
  subst, sym, ap, ◌∙◌, arith, if_rule, inl, inr, Option-cases, not, if◌then◌else◌,
}
use mathlib.Core.Option.{none-ne-some, some-injective}
use mtop.Base.Int.{ℤ, pos, ◌≤ℤ◌, eqb_ℤ, ltb_ℤ, eqb_ℤ_iff, leb_ℤ}
use mtop.Base.OrderedMap.{find_key}
use mtop.Base.MapLaws.{Decides, find_key-put_same, find_key-put_other}
use mtop.Base.Double.{Double}
use mtop.RootMetrics.{
  is_header, is_next_title, is_tasks_title, atoi, trim_copy, row_id, row_values, fill_row,
  power_text, io_text, core_mix_text, Row, split_lines, AmpData, Texts, put_text, put_some, Scan,
  scan_line, scan_lines, parse_amp_data, add_row, add_values, initial_scan,
}

instance int_keys : Decides eqb_ℤ
int_keys = record { same = λ k. (eqb_ℤ_iff k k).1 refl; equal = λ j k. (eqb_ℤ_iff j k).0 }

abbrev pub text_of : Texts → ℤ → Option Bytes
text_of texts pid = find_key eqb_ℤ pid texts

text_of-put_text :
    (pid : ℤ) (text : Bytes) (texts : Texts) → text_of (put_text pid text texts) pid ≡ some text
unfolding put_text
text_of-put_text pid text texts = find_key-put_same eqb_ℤ ltb_ℤ pid text texts

text_of-put_text_other :
    (pid q : ℤ) (text : Bytes) (texts : Texts)
    → pid ≢ q
    → text_of (put_text pid text texts) q ≡ text_of texts q
unfolding put_text
text_of-put_text_other pid q text texts h = find_key-put_other eqb_ℤ ltb_ℤ pid q text texts h

text_of-put_some_other :
    (pid q : ℤ) (text : Option Bytes) (texts : Texts)
    → pid ≢ q
    → text_of (put_some pid text texts) q ≡ text_of texts q
text_of-put_some_other pid q none texts h = refl
text_of-put_some_other pid q (some text) texts h = text_of-put_text_other pid q text texts h

-- A process without a core mix has no disk traffic and no energy, and no process has such a number.
abbrev Absent : AmpData → ℤ → Type 0
Absent amp q =
    (text_of amp.core_mix q ≡ none) × (text_of amp.io q ≡ none) × (text_of amp.power q ≡ none)

pub record IsValid (amp : AmpData) : Type 0 where
  pub no_process : (q : ℤ) → q ≤ℤ pos 0 → text_of amp.core_mix q ≡ none
  pub one_table : (q : ℤ) → text_of amp.core_mix q ≡ none → Absent amp q

-- What holds after a line, if the loop goes on.
data IsNext : Option Scan → Type 0 where
  stop : IsNext none
  next : {s : Scan} → IsValid s.result → IsNext (some s)

next-IsValid : {s : Scan} {o : Option Scan} → IsNext o → o ≡ some s → IsValid s.result
next-IsValid stop e = absurd (none-ne-some _ e)
next-IsValid {s} (next {s = t} v) e =
    subst (λ (u : Scan). IsValid u.result) (some-injective t s e) v

if_next : (b : Bool) {o p : Option Scan} → IsNext o → IsNext p → IsNext (if b then o else p)
if_next true h k = h
if_next false h k = k

module _ (F : Type 0) ⦃d : Double F⦄ (has_super : Bool) where
  add_row-other :
      (pid : ℤ) (row : Row) (amp : AmpData) (q : ℤ)
      → pid ≢ q
      → Absent amp q
      → Absent (add_row F has_super pid row amp) q
  unfolding add_row
  add_row-other pid row amp q h (a, b, c) = (
    text_of-put_text_other pid q (core_mix_text F has_super row) amp.core_mix h ∙ a,
    text_of-put_some_other pid q (io_text F row) amp.io h ∙ b,
    text_of-put_some_other pid q (power_text F row) amp.power h ∙ c,
  )

  add_row-present :
      (pid q : ℤ) (row : Row) (amp : AmpData)
      → text_of (add_row F has_super pid row amp).core_mix q ≡ none
      → pid ≢ q
  unfolding add_row
  add_row-present pid q row amp e same = none-ne-some (core_mix_text F has_super row) (
      sym e
      ∙ ap (text_of (add_row F has_super pid row amp).core_mix) (sym same)
      ∙ text_of-put_text pid (core_mix_text F has_super row) amp.core_mix)

  add_row-IsValid :
      (pid : ℤ) (row : Row) (amp : AmpData)
      → leb_ℤ pid (pos 0) ≡ false
      → IsValid amp
      → IsValid (add_row F has_super pid row amp)
  unfolding add_row
  add_row-IsValid pid row amp h v = record {
    no_process = λ q le.
        (add_row-other pid row amp q (λ e. absurd (ground (arith)))
          (v.one_table q (v.no_process q le))).0;
    one_table = λ q e. add_row-other pid row amp q (add_row-present pid q row amp e) (
        v.one_table q (
          sym (
            text_of-put_text_other pid q (core_mix_text F has_super row) amp.core_mix
              (add_row-present pid q row amp e))
          ∙ e));
  }

  add_values-IsValid :
      (header values : List Bytes) (amp : AmpData)
      → IsValid amp
      → IsValid (add_values F has_super header values amp)
  unfolding add_values
  add_values-IsValid header values amp v =
      let row = fill_row header values [] in
      elim (Option-cases (row_id row)) [
        | inl n ↦ rw (add_values, n) v
        | inr (id, e) ↦
            rw (add_values, e)
              (if_rule IsValid (leb_ℤ (atoi id) (pos 0)) (λ _. v)
                (λ h. add_row-IsValid (atoi id) row amp h v))
      ]

  scan_line-IsValid :
      (line : Bytes) (s : Scan) → IsValid s.result → IsNext (scan_line F has_super line s)
  unfolding scan_line
  scan_line-IsValid line s v =
      let trimmed = trim_copy line in
      let values = row_values s.header trimmed in
      if_next (is_tasks_title trimmed) (next v) (
        if_next (not s.in_tasks) (next v) (
          if_next (is_next_title trimmed) stop (
            if_next (is_nil trimmed) (next v) (
              if_next (is_header trimmed) (next v) (
                if_next (is_nil s.header) (next v) (
                  if_next (length values == length s.header)
                    (next (add_values-IsValid s.header values s.result v)) (next v)))))))

  scan_lines-IsValid :
      (lines : List Bytes) (s : Scan) → IsValid s.result → IsValid (scan_lines F has_super lines s)
  unfolding scan_lines
  scan_lines-IsValid [] s v = v
  scan_lines-IsValid (line ∷ lines) s v = elim (Option-cases (scan_line F has_super line s)) [
    | inl n ↦ rw (scan_lines, n) v
    | inr (t, k) ↦
        rw (scan_lines, k)
          (scan_lines-IsValid lines t (next-IsValid (scan_line-IsValid line s v) k))
  ]

  -- The three texts of a process stand in one table: one whose number is not positive has none, and one
  -- without a core mix has neither disk traffic nor energy.
  pub parse_amp_data-IsValid : (text : Bytes) → IsValid (parse_amp_data F has_super text)
  unfolding parse_amp_data find_key
  parse_amp_data-IsValid text =
      scan_lines-IsValid (split_lines text) initial_scan
        (record { no_process = λ q le. refl; one_table = λ q e. (refl, refl, refl) })
