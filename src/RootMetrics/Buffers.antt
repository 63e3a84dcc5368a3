-- ===== src/RootMetrics/Buffers.antt =====
-- src/root_metrics_parser.cpp: the buffers hold the texts that are printed into them.
use mtop.Base.{
  none, true, false, none, some, Option, ℕ, ◌+◌, ◌≤◌, Bool, ◌∷◌, ◌++◌, Bytes, str, take, length,
  ◌≡◌, arith, length-append, length-take, take_all, length-decimal,
}
use mtop.Base.Int.{ℤ, pos, negsuc, int_text}
use mtop.Base.Double.{Double}
use mtop.RootMetrics.Rows.{
  core_share, labelled, rest_share, core_mix_text, core_part, Row, compact_io_bytes, io_parts,
  mix_parts, core_shares,
}

length-int_text : (n : ℤ) → length (int_text n) ≤ 21
unfolding int_text
length-int_text (pos n) = omega (arith, length-decimal n)
length-int_text (negsuc n) = omega (arith, length-decimal (n + 1))

take_cap : (n : ℕ) (s : Bytes) → length (take n s) ≤ n
take_cap n s = omega (arith, length-take n s)

module _ (F : Type 0) ⦃d : Double F⦄ where
  length-compact_io_bytes : (value : F) → length (compact_io_bytes value) ≤ 15
  unfolding compact_io_bytes
  length-compact_io_bytes value = take_cap 15 _

  length-io_parts : (a b : F) → length (io_parts F a b) ≤ 31
  unfolding io_parts
  length-io_parts a b = omega (
    arith,
    length-append (compact_io_bytes a) (b'/' ∷ compact_io_bytes b),
    length-compact_io_bytes a,
    length-compact_io_bytes b,
  )

  length-core_part :
      (label : Bytes) (percent : F) → length label ≤ 1 → length (core_part F label percent) ≤ 24
  unfolding core_part str
  length-core_part label percent h = omega (
    arith,
    length-append label (b':' ∷ (int_text (d.round_int percent) ++ str "%")),
    length-append (int_text (d.round_int percent)) (str "%"),
    length-int_text (d.round_int percent),
  )

  length-mix_parts :
      (share : F) (primary secondary : Bytes)
      → length primary ≤ 1
      → length secondary ≤ 1
      → length (mix_parts F share primary secondary) ≤ 63
  unfolding mix_parts
  length-mix_parts share primary secondary h k = omega (
    arith,
    length-append (core_part F primary share) (b' ' ∷ core_part F secondary (rest_share F share)),
    length-core_part primary share h,
    length-core_part secondary (rest_share F share) k,
  )

  labelled_short :
      (has_super : Bool) (first second : Option F)
      → (length (labelled has_super first second).1 ≤ 1)
        × (length (labelled has_super first second).2 ≤ 1)
  unfolding labelled str
  labelled_short true (some share) second = ground arith
  labelled_short false (some share) second = ground arith
  labelled_short true none (some share) = ground arith
  labelled_short false none (some share) = ground arith
  labelled_short true none none = ground arith
  labelled_short false none none = ground arith

  -- Neither buffer cuts the text that is printed into it: the shares of the cores fit in 64 bytes and
  -- the two totals of the disk traffic in 32, with the zero byte.
  buffers_hold :
      (has_super : Bool) (row : Row) (disk_read disk_write : F)
      → let (share, primary, secondary) = core_shares {F = F} has_super row in
        (core_mix_text F has_super row ≡ mix_parts F share primary secondary)
        × (take 31 (io_parts F disk_read disk_write) ≡ io_parts F disk_read disk_write)
  unfolding core_mix_text core_shares
  buffers_hold has_super row disk_read disk_write =
      let (share, primary, secondary) = core_shares {F = F} has_super row in
      let short =
        labelled_short has_super (core_share row (str "%SCPU") (str "SCPU ms/s"))
          (core_share row (str "%PCPU") (str "PCPU ms/s")) in
      (
        take_all 63 (mix_parts F share primary secondary)
            (length-mix_parts share primary secondary short.0 short.1),
        take_all 31 (io_parts F disk_read disk_write) (length-io_parts disk_read disk_write),
      )
