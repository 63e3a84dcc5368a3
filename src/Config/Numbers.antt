-- ===== src/Config/Numbers.antt =====
-- std::atoi, of <cstdlib>, in the program's LP64 builds.
use mtop.Base.{ℕ, ◌-◌, ◌^◌, ◌%◌, ltb, if◌then◌else◌, none, some, Bytes}
use mtop.Base.Int.{ℤ, pos, negsuc}
use mtop.Config.{read_signed, skip_space}

-- static_cast<int> of a long: the low 32 bits
abbrev low_int : ℕ → ℤ
low_int n = if ltb n (2 ^ 31) then pos n else negsuc (2 ^ 32 - n - 1)

to_int : ℤ → ℤ
to_int (pos n) = low_int (n % 2 ^ 32)
to_int (negsuc n) = low_int (2 ^ 32 - 1 - n % 2 ^ 32)

-- strtol stops at the bounds of long.
clamp_long : ℤ → ℤ
clamp_long (pos n) = if ltb n (2 ^ 63) then pos n else pos (2 ^ 63 - 1)
clamp_long (negsuc n) = if ltb n (2 ^ 63) then negsuc n else negsuc (2 ^ 63 - 1)

-- std::atoi, as the C library has it: (int)strtol(text, NULL, 10)
unfoldable pub atoi : Bytes → ℤ
unfolding read_signed skip_space to_int clamp_long
atoi text = elim (read_signed (skip_space text)) [
  | none ↦ pos 0
  | some (n, _) ↦ to_int (clamp_long n)
]
