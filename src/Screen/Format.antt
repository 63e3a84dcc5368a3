-- ===== src/Screen/Format.antt =====
-- src/main.cpp: texts cut and centred to a width, and the formats of times.
use mtop.Base.{
  codes, ℕ, ◌-◌, ◌/◌, ◌%◌, ltb, leb, if◌then◌else◌, [], ◌∷◌, ◌++◌, length, take, replicate, Bytes,
  str, decimal,
}
use mtop.Base.Int.{ℤ, pos, negsuc}

unfoldable pub elide_right : Bytes → ℤ → Bytes
elide_right text (negsuc n) = []
elide_right text (pos width) =
    if leb width 0
    then []
    else if leb (length text) width
    then text
    else if leb width 3
    then take width text
    else take (width - 3) text ++ codes "..."

-- In a negative width, the clipped text is empty and is long enough.
unfoldable pub centered_text : Bytes → ℤ → Bytes
unfolding elide_right
centered_text text (negsuc n) = elide_right text (negsuc n)
centered_text text (pos width) =
    let clipped = elide_right text (pos width) in
    let left = (width - length clipped) / 2 in
    let right = width - length clipped - left in
    if leb width (length clipped)
    then clipped
    else replicate left b' ' ++ (clipped ++ replicate right b' ')

-- printf's %02llu
unfoldable pub two_digits : ℕ → Bytes
two_digits n = if ltb n 10 then b'0' ∷ decimal n else decimal n

unfoldable pub format_uptime : ℕ → Bytes
unfolding two_digits
format_uptime seconds =
    let days = seconds / 86400 in
    let rest = seconds % 86400 in
    let hours = rest / 3600 in
    let minutes = rest % 3600 / 60 in
    let clock = two_digits hours ++ (b':' ∷ two_digits minutes) in
    if ltb 0 days then decimal days ++ (str "d " ++ clock) else clock

unfoldable pub format_cpu_time : ℕ → Bytes
unfolding two_digits
format_cpu_time total_ns =
    let total_cs = total_ns / 10000000 in
    let total_seconds = total_cs / 100 in
    let hundredths = total_cs % 100 in
    let minutes = total_seconds / 60 in
    let seconds = total_seconds % 60 in
    if ltb minutes 60
    then decimal minutes ++ (b':' ∷ two_digits seconds ++ (b'.' ∷ two_digits hundredths))
    else decimal (minutes / 60) ++ (b':' ∷ two_digits (minutes % 60) ++ (b':' ∷ two_digits seconds))
