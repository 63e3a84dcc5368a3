-- ===== src/Base/Words.antt =====
-- What the program takes of <cctype>, <string> and <algorithm> on bytes, in the C locale.
use Prim.Native.Nat.{◌≤◌, ℕ, zero, suc, ◌+◌, ◌/◌, ◌%◌}
use mathlib.Core.Path.{sym, ◌≡◌, refl}
use mathlib.Core.Bool.{Bool, true, false, ◌&&◌, ◌||◌}
use mathlib.Core.List.{append-nil, ◌++◌, reverse-cons, reverse-reverse, [], ◌∷◌, map, reverse}
use native.Mathlib.Omega.{arith}
use mtop.Base.Tests.{if_rule, ltb, leb, ◌==◌, if◌then◌else◌}
use mtop.Base.Lists.{length}
use mtop.Base.Text.{Bytes}

-- std::tolower
unfoldable pub tolower : ℕ → ℕ
tolower c = if leb b'A' c && leb c b'Z' then c + 32 else c

-- std::transform by std::tolower
unfoldable pub lowercase : Bytes → Bytes
lowercase = map tolower

pub tolower_idem : (c : ℕ) → tolower (tolower c) ≡ tolower c
unfolding tolower
tolower_idem c = ground arith

pub lowercase_idem : (s : Bytes) → lowercase (lowercase s) ≡ lowercase s
unfolding lowercase
lowercase_idem [] = refl
lowercase_idem (c ∷ s) = cc (tolower_idem c, lowercase_idem s)

-- std::isspace
unfoldable pub is_space : ℕ → Bool
is_space c = c == b' ' || (leb 9 c && leb c 13)

-- the set " \t\r\n" of `trim`
abbrev is_blank : ℕ → Bool
is_blank c = c == b' ' || c == b'\t' || c == b'\r' || c == b'\n'

trim_left : Bytes → Bytes
trim_left [] = []
trim_left (c ∷ s) = if is_blank c then trim_left s else c ∷ s

-- Between the first and the last byte that is not blank; the empty string if there is none.
unfoldable pub trim : Bytes → Bytes
unfolding trim_left
trim s = reverse (trim_left (reverse (trim_left s)))

-- The bytes that are not white space.
unfoldable pub visible : Bytes → Bytes
visible [] = []
visible (c ∷ s) = if is_space c then visible s else c ∷ visible s

pub visible-append : (s t : Bytes) → visible (s ++ t) ≡ visible s ++ visible t
unfolding visible
visible-append [] t = refl
visible-append (c ∷ s) t = ground (arith, visible-append s t)

visible-trim_left : (s : Bytes) → visible (trim_left s) ≡ visible s
unfolding visible trim_left is_space
visible-trim_left [] = refl
visible-trim_left (c ∷ s) = ground (arith, visible-trim_left s)

visible-reverse : (s : Bytes) → visible (reverse s) ≡ reverse (visible s)
unfolding visible
visible-reverse [] = refl
visible-reverse (c ∷ s) =
    rw (reverse-cons c s, visible-append (reverse s) (c ∷ []), visible-reverse s)
      (if_rule
        (λ (t : Bytes). reverse (visible s) ++ (if is_space c then [] else c ∷ []) ≡ reverse t)
        (is_space c) {x = visible s} {y = c ∷ visible s}
        (λ h. rw (h) (append-nil (reverse (visible s))))
        (λ h. rw (h) (sym (reverse-cons c (visible s)))))

-- Trimming takes white space only.
pub visible-trim : (s : Bytes) → visible (trim s) ≡ visible s
unfolding trim
visible-trim s =
    rw
      (
        visible-reverse (trim_left (reverse (trim_left s))),
        visible-trim_left (reverse (trim_left s)),
        visible-reverse (trim_left s),
        visible-trim_left s,
      )
      (reverse-reverse (visible s))

-- operator< on strings: bytes are compared as unsigned
unfoldable pub string_less : Bytes → Bytes → Bool
string_less [] [] = false
string_less [] (y ∷ ys) = true
string_less (x ∷ xs) [] = false
string_less (x ∷ xs) (y ∷ ys) = ltb x y || (x == y && string_less xs ys)

-- The digits of `n` in front of `rest`, at most `fuel` of them.
digits_onto : ℕ → ℕ → Bytes → Bytes
digits_onto zero n rest = rest
digits_onto (suc fuel) n rest =
    let more = digits_onto fuel (n / 10) ((b'0' + n % 10) ∷ rest) in
    if ltb n 10 then (b'0' + n) ∷ rest else more

-- std::to_string and << of an unsigned integer. A std::uint64_t has at most twenty digits.
unfoldable pub decimal : ℕ → Bytes
unfolding digits_onto
decimal n = digits_onto 20 n []

length-digits_onto :
    (fuel n : ℕ) (rest : Bytes) → length (digits_onto fuel n rest) ≤ fuel + length rest
unfolding digits_onto
length-digits_onto zero n rest = omega arith
length-digits_onto (suc fuel) n rest =
    if_rule (λ (s : Bytes). length s ≤ suc fuel + length rest) (ltb n 10) {x = (b'0' + n) ∷ rest}
      {y = digits_onto fuel (n / 10) ((b'0' + n % 10) ∷ rest)} (λ _. omega arith)
      (λ _. omega (arith, length-digits_onto fuel (n / 10) ((b'0' + n % 10) ∷ rest)))

pub length-decimal : (n : ℕ) → length (decimal n) ≤ 20
unfolding decimal
length-decimal n = omega (arith, length-digits_onto 20 n [])
