-- ===== src/Screen/Width.antt =====
-- src/main.cpp: a centred text has the width that was asked for.
use mtop.Base.{
  codes, ℕ, ◌-◌, ◌/◌, ◌≡◌, arith, ◌++◌, length, take, replicate, length-take, length-append,
  length-replicate, Bytes, min,
}
use mtop.Base.Int.{pos}
use mtop.Screen.Format.{elide_right, centered_text}

length-elide_right :
    (text : Bytes) (width : ℕ) → length (elide_right text (pos width)) ≡ min width (length text)
unfolding elide_right
length-elide_right text width = ground (
  arith,
  length-take width text,
  length-take (width - 3) text,
  length-append (take (width - 3) text) (codes "..."),
)

-- A text is cut to at most the width that is asked for, and a centred one has exactly this width.
length-centered_text :
    (text : Bytes) (width : ℕ)
    → (length (elide_right text (pos width)) ≡ min width (length text))
      × (length (centered_text text (pos width)) ≡ width)
unfolding centered_text
length-centered_text text width =
    let clipped = elide_right text (pos width) in
    let left = (width - length clipped) / 2 in
    let right = width - length clipped - left in
    (
      length-elide_right text width,
      ground (
        arith,
        length-elide_right text width,
        length-append {A = ℕ} (replicate left b' ') (clipped ++ replicate right b' '),
        length-append {A = ℕ} clipped (replicate right b' '),
        length-replicate {A = ℕ} left b' ',
        length-replicate {A = ℕ} right b' ',
      ),
    )
