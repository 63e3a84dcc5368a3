-- ===== src/Workload/Words.antt =====
-- src/workload_detector.cpp: `split_words` cuts a command line into its words.
use mtop.Base.{
  false, if◌then◌else◌, ◌≡◌, refl, List, [], ◌∷◌, ◌++◌, append-nil, append_assoc, is_nil, All,
  All-append, Bytes, is_space, Bool-cases, inl, inr,
}
use mtop.Workload.Detector.{flush, split_words_from, split_words}

-- A word is not empty and has no white space.
abbrev pub HasNoSpace : Bytes → Type 0
HasNoSpace = All (λ c. is_space c ≡ false)

abbrev pub IsWord : Bytes → Type 0
IsWord w = (is_nil w ≡ false) × HasNoSpace w

abbrev pub joined : List Bytes → Bytes
joined [] = []
joined (w ∷ ws) = w ++ joined ws

abbrev pub without_space : Bytes → Bytes
without_space [] = []
without_space (c ∷ s) = if is_space c then without_space s else c ∷ without_space s

joined-append : (ws vs : List Bytes) → joined (ws ++ vs) ≡ joined ws ++ joined vs
joined-append [] vs = refl
joined-append (w ∷ ws) vs = rw (joined-append ws vs, append_assoc)

joined-flush :
    (current : Bytes) (words : List Bytes) → joined (flush current words) ≡ joined words ++ current
joined-flush [] words = rw append-nil
joined-flush (c ∷ current) words = rw (joined-append words ((c ∷ current) ∷ []), append-nil)

flush-IsWord :
    (current : Bytes) (words : List Bytes)
    → HasNoSpace current
    → All IsWord words
    → All IsWord (flush current words)
flush-IsWord [] words h k = k
flush-IsWord (c ∷ current) words h k =
    All-append IsWord words ((c ∷ current) ∷ []) k ((refl, h), tt)

split_words_from-IsWord :
    (text current : Bytes) (words : List Bytes)
    → HasNoSpace current
    → All IsWord words
    → All IsWord (split_words_from words current text)
unfolding split_words_from
split_words_from-IsWord [] current words h k = flush-IsWord current words h k
split_words_from-IsWord (ch ∷ text) current words h k = elim (Bool-cases (is_space ch)) [
  | inl e ↦
      rw e
        (split_words_from-IsWord text [] (flush current words) tt (flush-IsWord current words h k))
  | inr e ↦ rw e (
      split_words_from-IsWord text (current ++ (ch ∷ [])) words
        (All-append (λ c. is_space c ≡ false) current (ch ∷ []) h (e, tt)) k)
]

split_words_from-joined :
    (text current : Bytes) (words : List Bytes)
    → joined (split_words_from words current text) ≡ joined words ++ (current ++ without_space text)
unfolding split_words_from
split_words_from-joined [] current words = rw (joined-flush current words, append-nil)
split_words_from-joined (ch ∷ text) current words = elim (Bool-cases (is_space ch)) [
  | inl e ↦ rw (
    e,
    split_words_from-joined text [] (flush current words),
    joined-flush current words,
    append_assoc,
  )
  | inr e ↦ rw (e, split_words_from-joined text (current ++ (ch ∷ [])) words, append_assoc)
]

-- Every word is a non-empty run without white space, and the words hold, in order, all the text that
-- is not white space.
split_words_lem :
    (text : Bytes)
    → All IsWord (split_words text) × (joined (split_words text) ≡ without_space text)
unfolding split_words
split_words_lem text =
    (split_words_from-IsWord text [] [] tt tt, split_words_from-joined text [] [])
