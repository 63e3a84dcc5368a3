-- ===== src/RootMetrics/Rounds.antt =====
-- src/root_metrics_parser.cpp: the loop that splits fields that ran together ends.
use mtop.RootMetrics.Fields.{
  replace_field, split_first, next_round, merge_rounds, split_merged_numeric_fields,
  split_numeric_subfields, words_from, all_numeric,
}
use mtop.Base.{
  Bool, ltb, not, ◌&&◌, if◌then◌else◌, ℕ, zero, suc, ◌+◌, ◌≤◌, ◌<◌, List, [], ◌∷◌, map, Option,
  none, some, length, Bytes, trim, ◌≡◌, refl, arith, ◌⊎◌, inl, inr, length-append, Option-cases,
}

length-replace_field :
    (parts : List Bytes) (field : Bytes) (fields : List Bytes) (later : Option (List Bytes))
    (more : List Bytes)
    → ((part : Bytes) (rest : List Bytes) → parts ≡ part ∷ rest → 0 < length rest)
    → ((rest : List Bytes) → later ≡ some rest → length fields < length rest)
    → replace_field parts field fields later ≡ some more
    → length fields + 1 < length more
unfolding replace_field
length-replace_field [] field fields none more h k e = ground arith
length-replace_field [] field fields (some rest) more h k e = ground (arith, k rest refl)
length-replace_field (part ∷ parts) field fields later more h k e =
    ground (arith, h part parts refl, length-append parts fields)

two_parts :
    (b : Bool) (parts : List Bytes) (part : Bytes) (rest : List Bytes)
    → (if b && not (ltb (length parts) 2) then parts else []) ≡ part ∷ rest
    → 0 < length rest
two_parts b [] part rest h = ground arith
two_parts b (p ∷ []) part rest h = ground arith
two_parts b (p ∷ q ∷ parts) part rest h = ground arith

length-split_first :
    (fields more : List Bytes) → split_first fields ≡ some more → length fields < length more
unfolding split_first
length-split_first [] more h = ground arith
length-split_first (field ∷ fields) more h = omega (
  arith,
  length-replace_field (split_numeric_subfields field) field fields (split_first fields) more
      (λ part rest e.
        unfold split_numeric_subfields in
        two_parts (all_numeric (words_from [] field)) (words_from [] field) part rest e)
      (λ rest e. length-split_first fields rest e) h,
)

-- Either no field is missing, or none of the fields can be split.
abbrev pub IsSettled : ℕ → List Bytes → Type 0
IsSettled expected_size fields = (expected_size ≤ length fields) ⊎ (split_first fields ≡ none)

next_round-none :
    (expected_size : ℕ) (fields : List Bytes)
    → next_round expected_size fields ≡ none
    → IsSettled expected_size fields
unfolding next_round
next_round-none expected_size fields h = ground arith

next_round-some :
    (expected_size : ℕ) (fields more : List Bytes)
    → next_round expected_size fields ≡ some more
    → length fields < length more
unfolding next_round
next_round-some expected_size fields more h = length-split_first fields more (ground arith)

merge_rounds-IsSettled :
    (rounds expected_size : ℕ) (fields : List Bytes)
    → expected_size ≤ length fields + rounds
    → IsSettled expected_size (merge_rounds rounds expected_size fields)
unfolding merge_rounds
merge_rounds-IsSettled zero expected_size fields h = inl (omega arith)
merge_rounds-IsSettled (suc rounds) expected_size fields h =
    elim (Option-cases (next_round expected_size fields)) [
      | inl n ↦ rw (merge_rounds, n) (next_round-none expected_size fields n)
      | inr (more, m) ↦
          rw (merge_rounds, m)
            (merge_rounds-IsSettled rounds expected_size more
              (omega (arith, next_round-some expected_size fields more m)))
    ]

-- The loop ends as the source's does, with fields enough or with none left to split.
split_merged_numeric_fields-IsSettled :
    (fields : List Bytes) (expected_size : ℕ)
    → IsSettled expected_size (split_merged_numeric_fields fields expected_size)
unfolding split_merged_numeric_fields
split_merged_numeric_fields-IsSettled fields expected_size =
    merge_rounds-IsSettled expected_size expected_size (map trim fields) (omega arith)
