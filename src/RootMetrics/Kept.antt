-- ===== src/RootMetrics/Kept.antt =====
-- src/root_metrics_parser.cpp: cutting a line into fields loses no text, and the loop that cuts
-- fields that ran together ends.
use mathlib.Core.Option.{some-injective}
use mtop.Base.{
  visible-trim, visible-append, visible, ℕ, zero, suc, Bool, true, false, not, ◌&&◌, ltb,
  if◌then◌else◌, List, [], ◌∷◌, ◌++◌, map, Option, none, some, is_nil, length, Bytes, trim,
  is_space, ◌≡◌, refl, sym, arith, append_assoc, append-nil, inl, inr, Option-cases,
}
use mtop.RootMetrics.{row_values}
use mtop.RootMetrics.Fields.{
  next_round, replace_field, flatten, split_from, last_field, split_multi_space, words_from,
  all_numeric, next_run, next_current, pushed_field, split_numeric_subfields, split_first,
  merge_rounds, split_merged_numeric_fields,
}

visible-pushed_field :
    (run : ℕ) (current : Bytes) (c : ℕ)
    → visible (flatten (pushed_field run current c)) ++ visible (next_current run current c)
      ≡ visible current ++ visible (c ∷ [])
unfolding pushed_field next_current visible is_space flatten
visible-pushed_field run [] c = ground arith
visible-pushed_field run (x ∷ current) c = ground (
  arith,
  visible-append (x ∷ current) (c ∷ []),
  visible-trim (x ∷ current),
  append-nil (trim (x ∷ current)),
  append-nil (visible (x ∷ current)),
)

flatten-append : (a b : List Bytes) → flatten (a ++ b) ≡ flatten a ++ flatten b
unfolding flatten
flatten-append [] b = refl
flatten-append (s ∷ a) b = rw (flatten-append a b) (sym (append_assoc s (flatten a) (flatten b)))

-- One step of a loop that moves bytes from the rest of the line to the field and to the fields.
visible_step :
    (pushed rest : List Bytes) (current next : Bytes) (c : ℕ) (s : Bytes)
    → visible (flatten pushed) ++ visible next ≡ visible current ++ visible (c ∷ [])
    → visible (flatten rest) ≡ visible next ++ visible s
    → visible (flatten (pushed ++ rest)) ≡ visible current ++ visible (c ∷ s)
visible_step pushed rest current next c s h k =
    rw
      (
        flatten-append pushed rest,
        visible-append (flatten pushed) (flatten rest),
        k,
        ← append_assoc (visible (flatten pushed)) (visible next) (visible s),
        h,
        append_assoc (visible current) (visible (c ∷ [])) (visible s),
        ← visible-append (c ∷ []) s,
      )
      refl

visible-split_from :
    (s : Bytes) (run : ℕ) (current : Bytes)
    → visible (flatten (split_from run current s)) ≡ visible current ++ visible s
unfolding split_from last_field visible flatten
visible-split_from [] run [] = refl
visible-split_from [] run (x ∷ current) =
    unfold flatten visible in
    rw (append-nil (trim (x ∷ current)), visible-trim (x ∷ current))
      (sym (append-nil (visible (x ∷ current))))
visible-split_from (c ∷ s) run current =
    visible_step (pushed_field run current c)
      (split_from (next_run run c) (next_current run current c) s) current
      (next_current run current c) c s (visible-pushed_field run current c)
      (visible-split_from s (next_run run c) (next_current run current c))

visible-words_step :
    (current : Bytes) (c : ℕ)
    → visible (flatten (if is_space c && not (is_nil current) then current ∷ [] else []))
        ++ visible (if is_space c then [] else current ++ (c ∷ []))
      ≡ visible current ++ visible (c ∷ [])
unfolding flatten visible
visible-words_step [] c = ground arith
visible-words_step (x ∷ current) c = ground (
  arith,
  visible-append (x ∷ current) (c ∷ []),
  append-nil (x ∷ current),
  append-nil (visible (x ∷ current)),
)

visible-words_from :
    (s : Bytes) (current : Bytes)
    → visible (flatten (words_from current s)) ≡ visible current ++ visible s
unfolding words_from visible flatten
visible-words_from [] [] = refl
visible-words_from [] (x ∷ current) =
    unfold flatten visible in rw (append-nil current) (sym (append-nil (visible (x ∷ current))))
visible-words_from (c ∷ s) current =
    let next = if is_space c then [] else current ++ (c ∷ []) in
    visible_step (if is_space c && not (is_nil current) then current ∷ [] else [])
      (words_from next s) current next c s (visible-words_step current c)
      (visible-words_from s next)

if_cons :
    (b : Bool) (xs : List Bytes) (y : Bytes) (ys : List Bytes)
    → (if b then xs else []) ≡ y ∷ ys
    → xs ≡ y ∷ ys
if_cons true xs y ys h = h
if_cons false xs y ys h = ground arith

words_of_subfields :
    (field part : Bytes) (parts : List Bytes)
    → split_numeric_subfields field ≡ part ∷ parts
    → words_from [] field ≡ part ∷ parts
unfolding split_numeric_subfields
words_of_subfields field part parts h =
    let parts' = words_from [] field in
    if_cons (all_numeric parts' && not (ltb (length parts') 2)) parts' part parts h

visible-split_numeric_subfields :
    (field part : Bytes) (parts : List Bytes)
    → split_numeric_subfields field ≡ part ∷ parts
    → visible (flatten (part ∷ parts)) ≡ visible field
unfolding visible
visible-split_numeric_subfields field part parts h =
    rw (← words_of_subfields field part parts h) (visible-words_from field [])

visible-flatten-cons :
    (s : Bytes) (ss : List Bytes) → visible (flatten (s ∷ ss)) ≡ visible s ++ visible (flatten ss)
unfolding flatten
visible-flatten-cons s ss = visible-append s (flatten ss)

visible-replace_field :
    (parts : List Bytes) (field : Bytes) (fields : List Bytes) (later : Option (List Bytes))
    (more : List Bytes)
    → ((part : Bytes) (rest : List Bytes)
        → parts ≡ part ∷ rest
        → visible (flatten (part ∷ rest)) ≡ visible field)
    → ((rest : List Bytes) → later ≡ some rest → visible (flatten rest) ≡ visible (flatten fields))
    → replace_field parts field fields later ≡ some more
    → visible (flatten more) ≡ visible (flatten (field ∷ fields))
unfolding replace_field
visible-replace_field [] field fields none more h k e = ground arith
visible-replace_field [] field fields (some rest) more h k e =
    rw (← some-injective (field ∷ rest) more e, visible-flatten-cons field rest, k rest refl)
      (sym (visible-flatten-cons field fields))
visible-replace_field (part ∷ parts) field fields later more h k e =
    rw
      (
        ← some-injective (part ∷ (parts ++ fields)) more e,
        flatten-append (part ∷ parts) fields,
        visible-append (flatten (part ∷ parts)) (flatten fields),
        h part parts refl,
      )
      (sym (visible-flatten-cons field fields))

visible-split_first :
    (fields more : List Bytes)
    → split_first fields ≡ some more
    → visible (flatten more) ≡ visible (flatten fields)
unfolding split_first
visible-split_first [] more h = ground arith
visible-split_first (field ∷ fields) more h =
    visible-replace_field (split_numeric_subfields field) field fields (split_first fields) more
      (λ part rest e. visible-split_numeric_subfields field part rest e)
      (λ rest e. visible-split_first fields rest e) h

visible-next_round :
    (expected_size : ℕ) (fields more : List Bytes)
    → next_round expected_size fields ≡ some more
    → visible (flatten more) ≡ visible (flatten fields)
unfolding next_round
visible-next_round expected_size fields more h = visible-split_first fields more (ground arith)

visible-merge_rounds :
    (rounds expected_size : ℕ) (fields : List Bytes)
    → visible (flatten (merge_rounds rounds expected_size fields)) ≡ visible (flatten fields)
unfolding merge_rounds
visible-merge_rounds zero expected_size fields = refl
visible-merge_rounds (suc rounds) expected_size fields =
    elim (Option-cases (next_round expected_size fields)) [
      | inl n ↦ rw (merge_rounds, n) refl
      | inr (more, m) ↦
          rw (merge_rounds, m, visible-merge_rounds rounds expected_size more)
            (visible-next_round expected_size fields more m)
    ]

visible-map-trim :
    (fields : List Bytes) → visible (flatten (map trim fields)) ≡ visible (flatten fields)
visible-map-trim [] = refl
visible-map-trim (field ∷ fields) =
    rw
      (
        visible-flatten-cons (trim field) (map trim fields),
        visible-trim field,
        visible-map-trim fields,
      )
      (sym (visible-flatten-cons field fields))

-- However a row is cut into fields, no byte of the line but white space is lost, added or moved.
pub visible-row_values :
    (header : List Bytes) (line : Bytes) → visible (flatten (row_values header line)) ≡ visible line
unfolding row_values split_merged_numeric_fields split_multi_space visible
visible-row_values header line =
    let fields = split_from 0 [] line in
    rw
      (
        visible-merge_rounds (length header) (length header) (map trim fields),
        visible-map-trim fields,
      )
      (visible-split_from line 0 [])
