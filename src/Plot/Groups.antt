-- ===== src/Plot/Groups.antt =====
-- src/main.cpp: the groups of samples that the columns of a plot stand for.
use native.Mathlib.Nat.{
  le-div_iff_mul-le, div-lt_iff_lt-mul, div-mul-le_self, lt-div-mul-add, mul-le-mul_right, add-mul,
  suc-mul, mul_comm,
}
use mathlib.Core.List.{flatten, foldl}
use mtop.Base.{
  true, false, ℕ, zero, suc, ◌+◌, ◌-◌, ◌*◌, ◌/◌, ◌≤◌, ◌<◌, ◌==◌, ◌||◌, ◌≡◌, refl, ap, ◌∙◌, arith,
  max, min, List, [], ◌∷◌, ◌++◌, length, drop, map, All, is_nil, if_rule, length-take, length-drop,
}
use mtop.Base.Double.{Double}
use mtop.Plot.{slice_start, slice, sum_from, mean, means, resample_history}
use mtop.Plot.Slices.{slices, slice_start-grows, all_slices, slice_pos}

has_samples :
    {F : Type 0} (n m : ℕ) (history : List F)
    → 0 < n
    → n ≤ min m (length history)
    → n == 0 || (m == 0 || is_nil history) ≡ false
has_samples n m [] p h = absurd (omega (arith, p, h))
has_samples n m (sample ∷ history) p h = ground (arith, p, h)

-- A quotient of a sum is the sum of the quotients, or one more.
div_add : (a v c : ℕ) → 0 < c → (a / c + v / c ≤ (a + v) / c) × ((a + v) / c ≤ a / c + v / c + 1)
div_add a v c p = (
  (le-div_iff_mul-le p).1
      (omega (arith, div-mul-le_self a c, div-mul-le_self v c, add-mul (a / c) (v / c) c)),
  less (
      (div-lt_iff_lt-mul p).1 (
        omega (
          arith,
          lt-div-mul-add {a = a} p,
          lt-div-mul-add {a = v} p,
          add-mul (a / c + v / c) 2 c,
          add-mul (a / c) (v / c) c,
        ))),
)
  where
    less : (a + v) / c < a / c + v / c + 2 → (a + v) / c ≤ a / c + v / c + 1
    less h = omega (arith, h)

-- The average of a group, and the sizes of groups that share samples evenly.
abbrev pub average : {F : Type 0} ⦃d : Double F⦄ → List F → F
average ⦃d⦄ group = d.div (foldl d.add (d.of_nat 0) group) (d.of_nat (length group))

abbrev pub IsEven : {F : Type 0} → ℕ → List F → Type 0
IsEven share group = (0 < length group) × (share ≤ length group) × (length group ≤ share + 1)

module _ {F : Type 0} (history : List F) (start visible sample_count : ℕ) (p : 0 < sample_count)
    (h : sample_count ≤ visible) (e : start + visible ≡ length history) where
  abbrev from : ℕ → ℕ
  from bucket = slice_start start visible sample_count bucket

  from_le : (bucket : ℕ) → bucket < sample_count → from (suc bucket) ≤ start + visible
  unfolding slice_start
  from_le bucket b =
      let small : suc bucket * visible < (visible + 1) * sample_count = omega (
        arith,
        mul-le-mul_right visible b,
        mul_comm sample_count visible,
        add-mul visible 1 sample_count,
      ) in
      omega (arith, (div-lt_iff_lt-mul p).1 small)

  from_step :
      (bucket : ℕ)
      → (from bucket + visible / sample_count ≤ from (suc bucket))
        × (from (suc bucket) ≤ from bucket + visible / sample_count + 1)
  unfolding slice_start
  from_step bucket =
      let (lower, upper) = div_add (bucket * visible) visible sample_count p in
      let e = ap (λ n. n / sample_count) (suc-mul bucket visible) in
      (omega (arith, lower, e), omega (arith, upper, e))

  slice-IsEven :
      (bucket : ℕ)
      → bucket < sample_count
      → IsEven (visible / sample_count) (slice history start visible sample_count bucket)
  unfolding slice
  slice-IsEven bucket b =
      let l =
        length-take (max (from bucket + 1) (from (suc bucket)) - from bucket)
          (drop (from bucket) history) in
      let m = length-drop (from bucket) history in
      let grows = slice_start-grows start visible sample_count p h bucket in
      let (lower, upper) = from_step bucket in
      let known = from_le bucket b in
      (
        slice_pos history start visible sample_count p h e bucket b,
        omega (arith, l, m, grows, lower, known, e),
        omega (arith, l, m, grows, upper),
      )

  groups : ℕ → ℕ → List (List F)
  groups zero bucket = []
  groups (suc left) bucket =
      slice history start visible sample_count bucket ∷ groups left (suc bucket)

  length-groups : (left bucket : ℕ) → length (groups left bucket) ≡ left
  unfolding groups
  length-groups zero bucket = refl
  length-groups (suc left) bucket = omega (arith, length-groups left (suc bucket))

  flatten-groups :
      (left bucket : ℕ)
      → flatten (groups left bucket) ≡ slices history start visible sample_count left bucket
  unfolding groups slices flatten
  flatten-groups zero bucket = refl
  flatten-groups (suc left) bucket =
      ap (λ xs. slice history start visible sample_count bucket ++ xs)
        (flatten-groups left (suc bucket))

  groups-IsEven :
      (left bucket : ℕ)
      → bucket + left ≤ sample_count
      → All (IsEven (visible / sample_count)) (groups left bucket)
  unfolding groups
  groups-IsEven zero bucket b = tt
  groups-IsEven (suc left) bucket b =
      (slice-IsEven bucket (omega arith), groups-IsEven left (suc bucket) (omega arith))

module _ {F : Type 0} ⦃d : Double F⦄ where
  sum_from_lem : (sum : F) (samples : List F) → sum_from sum samples ≡ foldl d.add sum samples
  unfolding sum_from
  sum_from_lem sum [] = refl
  sum_from_lem sum (sample ∷ samples) = sum_from_lem (d.add sum sample) samples

  mean_lem : (samples : List F) → 0 < length samples → mean samples ≡ average samples
  unfolding mean
  mean_lem [] h = absurd (omega (arith, h))
  mean_lem (sample ∷ samples) h =
      ap (λ sum. d.div sum (d.of_nat (length (sample ∷ samples))))
        (sum_from_lem (d.of_nat 0) (sample ∷ samples))

  means-groups :
      (history : List F) (start visible sample_count : ℕ) (p : 0 < sample_count)
      (h : sample_count ≤ visible) (e : start + visible ≡ length history) (left bucket : ℕ)
      → bucket + left ≤ sample_count
      → means history start visible sample_count left bucket
        ≡ map average (groups history start visible sample_count p h e left bucket)
  unfolding means groups
  means-groups history start visible sample_count p h e zero bucket b = refl
  means-groups history start visible sample_count p h e (suc left) bucket b =
      rw
        (
          mean_lem (slice history start visible sample_count bucket)
              (slice_pos history start visible sample_count p h e bucket (omega (arith, b))),
          means-groups history start visible sample_count p h e left (suc bucket)
              (omega (arith, b)),
        )
        refl

  -- In a plot that has columns, with samples enough to be seen for all of them, each column is the average of a
  -- group of samples. The groups are as many as the columns; one behind the other they are exactly the last
  -- samples that are to be seen, each once; none is empty, and their sizes differ by one at most.
  pub resample_history-groups :
      (history : List F) (sample_count max_visible : ℕ)
      → 0 < sample_count
      → sample_count ≤ min max_visible (length history)
      → (gs : List (List F)) × (resample_history history sample_count max_visible ≡ map average gs)
        × (length gs ≡ sample_count)
        × (flatten gs ≡ drop (length history - min max_visible (length history)) history)
        × All (IsEven (min max_visible (length history) / sample_count)) gs
  unfolding resample_history
  resample_history-groups history sample_count max_visible p h =
      let visible = min max_visible (length history) in
      let start = length history - visible in
      let e : start + visible ≡ length history = omega arith in
      let gs = groups history start visible sample_count p h e sample_count 0 in
      let not_empty : sample_count == 0 || (max_visible == 0 || is_nil history) ≡ true → ⊥ =
        λ empty. ground (arith, empty, has_samples sample_count max_visible history p h) in
      let P : List F → Type 0 = λ result.
        (gs : List (List F)) × (result ≡ map average gs)
        × (length gs ≡ sample_count)
        × (flatten gs ≡ drop start history)
        × All (IsEven (visible / sample_count)) gs in
      if_rule P (sample_count == 0 || (max_visible == 0 || is_nil history))
        (λ empty. absurd (not_empty empty))
        (λ _. (
          gs,
          means-groups history start visible sample_count p h e sample_count 0 (omega arith),
          length-groups history start visible sample_count p h e sample_count 0,
          flatten-groups history start visible sample_count p h e sample_count 0
              ∙ all_slices history start visible sample_count p h e,
          groups-IsEven history start visible sample_count p h e sample_count 0 (omega arith),
        ))
