-- ===== src/Plot/Slices.antt =====
-- src/main.cpp: the slices of a history, which stand one behind the other.
use native.Mathlib.Nat.{
  div-lt_iff_lt-mul, mul-le-mul_right, mul_comm, zero-add, zero-mul, zero-div, le-div_iff_mul-le,
  div-mul-le_self, mul-div_cancel_left, suc-mul,
}
use mtop.Base.{
  append-nil, length-take, length-drop, take-append-drop, append_assoc, ℕ, zero, suc, ◌+◌, ◌-◌, ◌*◌,
  ◌/◌, ◌≤◌, ◌<◌, ◌≡◌, refl, sym, ap, ◌∙◌, arith, max, List, [], ◌∷◌, ◌++◌, length, take, drop,
}
use mtop.Plot.{slice_start, slice}

div_step : (a v c : ℕ) → 0 < c → c ≤ v → a / c + 1 ≤ (a + v) / c
div_step a v c p h = (le-div_iff_mul-le p).1 (omega (arith, div-mul-le_self a c, suc-mul (a / c) c))

module _ (start visible sample_count : ℕ) (p : 0 < sample_count) (h : sample_count ≤ visible) where
  pub slice_start-grows :
      (bucket : ℕ)
      → slice_start start visible sample_count bucket + 1
        ≤ slice_start start visible sample_count (suc bucket)
  unfolding slice_start
  slice_start-grows bucket = omega (
    arith,
    div_step (bucket * visible) visible sample_count p h,
    ap (λ n. n / sample_count) (suc-mul bucket visible),
  )

drop_nil : {A : Type 0} (n : ℕ) → drop {A = A} n [] ≡ []
drop_nil zero = refl
drop_nil (suc n) = refl

drop_all : {A : Type 0} (xs : List A) → drop (length xs) xs ≡ []
drop_all [] = refl
drop_all (x ∷ xs) =
    let e : length (x ∷ xs) ≡ suc (length xs) = omega arith in
    ap (λ k. drop k (x ∷ xs)) e ∙ drop_all xs

drop-add : {A : Type 0} (m n : ℕ) (xs : List A) → drop n (drop m xs) ≡ drop (m + n) xs
drop-add zero n xs = ap (λ k. drop k xs) (omega arith)
drop-add (suc m) n [] = drop_nil n ∙ sym (drop_nil (suc m + n))
drop-add (suc m) n (x ∷ xs) =
    let e : suc (m + n) ≡ suc m + n = omega arith in drop-add m n xs ∙ ap (λ k. drop k (x ∷ xs)) e

-- The slices of `left` buckets, from `bucket` on, one behind the other.
unfoldable pub slices : {F : Type 0} → List F → ℕ → ℕ → ℕ → ℕ → ℕ → List F
slices history start visible sample_count zero bucket = []
slices history start visible sample_count (suc left) bucket =
    slice history start visible sample_count bucket
    ++ slices history start visible sample_count left (suc bucket)

module _ {F : Type 0} (history : List F) (start visible sample_count : ℕ) (p : 0 < sample_count)
    (h : sample_count ≤ visible) where
  abbrev from : ℕ → ℕ
  from bucket = slice_start start visible sample_count bucket

  slice_lem :
      (bucket : ℕ)
      → slice history start visible sample_count bucket ++ drop (from (suc bucket)) history
        ≡ drop (from bucket) history
  unfolding slice
  slice_lem bucket =
      let grows = slice_start-grows start visible sample_count p h bucket in
      ap (λ n. take n (drop (from bucket) history) ++ drop (from (suc bucket)) history)
        (omega (arith, grows))
      ∙ ap
          (λ n.
            take (from (suc bucket) - from bucket) (drop (from bucket) history) ++ drop n history)
          (omega (arith, grows))
      ∙ ap (λ xs. take (from (suc bucket) - from bucket) (drop (from bucket) history) ++ xs)
          (sym (drop-add (from bucket) (from (suc bucket) - from bucket) history))
      ∙ take-append-drop (from (suc bucket) - from bucket) (drop (from bucket) history)

  slices-from :
      (left bucket : ℕ)
      → slices history start visible sample_count left bucket ++ drop (from (bucket + left)) history
        ≡ drop (from bucket) history
  unfolding slices
  slices-from zero bucket = ap (λ n. drop (from n) history) (omega arith)
  slices-from (suc left) bucket =
      let this = slice history start visible sample_count bucket in
      let rest = slices history start visible sample_count left (suc bucket) in
      append_assoc this rest (drop (from (bucket + suc left)) history)
      ∙ ap (λ n. this ++ (rest ++ drop (from n) history)) (omega arith)
      ∙ ap (λ xs. this ++ xs) (slices-from left (suc bucket))
      ∙ slice_lem bucket

  from_end : from sample_count ≡ start + visible
  unfolding slice_start
  from_end = ap (λ n. start + n) (mul-div_cancel_left visible p)

  from_zero : from 0 ≡ start
  unfolding slice_start
  from_zero =
      ap (λ n. start + n / sample_count) (zero-mul visible)
      ∙ ap (λ n. start + n) (zero-div sample_count)
      ∙ omega arith

  below : (bucket : ℕ) → bucket < sample_count → bucket * visible < visible * sample_count
  below bucket b =
      omega
        (arith, mul-le-mul_right visible b, suc-mul bucket visible, mul_comm sample_count visible)

  from-lt : (bucket : ℕ) → bucket < sample_count → from bucket < start + visible
  unfolding slice_start
  from-lt bucket b = omega (arith, (div-lt_iff_lt-mul p).1 (below bucket b))

  module _ (e : start + visible ≡ length history) where
    none_behind : drop (from (0 + sample_count)) history ≡ []
    none_behind =
        let ends : from (0 + sample_count) ≡ length history =
          ap from (zero-add sample_count) ∙ from_end ∙ e in
        ap (λ n. drop n history) ends ∙ drop_all history

    pub all_slices : slices history start visible sample_count sample_count 0 ≡ drop start history
    all_slices =
        let shown = slices history start visible sample_count sample_count 0 in
        sym (append-nil shown)
        ∙ ap (λ xs. shown ++ xs) (sym none_behind)
        ∙ slices-from sample_count 0
        ∙ ap (λ n. drop n history) from_zero

    pub slice_pos :
        (bucket : ℕ)
        → bucket < sample_count
        → 0 < length (slice history start visible sample_count bucket)
    unfolding slice
    slice_pos bucket b =
        let grows = slice_start-grows start visible sample_count p h bucket in
        omega (
          arith,
          e,
          grows,
          from-lt bucket b,
          length-drop (from bucket) history,
          length-take (max (from bucket + 1) (from (suc bucket)) - from bucket)
              (drop (from bucket) history),
        )
