-- ===== src/Sorting/Order.antt =====
-- src/process_sort.cpp: the comparison is one that std::sort may be given, and it fixes the order.
use mtop.Base.{Bool, true, false, ◌≡◌, arith, Bytes, Option-cases, inl, inr}
use mtop.Base.Double.{Double, Ordered, KeyOrder}
use mtop.Base.Int.{ℤ, ltb_ℤ}
use mtop.Base.Orders.{int_order, nat_order, string_order}
use mtop.Base.Sort.{IsStrictWeak}
use mtop.Snapshot.{ProcessSnapshot}
use mtop.Sorting.{
  SortMode, pid, cpu, mem, time, name, gpu_active, io, power, compare_value, by_key,
  process_sort_less, io_score, power_score, parse_scaled_number, split_slash, finite_or_missing,
  missing_sort_score,
}

-- A comparison by a key, with ties broken by the pid.
module _ {X A : Type 0} {P : A → Type 0} {eq lt : A → A → Bool} (o : KeyOrder P eq lt) (key : X → A)
    (number : X → ℤ) (dir : ℤ) where
  abbrev less : X → X → Bool
  less x y = by_key eq lt (key x) (key y) dir (ltb_ℤ (number x) (number y))

  by_key_irrefl : (x : X) → P (key x) → less x x ≡ false
  unfolding compare_value
  by_key_irrefl x p = ground (arith, o.irrefl (key x) p)

  by_key_asymm : (x y : X) → P (key x) → P (key y) → less x y ≡ true → less y x ≡ false
  unfolding compare_value
  by_key_asymm x y p q h = ground (
    arith,
    o.trans (key x) (key y) (key x) p q p,
    o.trans (key y) (key x) (key y) q p q,
    o.irrefl (key x) p,
    o.irrefl (key y) q,
    o.eq_of_not_lt (key x) (key y) p q,
    o.eq_of_not_lt (key y) (key x) q p,
    o.not_lt_of_eq (key x) (key y) p q,
    o.not_lt_of_eq (key y) (key x) q p,
  )

  by_key_cotrans :
      (x y z : X)
      → P (key x)
      → P (key y)
      → P (key z)
      → less x y ≡ false
      → less y z ≡ false
      → less x z ≡ false
  unfolding compare_value
  by_key_cotrans x y z p q r h k = ground (
    arith,
    o.cotrans (key x) (key y) (key z) p q r,
    o.cotrans (key z) (key y) (key x) r q p,
    o.cotrans (key y) (key x) (key z) q p r,
    o.cotrans (key z) (key x) (key y) r p q,
    o.cotrans (key x) (key z) (key y) p r q,
    o.cotrans (key y) (key z) (key x) q r p,
    o.eq_of_not_lt (key x) (key y) p q,
    o.eq_of_not_lt (key y) (key z) q r,
    o.eq_of_not_lt (key x) (key z) p r,
    o.not_lt_of_eq (key x) (key y) p q,
    o.not_lt_of_eq (key y) (key z) q r,
    o.not_lt_of_eq (key x) (key z) p r,
  )

  by_key_total :
      (x y : X) → P (key x) → P (key y) → less x y ≡ false → less y x ≡ false → number x ≡ number y
  unfolding compare_value
  by_key_total x y p q h k = ground (
    arith,
    o.eq_of_not_lt (key x) (key y) p q,
    o.eq_of_not_lt (key y) (key x) q p,
    o.not_lt_of_eq (key x) (key y) p q,
    o.not_lt_of_eq (key y) (key x) q p,
  )

  by_key-IsStrictWeak : (Q : X → Type 0) → ((x : X) → Q x → P (key x)) → IsStrictWeak Q less
  by_key-IsStrictWeak Q p = record {
    irrefl = λ x h. by_key_irrefl x (p x h);
    asymm = λ x y h k. by_key_asymm x y (p x h) (p y k);
    cotrans = λ x y z h k l. by_key_cotrans x y z (p x h) (p y k) (p z l);
  }

module _ {F : Type 0} ⦃d : Double F⦄ ⦃o : Ordered F⦄ where
  abbrev pub IsNumber : F → Type 0
  IsNumber x = d.is_nan x ≡ false

  -- The two columns that are shown as measured hold numbers.
  abbrev pub HasNumbers : ProcessSnapshot F → Type 0
  HasNumbers p = IsNumber p.cpu_percent × IsNumber p.memory_percent

module _ (F : Type 0) ⦃d : Double F⦄ ⦃o : Ordered F⦄ where
  missing_sort_score-IsNumber : (dir : ℤ) → IsNumber {F = F} (missing_sort_score dir)
  unfolding missing_sort_score
  missing_sort_score-IsNumber dir = ground (arith, o.infinity_not_nan, o.negative_infinity_not_nan)

  finite_or_missing-IsNumber : (x : F) (dir : ℤ) → IsNumber (finite_or_missing x dir)
  unfolding finite_or_missing
  finite_or_missing-IsNumber x dir =
      ground (arith, o.finite_not_nan x, missing_sort_score-IsNumber dir)

  io_score-IsNumber : (value : Bytes) (dir : ℤ) → IsNumber {F = F} (io_score value dir)
  unfolding io_score
  io_score-IsNumber value dir = elim (Option-cases (split_slash value)) [
    | inl e ↦ ground (
      arith,
      missing_sort_score-IsNumber dir,
      finite_or_missing-IsNumber (parse_scaled_number value) dir,
    )
    | inr (p, e) ↦ ground (
      arith,
      missing_sort_score-IsNumber dir,
      finite_or_missing-IsNumber (d.add (parse_scaled_number p.0) (parse_scaled_number p.1)) dir,
    )
  ]

  power_score-IsNumber : (value : Bytes) (dir : ℤ) → IsNumber {F = F} (power_score value dir)
  unfolding power_score
  power_score-IsNumber value dir = ground (
    arith,
    missing_sort_score-IsNumber dir,
    finite_or_missing-IsNumber (parse_scaled_number value) dir,
  )

  -- On processes whose processor and memory shares are numbers, every column and direction gives a
  -- comparison that std::sort may be given: irreflexive, asymmetric, and with "neither is less"
  -- transitive.
  pub process_sort_less-IsStrictWeak :
      (m : SortMode) (dir : ℤ)
      → IsStrictWeak {A = ProcessSnapshot F} HasNumbers (λ l r. process_sort_less l r m dir)
  unfolding process_sort_less
  process_sort_less-IsStrictWeak pid dir =
      by_key-IsStrictWeak int_order (λ p. p.pid) (λ p. p.pid) dir HasNumbers (λ p h. tt)
  process_sort_less-IsStrictWeak cpu dir =
      by_key-IsStrictWeak o.order (λ p. p.cpu_percent) (λ p. p.pid) dir HasNumbers (λ p h. h.0)
  process_sort_less-IsStrictWeak mem dir =
      by_key-IsStrictWeak o.order (λ p. p.memory_percent) (λ p. p.pid) dir HasNumbers (λ p h. h.1)
  process_sort_less-IsStrictWeak time dir =
      by_key-IsStrictWeak nat_order (λ p. p.total_cpu_time_ns) (λ p. p.pid) dir HasNumbers
        (λ p h. tt)
  process_sort_less-IsStrictWeak name dir =
      by_key-IsStrictWeak string_order (λ p. p.command) (λ p. p.pid) dir HasNumbers (λ p h. tt)
  process_sort_less-IsStrictWeak gpu_active dir = record {
    irrefl = λ x _. ground arith;
    asymm = λ x y _ _ h. ground arith;
    cotrans = λ x y z _ _ _ h k. ground arith;
  }
  process_sort_less-IsStrictWeak io dir =
      by_key-IsStrictWeak o.order (λ p. io_score p.io dir) (λ p. p.pid) dir HasNumbers
        (λ p h. io_score-IsNumber p.io dir)
  process_sort_less-IsStrictWeak power dir =
      by_key-IsStrictWeak o.order (λ p. power_score p.power dir) (λ p. p.pid) dir HasNumbers
        (λ p h. power_score-IsNumber p.power dir)

  -- Two processes of which neither is less than the other have the same pid, whatever the column, if
  -- their processor and memory shares are numbers.
  process_sort_less_total :
      (m : SortMode) (dir : ℤ) (l r : ProcessSnapshot F)
      → HasNumbers l
      → HasNumbers r
      → process_sort_less l r m dir ≡ false
      → process_sort_less r l m dir ≡ false
      → l.pid ≡ r.pid
  unfolding process_sort_less
  process_sort_less_total pid dir l r hl hr =
      by_key_total int_order (λ p. p.pid) (λ p. p.pid) dir l r tt tt
  process_sort_less_total cpu dir l r hl hr =
      by_key_total o.order (λ p. p.cpu_percent) (λ p. p.pid) dir l r hl.0 hr.0
  process_sort_less_total mem dir l r hl hr =
      by_key_total o.order (λ p. p.memory_percent) (λ p. p.pid) dir l r hl.1 hr.1
  process_sort_less_total time dir l r hl hr =
      by_key_total nat_order (λ p. p.total_cpu_time_ns) (λ p. p.pid) dir l r tt tt
  process_sort_less_total name dir l r hl hr =
      by_key_total string_order (λ p. p.command) (λ p. p.pid) dir l r tt tt
  process_sort_less_total gpu_active dir l r hl hr = λ p q. ground arith
  process_sort_less_total io dir l r hl hr =
      by_key_total o.order (λ p. io_score p.io dir) (λ p. p.pid) dir l r
        (io_score-IsNumber l.io dir) (io_score-IsNumber r.io dir)
  process_sort_less_total power dir l r hl hr =
      by_key_total o.order (λ p. power_score p.power dir) (λ p. p.pid) dir l r
        (power_score-IsNumber l.power dir) (power_score-IsNumber r.power dir)
