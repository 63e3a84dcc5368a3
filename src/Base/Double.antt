-- ===== src/Base/Double.antt =====
-- C's double. antt has no floating point, so the type and the operations that the program calls are
-- a parameter of the development: an instance `Double F`. What a theorem needs of the comparisons
-- is an instance of `Ordered`, which IEEE numbers satisfy.
use mtop.Base.{ℕ, Bool, true, false, ◌≡◌, Bytes}
use mtop.Base.Int.{ℤ}

pub record Double (F : Type 0) : Type 0 where
  pub lt : F → F → Bool
  pub le : F → F → Bool
  pub eq : F → F → Bool
  pub is_nan : F → Bool
  pub is_finite : F → Bool
  pub infinity : F
  pub negative_infinity : F
  pub add : F → F → F
  pub sub : F → F → F
  pub mul : F → F → F
  pub div : F → F → F
  -- static_cast<double> of an unsigned integer
  pub of_nat : ℕ → F
  -- std::fabs, and the int that static_cast<int> makes of std::round
  pub abs : F → F
  pub round_int : F → ℤ
  -- printf's %.Nf
  pub fixed : ℕ → F → Bytes
  -- strtod: the value, and what stands behind the number
  pub strtod : Bytes → F × Bytes

-- A key type with its == and <: where `P` holds, `<` is a strict weak order whose equivalence is ==.
pub record KeyOrder {A : Type 0} (P : A → Type 0) (eq lt : A → A → Bool) : Type 0 where
  pub irrefl : (a : A) → P a → lt a a ≡ false
  pub trans : (a b c : A) → P a → P b → P c → lt a b ≡ true → lt b c ≡ true → lt a c ≡ true
  pub cotrans : (a b c : A) → P a → P b → P c → lt a b ≡ false → lt b c ≡ false → lt a c ≡ false
  pub eq_of_not_lt : (a b : A) → P a → P b → lt a b ≡ false → lt b a ≡ false → eq a b ≡ true
  pub not_lt_of_eq : (a b : A) → P a → P b → eq a b ≡ true → (lt a b ≡ false) × (lt b a ≡ false)

-- IEEE comparisons: NaN is neither less than, nor equal to, nor greater than anything, and the other
-- numbers, the infinities among them, are ordered.
pub record Ordered (F : Type 0) ⦃d : Double F⦄ : Type 0 where
  pub order : KeyOrder (λ x. d.is_nan x ≡ false) d.eq d.lt
  pub finite_not_nan : (x : F) → d.is_finite x ≡ true → d.is_nan x ≡ false
  pub infinity_not_nan : d.is_nan d.infinity ≡ false
  pub negative_infinity_not_nan : d.is_nan d.negative_infinity ≡ false

-- The literal n / 10 ^ k: the quotient of the two integers, rounded once, is the nearest double.
abbrev pub literal : {F : Type 0} ⦃d : Double F⦄ → ℕ → ℕ → F
literal ⦃d⦄ n scale = d.div (d.of_nat n) (d.of_nat scale)
