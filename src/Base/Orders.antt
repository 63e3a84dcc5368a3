-- ===== src/Base/Orders.antt =====
-- The orders of pids, of counters and of strings, as the comparisons of sorts use them.
use mtop.Base.{
  All, refl, [], List, ◌∷◌, ltb, ◌==◌, string_less, beq, ℕ, ◌≡◌, arith, true, false, Bytes,
}
use mtop.Base.Double.{KeyOrder}
use mtop.Base.Int.{ltb_ℤ, eqb_ℤ, ℤ}

abbrev pub Always : {A : Type 0} → A → Type 0
Always x = Unit {0}

pub All-Always : {A : Type 0} (xs : List A) → All Always xs
All-Always [] = tt
All-Always (x ∷ xs) = (tt, All-Always xs)

pub int_order : KeyOrder {A = ℤ} Always eqb_ℤ ltb_ℤ
int_order = record {
  irrefl = λ a _. ground arith;
  trans = λ a b c _ _ _ p q. ground arith;
  cotrans = λ a b c _ _ _ p q. ground arith;
  eq_of_not_lt = λ a b _ _ p q. ground arith;
  not_lt_of_eq = λ a b _ _ p. ground arith;
}

pub nat_order : KeyOrder {A = ℕ} Always ◌==◌ ltb
nat_order = record {
  irrefl = λ a _. ground arith;
  trans = λ a b c _ _ _ p q. ground arith;
  cotrans = λ a b c _ _ _ p q. ground arith;
  eq_of_not_lt = λ a b _ _ p q. ground arith;
  not_lt_of_eq = λ a b _ _ p. ground arith;
}

string_less_irrefl : (a : Bytes) → string_less a a ≡ false
unfolding string_less
string_less_irrefl [] = refl
string_less_irrefl (x ∷ a) = ground (arith, string_less_irrefl a)

string_less_trans :
    (a b c : Bytes) → string_less a b ≡ true → string_less b c ≡ true → string_less a c ≡ true
unfolding string_less
string_less_trans (x ∷ a) (y ∷ b) (z ∷ c) p q = ground (arith, string_less_trans a b c)
string_less_trans _ _ _ p q = ground arith

string_less_cotrans :
    (a b c : Bytes) → string_less a b ≡ false → string_less b c ≡ false → string_less a c ≡ false
unfolding string_less
string_less_cotrans (x ∷ a) (y ∷ b) (z ∷ c) p q = ground (arith, string_less_cotrans a b c)
string_less_cotrans _ _ _ p q = ground arith

string_less-beq : (a b : Bytes) → string_less a b ≡ false → string_less b a ≡ false → beq a b ≡ true
unfolding string_less beq
string_less-beq (x ∷ a) (y ∷ b) p q = ground (arith, string_less-beq a b)
string_less-beq _ _ p q = ground arith

beq-string_less :
    (a b : Bytes) → beq a b ≡ true → (string_less a b ≡ false) × (string_less b a ≡ false)
unfolding string_less beq
beq-string_less (x ∷ a) (y ∷ b) p = ground (arith, beq-string_less a b)
beq-string_less _ _ p = ground arith

pub string_order : KeyOrder {A = Bytes} Always beq string_less
string_order = record {
  irrefl = λ a _. string_less_irrefl a;
  trans = λ a b c _ _ _. string_less_trans a b c;
  cotrans = λ a b c _ _ _. string_less_cotrans a b c;
  eq_of_not_lt = λ a b _ _. string_less-beq a b;
  not_lt_of_eq = λ a b _ _. beq-string_less a b;
}
