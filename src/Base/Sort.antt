-- ===== src/Base/Sort.antt =====
-- std::sort by a comparison. The standard leaves the order of equivalent elements open; the model
-- keeps them as they came. Where the comparison tells all elements apart, the result is the only one.
use mathlib.Core.List.{Perm, Mem, mem-cons, mem-cons_self, not-mem-nil, mem-cons_of_mem}
use mathlib.Core.List.Perm
use mathlib.Core.Logic.Or
use mtop.Base.{
  Bool, true, false, ◌≡◌, sym, ap₂, List, [], ◌∷◌, if◌then◌else◌, Bool-cases, inl, inr, All,
}

module _ {ℓ} {A : Type ℓ} where
  unfoldable pub insert_by : (A → A → Bool) → A → List A → List A
  insert_by lt x [] = x ∷ []
  insert_by lt x (y ∷ ys) = if lt y x then y ∷ insert_by lt x ys else x ∷ y ∷ ys

  unfoldable pub sort_by : (A → A → Bool) → List A → List A
  unfolding insert_by
  sort_by lt [] = []
  sort_by lt (x ∷ xs) = insert_by lt x (sort_by lt xs)

  -- No later element is less than an earlier one.
  abbrev pub IsSorted : (A → A → Bool) → List A → Type ℓ
  IsSorted lt [] = Unit
  IsSorted lt (x ∷ xs) = All (λ y. lt y x ≡ false) xs × IsSorted lt xs

-- What std::sort asks of its comparison, on the elements of `P`.
pub record IsStrictWeak {ℓ κ} {A : Type ℓ} (P : A → Type κ) (lt : A → A → Bool) : Type (ℓ ⊔ κ) where
  pub irrefl : (a : A) → P a → lt a a ≡ false
  pub asymm : (a b : A) → P a → P b → lt a b ≡ true → lt b a ≡ false
  pub cotrans : (a b c : A) → P a → P b → P c → lt a b ≡ false → lt b c ≡ false → lt a c ≡ false

module _ {ℓ} {A : Type ℓ} (lt : A → A → Bool) where
  insert_by-perm : (x : A) (xs : List A) → Perm (insert_by lt x xs) (x ∷ xs)
  unfolding insert_by
  insert_by-perm x [] = Perm.refl (x ∷ [])
  insert_by-perm x (y ∷ ys) = elim (Bool-cases (lt y x)) [
    | inl below ↦ rw below (Perm.trans (Perm.cons y (insert_by-perm x ys)) (Perm.swap x y ys))
    | inr above ↦ rw above (Perm.refl (x ∷ y ∷ ys))
  ]

  -- A sort neither loses an element nor makes one up.
  pub sort_by-perm : (xs : List A) → Perm (sort_by lt xs) xs
  unfolding sort_by
  sort_by-perm [] = Perm.refl []
  sort_by-perm (x ∷ xs) =
      Perm.trans (insert_by-perm x (sort_by lt xs)) (Perm.cons x (sort_by-perm xs))

  insert_by-All {κ} :
      (Q : A → Type κ) (x : A) (xs : List A) → Q x → All Q xs → All Q (insert_by lt x xs)
  unfolding insert_by
  insert_by-All Q x [] q h = (q, tt)
  insert_by-All Q x (y ∷ ys) q h = elim (Bool-cases (lt y x)) [
    | inl below ↦ rw below (h.0, insert_by-All Q x ys q h.1)
    | inr above ↦ rw above (q, h)
  ]

  pub sort_by-All {κ} : (Q : A → Type κ) (xs : List A) → All Q xs → All Q (sort_by lt xs)
  unfolding sort_by
  sort_by-All Q [] h = tt
  sort_by-All Q (x ∷ xs) h = insert_by-All Q x (sort_by lt xs) h.0 (sort_by-All Q xs h.1)

module _ {ℓ κ} {A : Type ℓ} {P : A → Type κ} {lt : A → A → Bool} (w : IsStrictWeak P lt) where
  -- what is not less than the head is not less than what stands before it
  below_head :
      (x y : A) (ys : List A)
      → P x
      → P y
      → All P ys
      → lt y x ≡ false
      → All (λ z. lt z y ≡ false) ys
      → All (λ z. lt z x ≡ false) ys
  below_head x y [] px py ps h a = tt
  below_head x y (z ∷ zs) px py ps h a =
      (w.cotrans z y x ps.0 py px a.0 h, below_head x y zs px py ps.1 h a.1)

  insert_by-IsSorted :
      (x : A) (xs : List A) → P x → All P xs → IsSorted lt xs → IsSorted lt (insert_by lt x xs)
  unfolding insert_by
  insert_by-IsSorted x [] px ps s = (tt, tt)
  insert_by-IsSorted x (y ∷ ys) px ps s = elim (Bool-cases (lt y x)) [
    | inl below ↦ rw below (
      insert_by-All lt (λ z. lt z y ≡ false) x ys (w.asymm y x ps.0 px below) s.0,
      insert_by-IsSorted x ys px ps.1 s.1,
    )
    | inr above ↦ rw above ((above, below_head x y ys px ps.0 ps.1 above s.0), s)
  ]

  -- The result is in order.
  pub sort_by-IsSorted : (xs : List A) → All P xs → IsSorted lt (sort_by lt xs)
  unfolding sort_by
  sort_by-IsSorted [] ps = tt
  sort_by-IsSorted (x ∷ xs) ps =
      insert_by-IsSorted x (sort_by lt xs) ps.0 (sort_by-All lt P xs ps.1)
        (sort_by-IsSorted xs ps.1)

-- The comparison tells apart any two elements of the list that are not the same.
abbrev pub Separates {ℓ} : {A : Type ℓ} → (A → A → Bool) → List A → Type ℓ
Separates {A} lt l = (x y : A) → Mem x l → Mem y l → lt x y ≡ false → lt y x ≡ false → x ≡ y

module _ {ℓ} {A : Type ℓ} (lt : A → A → Bool) (is_set : IsSet A) where
  not_below : (a b : A) (xs : List A) → All (λ z. lt z b ≡ false) xs → Mem a xs → lt a b ≡ false
  not_below a b [] h m = absurd (not-mem-nil m)
  not_below a b (x ∷ xs) h m =
      Or.elim (hlevel) (mem-cons.0 m) (λ e. rw e h.0) (not_below a b xs h.1)

  -- Two orders of the same elements, both sorted, are the same list.
  pub IsSorted-eq_of_perm :
      (l r : List A) → Separates lt l → IsSorted lt l → IsSorted lt r → Perm l r → l ≡ r
  IsSorted-eq_of_perm [] r t sl sr p = Perm.nil-eq p
  IsSorted-eq_of_perm (a ∷ l) [] t sl sr p = Perm.eq-nil p
  IsSorted-eq_of_perm (a ∷ l) (b ∷ r) t sl sr p = ap₂ ◌∷◌ heads (
      IsSorted-eq_of_perm l r (λ x y mx my. t x y (mem-cons_of_mem a mx) (mem-cons_of_mem a my))
        sl.1 sr.1 tails)
    where
      in_right : Mem a (b ∷ r)
      in_right = (Perm.mem_iff p).0 mem-cons_self

      in_left : Mem b (a ∷ l)
      in_left = (Perm.mem_iff p).1 mem-cons_self

      heads : a ≡ b
      heads =
          Or.elim (is_set a b) (mem-cons.0 in_right) (λ e. e)
            λ m.
              Or.elim (is_set a b) (mem-cons.0 in_left) (λ e. sym e)
                λ n. t a b mem-cons_self in_left (not_below a b r sr.0 m) (not_below b a l sl.0 n)

      tails : Perm l r
      tails = Perm.cons_inv (Perm.trans p (Perm.symm (Perm.cons' heads Perm.rfl)))

  -- A sort does not depend on the order in which the elements came.
  pub sort_by-eq_of_perm {κ} :
      {P : A → Type κ} (w : IsStrictWeak P lt) (xs ys : List A)
      → All P xs
      → All P ys
      → Separates lt xs
      → Perm xs ys
      → sort_by lt xs ≡ sort_by lt ys
  sort_by-eq_of_perm w xs ys px py t p =
      IsSorted-eq_of_perm (sort_by lt xs) (sort_by lt ys) (λ x y mx my. t x y (back mx) (back my))
        (sort_by-IsSorted w xs px) (sort_by-IsSorted w ys py)
        (Perm.trans (sort_by-perm lt xs) (Perm.trans p (Perm.symm (sort_by-perm lt ys))))
    where
      back : {x : A} → Mem x (sort_by lt xs) → Mem x xs
      back = (Perm.mem_iff (sort_by-perm lt xs)).0
