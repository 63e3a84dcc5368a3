-- ===== src/View/Cycle.antt =====
-- src/ui_support.cpp: stepping through the views.
use mtop.Base.{ℕ, ◌<◌, ◌≡◌, ap, arith}
use mtop.Base.Int.{ℤ, pos, negsuc, ◌+ℤ◌, +ℤ_assoc}
use mtop.View.{ViewMode, mode_index, mode_at, wrap_index, cycle_view_mode}

wrap_index-lt : (x : ℤ) → wrap_index x < 3
wrap_index-lt (pos n) = omega arith
wrap_index-lt (negsuc n) = omega arith

mode_index-mode_at : (i : ℕ) → i < 3 → mode_index (mode_at i) ≡ i
mode_index-mode_at i h = ground arith

wrap_index-add : (x y : ℤ) → wrap_index (pos (wrap_index x) +ℤ y) ≡ wrap_index (x +ℤ y)
unfolding ◌+ℤ◌
wrap_index-add (pos n) (pos k) = ground arith
wrap_index-add (pos n) (negsuc k) = ground arith
wrap_index-add (negsuc n) (pos k) = ground arith
wrap_index-add (negsuc n) (negsuc k) = ground arith

-- Two steps are the step by their sum, in either direction and of any length that does not overflow.
cycle_view_mode_add :
    (m : ViewMode) (a b : ℤ) → cycle_view_mode (cycle_view_mode m a) b ≡ cycle_view_mode m (a +ℤ b)
unfolding cycle_view_mode
cycle_view_mode_add m a b =
    rw
      (
        mode_index-mode_at _ (wrap_index-lt (pos (mode_index m) +ℤ a)),
        wrap_index-add (pos (mode_index m) +ℤ a) b,
      )
      (ap (λ x. mode_at (wrap_index x)) (+ℤ_assoc (pos (mode_index m)) a b))
