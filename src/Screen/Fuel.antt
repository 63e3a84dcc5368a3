-- ===== src/Screen/Fuel.antt =====
-- src/main.cpp: the bound on the depth of the walk is never reached.
use mtop.Base.{
  All-weaken, ℕ, zero, suc, ◌+◌, ◌≤◌, ◌<◌, ◌≡◌, refl, sym, ap, ◌∙◌, arith, true, false,
  if◌then◌else◌, List, [], ◌∷◌, ◌++◌, length, All, Bool-cases, inl, inr,
}
use mtop.Base.Double.{Double}
use mtop.Base.Int.{ℤ}
use mtop.Screen.Tree.{dfs-has}
use mtop.Screen.DepthFirst.{has-append, children_of-All}
use mtop.Screen.{UiState, Walk, has, each, children_of, row_of, visit, dfs, depth_bound}
use mtop.Snapshot.{ProcessSnapshot}

grows : (v : List ℤ) (p q : ℤ) → has v q ≡ true → has (v ++ (p ∷ [])) q ≡ true
grows v p q h = rw (has-append v (p ∷ []) q, h) refl

module _ {F : Type 0} where
  -- how many of the processes were not visited
  unfoldable left : List (ProcessSnapshot F) → List ℤ → ℕ
  left [] visited = 0
  left (p ∷ ps) visited = if has visited p.pid then left ps visited else suc (left ps visited)

  -- more visited, fewer left
  left_mono :
      (ps : List (ProcessSnapshot F)) (u v : List ℤ)
      → ((q : ℤ) → has u q ≡ true → has v q ≡ true)
      → left ps v ≤ left ps u
  unfolding left
  left_mono [] u v h = omega arith
  left_mono (p ∷ ps) u v h = ground (arith, left_mono ps u v h, h p.pid)

  left_le : (ps : List (ProcessSnapshot F)) (v : List ℤ) → left ps v ≤ length ps
  unfolding left
  left_le [] v = omega arith
  left_le (p ∷ ps) v = ground (arith, left_le ps v)

  -- to visit the process leaves fewer
  abbrev Counts : List (ProcessSnapshot F) → ProcessSnapshot F → Type 0
  Counts ps p = (v : List ℤ) → has v p.pid ≡ false → left ps (v ++ (p.pid ∷ [])) < left ps v

  Counts-cons :
      (p q : ProcessSnapshot F) (ps : List (ProcessSnapshot F)) → Counts ps q → Counts (p ∷ ps) q
  unfolding left
  Counts-cons p q ps h v new = ground (arith, h v new, grows v q.pid p.pid)

  Counts-head : (p : ProcessSnapshot F) (ps : List (ProcessSnapshot F)) → Counts (p ∷ ps) p
  unfolding left has
  Counts-head p ps v new =
      ground
        (arith, left_mono ps v (v ++ (p.pid ∷ [])) (grows v p.pid), has-append v (p.pid ∷ []) p.pid)

  Counts-All : (ps : List (ProcessSnapshot F)) → All (Counts ps) ps
  Counts-All [] = tt
  Counts-All (p ∷ ps) = (Counts-head p ps, All-weaken (λ q. Counts-cons p q ps) ps (Counts-All ps))

shift : (n fuel : ℕ) → suc n + fuel ≡ suc (n + fuel)
shift n fuel = omega arith

-- Two loops whose steps agree where an invariant holds.
each_cong {κ κ'} :
    {A S : Type 0} {f g : A → S → S} (Q : A → Type κ) (R : S → Type κ')
    → ((x : A) (s : S) → Q x → R s → f x s ≡ g x s)
    → ((x : A) (s : S) → Q x → R s → R (f x s))
    → (xs : List A) (s : S) → All Q xs
    → R s
    → each f xs s ≡ each g xs s
unfolding each
each_cong Q R e k [] s q r = refl
each_cong {f} {g} Q R e k (x ∷ xs) s q r =
    each_cong Q R e k xs (f x s) q.1 (k x s q.0 r) ∙ ap (each g xs) (e x s q.0 r)

module _ {F : Type 0} ⦃d : Double F⦄ (filtered : List (ProcessSnapshot F)) (state : UiState) where
  dfs-more :
      (fuel : ℕ) (process : ProcessSnapshot F) (depth : ℕ) (walk : Walk F)
      → Counts filtered process
      → left filtered walk.visited < fuel
      → dfs filtered state fuel process depth walk
        ≡ dfs filtered state (suc fuel) process depth walk
  unfolding dfs
  dfs-more zero process depth walk c h = absurd (omega arith)
  dfs-more (suc fuel) process depth walk c h = elim (Bool-cases (has walk.visited process.pid)) [
    | inl old ↦ rw old refl
    | inr new ↦ rw new (
        ap
          (λ below.
            if (row_of filtered state process depth).collapsed
            then visit filtered state process depth walk
            else below)
          (each_cong (Counts filtered) (λ w. left filtered w.visited < fuel)
            (λ child w. dfs-more fuel child (suc depth) w)
            (λ child w _ l. omega (
              arith,
              left_mono filtered w.visited _ (dfs-has filtered state fuel child (suc depth) w),
              l,
            ))
            (children_of filtered state process.pid) _
            (children_of-All (Counts filtered) filtered state (Counts-All filtered) process.pid)
            (omega (arith, c walk.visited new, h))))
  ]

  dfs-any :
      (n fuel : ℕ) (process : ProcessSnapshot F) (depth : ℕ) (walk : Walk F)
      → Counts filtered process
      → left filtered walk.visited < fuel
      → dfs filtered state (n + fuel) process depth walk
        ≡ dfs filtered state fuel process depth walk
  dfs-any zero fuel process depth walk c h =
      ap (λ k. dfs filtered state k process depth walk) (omega arith)
  dfs-any (suc n) fuel process depth walk c h =
      ap (λ k. dfs filtered state k process depth walk) (shift n fuel)
      ∙ sym (dfs-more (n + fuel) process depth walk c (omega arith))
      ∙ dfs-any n fuel process depth walk c h

  -- The bound that the model puts on the depth of the recursion is never reached: with any larger one,
  -- a walk from any of the processes, at any time, gives the same rows.
  pub dfs-depth_bound :
      (n : ℕ)
      → All
          (λ process.
            (depth : ℕ) (walk : Walk F)
            → dfs filtered state (n + depth_bound filtered state) process depth walk
              ≡ dfs filtered state (depth_bound filtered state) process depth walk)
          filtered
  dfs-depth_bound n =
      All-weaken
        (λ process c depth walk.
          dfs-any n (depth_bound filtered state) process depth walk c
            (omega (arith, left_le filtered walk.visited)))
        filtered (Counts-All filtered)
