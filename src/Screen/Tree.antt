-- ===== src/Screen/Tree.antt =====
-- src/main.cpp: which processes have a row in the process table.
use mtop.Base.{
  All-weaken, subst, ℕ, zero, suc, ◌≡◌, refl, sym, ap, ◌∙◌, arith, Bool, true, ◌||◌, List, [], ◌∷◌,
  map, length, All, Bool-cases, inl, inr, if_rule,
}
use mtop.Base.Double.{Double}
use mtop.Base.Int.{ℤ, eqb_ℤ}
use mtop.Base.Sort.{sort_by, insert_by}
use mtop.Snapshot.{ProcessSnapshot}
use mtop.Screen.DepthFirst.{
  pids, Distinct, has-append, each-rule, trivial, has_last, Sound, dfs-Sound, roots-All,
}
use mtop.Screen.{
  UiState, Walk, has, each, flat_row, children_of, roots, row_of, visit, dfs, depth_bound,
  tree_rows,
}

module _ {F : Type 0} ⦃d : Double F⦄ (filtered : List (ProcessSnapshot F)) (state : UiState) where
  -- what was visited stays visited
  pub dfs-has :
      (fuel : ℕ) (process : ProcessSnapshot F) (depth : ℕ) (walk : Walk F) (pid : ℤ)
      → has walk.visited pid ≡ true
      → has (dfs filtered state fuel process depth walk).visited pid ≡ true
  unfolding dfs
  dfs-has zero process depth walk pid h = h
  dfs-has (suc fuel) process depth walk pid h =
      let P : Walk F → Type 0 = λ w. has w.visited pid ≡ true in
      let visited : P (visit filtered state process depth walk) =
        rw (has-append walk.visited (process.pid ∷ []) pid, h) refl in
      if_rule P (has walk.visited process.pid) (λ _. h)
        λ _.
          if_rule P (row_of filtered state process depth).collapsed (λ _. visited)
            λ _.
              each-rule (λ _. Unit {0}) P (λ child walk _. dfs-has fuel child (suc depth) walk pid)
                (children_of filtered state process.pid) _ (trivial _) visited

  -- a call visits its process
  dfs-visits :
      (fuel : ℕ) (process : ProcessSnapshot F) (depth : ℕ) (walk : Walk F)
      → has (dfs filtered state (suc fuel) process depth walk).visited process.pid ≡ true
  unfolding dfs
  dfs-visits fuel process depth walk =
      let P : Walk F → Type 0 = λ w. has w.visited process.pid ≡ true in
      let visited : P (visit filtered state process depth walk) =
        rw (has-append walk.visited (process.pid ∷ []) process.pid)
          (has_last process.pid (has walk.visited process.pid)) in
      if_rule P (has walk.visited process.pid) (λ h. h)
        λ _.
          if_rule P (row_of filtered state process depth).collapsed (λ _. visited)
            λ _.
              each-rule (λ _. Unit {0}) P
                (λ child walk _. dfs-has fuel child (suc depth) walk process.pid)
                (children_of filtered state process.pid) _ (trivial _) visited

  -- the loop over all processes visits each of them
  each-visits :
      (fuel : ℕ) (processes : List (ProcessSnapshot F)) (walk : Walk F)
      → All
          (λ p.
            has (each (λ q. dfs filtered state (suc fuel) q 0) processes walk).visited p.pid ≡ true)
          processes
  unfolding each
  each-visits fuel [] walk = tt
  each-visits fuel (p ∷ ps) walk = (
    each-rule (λ _. Unit {0}) (λ w. has w.visited p.pid ≡ true)
        (λ q walk _. dfs-has (suc fuel) q 0 walk p.pid) ps _ (trivial _) (dfs-visits fuel p 0 walk),
    each-visits fuel ps _,
  )

  walked : Walk F
  unfolding roots
  walked =
      each (λ process. dfs filtered state (depth_bound filtered state) process 0) filtered
        (each (λ root. dfs filtered state (depth_bound filtered state) root 0)
          (roots filtered state) (record { rows = []; visited = [] }))

  walked-Sound :
      (Q : ProcessSnapshot F → Type 0) (all : All Q filtered) → Sound Q filtered state all walked
  unfolding walked
  walked-Sound Q all =
      let step = λ (p : ProcessSnapshot F) (walk : Walk F) (q : Q p).
        dfs-Sound Q filtered state all (depth_bound filtered state) p 0 walk q in
      each-rule Q (Sound Q filtered state all) step filtered _ all (
        each-rule Q (Sound Q filtered state all) step (roots filtered state) _
          (roots-All Q filtered state all)
          (record { pids_visited = refl; distinct = tt; shown = tt }))

  -- No pid has two rows in the tree, and what holds of all the given processes holds of those that the
  -- rows show.
  pub tree_rows-Distinct :
      (Q : ProcessSnapshot F → Type 0)
      → All Q filtered
      → Distinct (pids (tree_rows filtered state))
        × All (λ row. Q row.process) (tree_rows filtered state)
  unfolding tree_rows walked
  tree_rows-Distinct Q all =
      let s = walked-Sound Q all in (subst Distinct (sym s.pids_visited) s.distinct, s.shown)

  -- Each process of the given list has a row with its pid, collapsed or not.
  pub tree_rows-All : All (λ p. has (pids (tree_rows filtered state)) p.pid ≡ true) filtered
  unfolding tree_rows walked
  tree_rows-All =
      let s = walked-Sound (λ _. Unit {0}) (trivial filtered) in
      subst (λ l. All (λ p. has l p.pid ≡ true) filtered) (sym s.pids_visited)
        (each-visits (length filtered) filtered _)

has-insert_by :
    {F : Type 0} (lt : ProcessSnapshot F → ProcessSnapshot F → Bool) (p : ProcessSnapshot F)
    (ps : List (ProcessSnapshot F)) (pid : ℤ)
    → has (pids (map flat_row (insert_by lt p ps))) pid ≡ has (pids (map flat_row (p ∷ ps))) pid
unfolding insert_by has
has-insert_by lt p [] pid = refl
has-insert_by lt p (q ∷ ps) pid = elim (Bool-cases (lt q p)) [
  | inl below ↦ rw below (ground (arith, has-insert_by lt p ps pid))
  | inr above ↦ rw above refl
]

pub has-sort_by :
    {F : Type 0} (lt : ProcessSnapshot F → ProcessSnapshot F → Bool) (ps : List (ProcessSnapshot F))
    (pid : ℤ)
    → has (pids (map flat_row (sort_by lt ps))) pid ≡ has (pids (map flat_row ps)) pid
unfolding sort_by has
has-sort_by lt [] pid = refl
has-sort_by lt (p ∷ ps) pid =
    has-insert_by lt p (sort_by lt ps) pid ∙ ap (λ b. eqb_ℤ p.pid pid || b) (has-sort_by lt ps pid)

pub has-own :
    {F : Type 0} (ps : List (ProcessSnapshot F))
    → All (λ p. has (pids (map flat_row ps)) p.pid ≡ true) ps
unfolding has
has-own [] = tt
has-own (p ∷ ps) = (ground arith, All-weaken (λ q h. rw h (ground arith)) ps (has-own ps))
