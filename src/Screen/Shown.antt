-- ===== src/Screen/Shown.antt =====
-- src/main.cpp: the process table shows the sampled processes that match the filter, each as often as it can.
use mathlib.Core.List.{Mem, mem-cons_self, mem-cons_of_mem}
use mtop.Base.{
  All-weaken, not, subst, ap, ◌∙◌, ℕ, ◌+◌, ◌≤◌, ◌≡◌, refl, arith, Bool, true, false, ◌&&◌,
  if◌then◌else◌, List, [], ◌∷◌, any, map, All, if_rule,
}
use mtop.Base.Double.{Double}
use mtop.Base.Int.{eqb_ℤ_iff, ℤ, eqb_ℤ}
use mtop.Base.Sort.{sort_by, insert_by, sort_by-All}
use mtop.Screen.{
  UiState, ProcessRow, keep, has, process_matches_query, filtered_processes, flat_row, less,
  tree_rows, build_process_rows,
}
use mtop.Screen.DepthFirst.{pids, Distinct}
use mtop.Screen.Tree.{has-sort_by, has-own, tree_rows-Distinct, tree_rows-All}
use mtop.Snapshot.{ProcessSnapshot, SystemSnapshot}

-- how many elements pass a test
abbrev pub count : {A : Type 0} → (A → Bool) → List A → ℕ
count test [] = 0
count test (x ∷ xs) = (if test x then 1 else 0) + count test xs

module _ {F : Type 0} where
  abbrev row_has : ℤ → ProcessRow F → Bool
  row_has pid row = eqb_ℤ row.process.pid pid

  -- a process that is to be seen under the pid
  abbrev pub matches : UiState → ℤ → ProcessSnapshot F → Bool
  matches state pid process = process_matches_query process state.filter && eqb_ℤ process.pid pid

  -- What the rows of a table have to do with the processes that were sampled.
  pub record Shows (processes : List (ProcessSnapshot F)) (state : UiState)
      (rows : List (ProcessRow F)) : Type 0 where
    pub same : (pid : ℤ) → any (row_has pid) rows ≡ any (matches state pid) processes
    pub no_more : (pid : ℤ) → count (row_has pid) rows ≤ count (matches state pid) processes
    pub sampled :
        All
          (λ row.
            Mem row.process processes × (process_matches_query row.process state.filter ≡ true))
          rows

  has-row_has :
      (pid : ℤ) (rows : List (ProcessRow F)) → any (row_has pid) rows ≡ has (pids rows) pid
  unfolding has
  has-row_has pid [] = refl
  has-row_has pid (row ∷ rows) = ground (arith, has-row_has pid rows)

  has-keep :
      (pid : ℤ) (test : ProcessSnapshot F → Bool) (ps : List (ProcessSnapshot F))
      → has (pids (map flat_row (keep test ps))) pid ≡ any (λ p. test p && eqb_ℤ p.pid pid) ps
  unfolding has keep
  has-keep pid test [] = refl
  has-keep pid test (p ∷ ps) = ground (arith, has-keep pid test ps)

  -- the places of a pid among processes
  abbrev pub places : ℤ → List (ProcessSnapshot F) → ℕ
  places pid = count (λ p. eqb_ℤ p.pid pid)

  places-keep :
      (pid : ℤ) (test : ProcessSnapshot F → Bool) (ps : List (ProcessSnapshot F))
      → places pid (keep test ps) ≡ count (λ p. test p && eqb_ℤ p.pid pid) ps
  unfolding keep
  places-keep pid test [] = refl
  places-keep pid test (p ∷ ps) = ground (arith, places-keep pid test ps)

  places-insert_by :
      (pid : ℤ) (lt : ProcessSnapshot F → ProcessSnapshot F → Bool) (p : ProcessSnapshot F)
      (ps : List (ProcessSnapshot F))
      → places pid (insert_by lt p ps) ≡ places pid (p ∷ ps)
  unfolding insert_by
  places-insert_by pid lt p [] = refl
  places-insert_by pid lt p (q ∷ ps) = ground (arith, places-insert_by pid lt p ps)

  places-sort_by :
      (pid : ℤ) (lt : ProcessSnapshot F → ProcessSnapshot F → Bool) (ps : List (ProcessSnapshot F))
      → places pid (sort_by lt ps) ≡ places pid ps
  unfolding sort_by
  places-sort_by pid lt [] = refl
  places-sort_by pid lt (p ∷ ps) =
      places-insert_by pid lt p (sort_by lt ps)
      ∙ ap (λ n. (if eqb_ℤ p.pid pid then 1 else 0) + n) (places-sort_by pid lt ps)

  count-flat_row :
      (pid : ℤ) (ps : List (ProcessSnapshot F))
      → count (row_has pid) (map flat_row ps) ≡ places pid ps
  count-flat_row pid [] = refl
  count-flat_row pid (p ∷ ps) =
      ap (λ n. (if eqb_ℤ p.pid pid then 1 else 0) + n) (count-flat_row pid ps)

  -- In rows without a pid twice, a pid has one row if it has any.
  count-Distinct :
      (pid : ℤ) (rows : List (ProcessRow F))
      → Distinct (pids rows)
      → count (row_has pid) rows ≤ (if has (pids rows) pid then 1 else 0)
  unfolding has
  count-Distinct pid [] d = omega arith
  count-Distinct pid (row ∷ rows) d =
      let own : eqb_ℤ row.process.pid pid ≡ true → has (pids rows) pid ≡ false =
        λ s. subst (λ q. has (pids rows) q ≡ false) ((eqb_ℤ_iff row.process.pid pid).0 s) d.0 in
      ground (arith, own, count-Distinct pid rows d.1)

  places_pos :
      (pid : ℤ) (ps : List (ProcessSnapshot F))
      → (if has (pids (map flat_row ps)) pid then 1 else 0) ≤ places pid ps
  unfolding has
  places_pos pid [] = omega arith
  places_pos pid (p ∷ ps) = ground (arith, places_pos pid ps)

  has-All :
      (pid : ℤ) (f : ℤ → Bool) (rows : List (ProcessRow F))
      → All (λ row. f row.process.pid ≡ true) rows
      → has (pids rows) pid ≡ true
      → f pid ≡ true
  unfolding has
  has-All pid f [] h e = absurd cc
  has-All pid f (row ∷ rows) h e =
      let own : eqb_ℤ row.process.pid pid ≡ true → f pid ≡ true =
        λ s. subst (λ q. f q ≡ true) ((eqb_ℤ_iff row.process.pid pid).0 s) h.0 in
      ground (arith, own, e, has-All pid f rows h.1)

itself-All : {A : Type 0} (xs : List A) → All (λ x. Mem x xs) xs
itself-All [] = tt
itself-All (x ∷ xs) = (mem-cons_self, All-weaken (λ y h. mem-cons_of_mem x h) xs (itself-All xs))

keep-Mem :
    {A : Type 0} (test : A → Bool) (all xs : List A)
    → All (λ x. Mem x all) xs
    → All (λ x. Mem x all × (test x ≡ true)) (keep test xs)
unfolding keep
keep-Mem test all [] h = tt
keep-Mem test all (x ∷ xs) h =
    if_rule (All (λ x. Mem x all × (test x ≡ true))) (test x)
      (λ e. ((h.0, e), keep-Mem test all xs h.1)) (λ _. keep-Mem test all xs h.1)

flat_rows-All :
    {F : Type 0} (Q : ProcessSnapshot F → Type 0) (ps : List (ProcessSnapshot F))
    → All Q ps
    → All (λ row. Q row.process) (map flat_row ps)
flat_rows-All Q [] h = tt
flat_rows-All Q (p ∷ ps) h = (h.0, flat_rows-All Q ps h.1)

both : {a b : Bool} → (a ≡ true → b ≡ true) → (b ≡ true → a ≡ true) → a ≡ b
both to fro = ground (arith, to, fro)

module _ {F : Type 0} ⦃d : Double F⦄ (snapshot : SystemSnapshot F) (state : UiState) where
  abbrev filtered : List (ProcessSnapshot F)
  filtered = filtered_processes snapshot state

  abbrev IsShown : ProcessSnapshot F → Type 0
  IsShown p = Mem p snapshot.processes × (process_matches_query p state.filter ≡ true)

  filtered-IsShown : All IsShown filtered
  unfolding filtered_processes
  filtered-IsShown =
      keep-Mem _ snapshot.processes snapshot.processes (itself-All snapshot.processes)

  has-filtered :
      (pid : ℤ)
      → has (pids (map flat_row filtered)) pid ≡ any (matches state pid) snapshot.processes
  unfolding filtered_processes
  has-filtered pid = has-keep pid (λ p. process_matches_query p state.filter) snapshot.processes

  places-filtered : (pid : ℤ) → places pid filtered ≡ count (matches state pid) snapshot.processes
  unfolding filtered_processes
  places-filtered pid =
      places-keep pid (λ p. process_matches_query p state.filter) snapshot.processes

  has-tree_rows :
      (pid : ℤ) → has (pids (tree_rows filtered state)) pid ≡ has (pids (map flat_row filtered)) pid
  has-tree_rows pid =
      let shown =
        tree_rows-Distinct filtered state (λ p. has (pids (map flat_row filtered)) p.pid ≡ true)
          (has-own filtered) in
      let reached =
        flat_rows-All (λ p. has (pids (tree_rows filtered state)) p.pid ≡ true) filtered
          (tree_rows-All filtered state) in
      both (has-All pid (has (pids (map flat_row filtered))) (tree_rows filtered state) shown.1)
        (has-All pid (has (pids (tree_rows filtered state))) (map flat_row filtered) reached)

  sorted_rows-Shows :
      Shows snapshot.processes state (map flat_row (sort_by (less filtered state) filtered))
  sorted_rows-Shows =
      let rows = map flat_row (sort_by (less filtered state) filtered) in
      record {
        same = λ pid.
            has-row_has pid rows
            ∙ has-sort_by (less filtered state) filtered pid
            ∙ has-filtered pid;
        no_more = λ pid. omega (
          arith,
          count-flat_row pid (sort_by (less filtered state) filtered),
          places-sort_by pid (less filtered state) filtered,
          places-filtered pid,
        );
        sampled =
            flat_rows-All IsShown _
              (sort_by-All (less filtered state) IsShown filtered filtered-IsShown);
      }

  tree_rows-Shows : Shows snapshot.processes state (tree_rows filtered state)
  tree_rows-Shows =
      let rows = tree_rows filtered state in
      let (distinct, shown) = tree_rows-Distinct filtered state IsShown filtered-IsShown in
      record {
        same = λ pid. has-row_has pid rows ∙ has-tree_rows pid ∙ has-filtered pid;
        no_more = λ pid. omega (
          arith,
          count-Distinct pid rows distinct,
          ap {B = ℕ} (λ b. if b then 1 else 0) (has-tree_rows pid),
          places_pos pid filtered,
          places-filtered pid,
        );
        sampled = shown;
      }

  -- The process table shows the sampled processes that match the filter, in the tree also those below a
  -- collapsed node: a pid has a row exactly if such a process has it, and no more rows than there are
  -- such processes; and each row shows one of them.
  pub build_process_rows-Shows : Shows snapshot.processes state (build_process_rows snapshot state)
  unfolding build_process_rows
  build_process_rows-Shows =
      if_rule (Shows snapshot.processes state) (not state.tree_mode) (λ _. sorted_rows-Shows)
        (λ _. tree_rows-Shows)
