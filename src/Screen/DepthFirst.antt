-- ===== src/Screen/DepthFirst.antt =====
-- src/main.cpp: the depth-first walk gives each visited process one row.
use mtop.Base.{
  All-append, ℕ, zero, suc, ◌≡◌, refl, ap, ◌∙◌, arith, Bool, true, false, ◌||◌, List, [], ◌∷◌, ◌++◌,
  map, All, if_rule,
}
use mtop.Base.Double.{Double}
use mtop.Base.Int.{ℤ}
use mtop.Base.Sort.{sort_by-All}
use mtop.Snapshot.{ProcessSnapshot}
use mtop.Screen.{UiState, ProcessRow, Walk, has, keep, each, children_of, roots, row_of, visit, dfs}

-- The pids of the rows.
abbrev pub pids : {F : Type 0} → List (ProcessRow F) → List ℤ
pids = map (λ row. row.process.pid)

-- No pid twice.
abbrev pub Distinct : List ℤ → Type 0
Distinct [] = Unit
Distinct (p ∷ ps) = (has ps p ≡ false) × Distinct ps

pub has-append : (ps qs : List ℤ) (q : ℤ) → has (ps ++ qs) q ≡ (has ps q || has qs q)
unfolding has
has-append [] qs q = refl
has-append (p ∷ ps) qs q = ground (arith, has-append ps qs q)

pub Distinct-append :
    (ps : List ℤ) (q : ℤ) → Distinct ps → has ps q ≡ false → Distinct (ps ++ (q ∷ []))
unfolding has
Distinct-append [] q d h = (refl, tt)
Distinct-append (p ∷ ps) q d h =
    (ground (arith, has-append ps (q ∷ []) p), Distinct-append ps q d.1 (ground arith))

-- A loop keeps what each of its steps keeps.
pub each-rule {κ κ'} :
    {A S : Type 0} {step : A → S → S} (Q : A → Type κ) (R : S → Type κ')
    → ((x : A) (s : S) → Q x → R s → R (step x s))
    → (xs : List A) (s : S) → All Q xs
    → R s
    → R (each step xs s)
unfolding each
each-rule Q R h [] s q r = r
each-rule Q R h (x ∷ xs) s q r = each-rule Q R h xs _ q.1 (h x s q.0 r)

pub keep-All {κ} :
    {A : Type 0} (Q : A → Type κ) (test : A → Bool) (xs : List A) → All Q xs → All Q (keep test xs)
unfolding keep
keep-All Q test [] h = tt
keep-All Q test (x ∷ xs) h =
    if_rule (All Q) (test x) (λ _. (h.0, keep-All Q test xs h.1)) (λ _. keep-All Q test xs h.1)

pub trivial : {A : Type 0} (xs : List A) → All (λ _. Unit {0}) xs
trivial [] = tt
trivial (x ∷ xs) = (tt, trivial xs)

pub has_last : (q : ℤ) (b : Bool) → (b || has (q ∷ []) q) ≡ true
unfolding has
has_last q b = ground arith

pub map_append :
    {A B : Type 0} (f : A → B) (xs ys : List A) → map f (xs ++ ys) ≡ map f xs ++ map f ys
map_append f [] ys = refl
map_append f (x ∷ xs) ys = rw (map_append f xs ys)

module _ {F : Type 0} ⦃d : Double F⦄ (Q : ProcessSnapshot F → Type 0)
    (filtered : List (ProcessSnapshot F)) (state : UiState) (all : All Q filtered) where
  -- The rows are those of the visited pids, one each, and show processes of `Q`.
  pub record Sound (walk : Walk F) : Type 0 where
    pub pids_visited : pids walk.rows ≡ walk.visited
    pub distinct : Distinct walk.visited
    pub shown : All (λ row. Q row.process) walk.rows

  pub children_of-All : (pid : ℤ) → All Q (children_of filtered state pid)
  unfolding children_of
  children_of-All pid = sort_by-All _ Q _ (keep-All Q _ filtered all)

  pub visit-Sound :
      (process : ProcessSnapshot F) (depth : ℕ) (walk : Walk F)
      → Q process
      → has walk.visited process.pid ≡ false
      → Sound walk
      → Sound (visit filtered state process depth walk)
  unfolding row_of
  visit-Sound process depth walk q new s = record {
    pids_visited = map_append _ walk.rows _ ∙ ap (λ l. l ++ (process.pid ∷ [])) s.pids_visited;
    distinct = Distinct-append walk.visited process.pid s.distinct new;
    shown = All-append _ walk.rows _ s.shown (q, tt);
  }

  pub dfs-Sound :
      (fuel : ℕ) (process : ProcessSnapshot F) (depth : ℕ) (walk : Walk F)
      → Q process
      → Sound walk
      → Sound (dfs filtered state fuel process depth walk)
  unfolding dfs
  dfs-Sound zero process depth walk q s = s
  dfs-Sound (suc fuel) process depth walk q s =
      if_rule Sound (has walk.visited process.pid) (λ _. s)
        λ new.
          let visited = visit-Sound process depth walk q new s in
          if_rule Sound (row_of filtered state process depth).collapsed (λ _. visited)
            λ _.
              each-rule Q Sound (λ child walk. dfs-Sound fuel child (suc depth) walk)
                (children_of filtered state process.pid) _ (children_of-All process.pid) visited

  pub roots-All : All Q (roots filtered state)
  unfolding roots
  roots-All = sort_by-All _ Q _ (keep-All Q _ filtered all)
