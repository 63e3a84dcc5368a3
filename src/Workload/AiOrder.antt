-- ===== src/Workload/AiOrder.antt =====
-- src/workload_model.cpp: the AI view and the workloads show the same processes, and the AI view is
-- sorted.
use mathlib.Core.List.{Perm}
use mathlib.Core.List.Perm
use mtop.Base.{
  sym, not, subst, ℕ, ap, ◌≡◌, refl, arith, false, List, [], ◌∷◌, map, if◌then◌else◌, leb, ltb, All,
  Bool-cases, inl, inr,
}
use mtop.Base.Double.{Double, Ordered}
use mtop.Base.Int.{ℤ}
use mtop.Base.Sort.{IsStrictWeak, IsSorted, sort_by-IsSorted}
use mtop.Snapshot.{ProcessSnapshot, SystemSnapshot}
use mtop.Workload.AiRows.{ai_row, ai_less, build_ai_process_rows}
use mtop.Workload.Build.{build_workloads, ref_of}
use mtop.Workload.Conservation.{collect, sort_by-collect, build_workloads-perm}
use mtop.Workload.Detector.{detect_workload_process}
use mtop.Workload.Grouping.{detect_all}
use mtop.Workload.{AiProcessRow}

leb-ltb : (a b : ℕ) → leb a b ≡ not (ltb b a)
leb-ltb a b = ground arith

module _ {F : Type 0} where
  -- The pid of a row that is marked as AI.
  abbrev pub ai_pid : AiProcessRow F → List ℤ
  ai_pid row = if row.is_ai then row.process.pid ∷ [] else []

  ai_row-pids :
      (processes : List (ProcessSnapshot F))
      → collect ai_pid (map ai_row processes) ≡ map (λ r. r.pid) (map ref_of (detect_all processes))
  unfolding ai_row detect_all
  ai_row-pids [] = refl
  ai_row-pids (process ∷ processes) =
      let confidence = (detect_workload_process process).confidence in
      elim (Bool-cases (ltb confidence 60)) [
        | inl low ↦ rw (leb-ltb 60 confidence, low) (ai_row-pids processes)
        | inr high ↦
            rw (leb-ltb 60 confidence, high) (ap (λ l. process.pid ∷ l) (ai_row-pids processes))
      ]

module _ {F : Type 0} ⦃d : Double F⦄ where
  -- The AI view marks exactly the processes that stand in the workloads, each as often.
  pub build_ai_process_rows-workloads :
      (snapshot : SystemSnapshot F)
      → Perm
          (collect ai_pid (build_ai_process_rows snapshot))
          (map (λ r. r.pid) (collect (λ w. w.processes) (build_workloads snapshot)))
  unfolding build_ai_process_rows
  build_ai_process_rows-workloads snapshot =
      Perm.trans (sort_by-collect ai_less ai_pid (map ai_row snapshot.processes)) (
        subst
          (λ l. Perm l (map (λ r. r.pid) (collect (λ w. w.processes) (build_workloads snapshot))))
          (sym (ai_row-pids snapshot.processes))
          (Perm.map (λ r. r.pid) (Perm.symm (build_workloads-perm snapshot))))

module _ {F : Type 0} ⦃d : Double F⦄ ⦃o : Ordered F⦄ where
  -- A processor share that is a number.
  abbrev pub HasCpu : ProcessSnapshot F → Type 0
  HasCpu process = d.is_nan process.cpu_percent ≡ false

  ai_less-IsStrictWeak : IsStrictWeak {A = AiProcessRow F} (λ row. HasCpu row.process) ai_less
  unfolding ai_less
  ai_less-IsStrictWeak = record {
    irrefl = λ a p. ground (arith, o.order.irrefl a.process.cpu_percent p);
    asymm = λ a b p q h. ground (
      arith,
      o.order.trans a.process.cpu_percent b.process.cpu_percent a.process.cpu_percent p q p,
      o.order.irrefl a.process.cpu_percent p,
      o.order.eq_of_not_lt a.process.cpu_percent b.process.cpu_percent p q,
      o.order.eq_of_not_lt b.process.cpu_percent a.process.cpu_percent q p,
      o.order.not_lt_of_eq a.process.cpu_percent b.process.cpu_percent p q,
      o.order.not_lt_of_eq b.process.cpu_percent a.process.cpu_percent q p,
    );
    cotrans = λ a b c p q r h k. ground (
      arith,
      o.order.cotrans a.process.cpu_percent b.process.cpu_percent c.process.cpu_percent p q r,
      o.order.cotrans c.process.cpu_percent b.process.cpu_percent a.process.cpu_percent r q p,
      o.order.cotrans b.process.cpu_percent a.process.cpu_percent c.process.cpu_percent q p r,
      o.order.cotrans c.process.cpu_percent a.process.cpu_percent b.process.cpu_percent r p q,
      o.order.cotrans a.process.cpu_percent c.process.cpu_percent b.process.cpu_percent p r q,
      o.order.cotrans b.process.cpu_percent c.process.cpu_percent a.process.cpu_percent q r p,
      o.order.eq_of_not_lt a.process.cpu_percent b.process.cpu_percent p q,
      o.order.not_lt_of_eq a.process.cpu_percent b.process.cpu_percent p q,
      o.order.eq_of_not_lt a.process.cpu_percent c.process.cpu_percent p r,
      o.order.not_lt_of_eq a.process.cpu_percent c.process.cpu_percent p r,
      o.order.eq_of_not_lt b.process.cpu_percent c.process.cpu_percent q r,
      o.order.not_lt_of_eq b.process.cpu_percent c.process.cpu_percent q r,
      o.order.not_lt_of_eq c.process.cpu_percent b.process.cpu_percent r q,
    );
  }

  ai_row-HasCpu :
      (processes : List (ProcessSnapshot F))
      → All HasCpu processes
      → All (λ row. HasCpu row.process) (map ai_row processes)
  unfolding ai_row
  ai_row-HasCpu [] h = tt
  ai_row-HasCpu (process ∷ processes) h = (h.0, ai_row-HasCpu processes h.1)

  -- Where every processor share is a number, the rows of the AI view are sorted: the AI rows first, of
  -- these the larger ones first, then by falling processor share, then by pid.
  build_ai_process_rows-IsSorted :
      (snapshot : SystemSnapshot F)
      → All HasCpu snapshot.processes
      → IsSorted ai_less (build_ai_process_rows snapshot)
  unfolding build_ai_process_rows
  build_ai_process_rows-IsSorted snapshot h =
      sort_by-IsSorted ai_less-IsStrictWeak (map ai_row snapshot.processes)
        (ai_row-HasCpu snapshot.processes h)
