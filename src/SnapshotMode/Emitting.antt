-- ===== src/SnapshotMode/Emitting.antt =====
-- src/main.cpp: the lines that the loop over the samples writes.
use mtop.Base.{
  if◌then◌else◌, ℕ, zero, suc, ◌+◌, ◌≤◌, ◌<◌, true, false, not, ◌&&◌, ◌||◌, ◌≡◌, refl, sym, ap, ◌∙◌,
  arith, if_rule, List, [], ◌∷◌, Option, none, some, Bytes, str, beq, is_nil,
}
use mtop.Base.Double.{Double}
use mtop.Base.Int.{ℤ}
use mtop.CommandLine.{RuntimeOptions}
use mtop.Config.{AppConfig}
use mtop.SnapshotMode.{
  is_some, World, finished, loop_forever, line_count, snapshot_line, emit, in_session,
  run_snapshot_mode,
}

-- more than one line is asked for by a count only
several :
    (count : Option ℤ) (emitted left : ℕ)
    → emitted + suc (suc left) ≡ line_count count
    → is_some count ≡ true
unfolding line_count
several none emitted left e = absurd (omega arith)
several (some n) emitted left e = refl

pos_suc : (n : ℕ) → 0 < n → (m : ℕ) × (n ≡ suc m)
pos_suc zero h = absurd (omega arith)
pos_suc (suc n) h = (n, refl)

module _ {F : Type 0} ⦃d : Double F⦄ (w : World F) (options : RuntimeOptions)
    (config : AppConfig) where
  -- The lines of `n` samples, from the sample `first` on.
  unfoldable pub lines_from : ℕ → ℕ → List Bytes
  lines_from first zero = []
  lines_from first (suc n) = snapshot_line w options config first ∷ lines_from (suc first) n

  line_count_pos : (count : Option ℤ) → 0 < line_count count
  unfolding line_count
  line_count_pos none = omega arith
  line_count_pos (some count) = ground arith

  module _ (calm : (n : ℕ) → w.interrupted n ≡ false) (ends : loop_forever options ≡ false) where
    emit-lines :
        (rounds emitted left : ℕ)
        → emitted + suc left ≡ line_count options.count
        → left < rounds
        → (emit w options config rounds emitted).lines ≡ lines_from emitted (suc left)
    unfolding emit lines_from
    emit-lines zero emitted left e l = absurd (omega arith)
    emit-lines (suc rounds) emitted zero e l =
        ground (arith, calm (emitted + emitted), calm (emitted + emitted + 1), ends)
    emit-lines (suc rounds) emitted (suc left) e l = ground (
      arith,
      calm (emitted + emitted),
      calm (emitted + emitted + 1),
      ends,
      several options.count emitted left e,
      emit-lines rounds (suc emitted) left (omega arith) (omega arith),
    )

    emit_all :
        (rounds : ℕ)
        → line_count options.count ≤ rounds
        → (emit w options config rounds 0).lines ≡ lines_from 0 (line_count options.count)
    emit_all rounds h =
        let (left, e) = pos_suc (line_count options.count) (line_count_pos options.count) in
        emit-lines rounds 0 left (omega (arith, e)) (omega (arith, e)) ∙ ap (lines_from 0) (sym e)

  -- The lines of a whole run, in the terms of the loop.
  pub run_snapshot_mode_lem :
      ((n : ℕ) → w.interrupted n ≡ false)
      → loop_forever options ≡ false
      → beq options.snapshot_format (str "json") ≡ true
      → (is_nil options.output_path || w.opens options.output_path) ≡ true
      → (rounds : ℕ) → line_count options.count ≤ rounds
      → run_snapshot_mode w options config rounds
        ≡ finished 0 (in_session w options config (lines_from 0 (line_count options.count)))
  unfolding run_snapshot_mode
  run_snapshot_mode_lem calm ends format path rounds h =
      let emitted = emit w options config rounds 0 in
      if_rule
        (λ r.
          r ≡ finished 0 (in_session w options config (lines_from 0 (line_count options.count))))
        (not (beq options.snapshot_format (str "json"))) (λ no. absurd cc)
        (λ _.
          if_rule
            (λ r.
              r
              ≡ finished 0 (in_session w options config (lines_from 0 (line_count options.count))))
            (not (is_nil options.output_path) && not (w.opens options.output_path))
            (λ no. absurd (ground (arith, no, path)))
            (λ _.
              ap (λ c. finished (if c then 130 else 0) (in_session w options config emitted.lines))
                (calm emitted.reads)
              ∙ ap (λ ls. finished 0 (in_session w options config ls))
                  (emit_all calm ends rounds h)))
